-- ===== src/Prelude/Members.antt =====
-- Membership: by an equation at a place of a list, by a Boolean test, and the library's.
use mathlib.Core.List.{List, [], ◌∷◌, Mem, Nodup, Nodup-cons, mem-cons}
use mathlib.Core.Logic.Or
use mathlib.Core.Logic.{◌⊎◌, inl, inr}
use mathlib.Core.Path.{◌≡◌, refl, ap}
use mathlib.Core.Bool.{true, false}
use Prim.Native.Nat.{ℕ}
use hexaqueue.Prelude.Tests.{◌==◌, ==_iff, Bool-cases}
use hexaqueue.Prelude.Lists.{member, Distinct}

-- `a` stands in the list.
abbrev pub In : {A : Type 0} → A → List A → Type 0
In a [] = ⊥
In a (x ∷ xs) = (a ≡ x) ⊎ In a xs

Mem_of_member : (k : ℕ) (ks : List ℕ) → member k ks ≡ true → Mem k ks
Mem_of_member k [] h = cc
Mem_of_member k (j ∷ js) h = elim (Bool-cases (k == j)) [
  | inl e ↦ mem-cons.1 (Or.inl ((==_iff k j).0 e))
  | inr e ↦ mem-cons.1 (Or.inr (Mem_of_member k js (rw e at h)))
]

pub Distinct-of_Nodup : (ks : List ℕ) → Nodup ks → Distinct ks
Distinct-of_Nodup [] n = tt
Distinct-of_Nodup (k ∷ ks) n = (
  elim (Bool-cases (member k ks)) [
    | inl e ↦ absurd ((Nodup-cons.0 n).0 (Mem_of_member k ks e))
    | inr e ↦ e
  ],
  Distinct-of_Nodup ks (Nodup-cons.0 n).1,
)

pub ne_of_member :
    (k j : ℕ) (ks : List ℕ) → member k ks ≡ false → member j ks ≡ true → (k == j) ≡ false
ne_of_member k j ks absent present = elim (Bool-cases (k == j)) [
  | inl e ↦ let q : k ≡ j = (==_iff k j).0 e in absurd (cc (ap (λ i. member i ks) q))
  | inr e ↦ e
]

pub ==_refl : (k : ℕ) → (k == k) ≡ true
==_refl k = (==_iff k k).1 refl
