-- ===== src/Prelude/Counting.antt =====
-- Lists without duplicates compared by length.
use hexaqueue.Prelude.Tests.{◌==◌, ==_iff, if◌then◌else◌, Bool-cases}
use Prim.Native.Nat.{ℕ, ◌+◌, ◌≤◌}
use mathlib.Core.Path.{◌≡◌, refl}
use mathlib.Core.Logic.{inl, inr}
use mathlib.Core.Bool.{true, false}
use mathlib.Core.List.{List, [], ◌∷◌}
use native.Mathlib.Omega.{arith}
use hexaqueue.Prelude.Lists.{length, member, Distinct}
use hexaqueue.Prelude.Dict.{Dict, contains, keys, Unique}

-- `xs` without the first `k`.
remove : ℕ → List ℕ → List ℕ
remove k [] = []
remove k (x ∷ xs) = if k == x then xs else x ∷ remove k xs

length-remove : (k : ℕ) (xs : List ℕ) → member k xs ≡ true → length (remove k xs) + 1 ≡ length xs
unfolding remove
length-remove k [] h = cc
length-remove k (x ∷ xs) h = ground (arith, length-remove k xs)

member-remove :
    (k j : ℕ) (xs : List ℕ) → (j == k) ≡ false → member j xs ≡ true → member j (remove k xs) ≡ true
unfolding remove
member-remove k j [] e h = h
member-remove k j (x ∷ xs) e h = ground (arith, member-remove k j xs e)

-- A list without duplicates is no longer than one that has all its members.
pub length-le_of_members :
    (xs ys : List ℕ)
    → Distinct xs
    → ((k : ℕ) → member k xs ≡ true → member k ys ≡ true)
    → length xs ≤ length ys
length-le_of_members [] ys d h = omega arith
length-le_of_members (x ∷ xs) ys d h = omega (
  arith,
  length-remove x ys (h x (ground arith)),
  length-le_of_members xs (remove x ys) d.1
      λ k m. member-remove x k ys (different k m) (h k (ground (arith, m))),
)
  where
    different : (k : ℕ) → member k xs ≡ true → (k == x) ≡ false
    different k m = elim (Bool-cases (k == x)) [ inl e ↦ cc (m, d.0, (==_iff k x).0 e) | inr e ↦ e ]

module _ {V : Type 0} where
  pub member-keys : (k : ℕ) (d : Dict V) → member k (keys d) ≡ contains k d
  member-keys k [] = refl
  member-keys k ((j, v) ∷ d) = ground (arith, member-keys k d)

  pub keys-Distinct : (d : Dict V) → Unique d → Distinct (keys d)
  keys-Distinct [] u = tt
  keys-Distinct ((k, v) ∷ d) u = (ground (arith, u.0, member-keys k d), keys-Distinct d u.1)

  pub length-keys : (d : Dict V) → length (keys d) ≡ length d
  length-keys [] = refl
  length-keys ((k, v) ∷ d) = omega (arith, length-keys d)
