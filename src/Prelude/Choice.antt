-- ===== src/Prelude/Choice.antt =====
-- The first of the sorted entries that pass a test.
use mathlib.Core.List.{List, [], ◌∷◌, head?}
use mathlib.Core.Logic.{◌⊎◌, inl, inr}
use mathlib.Core.Path.{◌≡◌, subst, sym}
use mathlib.Core.Bool.{Bool, true, false}
use mathlib.Core.Option.{some}
use native.Mathlib.Omega.{arith}
use hexaqueue.Prelude.Tests.{Bool-cases}
use hexaqueue.Prelude.Lists.{filter, All}
use hexaqueue.Prelude.Members.{In}
use hexaqueue.Prelude.Sort.{sort, insert, IsSorted, sort-IsSorted, All-of_sort}

module _ {A : Type 0} (le : A → A → Bool) (refl_le : (x : A) → le x x ≡ true) where
  -- The head of a sorted list comes before all.
  head-least :
      (x : A) (xs : List A)
      → IsSorted le xs
      → head? xs ≡ some x
      → In x xs × All (λ y. le x y ≡ true) xs
  head-least x [] s e = cc
  head-least x (y ∷ ys) s e =
      let same : x ≡ y = cc in
      (inl same, (rw same (refl_le y), subst (λ z. All (λ w. le z w ≡ true) ys) (sym same) s.0))

  In-insert : (x y : A) (ys : List A) → In x (insert le y ys) → In x (y ∷ ys)
  In-insert x y [] i = i
  In-insert x y (z ∷ zs) i = ground (arith, In-insert x y zs)

  In-sort : (x : A) (xs : List A) → In x (sort le xs) → In x xs
  In-sort x [] i = i
  In-sort x (y ∷ ys) i = ground (arith, In-insert x y (sort le ys) i, In-sort x ys)

In-filter :
    {A : Type 0} (p : A → Bool) (x : A) (xs : List A) → In x (filter p xs) → In x xs × (p x ≡ true)
In-filter p x [] i = absurd i
In-filter p x (y ∷ ys) i = elim (Bool-cases (p y)) [
  | inl e ↦
      let i' : (x ≡ y) ⊎ In x (filter p ys) = rw e at i in
      elim i' [ inl q ↦ (inl q, rw q e) | inr j ↦ let (k, h) = In-filter p x ys j in (inr k, h) ]
  | inr e ↦ let (j, h) = In-filter p x ys (rw e at i) in (inr j, h)
]

All-filter_of :
    {A : Type 0} (P : A → Type 0) (p : A → Bool) (xs : List A)
    → All P (filter p xs)
    → All (λ x. (p x ≡ false) ⊎ P x) xs
All-filter_of P p [] h = tt
All-filter_of P p (x ∷ xs) h = elim (Bool-cases (p x)) [
  | inl e ↦ let h' : P x × All P (filter p xs) = rw e at h in (inr h'.0, All-filter_of P p xs h'.1)
  | inr e ↦ (inl e, All-filter_of P p xs (rw e at h))
]

-- `x` stands in the list and passes the test, and each entry that passes comes after it.
abbrev pub IsLeast : {A : Type 0} → (A → A → Bool) → (A → Bool) → A → List A → Type 0
IsLeast le p x xs = In x xs × (p x ≡ true) × All (λ y. (p y ≡ false) ⊎ (le x y ≡ true)) xs

pub head-IsLeast :
    {A : Type 0} (le : A → A → Bool)
    → ((x : A) → le x x ≡ true)
    → ((x y : A) → le x y ≡ false → le y x ≡ true)
    → ((x y z : A) → le x y ≡ true → le y z ≡ true → le x z ≡ true)
    → (p : A → Bool) (x : A) (xs : List A) → head? (sort le (filter p xs)) ≡ some x
    → IsLeast le p x xs
head-IsLeast le reflexive total transitive p x xs e =
    let (first, least) =
      head-least le reflexive x (sort le (filter p xs))
        (sort-IsSorted le total transitive (filter p xs)) e in
    let (i, h) = In-filter p x xs (In-sort le reflexive x (filter p xs) first) in
    (
      i,
      h,
      All-filter_of (λ y. le x y ≡ true) p xs
          (All-of_sort le (λ y. le x y ≡ true) (filter p xs) least),
    )
