-- ===== src/Dag/Acyclic.antt =====
-- dag.py, validate_and_topological_sort: the edges of a graph whose jobs have a rank above their
-- parents'.
use hexaqueue.Prelude.{
  ℕ, ◌+◌, ◌≤◌, ◌<◌, ◌≡◌, refl, ==_iff, inl, inr, true, false, none, List, [], ◌∷◌, ◌++◌, map, arith,
  ◌==◌, ◌||◌, Bool-cases, Option-cases,
}
use hexaqueue.Prelude.Lists.{All, member}
use hexaqueue.Prelude.Dict.{Dict, get, contains, get-put, Unique, Unique-put}
use hexaqueue.Dag.{DependencySpec, Dependencies}
use hexaqueue.Dag.Sorting.{
  Degrees, children_of, degree_of, ensure, add_edge, add_edges, add_children, degrees,
}
use hexaqueue.Dag.Counting.{occurrences, edges_to, member-append}
use hexaqueue.Dag.Order.{edges_from}

-- Each job has a higher rank than the parents it depends on.
abbrev pub IsRanked : (ℕ → ℕ) → Dependencies → Type 0
IsRanked rank = All (λ e. All (λ dep. rank dep.parent_job_id < rank e.0) e.1)

-- The edges go up in rank and join known jobs.
pub record IsRising (rank : ℕ → ℕ) (s : Degrees) : Type 0 where
  pub unique : Unique s.adjacency
  pub rising : (p n : ℕ) → member n (children_of s.adjacency p) ≡ true → rank p < rank n
  pub known :
      (p n : ℕ)
      → member n (children_of s.adjacency p) ≡ true
      → (contains n s.in_degree ≡ true) × (contains p s.in_degree ≡ true)

pub contains-ensure : (n k : ℕ) (d : Dict ℕ) → contains n (ensure k d) ≡ (n == k || contains n d)
unfolding ensure
contains-ensure n k d = elim (Option-cases (get k d)) [
  | inl e ↦ ground (arith, get-put k n 0 d)
  | inr (v, e) ↦ ground arith
]

add_edge-IsRising :
    (rank : ℕ → ℕ) (child parent : ℕ) (s : Degrees)
    → rank parent < rank child
    → IsRising rank s
    → IsRising rank (add_edge child parent s)
unfolding add_edge
add_edge-IsRising rank child parent s h i = record {
  unique = Unique-put parent (children_of s.adjacency parent ++ child ∷ []) s.adjacency i.unique;
  rising = λ p n e. ground (
    arith,
    i.rising p n,
    get-put parent p (children_of s.adjacency parent ++ child ∷ []) s.adjacency,
    member-append n (children_of s.adjacency parent) (child ∷ []),
  );
  known = λ p n e. ground (
    arith,
    i.known p n,
    get-put parent p (children_of s.adjacency parent ++ child ∷ []) s.adjacency,
    member-append n (children_of s.adjacency parent) (child ∷ []),
    contains-ensure n parent s.in_degree,
    contains-ensure p parent s.in_degree,
    get-put child p (degree_of child (ensure parent s.in_degree) + 1) (ensure parent s.in_degree),
    get-put child n (degree_of child (ensure parent s.in_degree) + 1) (ensure parent s.in_degree),
  );
}

add_edges-IsRising :
    (rank : ℕ → ℕ) (child : ℕ) (deps : List DependencySpec) (s : Degrees)
    → All (λ dep. rank dep.parent_job_id < rank child) deps
    → IsRising rank s
    → IsRising rank (add_edges child deps s)
unfolding add_edges
add_edges-IsRising rank child [] s h i = i
add_edges-IsRising rank child (dep ∷ deps) s h i =
    add_edges-IsRising rank child deps (add_edge child dep.parent_job_id s) h.1
      (add_edge-IsRising rank child dep.parent_job_id s h.0 i)

add_children-IsRising :
    (rank : ℕ → ℕ) (dependencies : Dependencies) (s : Degrees)
    → IsRanked rank dependencies
    → IsRising rank s
    → IsRising rank (add_children dependencies s)
unfolding add_children
add_children-IsRising rank [] s h i = i
add_children-IsRising rank ((child, deps) ∷ rest) s h i =
    add_children-IsRising rank rest (add_edges child deps next) h.1 (
      add_edges-IsRising rank child deps next h.0 (record {
        unique = i.unique;
        rising = i.rising;
        known = λ p n e. ground (
          arith,
          i.known p n e,
          contains-ensure n child s.in_degree,
          contains-ensure p child s.in_degree,
        );
      }))
  where
    next : Degrees
    next = record s { in_degree = ensure child s.in_degree }

pub degrees-IsRising :
    (rank : ℕ → ℕ) (dependencies : Dependencies) (ids : List ℕ)
    → IsRanked rank dependencies
    → IsRising rank (degrees dependencies ids)
unfolding degrees
degrees-IsRising rank dependencies ids h =
    add_children-IsRising rank dependencies
      (record { in_degree = map (λ i. (i, 0)) ids; adjacency = [] }) h
      (record { unique = tt; rising = λ p n e. cc; known = λ p n e. cc })

longer_dict :
    (n j : ℕ) (cs : List ℕ) (a : Dict (List ℕ)) (xs : List ℕ)
    → get j a ≡ none
    → edges_from n a xs ≤ edges_from n ((j, cs) ∷ a) xs
longer_dict n j cs a [] h = omega arith
longer_dict n j cs a (x ∷ xs) h = elim (Bool-cases (x == j)) [
  | inl e ↦ ground (arith, e, (==_iff x j).0 e, h, longer_dict n j cs a xs h)
  | inr e ↦ rw e (omega (arith, longer_dict n j cs a xs h))
]

counted_entry :
    (n j : ℕ) (cs : List ℕ) (a : Dict (List ℕ)) (xs : List ℕ)
    → get j a ≡ none
    → member j xs ≡ true
    → occurrences n cs + edges_from n a xs ≤ edges_from n ((j, cs) ∷ a) xs
counted_entry n j cs a [] h m = cc
counted_entry n j cs a (x ∷ xs) h m = elim (Bool-cases (x == j)) [
  | inl e ↦ ground (arith, e, (==_iff x j).0 e, h, longer_dict n j cs a xs h)
  | inr e ↦ rw e (ground (arith, counted_entry n j cs a xs h))
]

no_occurrence : (n : ℕ) (xs : List ℕ) → member n xs ≡ false → occurrences n xs ≡ 0
no_occurrence n [] h = refl
no_occurrence n (x ∷ xs) h = ground (arith, no_occurrence n xs)

later_children :
    (n j p : ℕ) (cs : List ℕ) (a : Dict (List ℕ))
    → get j a ≡ none
    → member n (children_of a p) ≡ true
    → member n (children_of ((j, cs) ∷ a) p) ≡ true
later_children n j p cs a h m = elim (Bool-cases (p == j)) [
  | inl e ↦ ground (arith, e, (==_iff p j).0 e, h, m)
  | inr e ↦ rw e m
]

-- Jobs among which are all parents of `n` have all edges to `n`.
pub edges_to-edges_from :
    (n : ℕ) (a : Dict (List ℕ)) (xs : List ℕ)
    → Unique a
    → ((p : ℕ) → member n (children_of a p) ≡ true → member p xs ≡ true)
    → edges_to n a ≤ edges_from n a xs
edges_to-edges_from n [] xs u h = omega arith
edges_to-edges_from n ((j, cs) ∷ a) xs u h =
    let rest : edges_to n a ≤ edges_from n a xs =
      edges_to-edges_from n a xs u.1 λ p m. h p (later_children n j p cs a u.0 m) in
    elim (Bool-cases (member j xs)) [
      | inl e ↦ omega (arith, counted_entry n j cs a xs u.0 e, rest)
      | inr e ↦
          let unused : member n cs ≡ false = ground (arith, h j) in
          omega (arith, longer_dict n j cs a xs u.0, rest, no_occurrence n cs unused)
    ]
