-- ===== src/Dag/Counting.antt =====
-- dag.py, validate_and_topological_sort: the first loop, which counts edges.
use mathlib.Core.Option.{some_inj}
use hexaqueue.Prelude.{
  ℕ, ◌+◌, ◌≡◌, refl, sym, subst, ==_iff, ◌∙◌, inl, inr, true, ◌||◌, some, List, [], ◌∷◌, ◌++◌, map,
  arith, ◌==◌, if◌then◌else◌, Option-cases, Bool-cases,
}
use hexaqueue.Prelude.Lists.{sum_by, sum_by-append, All, All-map, member}
use hexaqueue.Prelude.Dict.{Dict, get, put, values, get-put, sum_by-put_new, sum_by-put_known}
use hexaqueue.Dag.{deps_of, DependencySpec, Dependencies}
use hexaqueue.Dag.Sorting.{
  Degrees, degree_of, children_of, ensure, add_edge, add_edges, add_children, degrees,
}

-- How often `n` occurs.
abbrev pub occurrences : ℕ → List ℕ → ℕ
occurrences n = sum_by (λ m. if n == m then 1 else 0)

-- The edges to `n`.
abbrev pub edges_to : ℕ → Dict (List ℕ) → ℕ
edges_to n adjacency = sum_by (occurrences n) (values adjacency)

abbrev pub Counts : Degrees → Type 0
Counts s = (n : ℕ) → degree_of n s.in_degree ≡ edges_to n s.adjacency

degree_of-ensure : (n k : ℕ) (d : Dict ℕ) → degree_of n (ensure k d) ≡ degree_of n d
unfolding ensure
degree_of-ensure n k d = elim (Option-cases (get k d)) [
  | inl e ↦ ground (arith, get-put k n 0 d)
  | inr (v, e) ↦ ground arith
]

edges_to-put :
    (n child parent : ℕ) (a : Dict (List ℕ))
    → edges_to n (put parent (children_of a parent ++ child ∷ []) a)
      ≡ edges_to n a + (if n == child then 1 else 0)
edges_to-put n child parent a = elim (Option-cases (get parent a)) [
  | inl e ↦ rw e (ground (arith, sum_by-put_new (occurrences n) parent (child ∷ []) a))
  | inr (cs, e) ↦ rw e (
      ground (
        arith,
        sum_by-put_known (occurrences n) parent (cs ++ child ∷ []) cs a,
        sum_by-append (λ m. if n == m then 1 else 0) cs (child ∷ []),
      ))
]

add_edge-Counts : (child parent : ℕ) (s : Degrees) → Counts s → Counts (add_edge child parent s)
unfolding add_edge
add_edge-Counts child parent s h n = ground (
  arith,
  h n,
  h child,
  edges_to-put n child parent s.adjacency,
  get-put child n (degree_of child (ensure parent s.in_degree) + 1) (ensure parent s.in_degree),
  degree_of-ensure n parent s.in_degree,
  degree_of-ensure child parent s.in_degree,
)

add_edges-Counts :
    (child : ℕ) (deps : List DependencySpec) (s : Degrees)
    → Counts s
    → Counts (add_edges child deps s)
unfolding add_edges
add_edges-Counts child [] s h = h
add_edges-Counts child (dep ∷ deps) s h =
    add_edges-Counts child deps (add_edge child dep.parent_job_id s)
      (add_edge-Counts child dep.parent_job_id s h)

add_children-Counts :
    (dependencies : Dependencies) (s : Degrees) → Counts s → Counts (add_children dependencies s)
unfolding add_children
add_children-Counts [] s h = h
add_children-Counts ((child, deps) ∷ rest) s h =
    add_children-Counts rest
      (add_edges child deps (record s { in_degree = ensure child s.in_degree }))
      (add_edges-Counts child deps (record s { in_degree = ensure child s.in_degree })
        λ n. degree_of-ensure n child s.in_degree ∙ h n)

no_degree : (n : ℕ) (ids : List ℕ) → degree_of n (map (λ i. (i, 0)) ids) ≡ 0
no_degree n [] = refl
no_degree n (i ∷ ids) = ground (arith, no_degree n ids)

pub degrees-Counts :
    (dependencies : Dependencies) (ids : List ℕ) → Counts (degrees dependencies ids)
unfolding degrees
degrees-Counts dependencies ids =
    add_children-Counts dependencies (record { in_degree = map (λ i. (i, 0)) ids; adjacency = [] })
      λ n. no_degree n ids

-- An edge from the parent of each of the dependencies leads to `n`.
abbrev pub Links : Dict (List ℕ) → ℕ → List DependencySpec → Type 0
Links adjacency n = All (λ dep. member n (children_of adjacency dep.parent_job_id) ≡ true)

pub member-append : (n : ℕ) (xs ys : List ℕ) → member n (xs ++ ys) ≡ (member n xs || member n ys)
member-append n [] ys = refl
member-append n (x ∷ xs) ys = ground (arith, member-append n xs ys)

edge_added :
    (child parent : ℕ) (s : Degrees)
    → member child (children_of (add_edge child parent s).adjacency parent) ≡ true
unfolding add_edge
edge_added child parent s = ground (
  arith,
  get-put parent parent (children_of s.adjacency parent ++ child ∷ []) s.adjacency,
  member-append child (children_of s.adjacency parent) (child ∷ []),
)

add_edge_keeps :
    (child parent n p : ℕ) (s : Degrees)
    → member n (children_of s.adjacency p) ≡ true
    → member n (children_of (add_edge child parent s).adjacency p) ≡ true
unfolding add_edge
add_edge_keeps child parent n p s h = ground (
  arith,
  get-put parent p (children_of s.adjacency parent ++ child ∷ []) s.adjacency,
  member-append n (children_of s.adjacency parent) (child ∷ []),
)

add_edges_keeps :
    (child n p : ℕ) (deps : List DependencySpec) (s : Degrees)
    → member n (children_of s.adjacency p) ≡ true
    → member n (children_of (add_edges child deps s).adjacency p) ≡ true
unfolding add_edges
add_edges_keeps child n p [] s h = h
add_edges_keeps child n p (dep ∷ deps) s h =
    add_edges_keeps child n p deps (add_edge child dep.parent_job_id s)
      (add_edge_keeps child dep.parent_job_id n p s h)

add_children_keeps :
    (n p : ℕ) (dependencies : Dependencies) (s : Degrees)
    → member n (children_of s.adjacency p) ≡ true
    → member n (children_of (add_children dependencies s).adjacency p) ≡ true
unfolding add_children
add_children_keeps n p [] s h = h
add_children_keeps n p ((child, deps) ∷ rest) s h =
    add_children_keeps n p rest
      (add_edges child deps (record s { in_degree = ensure child s.in_degree }))
      (add_edges_keeps child n p deps (record s { in_degree = ensure child s.in_degree }) h)

add_edges-Links :
    (child : ℕ) (deps : List DependencySpec) (s : Degrees)
    → Links (add_edges child deps s).adjacency child deps
unfolding add_edges
add_edges-Links child [] s = tt
add_edges-Links child (dep ∷ deps) s = (
  add_edges_keeps child child dep.parent_job_id deps (add_edge child dep.parent_job_id s)
      (edge_added child dep.parent_job_id s),
  add_edges-Links child deps (add_edge child dep.parent_job_id s),
)

add_children-Links :
    (n : ℕ) (deps : List DependencySpec) (dependencies : Dependencies) (s : Degrees)
    → get n dependencies ≡ some deps
    → Links (add_children dependencies s).adjacency n deps
unfolding add_children
add_children-Links n deps [] s e = cc
add_children-Links n deps ((child, ds) ∷ rest) s e = elim (Bool-cases (n == child)) [
  | inl here ↦
      let same : ds ≡ deps = some_inj.0 (rw here at e) in
      subst (Links final n) same (
        subst (λ k. Links final k ds) (sym ((==_iff n child).0 here))
          (All-map (λ dep. member child (children_of next.adjacency dep.parent_job_id) ≡ true)
            (λ dep. member child (children_of final dep.parent_job_id) ≡ true)
            (λ dep. add_children_keeps child dep.parent_job_id rest next) ds
            (add_edges-Links child ds (record s { in_degree = ensure child s.in_degree }))))
  | inr later ↦ add_children-Links n deps rest next (rw later at e)
]
  where
    next : Degrees
    next = add_edges child ds (record s { in_degree = ensure child s.in_degree })

    final : Dict (List ℕ)
    final = (add_children rest next).adjacency

-- The edges of the degrees are the dependencies.
pub degrees-Links :
    (n : ℕ) (dependencies : Dependencies) (ids : List ℕ)
    → Links (degrees dependencies ids).adjacency n (deps_of n dependencies)
unfolding degrees
degrees-Links n dependencies ids = elim (Option-cases (get n dependencies)) [
  | inl e ↦ rw e tt
  | inr (deps, e) ↦ rw e (
      add_children-Links n deps dependencies
        (record { in_degree = map (λ i. (i, 0)) ids; adjacency = [] }) e)
]
