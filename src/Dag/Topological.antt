-- ===== src/Dag/Topological.antt =====
-- dag.py, validate_and_topological_sort: the returned order.
use mathlib.Core.List.{append-nil, reverse, reverse-reverse}
use mathlib.Core.Option.{some_inj}
use hexaqueue.Prelude.{
  ==_iff, ℕ, ◌+◌, ◌≡◌, refl, sym, subst, ap, ◌∙◌, inl, inr, true, false, ◌||◌, none, some, List, [],
  ◌∷◌, map, arith, ◌==◌, leb, Bool-cases,
}
use hexaqueue.Prelude.Lists.{length, All, All-map, member, Distinct}
use hexaqueue.Prelude.Dict.{Dict, get, Unique, Unique-put}
use hexaqueue.Prelude.Sort.{sort, insert, sort-All}
use hexaqueue.Dag.{DependencySpec, Dependencies, deps_of}
use hexaqueue.Dag.Sorting.{
  Degrees, degree_of, children_of, ensure, add_edge, add_edges, add_children, degrees, free_jobs,
  visit, validate_and_topological_sort,
}
use hexaqueue.Dag.Counting.{degrees-Counts, degrees-Links}
use hexaqueue.Dag.Order.{AllZero, IsSorting, IsOrdered, visit-IsOrdered}

ensure-Unique : (k : ℕ) (d : Dict ℕ) → Unique d → Unique (ensure k d)
unfolding ensure
ensure-Unique k d u = ground (arith, Unique-put k 0 d u)

add_edge-Unique :
    (child parent : ℕ) (s : Degrees)
    → Unique s.in_degree
    → Unique (add_edge child parent s).in_degree
unfolding add_edge
add_edge-Unique child parent s u =
    Unique-put child (degree_of child (ensure parent s.in_degree) + 1) (ensure parent s.in_degree)
      (ensure-Unique parent s.in_degree u)

add_edges-Unique :
    (child : ℕ) (deps : List DependencySpec) (s : Degrees)
    → Unique s.in_degree
    → Unique (add_edges child deps s).in_degree
unfolding add_edges
add_edges-Unique child [] s u = u
add_edges-Unique child (dep ∷ deps) s u =
    add_edges-Unique child deps (add_edge child dep.parent_job_id s)
      (add_edge-Unique child dep.parent_job_id s u)

add_children-Unique :
    (dependencies : Dependencies) (s : Degrees)
    → Unique s.in_degree
    → Unique (add_children dependencies s).in_degree
unfolding add_children
add_children-Unique [] s u = u
add_children-Unique ((child, deps) ∷ rest) s u =
    let next : Degrees = record s { in_degree = ensure child s.in_degree } in
    add_children-Unique rest (add_edges child deps next)
      (add_edges-Unique child deps next (ensure-Unique child s.in_degree u))

fresh_key :
    (k : ℕ) (ids : List ℕ) → member k ids ≡ false → get {V = ℕ} k (map (λ i. (i, 0)) ids) ≡ none
fresh_key k [] h = refl
fresh_key k (i ∷ ids) h = ground (arith, fresh_key k ids)

ids-Unique : (ids : List ℕ) → Distinct ids → Unique {V = ℕ} (map (λ i. (i, 0)) ids)
ids-Unique [] d = tt
ids-Unique (i ∷ ids) d = (fresh_key i ids d.0, ids-Unique ids d.1)

pub degrees-Unique :
    (dependencies : Dependencies) (ids : List ℕ)
    → Distinct ids
    → Unique (degrees dependencies ids).in_degree
unfolding degrees
degrees-Unique dependencies ids d =
    add_children-Unique dependencies (record { in_degree = map (λ i. (i, 0)) ids; adjacency = [] })
      (ids-Unique ids d)

free_absent : (k : ℕ) (d : Dict ℕ) → get k d ≡ none → member k (free_jobs d) ≡ false
unfolding free_jobs
free_absent k [] h = refl
free_absent k ((n, deg) ∷ d) h = ground (arith, free_absent k d)

free_zero : (d : Dict ℕ) → Unique d → All (λ n. get n d ≡ some 0) (free_jobs d)
unfolding free_jobs
free_zero [] u = tt
free_zero ((k, deg) ∷ d) u =
    let others : All (λ n. get n ((k, deg) ∷ d) ≡ some 0) (free_jobs d) =
      All-map (λ n. get n d ≡ some 0) (λ n. get n ((k, deg) ∷ d) ≡ some 0)
        (λ n h. ground (arith, u.0, h)) (free_jobs d) (free_zero d u.1) in
    elim (Bool-cases (deg == 0)) [
      | inl e ↦ rw (e, free_jobs) (ground (arith, e), others)
      | inr e ↦ rw (e, free_jobs) others
    ]

free-Distinct : (d : Dict ℕ) → Unique d → Distinct (free_jobs d)
unfolding free_jobs
free-Distinct [] u = tt
free-Distinct ((k, deg) ∷ d) u = ground (arith, free_absent k d u.0, free-Distinct d u.1)

member-insert : (k x : ℕ) (ys : List ℕ) → member k (insert leb x ys) ≡ (k == x || member k ys)
member-insert k x [] = refl
member-insert k x (y ∷ ys) = ground (arith, member-insert k x ys)

pub member-sort : (k : ℕ) (xs : List ℕ) → member k (sort leb xs) ≡ member k xs
member-sort k [] = refl
member-sort k (x ∷ xs) = ground (arith, member-insert k x (sort leb xs), member-sort k xs)

insert-Distinct :
    (x : ℕ) (ys : List ℕ) → member x ys ≡ false → Distinct ys → Distinct (insert leb x ys)
insert-Distinct x [] h d = (h, d)
insert-Distinct x (y ∷ ys) h d = ground (arith, member-insert y x ys, insert-Distinct x ys)

sort-Distinct : (xs : List ℕ) → Distinct xs → Distinct (sort leb xs)
sort-Distinct [] d = tt
sort-Distinct (x ∷ xs) d =
    insert-Distinct x (sort leb xs) (member-sort x xs ∙ d.0) (sort-Distinct xs d.1)

pub first_queue-IsSorting :
    (dependencies : Dependencies) (ids : List ℕ)
    → Distinct ids
    → let s = degrees dependencies ids in
      IsSorting s.adjacency s.in_degree (sort leb (free_jobs s.in_degree)) []
first_queue-IsSorting dependencies ids d = record {
  scheduled = record {
    distinct =
        subst Distinct (sym (append-nil (sort leb (free_jobs degree))))
          (sort-Distinct (free_jobs degree) (free-Distinct degree unique));
    zeros = subst (AllZero degree) (sym (append-nil (sort leb (free_jobs degree)))) (
        sort-All leb (λ n. degree_of n degree ≡ 0) (free_jobs degree)
          (All-map (λ n. get n degree ≡ some 0) (λ n. degree_of n degree ≡ 0)
            (λ n h. ground (arith, h)) (free_jobs degree) (free_zero degree unique)));
  };
  removed = λ n. omega (arith, degrees-Counts dependencies ids n);
  ordered = tt;
}
  where
    degree : Dict ℕ
    degree = (degrees dependencies ids).in_degree

    unique : Unique degree
    unique = degrees-Unique dependencies ids d

-- In a list of jobs, the last first, each stands before all its parents.
abbrev pub IsClosed : Dependencies → List ℕ → Type 0
IsClosed dependencies [] = Unit
IsClosed dependencies (n ∷ before) =
    All (λ dep. member dep.parent_job_id before ≡ true) (deps_of n dependencies)
    × IsClosed dependencies before

IsClosed-of_ordered :
    (dependencies : Dependencies) (ids done : List ℕ)
    → IsOrdered (degrees dependencies ids).adjacency done
    → IsClosed dependencies done
IsClosed-of_ordered dependencies ids [] o = tt
IsClosed-of_ordered dependencies ids (n ∷ before) o = (
  All-map
      (λ dep. member n (children_of (degrees dependencies ids).adjacency dep.parent_job_id) ≡ true)
      (λ dep. member dep.parent_job_id before ≡ true) (λ dep edge. o.0 dep.parent_job_id edge)
      (deps_of n dependencies) (degrees-Links n dependencies ids),
  IsClosed-of_ordered dependencies ids before o.1,
)

-- For job identifiers without duplicates, an order that the sort returns has, read from its end, all
-- parents of a job behind the job, no job twice, and as many jobs as the graph.
pub validate_and_topological_sort-IsClosed :
    (dependencies : Dependencies) (ids order : List ℕ)
    → Distinct ids
    → validate_and_topological_sort dependencies ids ≡ some order
    → IsClosed dependencies (reverse order)
      × Distinct (reverse order)
      × (length (reverse order) ≡ length (degrees dependencies ids).in_degree)
unfolding validate_and_topological_sort
validate_and_topological_sort-IsClosed dependencies ids order d e =
    elim (Bool-cases (length done == length s.in_degree)) [
      | inl all ↦
          let same : done ≡ reverse order =
            sym (ap reverse (sym (some_inj.0 (rw all at e))) ∙ reverse-reverse done) in
          subst (λ o. IsClosed dependencies o × Distinct o × (length o ≡ length s.in_degree)) same
            (
              IsClosed-of_ordered dependencies ids done sorted.0,
              sorted.1,
              (==_iff (length done) (length s.in_degree)).0 all,
            )
      | inr short ↦ cc (rw short at e)
    ]
  where
    s : Degrees
    s = degrees dependencies ids

    queue : List ℕ
    queue = sort leb (free_jobs s.in_degree)

    done : List ℕ
    done = visit (length s.in_degree) s.adjacency s.in_degree queue []

    sorted : IsOrdered s.adjacency done × Distinct done
    sorted =
        visit-IsOrdered (length s.in_degree) s.adjacency s.in_degree queue []
          (first_queue-IsSorting dependencies ids d)
