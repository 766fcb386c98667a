-- ===== src/Dag/Downstream.antt =====
-- dag.py, get_downstream_dependents: the breadth-first search. The queue starts with the roots; the
-- loop runs on fuel, one unit for each root and each job with dependencies.
use hexaqueue.Prelude.{
  ℕ, zero, suc, ◌+◌, ◌≡◌, ==_iff, inl, inr, ◌&&◌, ◌||◌, List, [], ◌∷◌, ◌++◌, arith, ◌==◌,
  if◌then◌else◌, Bool-cases, leb, Bool,
}
use hexaqueue.Prelude.Lists.{length, any, member}
use hexaqueue.Prelude.Dict.{Dict, put, get-put, Unique}
use hexaqueue.Prelude.Sort.{sort}
use hexaqueue.Dag.{DependencySpec, Dependencies, deps_of}
use hexaqueue.Dag.Sorting.{children_of}
use hexaqueue.Dag.Counting.{member-append}

-- The first loop: the children of each parent.
unfoldable pub add_child : ℕ → List DependencySpec → Dict (List ℕ) → Dict (List ℕ)
add_child child [] a = a
add_child child (dep ∷ deps) a =
    add_child child deps (put dep.parent_job_id (children_of a dep.parent_job_id ++ child ∷ []) a)

unfoldable pub children_by_parent : Dependencies → Dict (List ℕ) → Dict (List ℕ)
unfolding add_child
children_by_parent [] a = a
children_by_parent ((child, deps) ∷ rest) a = children_by_parent rest (add_child child deps a)

-- The loop over the children of a job: the visited jobs and the queue.
unfoldable pub visit_children : List ℕ → List ℕ → List ℕ → List ℕ → List ℕ × List ℕ
visit_children [] roots visited queue = (visited, queue)
visit_children (child ∷ rest) roots visited queue =
    if member child visited || member child roots
    then visit_children rest roots visited queue
    else visit_children rest roots (child ∷ visited) (queue ++ child ∷ [])

unfoldable pub search_downstream : ℕ → Dict (List ℕ) → List ℕ → List ℕ → List ℕ → List ℕ
unfolding visit_children
search_downstream zero a roots visited queue = visited
search_downstream (suc fuel) a roots visited [] = visited
search_downstream (suc fuel) a roots visited (curr ∷ queue) =
    let (visited', queue') = visit_children (children_of a curr) roots visited queue in
    search_downstream fuel a roots visited' queue'

unfoldable pub get_downstream_dependents : Dependencies → List ℕ → List ℕ
unfolding children_by_parent search_downstream
get_downstream_dependents dependencies root_job_ids =
    search_downstream (length root_job_ids + length dependencies)
      (children_by_parent dependencies []) root_job_ids [] (sort leb root_job_ids)

-- A dependency of `n` names `p`.
abbrev pub has_parent : ℕ → List DependencySpec → Bool
has_parent p = any (λ dep. p == dep.parent_job_id)

add_child-edges :
    (child n p : ℕ) (deps : List DependencySpec) (a : Dict (List ℕ))
    → member n (children_of (add_child child deps a) p)
      ≡ (member n (children_of a p) || (n == child && has_parent p deps))
unfolding add_child
add_child-edges child n p [] a = ground arith
add_child-edges child n p (dep ∷ deps) a =
    let now = children_of a dep.parent_job_id ++ child ∷ [] in
    ground (
      arith,
      add_child-edges child n p deps (put dep.parent_job_id now a),
      get-put dep.parent_job_id p now a,
      member-append n (children_of a dep.parent_job_id) (child ∷ []),
    )

pub children_by_parent-edges :
    (n p : ℕ) (dependencies : Dependencies) (a : Dict (List ℕ))
    → Unique dependencies
    → member n (children_of (children_by_parent dependencies a) p)
      ≡ (member n (children_of a p) || has_parent p (deps_of n dependencies))
unfolding children_by_parent
children_by_parent-edges n p [] a u = ground arith
children_by_parent-edges n p ((child, deps) ∷ rest) a u = elim (Bool-cases (n == child)) [
  | inl e ↦ ground (
    arith,
    e,
    (==_iff n child).0 e,
    u.0,
    children_by_parent-edges n p rest (add_child child deps a) u.1,
    add_child-edges child n p deps a,
  )
  | inr e ↦ rw e (
      ground (
        arith,
        e,
        children_by_parent-edges n p rest (add_child child deps a) u.1,
        add_child-edges child n p deps a,
      ))
]
