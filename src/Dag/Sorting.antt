-- ===== src/Dag/Sorting.antt =====
-- dag.py, validate_and_topological_sort: Kahn's algorithm. The set of job identifiers is a list without
-- duplicates; the loop runs on fuel, one unit for each job.
use mathlib.Core.List.{reverse}
use hexaqueue.Prelude.{
  ℕ, zero, suc, ◌+◌, ◌-◌, Option, none, some, List, [], ◌∷◌, ◌++◌, map, leb, ◌==◌, if◌then◌else◌,
  get_or,
}
use hexaqueue.Prelude.Lists.{length}
use hexaqueue.Prelude.Dict.{Dict, get, put, contains}
use hexaqueue.Prelude.Sort.{sort}
use hexaqueue.Dag.{DependencySpec, Dependencies}

-- The two dictionaries that the first loop fills; a missing list of children is empty.
pub record Degrees : Type 0 where
  pub in_degree : Dict ℕ
  pub adjacency : Dict (List ℕ)

abbrev pub degree_of : ℕ → Dict ℕ → ℕ
degree_of n d = get_or (get n d) 0

abbrev pub children_of : Dict (List ℕ) → ℕ → List ℕ
children_of adjacency n = get_or (get n adjacency) []

-- `if k not in in_degree: in_degree[k] = 0`
unfoldable pub ensure : ℕ → Dict ℕ → Dict ℕ
ensure k d = if contains k d then d else put k 0 d

-- The body of the inner loop over the dependencies of a child, and the loops.
unfoldable pub add_edge : ℕ → ℕ → Degrees → Degrees
unfolding ensure
add_edge child parent s =
    let known = ensure parent s.in_degree in
    record {
      in_degree = put child (degree_of child known + 1) known;
      adjacency = put parent (children_of s.adjacency parent ++ child ∷ []) s.adjacency;
    }

unfoldable pub add_edges : ℕ → List DependencySpec → Degrees → Degrees
unfolding add_edge
add_edges child [] s = s
add_edges child (dep ∷ deps) s = add_edges child deps (add_edge child dep.parent_job_id s)

unfoldable pub add_children : Dependencies → Degrees → Degrees
unfolding add_edges ensure
add_children [] s = s
add_children ((child, deps) ∷ rest) s =
    add_children rest (add_edges child deps (record s { in_degree = ensure child s.in_degree }))

unfoldable pub degrees : Dependencies → List ℕ → Degrees
unfolding add_children
degrees dependencies all_job_ids =
    add_children dependencies (record { in_degree = map (λ i. (i, 0)) all_job_ids; adjacency = [] })

-- The jobs with degree zero, in the order of the dictionary.
unfoldable pub free_jobs : Dict ℕ → List ℕ
free_jobs [] = []
free_jobs ((n, deg) ∷ d) = if deg == 0 then n ∷ free_jobs d else free_jobs d

-- The loop over the neighbours of a job: their degrees and the queue. A degree counts the edges that
-- are left, so it is positive where it is decreased.
unfoldable pub relax : List ℕ → Dict ℕ → List ℕ → Dict ℕ × List ℕ
relax [] d queue = (d, queue)
relax (neighbor ∷ rest) d queue =
    let deg = degree_of neighbor d - 1 in
    relax rest (put neighbor deg d) (if deg == 0 then queue ++ neighbor ∷ [] else queue)

-- The loop over the queue, with the jobs that are sorted, the last first.
unfoldable pub visit : ℕ → Dict (List ℕ) → Dict ℕ → List ℕ → List ℕ → List ℕ
unfolding relax
visit zero adjacency d queue done = done
visit (suc fuel) adjacency d [] done = done
visit (suc fuel) adjacency d (current ∷ queue) done =
    let (d', queue') = relax (children_of adjacency current) d queue in
    visit fuel adjacency d' queue' (current ∷ done)

-- `none` is the DependencyCycleError.
unfoldable pub validate_and_topological_sort : Dependencies → List ℕ → Option (List ℕ)
unfolding degrees visit free_jobs
validate_and_topological_sort dependencies all_job_ids =
    let s = degrees dependencies all_job_ids in
    let done =
      visit (length s.in_degree) s.adjacency s.in_degree (sort leb (free_jobs s.in_degree)) [] in
    if length done == length s.in_degree then some (reverse done) else none
