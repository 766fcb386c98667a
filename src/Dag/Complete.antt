-- ===== src/Dag/Complete.antt =====
-- dag.py, validate_and_topological_sort: a graph without cycles is sorted.
use mathlib.Core.List.{append-nil, reverse, reverse-reverse}
use hexaqueue.Prelude.{
  ℕ, zero, suc, ◌+◌, ◌-◌, ◌≤◌, ◌<◌, ◌≡◌, refl, sym, subst, ◌∙◌, inl, inr, true, ◌||◌, some, List,
  [], ◌∷◌, ◌++◌, map, arith, ◌==◌, leb, if◌then◌else◌, Bool-cases,
}
use hexaqueue.Prelude.Lists.{length, length-append, member, Distinct}
use hexaqueue.Prelude.Dict.{Dict, put, keys, contains, get-put, Unique}
use hexaqueue.Prelude.Sort.{sort}
use hexaqueue.Prelude.Counting.{length-le_of_members, member-keys, keys-Distinct, length-keys}
use hexaqueue.Dag.{DependencySpec, Dependencies}
use hexaqueue.Dag.Sorting.{
  Degrees, add_edge, add_edges, add_children, ensure, degree_of, children_of, degrees, free_jobs,
  relax, visit, validate_and_topological_sort,
}
use hexaqueue.Dag.Counting.{member-append}
use hexaqueue.Dag.Order.{IsSorting, pop-IsSorting}
use hexaqueue.Dag.Topological.{member-sort, degrees-Unique, first_queue-IsSorting}
use hexaqueue.Dag.Acyclic.{
  IsRanked, IsRising, contains-ensure, degrees-IsRising, edges_to-edges_from,
}

-- The queue and the sorted jobs are known jobs, and all those without an edge left.
record IsReaching (known d : Dict ℕ) (queue done : List ℕ) : Type 0 where
  within : (n : ℕ) → member n (queue ++ done) ≡ true → contains n known ≡ true
  free : (n : ℕ) → contains n known ≡ true → degree_of n d ≡ 0 → member n (queue ++ done) ≡ true

relax-IsReaching :
    (known : Dict ℕ) (ns : List ℕ) (d : Dict ℕ) (queue done : List ℕ)
    → ((n : ℕ) → member n ns ≡ true → contains n known ≡ true)
    → IsReaching known d queue done
    → IsReaching known (relax ns d queue).0 (relax ns d queue).1 done
unfolding relax
relax-IsReaching known [] d queue done h i = i
relax-IsReaching known (m ∷ ns) d queue done h i =
    relax-IsReaching known ns (put m (degree_of m d - 1) d)
      (if degree_of m d - 1 == 0 then queue ++ m ∷ [] else queue) done
      (λ n e. h n (ground (arith, e)))
      (record {
        within = λ n e. elim (Bool-cases (degree_of m d - 1 == 0)) [
          | inl z ↦ ground (arith, z, e, h n, i.within n, split queue n)
          | inr z ↦ i.within n (rw z at e)
        ];
        free =
            λ n k z. ground (arith, i.free n k, get-put m n (degree_of m d - 1) d, split queue n);
      })
  where
    split :
        (queue : List ℕ) (n : ℕ)
        → (member n ((queue ++ m ∷ []) ++ done) ≡ (n == m || member n (queue ++ done)))
    split queue n = ground (
      arith,
      member-append n (queue ++ m ∷ []) done,
      member-append n queue (m ∷ []),
      member-append n queue done,
    )

-- The loop with enough fuel ends with an empty queue.
visit-IsReaching :
    (fuel : ℕ) (a : Dict (List ℕ)) (known d : Dict ℕ) (queue done : List ℕ)
    → ((p n : ℕ) → member n (children_of a p) ≡ true → contains n known ≡ true)
    → length known ≤ fuel + length done
    → IsSorting a d queue done
    → IsReaching known d queue done
    → (d' : Dict ℕ) × IsSorting a d' [] (visit fuel a d queue done)
      × IsReaching known d' [] (visit fuel a d queue done)
unfolding visit
visit-IsReaching zero a known d [] done h f s r = (d, s, r)
visit-IsReaching (suc fuel) a known d [] done h f s r = (d, s, r)
visit-IsReaching zero a known d (current ∷ queue) done h f s r = absurd (
    omega (
      arith,
      length-keys known,
      length-append queue done,
      length-le_of_members (current ∷ queue ++ done) (keys known) s.scheduled.distinct
          (λ n m. member-keys n known ∙ r.within n m),
    ))
visit-IsReaching (suc fuel) a known d (current ∷ queue) done h f s r =
    visit-IsReaching fuel a known (relax (children_of a current) d queue).0
      (relax (children_of a current) d queue).1 (current ∷ done) h (omega (arith, f))
      (pop-IsSorting a d current queue done s)
      (relax-IsReaching known (children_of a current) d queue (current ∷ done) (h current) (record {
        within = λ n e. r.within n (swapped n ∙ e);
        free = λ n k z. sym (swapped n) ∙ r.free n k z;
      }))
  where
    swapped : (n : ℕ) → member n (current ∷ queue ++ done) ≡ member n (queue ++ current ∷ done)
    swapped n = ground (arith, member-append n queue (current ∷ done), member-append n queue done)

-- With an empty queue, every known job of a ranked graph is sorted.
all_sorted :
    (rank : ℕ → ℕ) (s : Degrees) (d : Dict ℕ) (done : List ℕ)
    → IsRising rank s
    → IsSorting s.adjacency d [] done
    → IsReaching s.in_degree d [] done
    → (bound n : ℕ) → rank n < bound
    → contains n s.in_degree ≡ true
    → member n done ≡ true
all_sorted rank s d done i sorting reaching zero n h k = absurd (omega (arith, h))
all_sorted rank s d done i sorting reaching (suc bound) n h k = reaching.free n k (
    omega (
      arith,
      sorting.removed n,
      edges_to-edges_from n s.adjacency done i.unique λ p e.
          all_sorted rank s d done i sorting reaching bound p (omega (arith, h, i.rising p n e))
            (i.known p n e).1,
    ))

-- A dictionary and a list of its keys without duplicates have one length.
same_size :
    (d : Dict ℕ) (xs : List ℕ)
    → Unique d
    → Distinct xs
    → ((n : ℕ) → member n xs ≡ true → contains n d ≡ true)
    → ((n : ℕ) → contains n d ≡ true → member n xs ≡ true)
    → (length xs == length d) ≡ true
same_size d xs u distinct to from = ground (
  arith,
  length-keys d,
  length-le_of_members xs (keys d) distinct (λ n m. member-keys n d ∙ to n m),
  length-le_of_members (keys d) xs (keys-Distinct d u) (λ n m. from n (sym (member-keys n d) ∙ m)),
)

free_known : (d : Dict ℕ) (n : ℕ) → member n (free_jobs d) ≡ true → contains n d ≡ true
unfolding free_jobs
free_known [] n m = m
free_known ((k, deg) ∷ d) n m = ground (arith, free_known d n)

zero_free :
    (d : Dict ℕ) (n : ℕ) → contains n d ≡ true → degree_of n d ≡ 0 → member n (free_jobs d) ≡ true
unfolding free_jobs
zero_free [] n k z = k
zero_free ((j, deg) ∷ d) n k z = ground (arith, zero_free d n)

first-IsReaching : (d : Dict ℕ) → IsReaching d d (sort leb (free_jobs d)) []
first-IsReaching d = record {
  within = λ n m. free_known d n (sym (same n) ∙ m);
  free = λ n k z. same n ∙ zero_free d n k z;
}
  where
    same : (n : ℕ) → member n (sort leb (free_jobs d) ++ []) ≡ member n (free_jobs d)
    same n = rw (append-nil (sort leb (free_jobs d))) (member-sort n (free_jobs d))

add_edge_knows :
    (n child parent : ℕ) (s : Degrees)
    → contains n s.in_degree ≡ true
    → contains n (add_edge child parent s).in_degree ≡ true
unfolding add_edge
add_edge_knows n child parent s h = ground (
  arith,
  contains-ensure n parent s.in_degree,
  get-put child n (degree_of child (ensure parent s.in_degree) + 1) (ensure parent s.in_degree),
)

add_edges_knows :
    (n child : ℕ) (deps : List DependencySpec) (s : Degrees)
    → contains n s.in_degree ≡ true
    → contains n (add_edges child deps s).in_degree ≡ true
unfolding add_edges
add_edges_knows n child [] s h = h
add_edges_knows n child (dep ∷ deps) s h =
    add_edges_knows n child deps (add_edge child dep.parent_job_id s)
      (add_edge_knows n child dep.parent_job_id s h)

add_children_knows :
    (n : ℕ) (dependencies : Dependencies) (s : Degrees)
    → contains n s.in_degree ≡ true
    → contains n (add_children dependencies s).in_degree ≡ true
unfolding add_children
add_children_knows n [] s h = h
add_children_knows n ((child, deps) ∷ rest) s h =
    let next : Degrees = record s { in_degree = ensure child s.in_degree } in
    add_children_knows n rest (add_edges child deps next)
      (add_edges_knows n child deps next (ground (arith, contains-ensure n child s.in_degree)))

known_id :
    (n : ℕ) (ids : List ℕ) → member n ids ≡ true → contains {V = ℕ} n (map (λ i. (i, 0)) ids) ≡ true
known_id n [] h = h
known_id n (i ∷ ids) h = ground (arith, known_id n ids)

-- When some ranking puts each job above the parents it depends on, and the job identifiers are
-- without duplicates, the sort does not report a cycle: it returns an order, and every identifier
-- that was asked for stands in it.
pub validate_and_topological_sort_complete :
    (rank : ℕ → ℕ) (dependencies : Dependencies) (ids : List ℕ)
    → Distinct ids
    → IsRanked rank dependencies
    → (order : List ℕ) × (validate_and_topological_sort dependencies ids ≡ some order)
      × ((n : ℕ) → member n ids ≡ true → member n (reverse order) ≡ true)
unfolding validate_and_topological_sort
validate_and_topological_sort_complete rank dependencies ids distinct ranked = (
  reverse done,
  rw same_length refl,
  λ n m.
      subst (λ xs. member n xs ≡ true) (sym (reverse-reverse done))
        (everything n (add_children_knows n dependencies _ (known_id n ids m))),
)
  where
    s : Degrees
    s = degrees dependencies ids

    queue : List ℕ
    queue = sort leb (free_jobs s.in_degree)

    done : List ℕ
    done = visit (length s.in_degree) s.adjacency s.in_degree queue []

    rising : IsRising rank s
    rising = degrees-IsRising rank dependencies ids ranked

    unique : Unique s.in_degree
    unique = degrees-Unique dependencies ids distinct

    ended : (d : Dict ℕ) × IsSorting s.adjacency d [] done × IsReaching s.in_degree d [] done
    ended =
        visit-IsReaching (length s.in_degree) s.adjacency s.in_degree s.in_degree queue []
          (λ p n e. (rising.known p n e).0) (omega arith)
          (first_queue-IsSorting dependencies ids distinct) (first-IsReaching s.in_degree)

    everything : (n : ℕ) → contains n s.in_degree ≡ true → member n done ≡ true
    everything n k =
        all_sorted rank s ended.0 done rising ended.1 ended.2 (suc (rank n)) n (omega arith) k

    same_length : (length done == length s.in_degree) ≡ true
    same_length =
        same_size s.in_degree done unique ended.1.scheduled.distinct ended.2.within everything
