-- ===== src/Dag/Reach.antt =====
-- dag.py, get_downstream_dependents: the jobs it finds.
use hexaqueue.Prelude.{
  ℕ, zero, suc, ◌+◌, ◌≤◌, ◌≡◌, refl, ==_iff, sym, ◌∙◌, inl, inr, true, false, ◌&&◌, ◌||◌, List, [],
  ◌∷◌, ◌++◌, arith, ◌==◌, Bool-cases, leb, Bool, ◌↔◌, Option-cases,
}
use hexaqueue.Prelude.Lists.{length, length-append, member, Distinct}
use hexaqueue.Prelude.Dict.{Dict, get, contains, keys, Unique}
use hexaqueue.Prelude.Sort.{sort, length-sort}
use hexaqueue.Prelude.Counting.{length-le_of_members, member-keys, length-keys}
use hexaqueue.Dag.{Dependencies, deps_of}
use hexaqueue.Dag.Sorting.{children_of}
use hexaqueue.Dag.Counting.{member-append}
use hexaqueue.Dag.Topological.{member-sort}
use hexaqueue.Dag.Downstream.{
  visit_children, search_downstream, get_downstream_dependents, children_by_parent, has_parent,
  children_by_parent-edges,
}

-- A job is downstream of itself when it is a root, and of the parents of its dependencies.
pub data Downstream (dependencies : Dependencies) (roots : List ℕ) : ℕ → Type 0 where
  a_root : {n : ℕ} → member n roots ≡ true → Downstream dependencies roots n
  a_child :
      {n : ℕ} (p : ℕ)
      → Downstream dependencies roots p
      → has_parent p (deps_of n dependencies) ≡ true
      → Downstream dependencies roots n

has_dependencies :
    (dependencies : Dependencies) (roots : List ℕ) (n : ℕ)
    → Downstream dependencies roots n
    → member n roots ≡ false
    → contains n dependencies ≡ true
has_dependencies dependencies roots n (a_root e) h = cc
has_dependencies dependencies roots n (a_child p d e) h = elim (Option-cases (get n dependencies)) [
  | inl m ↦ cc (rw m at e)
  | inr (deps, m) ↦ ground (arith, m)
]

module _ (D : ℕ → Type 0) (a : Dict (List ℕ)) (roots : List ℕ) where
  -- Whether a job was put into the queue at some time.
  abbrev seen : ℕ → List ℕ → Bool
  seen n visited = member n visited || member n roots

  -- The search inside the children `ns` of `curr`: seen jobs are downstream, and the children of
  -- those that have left the queue are seen or still to come.
  record IsSearching (curr : ℕ) (ns visited queue : List ℕ) : Type 0 where
    distinct : Distinct visited
    outside : (n : ℕ) → member n visited ≡ true → member n roots ≡ false
    found : (n : ℕ) → member n visited ≡ true → D n
    queued : (n : ℕ) → member n queue ≡ true → seen n visited ≡ true
    closed :
        (p n : ℕ)
        → seen p visited ≡ true
        → member p queue ≡ false
        → member n (children_of a p) ≡ true
        → (p == curr && member n ns || seen n visited) ≡ true

  visit_children-IsSearching :
      (curr : ℕ) (ns visited queue : List ℕ)
      → ((n : ℕ) → member n ns ≡ true → D n)
      → IsSearching curr ns visited queue
      → let r = visit_children ns roots visited queue in
        IsSearching curr [] r.0 r.1 × (length r.1 + length visited ≡ length queue + length r.0)
  unfolding visit_children
  visit_children-IsSearching curr [] visited queue h i = (i, refl)
  visit_children-IsSearching curr (m ∷ ns) visited queue h i = elim (Bool-cases (seen m visited)) [
    | inl e ↦
        rw (e, visit_children)
          (visit_children-IsSearching curr ns visited queue (λ n k. h n (ground (arith, k)))
            (record {
              distinct = i.distinct;
              outside = i.outside;
              found = i.found;
              queued = i.queued;
              closed = λ p n s q k. ground (arith, i.closed p n s q k, e);
            }))
    | inr e ↦
        let (after, count) =
          visit_children-IsSearching curr ns (m ∷ visited) (queue ++ m ∷ [])
            (λ n k. h n (ground (arith, k)))
            (record {
              distinct = (ground (arith, e), i.distinct);
              outside = λ n k. ground (arith, i.outside n, e, k);
              found = λ n k. elim (Bool-cases (n == m)) [
                | inl same ↦ h n (ground (arith, same))
                | inr other ↦ i.found n (ground (arith, k, other))
              ];
              queued = λ n k. ground (arith, i.queued n, k, member-append n queue (m ∷ []));
              closed = λ p n s q k.
                  ground (arith, i.closed p n, s, q, k, member-append p queue (m ∷ []));
            }) in
        rw (e, visit_children) (after, omega (arith, count, length-append queue (m ∷ [])))
  ]

  -- The search takes the first job out of the queue.
  pop-IsSearching :
      (last curr : ℕ) (visited queue : List ℕ)
      → IsSearching last [] visited (curr ∷ queue)
      → IsSearching curr (children_of a curr) visited queue
  pop-IsSearching last curr visited queue i = record {
    distinct = i.distinct;
    outside = i.outside;
    found = i.found;
    queued = λ n k. i.queued n (ground (arith, k));
    closed = λ p n s q k. elim (Bool-cases (p == curr)) [
      | inl e ↦ ground (arith, k, e, (==_iff p curr).0 e)
      | inr e ↦ ground (arith, i.closed p n s (ground (arith, q, e)) k)
    ];
  }

  -- After the search, the children of seen jobs are seen.
  seen_child :
      (last p n : ℕ) (visited : List ℕ)
      → IsSearching last [] visited []
      → seen p visited ≡ true
      → member n (children_of a p) ≡ true
      → seen n visited ≡ true
  seen_child last p n visited i s k = ground (arith, i.closed p n s refl k)

  module _ (size : ℕ) (root : (n : ℕ) → member n roots ≡ true → D n)
      (child : (p n : ℕ) → D p → member n (children_of a p) ≡ true → D n)
      (few : (xs : List ℕ)
        → Distinct xs
        → ((n : ℕ) → member n xs ≡ true → D n × (member n roots ≡ false))
        → length xs ≤ size) where
    D_of_seen :
        (n : ℕ) (visited : List ℕ) (last : ℕ) (queue : List ℕ)
        → IsSearching last [] visited queue
        → seen n visited ≡ true
        → D n
    D_of_seen n visited last queue i s = elim (Bool-cases (member n visited)) [
      | inl e ↦ i.found n e
      | inr e ↦ root n (ground (arith, s, e))
    ]

    -- With a unit of fuel for each job that is queued or still to be found, the queue is empty in
    -- the end.
    search_downstream-IsSearching :
        (fuel : ℕ) (last : ℕ) (visited queue : List ℕ)
        → length queue + size ≤ fuel + length visited
        → IsSearching last [] visited queue
        → (c : ℕ) × IsSearching c [] (search_downstream fuel a roots visited queue) []
    unfolding search_downstream
    search_downstream-IsSearching zero last visited [] h i = (last, i)
    search_downstream-IsSearching zero last visited (curr ∷ queue) h i =
        absurd (omega (arith, h, few visited i.distinct λ n k. (i.found n k, i.outside n k)))
    search_downstream-IsSearching (suc fuel) last visited [] h i = (last, i)
    search_downstream-IsSearching (suc fuel) last visited (curr ∷ queue) h i =
        let (after, count) =
          visit_children-IsSearching curr (children_of a curr) visited queue
            (λ n k.
              child curr n
                (D_of_seen curr visited last (curr ∷ queue) i (i.queued curr (ground arith))) k)
            (pop-IsSearching last curr visited queue i) in
        search_downstream-IsSearching fuel curr _ _ (omega (arith, h, count)) after

-- Jobs closed under dependencies and the roots are all jobs downstream.
Downstream-seen :
    (dependencies : Dependencies) (roots result : List ℕ)
    → ((p n : ℕ)
        → (member p result || member p roots) ≡ true
        → has_parent p (deps_of n dependencies) ≡ true
        → (member n result || member n roots) ≡ true)
    → (n : ℕ) → Downstream dependencies roots n
    → (member n result || member n roots) ≡ true
Downstream-seen dependencies roots result h n (a_root e) = ground (arith, e)
Downstream-seen dependencies roots result h n (a_child p d e) =
    h p n (Downstream-seen dependencies roots result h p d) e

-- A set of root jobs and a dictionary of dependencies give exactly the jobs outside the roots from
-- which a chain of dependencies leads to a root, each once.
pub get_downstream_dependents-Downstream :
    (dependencies : Dependencies) (roots : List ℕ)
    → Unique dependencies
    → Distinct roots
    → Distinct (get_downstream_dependents dependencies roots)
      × ((n : ℕ)
          → (member n (get_downstream_dependents dependencies roots) ≡ true)
            ↔ (Downstream dependencies roots n × (member n roots ≡ false)))
unfolding get_downstream_dependents
get_downstream_dependents-Downstream dependencies roots u d = (
  ended.1.distinct,
  λ n. (
    λ k. (ended.1.found n k, ended.1.outside n k),
    λ k. ground (arith, visited_or_root n k.0, k.1),
  ),
)
  where
    D : ℕ → Type 0
    D = Downstream dependencies roots

    a : Dict (List ℕ)
    a = children_by_parent dependencies []

    edges : (n p : ℕ) → member n (children_of a p) ≡ has_parent p (deps_of n dependencies)
    edges n p = children_by_parent-edges n p dependencies [] u

    result : List ℕ
    result = search_downstream (length roots + length dependencies) a roots [] (sort leb roots)

    ended : (c : ℕ) × IsSearching D a roots c [] result []
    ended =
        search_downstream-IsSearching D a roots (length dependencies) (λ n k. a_root k)
          (λ p n dp k. a_child p dp (sym (edges n p) ∙ k))
          (λ xs dx h. omega (
            arith,
            length-keys dependencies,
            length-le_of_members xs (keys dependencies) dx λ n k.
                member-keys n dependencies
                ∙ has_dependencies dependencies roots n (h n k).0 (h n k).1,
          ))
          (length roots + length dependencies) 0 [] (sort leb roots)
          (omega (arith, length-sort leb roots))
          (record {
            distinct = tt;
            outside = λ n k. cc;
            found = λ n k. cc;
            queued = λ n k. sym (member-sort n roots) ∙ k;
            closed = λ p n s q k. cc (s, q, member-sort p roots);
          })

    visited_or_root : (n : ℕ) → D n → seen D a roots n result ≡ true
    visited_or_root =
        Downstream-seen dependencies roots result
          λ p n s e. seen_child D a roots ended.0 p n result ended.1 s (edges n p ∙ e)
