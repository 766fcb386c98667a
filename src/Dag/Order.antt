-- ===== src/Dag/Order.antt =====
-- dag.py, validate_and_topological_sort: the loop over the queue.
use mathlib.Core.List.{append_assoc}
use hexaqueue.Prelude.{
  ℕ, zero, suc, ◌+◌, ◌-◌, ◌≤◌, ◌≡◌, refl, ==_iff, sym, subst, inl, inr, true, false, List, [], ◌∷◌,
  ◌++◌, arith, ◌==◌, if◌then◌else◌, Bool-cases,
}
use hexaqueue.Prelude.Lists.{sum_by, All, All-map, member, Distinct}
use hexaqueue.Prelude.Dict.{Dict, put, get-put}
use hexaqueue.Dag.Sorting.{degree_of, children_of, relax, visit}
use hexaqueue.Dag.Counting.{occurrences, edges_to, member-append}

-- The edges to `n` from the jobs of a list.
abbrev pub edges_from : ℕ → Dict (List ℕ) → List ℕ → ℕ
edges_from n a = sum_by (λ p. occurrences n (children_of a p))

one_entry :
    (n j : ℕ) (cs : List ℕ) (a : Dict (List ℕ)) (xs : List ℕ)
    → member j xs ≡ false
    → edges_from n ((j, cs) ∷ a) xs ≡ edges_from n a xs
one_entry n j cs a [] h = refl
one_entry n j cs a (x ∷ xs) h = ground (arith, one_entry n j cs a xs)

first_entry :
    (n j : ℕ) (cs : List ℕ) (a : Dict (List ℕ)) (xs : List ℕ)
    → Distinct xs
    → edges_from n ((j, cs) ∷ a) xs ≤ occurrences n cs + edges_from n a xs
first_entry n j cs a [] d = omega arith
first_entry n j cs a (x ∷ xs) d = elim (Bool-cases (x == j)) [
  | inl e ↦
      let absent : member j xs ≡ false = subst (λ k. member k xs ≡ false) ((==_iff x j).0 e) d.0 in
      rw e (omega (arith, one_entry n j cs a xs absent))
  | inr e ↦ rw e (omega (arith, first_entry n j cs a xs d.1))
]

-- Distinct jobs have no more edges to `n` than there are.
edges_from-edges_to :
    (n : ℕ) (a : Dict (List ℕ)) (xs : List ℕ) → Distinct xs → edges_from n a xs ≤ edges_to n a
edges_from-edges_to n [] [] d = omega arith
edges_from-edges_to n [] (x ∷ xs) d = omega (arith, edges_from-edges_to n [] xs d.1)
edges_from-edges_to n ((j, cs) ∷ a) xs d =
    omega (arith, first_entry n j cs a xs d, edges_from-edges_to n a xs d)

degree_of-relax :
    (n : ℕ) (ns : List ℕ) (d : Dict ℕ) (queue : List ℕ)
    → degree_of n (relax ns d queue).0 ≡ degree_of n d - occurrences n ns
unfolding relax
degree_of-relax n [] d queue = omega arith
degree_of-relax n (m ∷ ns) d queue =
    let deg = degree_of m d - 1 in
    ground (
      arith,
      degree_of-relax n ns (put m deg d) (if deg == 0 then queue ++ m ∷ [] else queue),
      get-put m n deg d,
    )

Distinct-middle :
    (x : ℕ) (xs ys : List ℕ)
    → member x (xs ++ ys) ≡ false
    → Distinct (xs ++ ys)
    → Distinct (xs ++ x ∷ ys)
Distinct-middle x [] ys h d = (h, d)
Distinct-middle x (z ∷ xs) ys h d = (
  ground (arith, member-append z xs (x ∷ ys), member-append z xs ys, d.0),
  Distinct-middle x xs ys (ground arith) d.1,
)

Distinct-behind_prefix : (xs ys : List ℕ) → Distinct (xs ++ ys) → Distinct ys
Distinct-behind_prefix [] ys d = d
Distinct-behind_prefix (x ∷ xs) ys d = Distinct-behind_prefix xs ys d.1

All-middle :
    (P : ℕ → Type 0) (x : ℕ) (xs ys : List ℕ) → P x → All P (xs ++ ys) → All P (xs ++ x ∷ ys)
All-middle P x [] ys px h = (px, h)
All-middle P x (z ∷ xs) ys px h = (h.0, All-middle P x xs ys px h.1)

abbrev pub AllZero : Dict ℕ → List ℕ → Type 0
AllZero d = All (λ n. degree_of n d ≡ 0)

positive_absent :
    (m : ℕ) (d : Dict ℕ) (xs : List ℕ) → AllZero d xs → 1 ≤ degree_of m d → member m xs ≡ false
positive_absent m d [] z h = refl
positive_absent m d (x ∷ xs) z h = ground (arith, positive_absent m d xs z.1, z.0)

-- The jobs of the queue and the sorted ones are different and have degree zero.
pub record IsScheduled (d : Dict ℕ) (queue done : List ℕ) : Type 0 where
  pub distinct : Distinct (queue ++ done)
  pub zeros : AllZero d (queue ++ done)

relax-IsScheduled :
    (ns : List ℕ) (d : Dict ℕ) (queue done : List ℕ)
    → ((n : ℕ) → occurrences n ns ≤ degree_of n d)
    → IsScheduled d queue done
    → IsScheduled (relax ns d queue).0 (relax ns d queue).1 done
unfolding relax
relax-IsScheduled [] d queue done r i = i
relax-IsScheduled (m ∷ ns) d queue done r i = elim (Bool-cases (degree_of m d - 1 == 0)) [
  | inl e ↦
      rw (e, relax)
        (relax-IsScheduled ns less (queue ++ m ∷ []) done left (record {
          distinct =
              subst Distinct (sym (append_assoc queue (m ∷ []) done))
                (Distinct-middle m queue done absent i.distinct);
          zeros = subst (AllZero less) (sym (append_assoc queue (m ∷ []) done)) (
              All-middle (λ n. degree_of n less ≡ 0) m queue done
                (ground (arith, get-put m m (degree_of m d - 1) d)) zeros);
        }))
  | inr e ↦
      rw (e, relax)
        (relax-IsScheduled ns less queue done left
          (record { distinct = i.distinct; zeros = zeros }))
]
  where
    less : Dict ℕ
    less = put m (degree_of m d - 1) d

    left : (n : ℕ) → occurrences n ns ≤ degree_of n less
    left n = ground (arith, r n, get-put m n (degree_of m d - 1) d)

    absent : member m (queue ++ done) ≡ false
    absent = positive_absent m d (queue ++ done) i.zeros (ground (arith, r m))

    zeros : AllZero less (queue ++ done)
    zeros =
        All-map (λ n. degree_of n d ≡ 0) (λ n. degree_of n less ≡ 0)
          (λ n z. ground (arith, get-put m n (degree_of m d - 1) d)) (queue ++ done) i.zeros

-- The parents of each sorted job were sorted before it.
abbrev pub IsOrdered : Dict (List ℕ) → List ℕ → Type 0
IsOrdered a [] = Unit
IsOrdered a (n ∷ before) =
    ((p : ℕ) → member n (children_of a p) ≡ true → member p before ≡ true) × IsOrdered a before

-- The edges that a degree does not count any more come from the sorted jobs.
pub record IsSorting (a : Dict (List ℕ)) (d : Dict ℕ) (queue done : List ℕ) : Type 0 where
  pub scheduled : IsScheduled d queue done
  pub removed : (n : ℕ) → degree_of n d + edges_from n a done ≡ edges_to n a
  pub ordered : IsOrdered a done

occurs_of_member : (n : ℕ) (xs : List ℕ) → member n xs ≡ true → 1 ≤ occurrences n xs
occurs_of_member n [] h = cc
occurs_of_member n (x ∷ xs) h = ground (arith, occurs_of_member n xs)

-- A job without edges left has only sorted parents.
parents_sorted :
    (a : Dict (List ℕ)) (d : Dict ℕ) (done : List ℕ) (n p : ℕ)
    → Distinct done
    → degree_of n d ≡ 0
    → degree_of n d + edges_from n a done ≡ edges_to n a
    → member n (children_of a p) ≡ true
    → member p done ≡ true
parents_sorted a d done n p distinct z removed edge = elim (Bool-cases (member p done)) [
  | inl e ↦ e
  | inr e ↦ absurd (
      omega (
        arith,
        edges_from-edges_to n a (p ∷ done) (e, distinct),
        occurs_of_member n (children_of a p) edge,
      ))
]

pub pop-IsSorting :
    (a : Dict (List ℕ)) (d : Dict ℕ) (current : ℕ) (queue done : List ℕ)
    → IsSorting a d (current ∷ queue) done
    → let r = relax (children_of a current) d queue in IsSorting a r.0 r.1 (current ∷ done)
pop-IsSorting a d current queue done i = record {
  scheduled = relax-IsScheduled (children_of a current) d queue (current ∷ done) enough moved;
  removed = λ n. omega (
    arith,
    degree_of-relax n (children_of a current) d queue,
    i.removed n,
    edges_from-edges_to n a (current ∷ done) different,
  );
  ordered = (
    λ p edge.
        parents_sorted a d done current p different.1 i.scheduled.zeros.0 (i.removed current) edge,
    i.ordered,
  );
}
  where
    moved : IsScheduled d queue (current ∷ done)
    moved = record {
      distinct = Distinct-middle current queue done i.scheduled.distinct.0 i.scheduled.distinct.1;
      zeros =
          All-middle (λ n. degree_of n d ≡ 0) current queue done i.scheduled.zeros.0
            i.scheduled.zeros.1;
    }

    different : Distinct (current ∷ done)
    different = Distinct-behind_prefix queue (current ∷ done) moved.distinct

    enough : (n : ℕ) → occurrences n (children_of a current) ≤ degree_of n d
    enough n = omega (arith, i.removed n, edges_from-edges_to n a (current ∷ done) different)

pub visit-IsOrdered :
    (fuel : ℕ) (a : Dict (List ℕ)) (d : Dict ℕ) (queue done : List ℕ)
    → IsSorting a d queue done
    → IsOrdered a (visit fuel a d queue done) × Distinct (visit fuel a d queue done)
unfolding visit
visit-IsOrdered zero a d queue done i =
    (i.ordered, Distinct-behind_prefix queue done i.scheduled.distinct)
visit-IsOrdered (suc fuel) a d [] done i = (i.ordered, i.scheduled.distinct)
visit-IsOrdered (suc fuel) a d (current ∷ queue) done i =
    visit-IsOrdered fuel a (relax (children_of a current) d queue).0
      (relax (children_of a current) d queue).1 (current ∷ done)
      (pop-IsSorting a d current queue done i)
