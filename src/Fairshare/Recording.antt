-- ===== src/Fairshare/Recording.antt =====
-- core/domain/fairshare.py, record_usage: the loop ends at the root.
use hexaqueue.Prelude.{
  ℕ, zero, suc, ◌+◌, ◌<◌, ◌≡◌, ◌⊎◌, inl, inr, refl, on_test, on_lookup, sym, subst, ap, ◌∙◌, true,
  false, Option, none, some, ◌==◌, ==_iff, Bool-cases, Option-cases, get_or, arith,
}
use hexaqueue.Prelude.Dict.{Dict, get, put, contains, get-put, get-put_self}
use hexaqueue.Prelude.Lists.{length}
use hexaqueue.Fairshare.{
  FairShareNode, FairShareTree, FairShareError, Climbed, at_top, key_error, used, climb,
  record_usage,
}
use hexaqueue.Fairshare.Rooted.{HasHeights, IsBelow, IsRooted, length-put_known, contains-put}

-- The usage of a node, and zero of none.
abbrev pub usage_of : Option FairShareNode → ℕ
usage_of none = 0
usage_of (some n) = n.historical_usage

IsBelow-contains :
    (nodes nodes' : Dict FairShareNode) (root k : ℕ) (h : ℕ → ℕ) (parent : Option ℕ)
    → ((j : ℕ) → contains j nodes ≡ true → contains j nodes' ≡ true)
    → IsBelow nodes root h k parent
    → IsBelow nodes' root h k parent
IsBelow-contains nodes nodes' root k h none keep b = b
IsBelow-contains nodes nodes' root k h (some p) keep (known, less, inner) =
    (keep p known, less, inner)

used-HasHeights :
    (nodes : Dict FairShareNode) (root k delta timestamp : ℕ) (n : FairShareNode) (h : ℕ → ℕ)
    → get k nodes ≡ some n
    → HasHeights nodes root h
    → HasHeights (put k (used delta timestamp n) nodes) root h
used-HasHeights nodes root k delta timestamp n h found hs j m e = elim (Bool-cases (j == k)) [
  | inl same ↦
      let j_is = (==_iff j k).0 same in
      let m_is =
        ap (λ o. (get_or o m).parent_id)
          (sym (get-put_self k (used delta timestamp n) nodes)
            ∙ subst (λ i. get i (put k (used delta timestamp n) nodes) ≡ some m) j_is e) in
      let old =
        subst (λ i. (h i < length nodes) × IsBelow nodes root h i n.parent_id) (sym j_is)
          (hs k n found) in
      (
        ground (arith, old.0, length-put_known k (used delta timestamp n) n nodes found),
        IsBelow-contains nodes (put k (used delta timestamp n) nodes) root j h m.parent_id
            (λ i. contains-put k i (used delta timestamp n) nodes)
            (subst (IsBelow nodes root h j) m_is old.1),
      )
  | inr other ↦
      let old = hs j m (ground (arith, get-put k j (used delta timestamp n) nodes)) in
      (
        ground (arith, old.0, length-put_known k (used delta timestamp n) n nodes found),
        IsBelow-contains nodes (put k (used delta timestamp n) nodes) root j h m.parent_id
            (λ i. contains-put k i (used delta timestamp n) nodes) old.1,
      )
]

-- The loop has ended, and the usage of the root is larger by what was recorded.
abbrev pub IsRecorded : ℕ → ℕ → ℕ → Climbed → Type 0
IsRecorded root before delta (at_top nodes) = usage_of (get root nodes) ≡ before + delta
IsRecorded root before delta _ = ⊥

root_kept :
    (root k : ℕ) (n : FairShareNode) (nodes : Dict FairShareNode)
    → (k == root) ≡ false
    → get root (put k n nodes) ≡ get root nodes
root_kept root k n nodes inner = ground (arith, get-put k root n nodes)

climb_on :
    (fuel delta timestamp k root : ℕ) (nodes : Dict FairShareNode) (h : ℕ → ℕ) (n : FairShareNode)
    (parent : Option ℕ)
    → ((p : ℕ)
        → contains p nodes ≡ true
        → h p < h k
        → IsRecorded root
            (usage_of (get root (put k (used delta timestamp n) nodes)))
            delta
            (climb fuel delta timestamp (some p) (put k (used delta timestamp n) nodes)))
    → get k nodes ≡ some n
    → IsBelow nodes root h k parent
    → IsRecorded root
        (usage_of (get root nodes))
        delta
        (climb fuel delta timestamp parent (put k (used delta timestamp n) nodes))
unfolding climb
climb_on fuel delta timestamp k root nodes h n none rest found at_root =
    subst
      (λ r.
        usage_of (get r (put k (used delta timestamp n) nodes)) ≡ usage_of (get r nodes) + delta)
      at_root (rw (get-put_self k (used delta timestamp n) nodes, found) refl)
climb_on fuel delta timestamp k root nodes h n (some p) rest found (known, less, inner) =
    subst
      (λ o.
        IsRecorded root (usage_of o) delta
          (climb fuel delta timestamp (some p) (put k (used delta timestamp n) nodes)))
      (root_kept root k (used delta timestamp n) nodes inner) (rest p known less)

climb-IsRecorded :
    (fuel delta timestamp k root : ℕ) (nodes : Dict FairShareNode) (h : ℕ → ℕ)
    → HasHeights nodes root h
    → contains k nodes ≡ true
    → h k < fuel
    → IsRecorded root (usage_of (get root nodes)) delta (climb fuel delta timestamp (some k) nodes)
unfolding climb
climb-IsRecorded zero delta timestamp k root nodes h hs known bound = ground arith
climb-IsRecorded (suc fuel) delta timestamp k root nodes h hs known bound =
    on_lookup (IsRecorded root (usage_of (get root nodes)) delta) (get k nodes) (key_error nodes)
      (λ n. climb fuel delta timestamp n.parent_id (put k (used delta timestamp n) nodes))
      (λ missing. ground arith)
      (λ n found.
        climb_on fuel delta timestamp k root nodes h n n.parent_id
          (λ p known_p less.
            climb-IsRecorded fuel delta timestamp p root (put k (used delta timestamp n) nodes) h
              (used-HasHeights nodes root k delta timestamp n h found hs)
              (contains-put k p (used delta timestamp n) nodes known_p)
              (omega (arith, less, bound)))
          found (hs k n found).1)

-- What an answer of record_usage says: the loop has ended, with the usage of the root raised.
abbrev pub Records : FairShareTree → ℕ → FairShareError ⊎ Climbed → Type 0
Records t delta (inl e) = ⊥
Records t delta (inr o) = IsRecorded t.root_id (usage_of (get t.root_id t.nodes)) delta o

-- In a tree in which heights can be given to the nodes, usage recorded for any node that is stored is
-- accepted, the loop ends behind the root within one round for each node, and the usage of the root
-- rises by exactly what was recorded.
pub record_usage-Records :
    (t : FairShareTree) (node_id delta_usage timestamp : ℕ)
    → IsRooted t.nodes t.root_id
    → contains node_id t.nodes ≡ true
    → Records t delta_usage (record_usage t node_id delta_usage timestamp)
unfolding record_usage
record_usage-Records t node_id delta_usage timestamp (rooted, h, hs) known =
    on_test (Records t delta_usage) (contains node_id t.nodes)
      (inr (climb (length t.nodes) delta_usage timestamp (some node_id) t.nodes))
      (inl FairShareError.unknown_node)
      (λ stored. elim (Option-cases (get node_id t.nodes)) [
        | inl missing ↦ ground arith
        | inr (n, found) ↦
            climb-IsRecorded (length t.nodes) delta_usage timestamp node_id t.root_id t.nodes h hs
              known (hs node_id n found).0
      ])
      (λ missing. ground arith)
