-- ===== src/Fairshare/Rooted.antt =====
-- core/domain/fairshare.py, add_node: a tree to which new nodes are added stays a tree.
use hexaqueue.Prelude.{
  ℕ, ◌+◌, ◌<◌, ◌≡◌, ◌⊎◌, inl, inr, refl, on_test, get_or, ◌∙◌, Option-cases, sym, subst, ap, true,
  false, Option, none, some, [], ◌∷◌, ◌==◌, if◌then◌else◌, ==_iff, Bool-cases, arith,
}
use hexaqueue.Prelude.Dict.{Dict, get, put, contains, get-put, get-put_self}
use hexaqueue.Prelude.Lists.{length}
use hexaqueue.Fairshare.{
  FairShareNode, FairShareTree, FairShareError, add_node, make_tree, is_known, link_child,
  root_node,
}

pub length-put_new :
    {V : Type 0} (k : ℕ) (v : V) (d : Dict V) → get k d ≡ none → length (put k v d) ≡ length d + 1
length-put_new k v [] e = refl
length-put_new k v ((j, w) ∷ d) e = ground (arith, length-put_new k v d)

pub length-put_known :
    {V : Type 0} (k : ℕ) (v w : V) (d : Dict V) → get k d ≡ some w → length (put k v d) ≡ length d
length-put_known k v w [] e = ground arith
length-put_known k v w ((j, x) ∷ d) e = ground (arith, length-put_known k v w d)

pub contains-put :
    {V : Type 0} (k j : ℕ) (v : V) (d : Dict V)
    → contains j d ≡ true
    → contains j (put k v d) ≡ true
contains-put k j v d e = ground (arith, get-put k j v d)

-- A parent is stored, at a smaller height than its child; the root alone has no parent.
abbrev pub IsBelow : Dict FairShareNode → ℕ → (ℕ → ℕ) → ℕ → Option ℕ → Type 0
IsBelow nodes root h k none = k ≡ root
IsBelow nodes root h k (some p) = (contains p nodes ≡ true) × (h p < h k) × ((k == root) ≡ false)

abbrev pub HasHeights : Dict FairShareNode → ℕ → (ℕ → ℕ) → Type 0
HasHeights nodes root h =
    (k : ℕ) (n : FairShareNode)
    → get k nodes ≡ some n
    → (h k < length nodes) × IsBelow nodes root h k n.parent_id

abbrev pub IsRooted : Dict FairShareNode → ℕ → Type 0
IsRooted nodes root = (contains root nodes ≡ true) × (h : ℕ → ℕ) × HasHeights nodes root h

root-IsBelow :
    (root k : ℕ) (n : FairShareNode)
    → get k ((root, root_node root) ∷ []) ≡ some n
    → (0 < 1) × IsBelow ((root, root_node root) ∷ []) root (λ k. 0) k n.parent_id
root-IsBelow root k n e = elim (Bool-cases (k == root)) [
  | inl same ↦
      let root_found =
        subst (λ j. get j ((root, root_node root) ∷ []) ≡ some n) ((==_iff k root).0 same) e in
      let is_root =
        ap (λ o. (get_or o n).parent_id) (sym root_found ∙ get-put_self root (root_node root) []) in
      (
        omega arith,
        subst (IsBelow ((root, root_node root) ∷ []) root (λ k. 0) k) (sym is_root)
            ((==_iff k root).0 same),
      )
  | inr other ↦ ground arith
]

pub make_tree-IsRooted : (root half_life : ℕ) → IsRooted (make_tree root half_life).nodes root
unfolding make_tree
make_tree-IsRooted root half_life = (ground arith, (λ k. 0), λ k n e. root-IsBelow root k n e)

-- The heights when a new node is added at the end.
abbrev raised_at : ℕ → ℕ → (ℕ → ℕ) → ℕ → ℕ
raised_at id top h k = if k == id then top else h k

kept-IsBelow :
    (nodes : Dict FairShareNode) (root k : ℕ) (n : FairShareNode) (h : ℕ → ℕ) (parent : Option ℕ)
    → get n.id nodes ≡ none
    → (k == n.id) ≡ false
    → IsBelow nodes root h k parent
    → IsBelow (put n.id n nodes) root (raised_at n.id (length nodes) h) k parent
kept-IsBelow nodes root k n h none fresh other b = b
kept-IsBelow nodes root k n h (some p) fresh other b = ground (arith, get-put n.id p n nodes)

new-IsBelow :
    (nodes : Dict FairShareNode) (root p : ℕ) (n : FairShareNode) (h : ℕ → ℕ)
    → get n.id nodes ≡ none
    → contains p nodes ≡ true
    → contains root nodes ≡ true
    → HasHeights nodes root h
    → IsBelow (put n.id n nodes) root (raised_at n.id (length nodes) h) n.id (some p)
new-IsBelow nodes root p n h fresh known rooted hs = elim (Option-cases (get p nodes)) [
  | inl missing ↦ ground arith
  | inr (m, found) ↦ ground (arith, get-put n.id p n nodes, (hs p m found).0)
]

new-HasHeights :
    (nodes : Dict FairShareNode) (root p : ℕ) (n : FairShareNode) (h : ℕ → ℕ)
    → get n.id nodes ≡ none
    → n.parent_id ≡ some p
    → contains p nodes ≡ true
    → contains root nodes ≡ true
    → HasHeights nodes root h
    → HasHeights (put n.id n nodes) root (raised_at n.id (length nodes) h)
new-HasHeights nodes root p n h fresh e known rooted hs k m found = elim (Bool-cases (k == n.id)) [
  | inl same ↦
      let k_is = (==_iff k n.id).0 same in
      let m_is =
        ap (λ o. (get_or o m).parent_id)
          (sym (get-put_self n.id n nodes)
            ∙ (subst (λ j. get j (put n.id n nodes) ≡ some m) k_is found)) in
      let below =
        subst (IsBelow (put n.id n nodes) root (raised_at n.id (length nodes) h) n.id)
          (sym e ∙ m_is) (new-IsBelow nodes root p n h fresh known rooted hs) in
      (
        ground (arith, length-put_new n.id n nodes fresh),
        subst (λ j. IsBelow (put n.id n nodes) root (raised_at n.id (length nodes) h) j m.parent_id)
            (sym k_is) below,
      )
  | inr other ↦
      let old = hs k m (ground (arith, get-put n.id k n nodes)) in
      (
        ground (arith, old.0, length-put_new n.id n nodes fresh),
        kept-IsBelow nodes root k n h m.parent_id fresh other old.1,
      )
]

abbrev pub KeepsRooted : FairShareError ⊎ FairShareTree → Type 0
KeepsRooted (inl e) = Unit
KeepsRooted (inr t) = IsRooted t.nodes t.root_id

-- When a node with a new identifier and a parent is added to a tree in which heights can be given to
-- the nodes, so that no node is its own ancestor and the root alone has no parent, the addition is
-- refused or the result is such a tree again.
pub add_node-KeepsRooted :
    (t : FairShareTree) (n : FairShareNode) (p : ℕ)
    → IsRooted t.nodes t.root_id
    → get n.id t.nodes ≡ none
    → n.parent_id ≡ some p
    → KeepsRooted (add_node t n)
unfolding add_node
add_node-KeepsRooted t n p (rooted, h, hs) fresh e =
    on_test KeepsRooted (is_known t n.parent_id)
      (inr (record t {
        nodes = put n.id n t.nodes;
        children =
            link_child n.id n.parent_id
              (if contains n.id t.children then t.children else put n.id [] t.children);
      }))
      (inl FairShareError.unknown_parent)
      (λ known. (
        contains-put n.id t.root_id n t.nodes rooted,
        raised_at n.id (length t.nodes) h,
        new-HasHeights t.nodes t.root_id p n h fresh e (subst (λ o. is_known t o ≡ true) e known)
            rooted hs,
      ))
      (λ refused. tt)
