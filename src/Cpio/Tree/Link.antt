-- ===== src/Cpio/Tree/Link.antt =====
-- A new node of crates/lamfold-cpio/src/cpio.rs, linked under its parent.
use lamfold.Prelude.{
  ◌+◌, ◌<◌, true, Bytes, List, [], ◌∷◌, ◌++◌, length, length-append, length-set, get_elem?,
  get_elem?_inbounds, get_elem?-set_self, get_elem?-set_ne, get_elem?-append_lt,
  get_elem?-append_last, set, none, some, ◌≡◌, inl, inr, refl, sym, arith, Bool-cases, ==→eq, ◌==◌,
  some-injective, ◌∙◌, ap,
}
use lamfold.Prelude.TreeMap
use lamfold.Prelude.TreeMap.{TreeMap}
use lamfold.Prelude.Order.{bytes_ord, bytes_cmp-eq_iff}
use lamfold.Frontend.{NodeId}
use lamfold.Cpio.Tree.{Node}
use lamfold.Cpio.Tree.Shape.{
  IsTree, NodeOk, AllFrom-get_elem?, AllFrom-set, AllFrom-append, AllFrom-mono, Behind-insert,
}
use lamfold.Cpio.Tree.Walk.{child, child_found, Kept}

-- Linking a new node under `cur`.
unfoldable pub linked : List Node → NodeId → Node → Bytes → Node → List Node
linked nodes cur node comp new =
    set (nodes ++ new ∷ []) cur
      (record node { children = TreeMap.insert comp (length nodes) node.children })

pub length-linked :
    (nodes : List Node) (cur : NodeId) (node : Node) (comp : Bytes) (new : Node)
    → length (linked nodes cur node comp new) ≡ length nodes + 1
unfolding linked
length-linked nodes cur node comp new =
    let joined = nodes ++ new ∷ [] in
    let here = record node { children = TreeMap.insert comp (length nodes) node.children } in
    omega (arith, length-set joined cur here, length-append nodes (new ∷ []))

pub linked-IsTree :
    (nodes : List Node) (cur : NodeId) (node : Node) (comp : Bytes) (new : Node)
    → IsTree nodes
    → get_elem? nodes cur ≡ some node
    → new.children ≡ []
    → IsTree (linked nodes cur node comp new)
unfolding linked
linked-IsTree nodes cur node comp new (some_, all) at bare =
    let n = length nodes in
    let size = length-linked nodes cur node comp new in
    let there = get_elem?_inbounds nodes cur at in
    let wider = AllFrom-mono 0 n (n + 1) nodes (omega arith) all in
    let fresh : NodeOk n (n + 1) new = rw bare (tt, tt) in
    let joined = AllFrom-append 0 (n + 1) n nodes new (omega arith) wider fresh in
    let (behind, sorted) = AllFrom-get_elem? 0 (n + 1) cur cur nodes (omega arith) wider at in
    let here = record node { children = TreeMap.insert comp n node.children } in
    let ready : NodeOk cur (n + 1) here = (
      Behind-insert cur (n + 1) n comp node.children behind there (omega arith),
      TreeMap.insert-IsSorted comp n node.children sorted,
    ) in
    let done = AllFrom-set 0 (n + 1) cur cur (nodes ++ new ∷ []) here (omega arith) joined ready in
    let count : length (linked nodes cur node comp new) ≡ n + 1 = size in
    (omega (arith, size), rw (linked, count) done)

pub more_children :
    (comp : Bytes) (id : NodeId) (c : Bytes) (j : NodeId) (m : TreeMap Bytes NodeId)
    → TreeMap.lookup comp m ≡ none
    → TreeMap.lookup c m ≡ some j
    → TreeMap.lookup c (TreeMap.insert comp id m) ≡ some j
more_children comp id c j m absent found = elim (Bool-cases (TreeMap.same c comp)) [
  | inr apart ↦ TreeMap.lookup-insert comp c id m ∙ rw apart found
  | inl hit ↦ absurd (
      let same : c ≡ comp = ground (arith, bytes_cmp-eq_iff c comp, hit) in
      let clash : some j ≡ none = sym found ∙ rw same absent in cc)
]

pub linked-Kept :
    (nodes : List Node) (cur : NodeId) (node : Node) (comp : Bytes) (new : Node)
    → get_elem? nodes cur ≡ some node
    → TreeMap.lookup comp node.children ≡ none
    → Kept none nodes (linked nodes cur node comp new)
unfolding linked
linked-Kept nodes cur node comp new at absent k old e =
    let joined = nodes ++ new ∷ [] in
    let here = record node { children = TreeMap.insert comp (length nodes) node.children } in
    let inside = get_elem?_inbounds nodes k e in
    let before = get_elem?-append_lt nodes (new ∷ []) k inside ∙ e in
    elim (Bool-cases (k == cur)) [
      | inr apart ↦
          let differ : cur ≡ k → ⊥ = λ same. absurd (ground (arith, apart, same)) in
          (
            old,
            get_elem?-set_ne joined cur k here differ ∙ before,
            λ c j found. found,
            inl (refl, refl, refl),
          )
      | inl hit ↦
          let same : k ≡ cur = ==→eq k cur hit in
          let is_node : node ≡ old = some-injective (sym at ∙ (rw (sym same) e)) in
          let room : cur < length joined =
            omega (arith, inside, same, length-append nodes (new ∷ [])) in
          (
            here,
            rw same (get_elem?-set_self joined cur here room),
            λ c j found.
                more_children comp (length nodes) c j node.children absent (rw is_node found),
            inl (ap (λ n. n.kind) is_node, ap (λ n. n.data_) is_node, ap (λ n. n.mode) is_node),
          )
    ]

pub same_self : (c : Bytes) → TreeMap.same c c ≡ true
same_self c = ground (arith, (bytes_cmp-eq_iff c c).1 refl)

pub child-linked :
    (nodes : List Node) (cur : NodeId) (node : Node) (comp : Bytes) (new : Node)
    → cur < length nodes
    → child (linked nodes cur node comp new) cur comp ≡ some (length nodes)
unfolding linked
child-linked nodes cur node comp new there =
    let joined = nodes ++ new ∷ [] in
    let here = record node { children = TreeMap.insert comp (length nodes) node.children } in
    let room : cur < length joined = omega (arith, there, length-append nodes (new ∷ [])) in
    child_found (set joined cur here) cur comp (get_elem?-set_self joined cur here room)
      (TreeMap.lookup-insert comp comp (length nodes) node.children ∙ rw (same_self comp) refl)

pub get_elem?-linked :
    (nodes : List Node) (cur : NodeId) (node : Node) (comp : Bytes) (new : Node)
    → cur < length nodes
    → get_elem? (linked nodes cur node comp new) (length nodes) ≡ some new
unfolding linked
get_elem?-linked nodes cur node comp new there =
    let here = record node { children = TreeMap.insert comp (length nodes) node.children } in
    get_elem?-set_ne (nodes ++ new ∷ []) cur (length nodes) here (λ e. absurd (omega arith))
    ∙ get_elem?-append_last nodes new
