-- ===== src/Cpio/Tree/Insert.antt =====
-- What `insert` of crates/lamfold-cpio/src/cpio.rs does to the tree.
use lamfold.Prelude.{
  ℕ, ◌<◌, Bytes, List, [], ◌∷◌, length, get_elem?, get_elem?_lt, none, some, ◌≡◌, inl, inr, refl,
  arith, ◌∙◌, Option-cases,
}
use lamfold.Prelude.TreeMap
use lamfold.Prelude.TreeMap.{TreeMap}
use lamfold.Prelude.Order.{bytes_ord}
use lamfold.Frontend.{FileKind, NodeId}
use lamfold.Path.{components_of, split}
use lamfold.Cpio.Tree.{Node, Span, is_last, new_node, enter, insert_at, insert}
use lamfold.Cpio.Tree.Shape.{IsTree, AllFrom-get_elem?, Behind-lookup}
use lamfold.Cpio.Tree.Walk.{walk, child_found, Kept-refl}
use lamfold.Cpio.Tree.Link.{linked, length-linked, linked-IsTree}
use lamfold.Cpio.Tree.Landing.{
  Inserts, aim, new_node_bare, Inserts-linked, enter-Inserts, Inserts-below,
}

module _ (kind : FileKind) (mode : ℕ) (data_ : Span) where
  pub insert_at_absent :
      (nodes : List Node) (cur : NodeId) (node : Node) (comp : Bytes) (comps : List Bytes)
      → get_elem? nodes cur ≡ some node
      → TreeMap.lookup comp node.children ≡ none
      → insert_at nodes cur (comp ∷ comps) kind mode data_
        ≡ insert_at
            (linked nodes cur node comp (new_node (is_last comps) kind mode data_))
            (length nodes)
            comps
            kind
            mode
            data_
  unfolding insert_at linked
  insert_at_absent nodes cur node comp comps at absent = rw (at, insert_at, absent) refl

  pub insert_at_present :
      (nodes : List Node) (cur existing : NodeId) (node : Node) (comp : Bytes) (comps : List Bytes)
      (mid : List Node)
      → get_elem? nodes cur ≡ some node
      → TreeMap.lookup comp node.children ≡ some existing
      → enter nodes existing (is_last comps) kind mode data_ ≡ some mid
      → insert_at nodes cur (comp ∷ comps) kind mode data_
        ≡ insert_at mid existing comps kind mode data_
  unfolding insert_at
  insert_at_present nodes cur existing node comp comps mid at found entered =
      rw (at, insert_at, found, entered) refl

  abbrev pub Inserted : List Node → NodeId → List Bytes → Type 0
  Inserted nodes cur comps =
      (end : List Node) × (insert_at nodes cur comps kind mode data_ ≡ some end)
      × Inserts nodes cur comps kind mode data_ end

  pub present-Inserts :
      (nodes : List Node) (cur existing : NodeId) (node : Node) (comp : Bytes) (comps : List Bytes)
      → IsTree nodes
      → get_elem? nodes cur ≡ some node
      → TreeMap.lookup comp node.children ≡ some existing
      → existing < length nodes
      → Inserted nodes existing comps
      → Inserted nodes cur (comp ∷ comps)
  unfolding enter insert_at
  present-Inserts nodes cur existing node comp [] tree at e there below =
      let step = child_found nodes cur comp at e in
      let (end, entered, done) =
        enter-Inserts kind mode data_ nodes cur existing comp tree step there in
      (end, insert_at_present nodes cur existing node comp [] end at e entered, done)
  present-Inserts nodes cur existing node comp (c ∷ rest) tree at e there (end, ran, later) =
      let step = child_found nodes cur comp at e in
      (
        end,
        insert_at_present nodes cur existing node comp (c ∷ rest) nodes at e refl ∙ ran,
        Inserts-below kind mode data_ nodes cur existing comp c rest end step later,
      )

  pub insert_at-Inserts :
      (nodes : List Node) (cur : NodeId) (comps : List Bytes)
      → IsTree nodes
      → cur < length nodes
      → (end : List Node) × (insert_at nodes cur comps kind mode data_ ≡ some end)
        × Inserts nodes cur comps kind mode data_ end
  unfolding insert_at aim walk enter
  insert_at-Inserts nodes cur [] tree there =
      let (node, at) = get_elem?_lt nodes cur there in
      (
        nodes,
        refl,
        record {
          tree = tree;
          longer = omega arith;
          kept = Kept-refl (aim nodes cur []) nodes;
          lands = (cur, node, refl, at, λ _ some_. absurd (some_ refl));
        },
      )
  insert_at-Inserts nodes cur (comp ∷ comps) tree there =
      let (node, at) = get_elem?_lt nodes cur there in
      elim (Option-cases (TreeMap.lookup comp node.children)) [
        | inl absent ↦
            let new = new_node (is_last comps) kind mode data_ in
            let mid = linked nodes cur node comp new in
            let grown =
              linked-IsTree nodes cur node comp new tree at (new_node_bare kind mode data_ comps) in
            let (end, ran, later) =
              insert_at-Inserts mid (length nodes) comps grown
                (omega (arith, length-linked nodes cur node comp new)) in
            (
              end,
              insert_at_absent nodes cur node comp comps at absent ∙ ran,
              Inserts-linked kind mode data_ nodes cur node comp comps end tree at absent later,
            )
        | inr (existing, e) ↦
            let (behind, _) =
              AllFrom-get_elem? 0 (length nodes) cur cur nodes (omega arith) tree.1 at in
            let (_, there') =
              Behind-lookup cur (length nodes) existing comp node.children behind e in
            present-Inserts nodes cur existing node comp comps tree at e there'
              (insert_at-Inserts nodes existing comps tree there')
      ]

  -- `insert` at `path` gives a result, with what it keeps and adds.
  abbrev pub Places : List Node → Bytes → Type 0
  Places nodes path =
      (end : List Node) × (insert nodes path kind mode data_ ≡ some end)
      × Inserts nodes 0 (components_of (split path)) kind mode data_ end

  -- `insert` of a path into a tree never stops with an index out of range, and what it leaves is a
  -- tree, with children only behind their parents and directories in key order. Every node that was
  -- there keeps its number, its children under their names, and its kind, span and mode, but for the
  -- one node that the path led to; and the path leads to a node that, when the record is not a
  -- directory's and the path is not empty, has the kind, mode and span of the record.
  pub insert-Inserts : (nodes : List Node) (path : Bytes) → IsTree nodes → Places nodes path
  unfolding insert
  insert-Inserts nodes path tree =
      insert_at-Inserts nodes 0 (components_of (split path)) tree tree.0
