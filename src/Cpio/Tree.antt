-- ===== src/Cpio/Tree.antt =====
-- The tree of crates/lamfold-cpio/src/cpio.rs that the records are folded into. An index out of
-- range, where the code stops with a panic, is `none`.
pub mod Shape
pub mod Walk
pub mod Link
pub mod Fill
pub mod Landing
pub mod Insert
use lamfold.Prelude.{
  ℕ, ◌+◌, Bool, true, false, not, ◌&&◌, if◌then◌else◌, Bytes, List, [], ◌∷◌, ◌++◌, length,
  get_elem?, set, Option, none, some,
}
use lamfold.Prelude.TreeMap
use lamfold.Prelude.TreeMap.{TreeMap}
use lamfold.Prelude.Order.{bytes_ord}
use lamfold.Frontend.{FileKind, directory, NodeId}
use lamfold.Path.{components_of, split, is_dir}

-- `Span`: `len` bytes at `off` of buffer `buf`.
pub record Span : Type 0 where
  pub buf : ℕ
  pub off : ℕ
  pub len : ℕ

abbrev pub no_span : Span
no_span = record { buf = 0; off = 0; len = 0 }

pub record Node : Type 0 where
  pub kind : FileKind
  pub data_ : Span
  pub mode : ℕ
  pub children : TreeMap Bytes NodeId

-- `Node::dir`.
abbrev pub dir_node : ℕ → Node
dir_node mode = record { kind = directory; data_ = no_span; mode = mode; children = [] }

abbrev pub is_last : List Bytes → Bool
is_last [] = true
is_last (_ ∷ _) = false

-- What an explicit record changes in a node that is there.
unfoldable pub fill : FileKind → ℕ → Span → Node → Node
fill kind mode data_ node = record node { kind = kind; data_ = data_; mode = mode }

-- The node that a missing component is given.
unfoldable pub new_node : Bool → FileKind → ℕ → Span → Node
new_node last kind mode data_ =
    if last
    then record { kind = kind; data_ = data_; mode = mode; children = [] }
    else dir_node 0o755

-- The child at a component that is there.
unfoldable pub enter : List Node → NodeId → Bool → FileKind → ℕ → Span → Option (List Node)
unfolding get_elem? set fill
enter nodes existing last kind mode data_ =
    if last && not (is_dir kind)
    then elim (get_elem? nodes existing) [
      | none ↦ none
      | some node ↦ some (set nodes existing (fill kind mode data_ node))
    ]
    else some nodes

-- The loop of `insert` from the node `cur`.
unfoldable pub insert_at :
    List Node → NodeId → List Bytes → FileKind → ℕ → Span → Option (List Node)
unfolding get_elem? set enter new_node TreeMap.lookup TreeMap.insert
insert_at nodes cur [] kind mode data_ = some nodes
insert_at nodes cur (comp ∷ comps) kind mode data_ = elim (get_elem? nodes cur) [
  | none ↦ none
  | some node ↦ elim (TreeMap.lookup comp node.children) [
    | some existing ↦ elim (enter nodes existing (is_last comps) kind mode data_) [
      | none ↦ none
      | some nodes' ↦ insert_at nodes' existing comps kind mode data_
    ]
    | none ↦
        let id = length nodes in
        let nodes' = nodes ++ (new_node (is_last comps) kind mode data_ ∷ []) in
        let linked = record node { children = TreeMap.insert comp id node.children } in
        insert_at (set nodes' cur linked) id comps kind mode data_
  ]
]

unfoldable pub insert : List Node → Bytes → FileKind → ℕ → Span → Option (List Node)
unfolding split components_of insert_at
insert nodes path kind mode data_ = insert_at nodes 0 (components_of (split path)) kind mode data_
