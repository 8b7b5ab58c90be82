-- ===== src/Cpio/Tree/Fill.antt =====
-- A node of crates/lamfold-cpio/src/cpio.rs that a later record fills in.
use lamfold.Prelude.{
  ℕ, List, length, length-set, get_elem?, get_elem?_inbounds, get_elem?-set_self, get_elem?-set_ne,
  set, some, ◌≡◌, inl, inr, refl, sym, arith, Bool-cases, ==→eq, ◌==◌, some-injective, ◌∙◌, ap,
}
use lamfold.Prelude.Order.{bytes_ord}
use lamfold.Frontend.{FileKind, NodeId}
use lamfold.Cpio.Tree.{Node, Span, fill}
use lamfold.Cpio.Tree.Shape.{IsTree, AllFrom-get_elem?, AllFrom-set}
use lamfold.Cpio.Tree.Walk.{Kept}

module _ (kind : FileKind) (mode : ℕ) (data_ : Span) where
  abbrev pub Filed : Node → Type 0
  Filed node = (node.kind ≡ kind) × (node.data_ ≡ data_) × (node.mode ≡ mode)

  pub fill_values : (node : Node) → Filed (fill kind mode data_ node)
  unfolding fill
  fill_values node = (refl, refl, refl)

  -- The file of an entered node, and the rest of the path below it.
  pub fill-Kept :
      (nodes : List Node) (k : NodeId) (node : Node)
      → get_elem? nodes k ≡ some node
      → Kept (some k) nodes (set nodes k (fill kind mode data_ node))
  unfolding fill
  fill-Kept nodes k node at j old e = elim (Bool-cases (j == k)) [
    | inr apart ↦
        let differ : k ≡ j → ⊥ = λ same. absurd (ground (arith, apart, same)) in
        (
          old,
          get_elem?-set_ne nodes k j (fill kind mode data_ node) differ ∙ e,
          λ c i found. found,
          inl (refl, refl, refl),
        )
    | inl hit ↦
        let same : j ≡ k = ==→eq j k hit in
        let is_node : node ≡ old = some-injective (sym at ∙ (rw (sym same) e)) in
        (
          fill kind mode data_ node,
          rw same (
              get_elem?-set_self nodes k (fill kind mode data_ node)
                (get_elem?_inbounds nodes k at)),
          λ c i found. rw is_node found,
          inr (ap some (sym same)),
        )
  ]

  pub fill-IsTree :
      (nodes : List Node) (k : NodeId) (node : Node)
      → IsTree nodes
      → get_elem? nodes k ≡ some node
      → IsTree (set nodes k (fill kind mode data_ node))
  unfolding fill
  fill-IsTree nodes k node (some_, all) at =
      let here = fill kind mode data_ node in
      let ok_ = AllFrom-get_elem? 0 (length nodes) k k nodes (omega arith) all at in
      let size = length-set nodes k here in
      (
        omega (arith, size),
        rw size (AllFrom-set 0 (length nodes) k k nodes here (omega arith) all ok_),
      )
