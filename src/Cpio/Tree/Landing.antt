-- ===== src/Cpio/Tree/Landing.antt =====
-- One component of `insert` of crates/lamfold-cpio/src/cpio.rs.
use lamfold.Prelude.{
  ℕ, ◌≤◌, ◌<◌, true, Bytes, List, [], ◌∷◌, length, length-set, get_elem?, get_elem?_inbounds,
  get_elem?_lt, get_elem?-set_self, set, Option, none, some, ◌≡◌, inl, inr, refl, sym, arith,
  Bool-cases, some-injective, ◌∙◌,
}
use lamfold.Prelude.TreeMap
use lamfold.Prelude.TreeMap.{TreeMap}
use lamfold.Prelude.Order.{bytes_ord}
use lamfold.Frontend.{FileKind, directory, regular, symlink, other, NodeId}
use lamfold.Path.{is_dir}
use lamfold.Cpio.Tree.{Node, Span, is_last, fill, new_node, enter}
use lamfold.Cpio.Tree.Shape.{IsTree}
use lamfold.Cpio.Tree.Walk.{
  child, walk, walk_step, walk_behind, Kept, Kept-refl, Kept-then, child-Kept,
}
use lamfold.Cpio.Tree.Link.{
  linked, length-linked, linked-IsTree, linked-Kept, child-linked, get_elem?-linked,
}
use lamfold.Cpio.Tree.Fill.{Filed, fill_values, fill-Kept, fill-IsTree}

-- The node at `comps` is there; if it is named by a record of a file, it has what the record says.
abbrev pub Lands : List Node → NodeId → List Bytes → FileKind → ℕ → Span → Type 0
Lands nodes cur comps kind mode data_ =
    (k : NodeId) × (node : Node) × (walk nodes cur comps ≡ some k)
    × (get_elem? nodes k ≡ some node)
    × ((kind ≡ directory → ⊥)
        → (comps ≡ [] → ⊥)
        → (node.kind ≡ kind) × (node.data_ ≡ data_) × (node.mode ≡ mode))

-- The node whose file a record changes, if the path leads to one.
unfoldable pub aim : List Node → NodeId → List Bytes → Option NodeId
aim nodes cur [] = none
aim nodes cur (comp ∷ comps) = walk nodes cur (comp ∷ comps)

pub aim→walk :
    (nodes : List Node) (cur : NodeId) (comps : List Bytes) {k : NodeId}
    → aim nodes cur comps ≡ some k
    → walk nodes cur comps ≡ some k
unfolding aim
aim→walk nodes cur [] h = absurd (cc)
aim→walk nodes cur (comp ∷ comps) h = h

pub record Inserts (nodes : List Node) (cur : NodeId) (comps : List Bytes) (kind : FileKind)
    (mode : ℕ) (data_ : Span) (end : List Node) : Type 0 where
  pub tree : IsTree end
  pub longer : length nodes ≤ length end
  pub kept : Kept (aim nodes cur comps) nodes end
  pub lands : Lands end cur comps kind mode data_

module _ (kind : FileKind) (mode : ℕ) (data_ : Span) where
  pub new_node_bare :
      (comps : List Bytes) → (new_node (is_last comps) kind mode data_).children ≡ []
  unfolding new_node
  new_node_bare [] = refl
  new_node_bare (c ∷ comps) = refl

  pub last_filled :
      (comps : List Bytes) (mid end : List Node) (id k : NodeId) (final : Node)
      → Kept (aim mid id comps) mid end
      → get_elem? mid id ≡ some (new_node (is_last comps) kind mode data_)
      → walk end id comps ≡ some k
      → get_elem? end k ≡ some final
      → ((comps ≡ [] → ⊥) → Filed kind mode data_ final)
      → Filed kind mode data_ final
  unfolding aim walk new_node
  last_filled (c ∷ comps) mid end id k final kept at reached found filled =
      filled (λ e. absurd (cc))
  last_filled [] mid end id k final kept at reached found filled =
      let (here, at', _, same) = kept id (new_node true kind mode data_) at in
      let same_id : id ≡ k = some-injective reached in
      let is_here : here ≡ final = some-injective (sym at' ∙ (rw same_id found)) in
      elim same [ inr clash ↦ absurd (cc) | inl values ↦ rw (sym is_here) values ]

  -- A component that is missing: a new node, and the rest below it.
  pub Inserts-linked :
      (nodes : List Node) (cur : NodeId) (node : Node) (comp : Bytes) (comps : List Bytes)
      (end : List Node)
      → IsTree nodes
      → get_elem? nodes cur ≡ some node
      → TreeMap.lookup comp node.children ≡ none
      → Inserts
          (linked nodes cur node comp (new_node (is_last comps) kind mode data_))
          (length nodes)
          comps
          kind
          mode
          data_
          end
      → Inserts nodes cur (comp ∷ comps) kind mode data_ end
  Inserts-linked nodes cur node comp comps end tree at absent later =
      let new = new_node (is_last comps) kind mode data_ in
      let mid = linked nodes cur node comp new in
      let there = get_elem?_inbounds nodes cur at in
      let first = linked-Kept nodes cur node comp new at absent in
      let grown = linked-IsTree nodes cur node comp new tree at (new_node_bare comps) in
      let target = aim mid (length nodes) comps in
      let both = Kept-then target nodes mid end first later.kept in
      let (k, final, reached, found, filled) = later.lands in
      let step =
        child-Kept target mid end cur comp (length nodes) later.kept
          (child-linked nodes cur node comp new there) in
      record {
        tree = later.tree;
        longer = omega (arith, later.longer, length-linked nodes cur node comp new);
        kept = λ j old e.
            let (here, at', more, same) = both j old e in
            (
              here,
              at',
              more,
              elim same [
                | inl kept ↦ inl kept
                | inr hit ↦ absurd (
                    omega (
                      arith,
                      get_elem?_inbounds nodes j e,
                      walk_behind mid (length nodes) comps j grown
                          (aim→walk mid (length nodes) comps hit),
                    ))
              ],
            );
        lands = (
          k,
          final,
          walk_step end cur comp comps step ∙ reached,
          found,
          λ file _.
              last_filled comps mid end (length nodes) k final later.kept
                (get_elem?-linked nodes cur node comp new there) reached found (filled file),
        );
      }

  pub dir_iff : (k : FileKind) → is_dir k ≡ true → k ≡ directory
  dir_iff directory h = refl
  dir_iff regular h = absurd (cc)
  dir_iff symlink h = absurd (cc)
  dir_iff other h = absurd (cc)

  -- The last component is there: its node is filled in, or stays the directory that it is.
  pub enter-Inserts :
      (nodes : List Node) (cur existing : NodeId) (comp : Bytes)
      → IsTree nodes
      → child nodes cur comp ≡ some existing
      → existing < length nodes
      → (end : List Node) × (enter nodes existing true kind mode data_ ≡ some end)
        × Inserts nodes cur (comp ∷ []) kind mode data_ end
  unfolding enter aim walk
  enter-Inserts nodes cur existing comp tree step there =
      let (node, at) = get_elem?_lt nodes existing there in
      let arrives = walk_step nodes cur comp [] step in
      elim (Bool-cases (is_dir kind)) [
        | inl dir ↦ (
          nodes,
          rw dir refl,
          record {
            tree = tree;
            longer = omega arith;
            kept = Kept-refl (walk nodes cur (comp ∷ [])) nodes;
            lands = (existing, node, arrives, at, λ file _. absurd (file (dir_iff kind dir)));
          },
        )
        | inr file ↦
            let end = set nodes existing (fill kind mode data_ node) in
            let kept = fill-Kept kind mode data_ nodes existing node at in
            (
              end,
              rw (file, at) refl,
              record {
                tree = fill-IsTree kind mode data_ nodes existing node tree at;
                longer = omega (arith, length-set nodes existing (fill kind mode data_ node));
                kept = rw arrives kept;
                lands = (
                  existing,
                  fill kind mode data_ node,
                  walk_step end cur comp []
                      (child-Kept (some existing) nodes end cur comp existing kept step),
                  get_elem?-set_self nodes existing (fill kind mode data_ node) there,
                  λ _ _. fill_values kind mode data_ node,
                );
              },
            )
      ]

  -- A component that is there and not the last: the rest of the path below it.
  pub Inserts-below :
      (nodes : List Node) (cur existing : NodeId) (comp c : Bytes) (comps : List Bytes)
      (end : List Node)
      → child nodes cur comp ≡ some existing
      → Inserts nodes existing (c ∷ comps) kind mode data_ end
      → Inserts nodes cur (comp ∷ c ∷ comps) kind mode data_ end
  unfolding aim
  Inserts-below nodes cur existing comp c comps end step later =
      let (k, final, reached, found, filled) = later.lands in
      let same = walk_step nodes cur comp (c ∷ comps) step in
      let still =
        child-Kept (walk nodes existing (c ∷ comps)) nodes end cur comp existing later.kept step in
      record {
        tree = later.tree;
        longer = later.longer;
        kept = rw same later.kept;
        lands = (
          k,
          final,
          walk_step end cur comp (c ∷ comps) still ∙ reached,
          found,
          λ file _. filled file (λ e. absurd (cc)),
        );
      }
