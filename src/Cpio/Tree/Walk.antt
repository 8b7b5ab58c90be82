-- ===== src/Cpio/Tree/Walk.antt =====
-- Paths in the tree of crates/lamfold-cpio/src/cpio.rs, and what a change of the nodes keeps of them.
use lamfold.Prelude.{
  ◌≤◌, ◌<◌, Bytes, List, [], ◌∷◌, length, get_elem?, Option, none, some, ◌≡◌, ◌⊎◌, inl, inr, refl,
  arith, option-eq-some, ◌∙◌,
}
use lamfold.Prelude.TreeMap
use lamfold.Prelude.Order.{bytes_ord}
use lamfold.Frontend.{NodeId}
use lamfold.Cpio.Tree.{Node}
use lamfold.Cpio.Tree.Shape.{IsTree, AllFrom-get_elem?, Behind-lookup}

-- One component, and then all of them, from the node `cur`.
unfoldable pub child : List Node → NodeId → Bytes → Option NodeId
child nodes cur comp = elim (get_elem? nodes cur) [
  | none ↦ none
  | some node ↦ TreeMap.lookup comp node.children
]

unfoldable pub walk : List Node → NodeId → List Bytes → Option NodeId
walk nodes cur [] = some cur
walk nodes cur (comp ∷ comps) = elim (child nodes cur comp) [
  | none ↦ none
  | some next ↦ walk nodes next comps
]

pub child_found :
    (nodes : List Node) (cur : NodeId) (comp : Bytes) {node : Node} {j : NodeId}
    → get_elem? nodes cur ≡ some node
    → TreeMap.lookup comp node.children ≡ some j
    → child nodes cur comp ≡ some j
unfolding child
child_found nodes cur comp at found = rw (at, child) found

pub walk_step :
    (nodes : List Node) (cur : NodeId) (comp : Bytes) (comps : List Bytes) {j : NodeId}
    → child nodes cur comp ≡ some j
    → walk nodes cur (comp ∷ comps) ≡ walk nodes j comps
unfolding walk
walk_step nodes cur comp comps found = rw (found, walk) refl

child_behind :
    (nodes : List Node) (cur : NodeId) (comp : Bytes) (j : NodeId)
    → IsTree nodes
    → child nodes cur comp ≡ some j
    → cur < j
unfolding child
child_behind nodes cur comp j (some_, all) h =
    let (node, e, found) = option-eq-some (get_elem? nodes cur) _ h in
    let (behind, _) = AllFrom-get_elem? 0 (length nodes) cur cur nodes (omega arith) all e in
    (Behind-lookup cur (length nodes) j comp node.children behind found).0

-- A walk never leads back.
pub walk_behind :
    (nodes : List Node) (cur : NodeId) (comps : List Bytes) (k : NodeId)
    → IsTree nodes
    → walk nodes cur comps ≡ some k
    → cur ≤ k
unfolding walk
walk_behind nodes cur [] k tree h = let same : cur ≡ k = cc in omega arith
walk_behind nodes cur (comp ∷ comps) k tree h =
    let (j, e, later) = option-eq-some (child nodes cur comp) _ h in
    omega (arith, child_behind nodes cur comp j tree e, walk_behind nodes j comps k tree later)

-- `mid` has the children of `node` at `k`, and its file unless `k` is the target of the change.
abbrev pub KeptAt : Option NodeId → NodeId → Node → List Node → Type 0
KeptAt target k node mid =
    (here : Node) × (get_elem? mid k ≡ some here)
    × ((c : Bytes) (j : NodeId)
        → TreeMap.lookup c node.children ≡ some j
        → TreeMap.lookup c here.children ≡ some j)
    × (((here.kind ≡ node.kind) × (here.data_ ≡ node.data_) × (here.mode ≡ node.mode))
        ⊎ (target ≡ some k))

abbrev pub Kept : Option NodeId → List Node → List Node → Type 0
Kept target nodes mid =
    (k : NodeId) (node : Node) → get_elem? nodes k ≡ some node → KeptAt target k node mid

pub Kept-refl : (target : Option NodeId) (nodes : List Node) → Kept target nodes nodes
Kept-refl target nodes k node e = (node, e, λ c j found. found, inl (refl, refl, refl))

-- A change that touches no file, and then another.
pub Kept-then :
    (target : Option NodeId) (nodes mid end : List Node)
    → Kept none nodes mid
    → Kept target mid end
    → Kept target nodes end
Kept-then target nodes mid end first second k node e =
    let (here, at, kept, same) = first k node e in
    let (there, at', kept', same') = second k here at in
    (
      there,
      at',
      λ c j found. kept' c j (kept c j found),
      elim same [
        | inr none_ ↦ absurd (cc)
        | inl (a, b, d) ↦ elim same' [
          | inl (a', b', d') ↦ inl (a' ∙ a, b' ∙ b, d' ∙ d)
          | inr hit ↦ inr hit
        ]
      ],
    )

pub child-Kept :
    (target : Option NodeId) (nodes mid : List Node) (cur : NodeId) (comp : Bytes) (j : NodeId)
    → Kept target nodes mid
    → child nodes cur comp ≡ some j
    → child mid cur comp ≡ some j
unfolding child
child-Kept target nodes mid cur comp j kept h =
    let (node, e, found) = option-eq-some (get_elem? nodes cur) _ h in
    let (here, at, same, _) = kept cur node e in child_found mid cur comp at (same comp j found)

-- A path that resolves goes on to resolve to the same node.
pub walk-Kept :
    (target : Option NodeId) (nodes mid : List Node) (cur : NodeId) (comps : List Bytes)
    (k : NodeId)
    → Kept target nodes mid
    → walk nodes cur comps ≡ some k
    → walk mid cur comps ≡ some k
unfolding walk
walk-Kept target nodes mid cur [] k kept h = h
walk-Kept target nodes mid cur (comp ∷ comps) k kept h =
    let (j, e, later) = option-eq-some (child nodes cur comp) _ h in
    walk_step mid cur comp comps (child-Kept target nodes mid cur comp j kept e)
    ∙ walk-Kept target nodes mid j comps k kept later
