-- ===== src/Iso9660/Interned.antt =====
-- The nodes of crates/lamfold-iso/src/iso9660.rs: each directory record has one node, and a node stays.
use lamfold.Prelude.{
  true, List, [], ◌∷◌, ◌++◌, length, get_elem?, get_elem?_inbounds, get_elem?-append_lt,
  get_elem?-append_last, length-append, ltb, ltb→lt, ◌⊎◌, if-split, some, none, Option-cases,
  some-injective, inl, inr, ◌≡◌, refl, sym, ap, ◌∙◌, arith, Bool-cases, subst,
}
use lamfold.Frontend.{NodeId}
use lamfold.Prelude.TreeMap.{lookup, insert, lookup-insert, same}
use lamfold.Iso9660.{Key, Inode, Iso, intern, add_node, key_cmp-eq_iff, key_ord}

-- The intern table and the nodes agree: a key leads to the node that it names, and each node is found by
-- its key.
pub record IsInterned (v : Iso) : Type 0 where
  pub names :
      (k : Key) (id : NodeId)
      → lookup k v.by_record ≡ some id
      → (i : Inode) × (get_elem? v.nodes id ≡ some i) × (i.key ≡ k)
  pub listed :
      (id : NodeId) (i : Inode) → get_elem? v.nodes id ≡ some i → lookup i.key v.by_record ≡ some id

-- `w` has the nodes of `v`, and maybe more.
abbrev pub Extends : Iso → Iso → Type 0
Extends v w =
    (id : NodeId) (i : Inode) → get_elem? v.nodes id ≡ some i → get_elem? w.nodes id ≡ some i

pub intern_known :
    (i : Inode) (v : Iso) (id : NodeId) → lookup i.key v.by_record ≡ some id → intern i v ≡ (id, v)
unfolding intern
intern_known i v id h = rw (intern, h) refl

pub intern_new : (i : Inode) (v : Iso) → lookup i.key v.by_record ≡ none → intern i v ≡ add_node i v
unfolding intern
intern_new i v h = rw (intern, h) refl

same-eq : (a b : Key) → same a b ≡ true → a ≡ b
same-eq a b h = ground (arith, key_cmp-eq_iff a b)

same_self : (a : Key) → same a a ≡ true
same_self a = ground arith

-- The last node.
last_node :
    (nodes : List Inode) (i j : Inode) (id : NodeId)
    → get_elem? (nodes ++ i ∷ []) id ≡ some j
    → (get_elem? nodes id ≡ some j) ⊎ ((id ≡ length nodes) × (j ≡ i))
last_node nodes i j id h =
    let inside = get_elem?_inbounds (nodes ++ i ∷ []) id h in
    let len = length-append nodes (i ∷ []) in
    elim (Bool-cases (ltb id (length nodes))) [
      | inl old ↦ inl (sym (get_elem?-append_lt nodes (i ∷ []) id (ltb→lt _ _ old)) ∙ h)
      | inr new ↦
          let at : id ≡ length nodes = ground (arith, inside, len) in
          inr (
            at,
            some-injective
                (sym h ∙ ap (get_elem? (nodes ++ i ∷ [])) at ∙ get_elem?-append_last nodes i),
          )
    ]

add_node-Extends : (i : Inode) (v : Iso) → Extends v (add_node i v).1
add_node-Extends i v id j h =
    get_elem?-append_lt v.nodes (i ∷ []) id (get_elem?_inbounds v.nodes id h) ∙ h

module _ (i : Inode) (v : Iso) (ok_ : IsInterned v) (new : lookup i.key v.by_record ≡ none) where
  add_node-names :
      (k : Key) (id : NodeId)
      → lookup k (insert i.key (length v.nodes) v.by_record) ≡ some id
      → (j : Inode) × (get_elem? (v.nodes ++ i ∷ []) id ≡ some j) × (j.key ≡ k)
  add_node-names k id h =
      elim (if-split (same k i.key) _ _
        (sym (lookup-insert i.key k (length v.nodes) v.by_record) ∙ h)) [
          | inl (here, at) ↦ (
            i,
            ap (get_elem? (v.nodes ++ i ∷ [])) (sym (some-injective at))
                ∙ get_elem?-append_last v.nodes i,
            sym (same-eq k i.key here),
          )
          | inr (there, old) ↦
              let (j, at, key) = ok_.names k id old in (j, add_node-Extends i v id j at, key)
        ]

  add_node-listed :
      (id : NodeId) (j : Inode)
      → get_elem? (v.nodes ++ i ∷ []) id ≡ some j
      → lookup j.key (insert i.key (length v.nodes) v.by_record) ≡ some id
  add_node-listed id j h = elim (last_node v.nodes i j id h) [
    | inl old ↦
        let found = ok_.listed id j old in
        lookup-insert i.key j.key (length v.nodes) v.by_record
        ∙ elim (Bool-cases (same j.key i.key)) [
          | inl eq_ ↦
              absurd (let e = ap (λ k. lookup k v.by_record) (same-eq j.key i.key eq_) in cc)
          | inr ne ↦ rw ne found
        ]
    | inr (at, is) ↦
        lookup-insert i.key j.key (length v.nodes) v.by_record
        ∙ rw (ap (λ x. same x.key i.key) is ∙ same_self i.key) (ap some (sym at))
  ]

  add_node-IsInterned : IsInterned (add_node i v).1
  add_node-IsInterned = record { names = add_node-names; listed = add_node-listed }

-- What `intern` does: the agreement is kept and no node changes, the answer is a node with the record's key,
-- and its key leads to it from now on.
pub record Interns (i : Inode) (v w : Iso) (id : NodeId) : Type 0 where
  pub is_interned : IsInterned w
  pub extends : Extends v w
  pub found : lookup i.key w.by_record ≡ some id
  pub node : (j : Inode) × (get_elem? w.nodes id ≡ some j) × (j.key ≡ i.key)

pub intern-Interns :
    (i : Inode) (v : Iso) → IsInterned v → Interns i v (intern i v).1 (intern i v).0
intern-Interns i v h = elim (Option-cases (lookup i.key v.by_record)) [
  | inl new ↦
      let w = (add_node i v).1 in
      let here =
        lookup-insert i.key i.key (length v.nodes) v.by_record ∙ rw (same_self i.key) refl in
      let done : Interns i v w (length v.nodes) = record {
        is_interned = add_node-IsInterned i v h new;
        extends = add_node-Extends i v;
        found = here;
        node = (i, get_elem?-append_last v.nodes i, refl);
      } in
      subst (λ r. Interns i v r.1 r.0) (sym (intern_new i v new)) done
  | inr (id, known) ↦
      let same_ : Interns i v v id = record {
        is_interned = h;
        extends = λ k j e. e;
        found = known;
        node = h.names i.key id known;
      } in
      subst (λ r. Interns i v r.1 r.0) (sym (intern_known i v id known)) same_
]

pub Extends-trans : (u v w : Iso) → Extends u v → Extends v w → Extends u w
Extends-trans u v w a b id i h = b id i (a id i h)

-- A key keeps its node.
pub Extends-found :
    (v w : Iso) (k : Key) (id : NodeId)
    → IsInterned v
    → IsInterned w
    → Extends v w
    → lookup k v.by_record ≡ some id
    → lookup k w.by_record ≡ some id
Extends-found v w k id iv iw ext h =
    let (i, at, key) = iv.names k id h in rw (sym key) (iw.listed id i (ext id i at))
