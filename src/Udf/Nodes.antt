-- ===== src/Udf/Nodes.antt =====
-- The nodes of crates/lamfold-udf/src/udf.rs: a File Entry has one node, with the inode that stands there.
use lamfold.Prelude.{
  ℕ, true, Bool-cases, [], ◌∷◌, ◌++◌, length, get_elem?, get_elem?_inbounds, get_elem?-append_lt,
  get_elem?-append_last, some, none, Option-cases, some-injective, inl, inr, ◌⊎◌, ◌≡◌, refl, sym,
  ap, ◌∙◌, arith, if-split, subst,
}
use lamfold.Error.{Result, ok, ok-injective}
use lamfold.Frontend.{NodeId}
use lamfold.Prelude.TreeMap
use lamfold.Prelude.TreeMap.{nat_ord, same, lookup-insert}
use lamfold.Source.{BlockSource}
use lamfold.Udf.{UdfInode, Udf, add_node, intern, read_fe}

abbrev FeAt : BlockSource → Udf → ℕ → Result UdfInode
FeAt src v k = read_fe src v.block_size v.partition_start k

-- A block in the table has a node, which holds the inode that is read there; no two blocks share one.
pub record IsInterned (src : BlockSource) (v : Udf) : Type 0 where
  pub names :
      (k : ℕ) (id : NodeId)
      → TreeMap.lookup k v.by_lba ≡ some id
      → (i : UdfInode) × (get_elem? v.nodes id ≡ some i)
        × (read_fe src v.block_size v.partition_start k ≡ ok i)
  pub unique :
      (j k : ℕ) (id : NodeId)
      → TreeMap.lookup j v.by_lba ≡ some id
      → TreeMap.lookup k v.by_lba ≡ some id
      → j ≡ k

-- `w` keeps the nodes of `v` and the blocks that lead to them.
pub record Keeps (v w : Udf) : Type 0 where
  pub nodes :
      (id : NodeId) (i : UdfInode) → get_elem? v.nodes id ≡ some i → get_elem? w.nodes id ≡ some i
  pub blocks :
      (k : ℕ) (id : NodeId)
      → TreeMap.lookup k v.by_lba ≡ some id
      → TreeMap.lookup k w.by_lba ≡ some id
  pub same_size : w.block_size ≡ v.block_size
  pub same_start : w.partition_start ≡ v.partition_start

pub Keeps-refl : (v : Udf) → Keeps v v
Keeps-refl v = record {
  nodes = λ id i h. h;
  blocks = λ k id h. h;
  same_size = refl;
  same_start = refl;
}

pub Keeps-trans : (u v w : Udf) → Keeps u v → Keeps v w → Keeps u w
Keeps-trans u v w a b = record {
  nodes = λ id i h. b.nodes id i (a.nodes id i h);
  blocks = λ k id h. b.blocks k id (a.blocks k id h);
  same_size = b.same_size ∙ a.same_size;
  same_start = b.same_start ∙ a.same_start;
}

intern_known :
    (k : ℕ) (i : UdfInode) (v : Udf) (id : NodeId)
    → TreeMap.lookup k v.by_lba ≡ some id
    → intern k i v ≡ (id, v)
unfolding intern
intern_known k i v id h = rw (intern, h) refl

intern_new :
    (k : ℕ) (i : UdfInode) (v : Udf)
    → TreeMap.lookup k v.by_lba ≡ none
    → intern k i v ≡ add_node k i v
unfolding intern
intern_new k i v h = rw (intern, h) refl

same-eq : (a b : ℕ) → same a b ≡ true → a ≡ b
same-eq a b h = ground arith

same_self : (a : ℕ) → same a a ≡ true
same_self a = ground arith

module _ (src : BlockSource) (k : ℕ) (i : UdfInode) (v : Udf) where
  -- The new block, or one from before.
  new_or_old :
      (j : ℕ) (id : NodeId)
      → TreeMap.lookup j (TreeMap.insert k (length v.nodes) v.by_lba) ≡ some id
      → ((j ≡ k) × (id ≡ length v.nodes)) ⊎ (TreeMap.lookup j v.by_lba ≡ some id)
  new_or_old j id h =
      elim (if-split (same j k) _ _ (sym (lookup-insert k j (length v.nodes) v.by_lba) ∙ h)) [
        | inl (here, at) ↦ inl (same-eq j k here, sym (some-injective at))
        | inr (_, old) ↦ inr old
      ]

  add_node-Keeps : TreeMap.lookup k v.by_lba ≡ none → Keeps v (add_node k i v).1
  add_node-Keeps new = record {
    nodes = λ id j h. get_elem?-append_lt v.nodes (i ∷ []) id (get_elem?_inbounds v.nodes id h) ∙ h;
    blocks = λ j id h. lookup-insert k j (length v.nodes) v.by_lba ∙ elim (Bool-cases (same j k)) [
      | inl eq_ ↦ absurd (let e = ap (λ x. TreeMap.lookup x v.by_lba) (same-eq j k eq_) in cc)
      | inr ne ↦ rw ne h
    ];
    same_size = refl;
    same_start = refl;
  }

  add_node-IsInterned :
      IsInterned src v
      → read_fe src v.block_size v.partition_start k ≡ ok i
      → IsInterned src (add_node k i v).1
  add_node-IsInterned h fe = record {
    names = λ j id at. elim (new_or_old j id at) [
      | inl (is_k, last) ↦ (
        i,
        ap (get_elem? (v.nodes ++ i ∷ [])) last ∙ get_elem?-append_last v.nodes i,
        ap (read_fe src v.block_size v.partition_start) is_k ∙ fe,
      )
      | inr old ↦
          let (x, there, read) = h.names j id old in
          (
            x,
            get_elem?-append_lt v.nodes (i ∷ []) id (get_elem?_inbounds v.nodes id there) ∙ there,
            read,
          )
    ];
    unique = λ a b id ha hb. elim (new_or_old a id ha) [
      | inl (a_k, a_last) ↦ elim (new_or_old b id hb) [
        | inl (b_k, _) ↦ a_k ∙ sym b_k
        | inr old ↦
            let (x, there, _) = h.names b id old in
            absurd (omega (arith, get_elem?_inbounds v.nodes id there, a_last))
      ]
      | inr a_old ↦ elim (new_or_old b id hb) [
        | inl (_, b_last) ↦
            let (x, there, _) = h.names a id a_old in
            absurd (omega (arith, get_elem?_inbounds v.nodes id there, b_last))
        | inr b_old ↦ h.unique a b id a_old b_old
      ]
    ];
  }

-- What `intern` does with an inode that is read at its block.
pub record Interns (src : BlockSource) (k : ℕ) (i : UdfInode) (v w : Udf) (id : NodeId)
    : Type 0 where
  pub is_interned : IsInterned src w
  pub keeps : Keeps v w
  pub node : get_elem? w.nodes id ≡ some i

pub intern-Interns :
    (src : BlockSource) (k : ℕ) (i : UdfInode) (v : Udf)
    → IsInterned src v
    → read_fe src v.block_size v.partition_start k ≡ ok i
    → Interns src k i v (intern k i v).1 (intern k i v).0
intern-Interns src k i v h fe = elim (Option-cases (TreeMap.lookup k v.by_lba)) [
  | inl new ↦
      let done : Interns src k i v (add_node k i v).1 (length v.nodes) = record {
        is_interned = add_node-IsInterned src k i v h fe;
        keeps = add_node-Keeps src k i v new;
        node = get_elem?-append_last v.nodes i;
      } in
      subst (λ r. Interns src k i v r.1 r.0) (sym (intern_new k i v new)) done
  | inr (id, known) ↦
      let (x, there, read) = h.names k id known in
      let done : Interns src k i v v id = record {
        is_interned = h;
        keeps = Keeps-refl v;
        node = there ∙ ap some (ok-injective (sym read ∙ fe));
      } in
      subst (λ r. Interns src k i v r.1 r.0) (sym (intern_known k i v id known)) done
]
