-- ===== src/Cramfs/Listing.antt =====
-- Directories of crates/lamfold-cramfs/src/cramfs.rs: a run of records, each an inode and its name.
use lamfold.Prelude.{
  ℕ, zero, suc, ◌+◌, ◌%◌, ◌≤◌, ltb, true, false, Bool-cases, inl, inr, List, [], ◌∷◌, ◌++◌,
  append_assoc, append-nil, ◌↔◌, ◌≡◌, refl, sym, ap, ◌∙◌, arith,
}
use lamfold.Error.{
  FoldError, ok, err, not_directory, ◌>>=◌, guard, bind-eq-ok, guard-eq-ok, Result-cases,
  ok-injective,
}
use lamfold.Frontend.{NodeId, Metadata, DirEntry}
use lamfold.Source.{BlockSource}
use lamfold.Cramfs.{
  CrInode, kind, is_directory_kind, parse_inode, read_entry, list_from, read_dir, metadata,
}

-- The records from `p` up to `end`.
pub data Records (src : BlockSource) (end : ℕ) : ℕ → List DirEntry → Type 0 where
  last : {p : ℕ} → ltb p end ≡ false → Records src end p []
  next :
      {p q : ℕ} {e : DirEntry} {es : List DirEntry}
      → ltb p end ≡ true
      → read_entry src p ≡ ok (e, q)
      → Records src end q es
      → Records src end p (e ∷ es)

-- `node` is a directory, and the run of records in its data lists `es`.
pub data ListsDir (src : BlockSource) (node : NodeId) (es : List DirEntry) : Type 0 where
  lists :
      (inode : CrInode)
      → parse_inode src node ≡ ok inode
      → is_directory_kind (kind inode.mode) ≡ true
      → Records src (inode.data_off + inode.size) inode.data_off es
      → ListsDir src node es

module _ (src : BlockSource) where
  -- A record passes over the twelve bytes of an inode at least.
  pub read_entry_moves :
      (p q : ℕ) (e : DirEntry) → read_entry src p ≡ ok (e, q) → (e.node ≡ p) × (p + 12 ≤ q)
  unfolding read_entry
  read_entry_moves p q e h =
      let (child, _, h1) = bind-eq-ok (parse_inode src p) _ h in
      let (name, _, h2) = bind-eq-ok (src.read_at (p + 12) child.namelen) _ h1 in
      let same = ok-injective h2 in
      (sym (ap (λ x. x.0.node) same), omega (arith, ap (λ x. x.1) same))

  turn_end :
      (turns end p : ℕ) (out : List DirEntry)
      → ltb p end ≡ false
      → list_from src (suc turns) end p out ≡ ok out
  unfolding list_from
  turn_end turns end p out e = rw (list_from, e)

  turn_entry :
      (turns end p q : ℕ) (out : List DirEntry) (e : DirEntry)
      → ltb p end ≡ true
      → read_entry src p ≡ ok (e, q)
      → list_from src (suc turns) end p out ≡ list_from src turns end q (out ++ e ∷ [])
  unfolding list_from
  turn_entry turns end p q out e on h = rw (list_from, on, h, ◌>>=◌)

  turn_fails :
      (turns end p : ℕ) (out : List DirEntry) {why : FoldError}
      → ltb p end ≡ true
      → read_entry src p ≡ err why
      → list_from src (suc turns) end p out ≡ err why
  unfolding list_from
  turn_fails turns end p out on h = rw (list_from, on, h, ◌>>=◌)

  list_from→Records :
      (turns end p : ℕ) (out res : List DirEntry)
      → end ≤ p + turns
      → list_from src turns end p out ≡ ok res
      → (es : List DirEntry) × (res ≡ out ++ es) × Records src end p es
  unfolding list_from
  list_from→Records zero end p out res enough h =
      ([], sym (ok-injective h) ∙ sym (append-nil out), last (ground arith))
  list_from→Records (suc turns) end p out res enough h = elim (Bool-cases (ltb p end)) [
    | inr off ↦ (
      [],
      sym (ok-injective (sym (turn_end turns end p out off) ∙ h)) ∙ sym (append-nil out),
      last off,
    )
    | inl on ↦ elim (Result-cases (read_entry src p)) [
      | inr (why, e) ↦ absurd (let bad = sym (turn_fails turns end p out on e) in cc)
      | inl ((e, q), read) ↦
          let moved = (read_entry_moves p q e read).1 in
          let (es, same, rest) =
            list_from→Records turns end q (out ++ e ∷ []) res (omega arith)
              (sym (turn_entry turns end p q out e on read) ∙ h) in
          (e ∷ es, same ∙ append_assoc out (e ∷ []) es, next on read rest)
    ]
  ]

  pub Records→list_from :
      (turns end p : ℕ) (out es : List DirEntry)
      → end ≤ p + turns
      → Records src end p es
      → list_from src turns end p out ≡ ok (out ++ es)
  unfolding list_from
  Records→list_from zero end p out es enough (last off) = ap ok (sym (append-nil out))
  Records→list_from zero end p out es enough (next on read rest) = absurd (ground arith)
  Records→list_from (suc turns) end p out es enough (last off) =
      turn_end turns end p out off ∙ ap ok (sym (append-nil out))
  Records→list_from (suc turns) end p out es enough (next {q = q} {e = e} {es = es'} on read rest) =
      let moved = (read_entry_moves p q e read).1 in
      turn_entry turns end p q out e on read
      ∙ Records→list_from turns end q (out ++ e ∷ []) es' (omega arith) rest
      ∙ ap ok (append_assoc out (e ∷ []) es')

  read_dir→ListsDir :
      (node : NodeId) (es : List DirEntry) → read_dir src node ≡ ok es → ListsDir src node es
  unfolding read_dir
  read_dir→ListsDir node es h =
      let (inode, at, h1) = bind-eq-ok (parse_inode src node) _ h in
      let (_, dir, h2) =
        bind-eq-ok (guard (is_directory_kind (kind inode.mode)) not_directory) _ h1 in
      let end = inode.data_off + inode.size in
      let (es', same, run) =
        list_from→Records inode.size end inode.data_off [] es (omega arith) h2 in
      lists inode at (guard-eq-ok _ _ dir) (rw same run)

  ListsDir→read_dir :
      (node : NodeId) (es : List DirEntry) → ListsDir src node es → read_dir src node ≡ ok es
  unfolding read_dir
  ListsDir→read_dir node es (lists inode at dir run) =
      rw (at, ◌>>=◌, dir)
        (Records→list_from inode.size (inode.data_off + inode.size) inode.data_off [] es
          (omega arith) run)

  -- `read_dir` lists `es` exactly when the node is a directory and the records in its data, one behind
  -- the other up to its size, are those of `es`: the loop ends, and its turns are enough.
  pub read_dir-ListsDir :
      (node : NodeId) (es : List DirEntry) → (read_dir src node ≡ ok es) ↔ ListsDir src node es
  read_dir-ListsDir node es = (read_dir→ListsDir node es, ListsDir→read_dir node es)

  -- The kind of each entry is the one that `metadata` gives for its node.
  abbrev pub Consistent : List DirEntry → Type 0
  Consistent [] = Unit
  Consistent (e ∷ es) =
      ((md : Metadata) × (metadata src e.node ≡ ok md) × (md.kind ≡ e.kind)) × Consistent es

  entry_metadata :
      (p q : ℕ) (e : DirEntry)
      → read_entry src p ≡ ok (e, q)
      → (md : Metadata) × (metadata src e.node ≡ ok md) × (md.kind ≡ e.kind)
  unfolding read_entry metadata
  entry_metadata p q e h =
      let (child, at, h1) = bind-eq-ok (parse_inode src p) _ h in
      let (name, _, h2) = bind-eq-ok (src.read_at (p + 12) child.namelen) _ h1 in
      let same = ok-injective h2 in
      let here = (read_entry_moves p q e h).0 in
      let md : Metadata = record {
        kind = kind child.mode;
        size = child.size;
        mode = child.mode % 4096;
      } in
      (md, rw (here, at) refl, ap (λ x. x.0.kind) same)

  Records-Consistent : {end p : ℕ} {es : List DirEntry} → Records src end p es → Consistent es
  Records-Consistent (last off) = tt
  Records-Consistent (next {p = p} {q = q} {e = e} on read rest) =
      (entry_metadata p q e read, Records-Consistent rest)

  -- Each entry that `read_dir` lists has a node whose metadata can be read, with the kind listed.
  pub read_dir-Consistent :
      (node : NodeId) (es : List DirEntry) → read_dir src node ≡ ok es → Consistent es
  read_dir-Consistent node es h = elim (read_dir→ListsDir node es h) [
    | lists inode at dir run ↦ Records-Consistent run
  ]
