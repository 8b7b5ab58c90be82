-- ===== src/Udf/Mounted.antt =====
-- A volume from `open` on, for crates/lamfold-udf/src/udf.rs.
use lamfold.Prelude.{
  ℕ, ◌/◌, min, ◌==◌, Bytes, List, [], ◌∷◌, ◌++◌, get_elem?, some, none, inl, inr, ◌≡◌, refl, sym,
  ap, ◌∙◌, subst, if◌then◌else◌,
}
use lamfold.Error.{Result, ok, err, corrupt, Result-cases, ok-injective, bind-eq-ok, ok_or, guard}
use lamfold.Frontend.{NodeId, DirEntry}
use lamfold.Prelude.TreeMap
use lamfold.Prelude.TreeMap.{nat_ord}
use lamfold.Source.{BlockSource}
use lamfold.Udf.{
  sector, avdp_sector, block_add, UdfInode, Udf, intern, le_u16, le_u32, read_block, read_fe,
}
use lamfold.Udf.Names.{Fid}
use lamfold.Udf.Nodes.{IsInterned, Keeps, Keeps-refl, Keeps-trans, intern-Interns}
use lamfold.Udf.Volume.{
  dir_fids, list_fids, read_dir, lookup, scan_sequence, open_file_set, open_volume,
}

module _ (src : BlockSource) where
  -- A listed entry has a node, with the kind that is listed.
  abbrev pub HasKind : Udf → DirEntry → Type 0
  HasKind w e = (i : UdfInode) × (get_elem? w.nodes e.node ≡ some i) × (i.kind ≡ e.kind)

  abbrev pub HaveKinds : Udf → List DirEntry → Type 0
  HaveKinds w [] = Unit
  HaveKinds w (e ∷ es) = HasKind w e × HaveKinds w es

  HaveKinds-Keeps : (v w : Udf) (es : List DirEntry) → Keeps v w → HaveKinds v es → HaveKinds w es
  HaveKinds-Keeps v w [] k h = tt
  HaveKinds-Keeps v w (e ∷ es) k ((i, at, kind), h) =
      ((i, k.nodes e.node i at, kind), HaveKinds-Keeps v w es k h)

  HaveKinds-append :
      (w : Udf) (xs ys : List DirEntry) → HaveKinds w xs → HaveKinds w ys → HaveKinds w (xs ++ ys)
  HaveKinds-append w [] ys h k = k
  HaveKinds-append w (x ∷ xs) ys h k = (h.0, HaveKinds-append w xs ys h.1 k)

  abbrev pub OkKinds : Udf → Result (List DirEntry) → Type 0
  OkKinds w (ok es) = HaveKinds w es
  OkKinds w (err why) = Unit

  -- The invariant, what is kept, and the kinds of what is listed.
  abbrev pub Lists : Udf → Result (List DirEntry) × Udf → Type 0
  Lists v (r, w) = IsInterned src w × Keeps v w × OkKinds w r

  list_fids-Lists :
      (fids : List Fid) (out : List DirEntry) (v : Udf)
      → IsInterned src v
      → HaveKinds v out
      → Lists v (list_fids src fids out v)
  unfolding list_fids
  list_fids-Lists [] out v h k = (h, Keeps-refl v, k)
  list_fids-Lists ((name, fe_lba) ∷ fids) out v h k =
      elim (Result-cases (read_fe src v.block_size v.partition_start fe_lba)) [
        | inr (why, e) ↦ rw (list_fids, e) (h, Keeps-refl v, tt)
        | inl (child, e) ↦
            let done = intern-Interns src fe_lba child v h e in
            let w = (intern fe_lba child v).1 in
            let entry : DirEntry = record {
              name = name;
              node = (intern fe_lba child v).0;
              kind = child.kind;
            } in
            let more =
              HaveKinds-append w out (entry ∷ []) (HaveKinds-Keeps v w out done.keeps k)
                ((child, done.node, refl), tt) in
            let (inv, keeps, kinds) =
              list_fids-Lists fids (out ++ entry ∷ []) w done.is_interned more in
            rw (list_fids, e)
              (
                inv,
                Keeps-trans v w (list_fids src fids (out ++ entry ∷ []) w).1 done.keeps keeps,
                kinds,
              )
      ]

  read_dir-Lists : (dir : NodeId) (v : Udf) → IsInterned src v → Lists v (read_dir src dir v)
  unfolding read_dir
  read_dir-Lists dir v h = elim (Result-cases (dir_fids src v dir)) [
    | inr (why, e) ↦ rw (read_dir, e) (h, Keeps-refl v, tt)
    | inl (fids, e) ↦ rw (read_dir, e) (list_fids-Lists fids [] v h tt)
  ]

  -- Sequences of the calls that change the state.
  pub data Calls (v : Udf) : Udf → Type 0 where
    here : Calls v v
    looked : {w : Udf} (dir : NodeId) (name : Bytes) → Calls v w → Calls v (lookup src dir name w).1
    listed : {w : Udf} (dir : NodeId) → Calls v w → Calls v (read_dir src dir w).1

  pub Calls-Keeps : (v w : Udf) → IsInterned src v → Calls v w → IsInterned src w × Keeps v w
  unfolding lookup
  Calls-Keeps v _ h here = (h, Keeps-refl v)
  Calls-Keeps v _ h (looked {w = w} dir name before) =
      let (inv, kept) = Calls-Keeps v w h before in
      let (inv', kept', _) = read_dir-Lists dir w inv in
      (inv', Keeps-trans v w (read_dir src dir w).1 kept kept')
  Calls-Keeps v _ h (listed {w = w} dir before) =
      let (inv, kept) = Calls-Keeps v w h before in
      let (inv', kept', _) = read_dir-Lists dir w inv in
      (inv', Keeps-trans v w (read_dir src dir w).1 kept kept')

  empty-IsInterned : (v : Udf) → v.by_lba ≡ [] → IsInterned src v
  unfolding TreeMap.lookup
  empty-IsInterned v e = record {
    names = λ k id h. absurd (let bad = ap (TreeMap.lookup k) (sym e) ∙ h in cc);
    unique = λ j k id h _. absurd (let bad = ap (TreeMap.lookup j) (sym e) ∙ h in cc);
  }

  open_file_set-IsInterned :
      (block_size start fsd_lb : ℕ) (v : Udf)
      → open_file_set src block_size start fsd_lb ≡ ok v
      → IsInterned src v
  unfolding open_file_set
  open_file_set-IsInterned block_size start fsd_lb v h =
      let (fsd, _, h1) = bind-eq-ok (read_block src block_size (block_add start fsd_lb)) _ h in
      let (tag, _, h2) = bind-eq-ok (le_u16 fsd 0) _ h1 in
      let (_, _, h3) =
        bind-eq-ok (guard (tag == 256) (corrupt "udf: no File Set Descriptor")) _ h2 in
      let (lb, _, h4) = bind-eq-ok (le_u32 fsd 404) _ h3 in
      let (root, fe, h5) = bind-eq-ok (read_fe src block_size start (block_add start lb)) _ h4 in
      let empty : Udf = record {
        block_size = block_size;
        partition_start = start;
        nodes = [];
        by_lba = [];
      } in
      subst (IsInterned src) (ok-injective h5)
        (intern-Interns src (block_add start lb) root empty (empty-IsInterned empty refl)
          fe).is_interned

  pub open_volume-IsInterned : (v : Udf) → open_volume src ≡ ok v → IsInterned src v
  unfolding open_volume
  open_volume-IsInterned v h =
      let (avdp, _, h1) = bind-eq-ok (read_block src sector avdp_sector) _ h in
      let (tag, _, h2) = bind-eq-ok (le_u16 avdp 0) _ h1 in
      let (_, _, h3) =
        bind-eq-ok (guard (tag == 2) (corrupt "udf: no Anchor VD Pointer at sector 256")) _ h2 in
      let (len, _, h4) = bind-eq-ok (le_u32 avdp 16) _ h3 in
      let (loc, _, h5) = bind-eq-ok (le_u32 avdp 20) _ h4 in
      let (st, _, h6) =
        bind-eq-ok
          (scan_sequence src (min (len / sector) 64) loc 0
            (record { partition = none; volume = none }))
          _ h5 in
      let (start, _, h7) =
        bind-eq-ok (ok_or st.partition (corrupt "udf: no Partition Descriptor")) _ h6 in
      let (lvd, _, h8) =
        bind-eq-ok (ok_or st.volume (corrupt "udf: no Logical Volume Descriptor")) _ h7 in
      open_file_set-IsInterned (if lvd.0 == 0 then sector else lvd.0) start lvd.1 v h8

  -- From `open` on, through any calls of `lookup` and `read_dir`, the failing ones too: a File Entry that
  -- the table knows has one node, which holds the inode read at its block; nodes that were handed out stay;
  -- and each entry that a listing gives has a node of the kind listed.
  pub mounted-Lists :
      (v w : Udf) (dir : NodeId) → open_volume src ≡ ok v → Calls v w → Lists w (read_dir src dir w)
  mounted-Lists v w dir opened calls =
      read_dir-Lists dir w (Calls-Keeps v w (open_volume-IsInterned v opened) calls).0
