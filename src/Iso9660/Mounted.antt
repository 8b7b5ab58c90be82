-- ===== src/Iso9660/Mounted.antt =====
-- A volume from `open` on, for crates/lamfold-iso/src/iso9660.rs.
use lamfold.Prelude.{
  ℕ, zero, suc, ◌+◌, ◌*◌, true, false, not, ◌==◌, ltb, inl, inr, Bytes, [], ◌∷◌, ◌++◌, get_elem?,
  get_or, slice?, take, drop, bytes_eq, Option, some, none, ◌≡◌, refl, sym, ap, ◌∙◌, subst,
  if-split,
}
use lamfold.Error.{
  ok, corrupt, ok_or, guard, bind-eq-ok, ok_or-eq-ok, ok-injective, if-eq-ok, option-eq-ok,
}
use lamfold.Prelude.TreeMap
use lamfold.Source.{BlockSource}
use lamfold.Iso9660.{key_ord, Inode, Iso, intern, le_u16, le_u32, root_record}
use lamfold.Iso9660.Descriptors.{
  Found, vd_region_offset, vd_size, max_vd_scan, standard_id, el_torito_id, is_joliet, take_primary,
  take_boot_record, take_supplementary, take_descriptor, choose_root, scan_descriptors, detect_susp,
  open_volume,
}
use lamfold.Iso9660.Interned.{IsInterned, Extends, intern-Interns, intern_new}
use lamfold.Iso9660.Listed.{Calls, Calls-Grows}
use lamfold.Iso9660.Volume.{is_dir_kind}

abbrev IsDirRoot : Option Inode → Type 0
IsDirRoot none = Unit
IsDirRoot (some i) = is_dir_kind i.kind ≡ true

-- The roots found so far are directories.
abbrev HasDirRoots : Found → Type 0
HasDirRoots st = IsDirRoot st.pvd_root × IsDirRoot st.joliet_root

root_record-IsDirRoot : (vd : Bytes) (i : Inode) → root_record vd ≡ ok i → IsDirRoot (some i)
unfolding root_record
root_record-IsDirRoot vd i h =
    let (rdr, _, h1) = bind-eq-ok (ok_or (slice? vd 156 34) _) _ h in
    let (lba, _, h2) = bind-eq-ok (le_u32 rdr 2) _ h1 in
    let (size, _, h3) = bind-eq-ok (le_u32 rdr 10) _ h2 in
    ap (λ j. is_dir_kind j.kind) (sym (ok-injective h3))

take_primary-HasDirRoots :
    (vd : Bytes) (st st' : Found) → take_primary vd st ≡ ok st' → HasDirRoots st → HasDirRoots st'
unfolding take_primary
take_primary-HasDirRoots vd st st' h k =
    let (bs, _, h1) = bind-eq-ok (le_u16 vd 128) _ h in
    let (_, _, h2) = bind-eq-ok (guard (not (bs == 0)) _) _ h1 in
    let (root, at, h3) = bind-eq-ok (root_record vd) _ h2 in
    subst HasDirRoots (ok-injective h3) (root_record-IsDirRoot vd root at, k.1)

take_boot_record-HasDirRoots :
    (vd : Bytes) (st st' : Found)
    → take_boot_record vd st ≡ ok st'
    → HasDirRoots st
    → HasDirRoots st'
unfolding take_boot_record
take_boot_record-HasDirRoots vd st st' h k = elim (option-eq-ok (slice? vd 7 23) _ _ h) [
  | inl (_, same) ↦ subst HasDirRoots (ok-injective same) k
  | inr (id, _, rest) ↦ elim (if-eq-ok (bytes_eq id el_torito_id) _ _ rest) [
    | inl (_, found) ↦
        let (lba, _, done) = bind-eq-ok (le_u32 vd 71) _ found in
        subst HasDirRoots (ok-injective done) k
    | inr (_, same) ↦ subst HasDirRoots (ok-injective same) k
  ]
]

take_supplementary-HasDirRoots :
    (vd : Bytes) (st st' : Found)
    → take_supplementary vd st ≡ ok st'
    → HasDirRoots st
    → HasDirRoots st'
unfolding take_supplementary
take_supplementary-HasDirRoots vd st st' h k = elim (if-eq-ok (is_joliet vd) _ _ h) [
  | inl (_, found) ↦
      let (root, at, done) = bind-eq-ok (root_record vd) _ found in
      subst HasDirRoots (ok-injective done) (k.0, root_record-IsDirRoot vd root at)
  | inr (_, same) ↦ subst HasDirRoots (ok-injective same) k
]

take_descriptor-HasDirRoots :
    (t : ℕ) (vd : Bytes) (st st' : Found)
    → take_descriptor t vd st ≡ ok st'
    → HasDirRoots st
    → HasDirRoots st'
unfolding take_descriptor
take_descriptor-HasDirRoots t vd st st' h k = elim (if-split (t == 1) _ _ h) [
  | inl (_, primary) ↦ take_primary-HasDirRoots vd st st' primary k
  | inr (_, h1) ↦ elim (if-split (t == 0) _ _ h1) [
    | inl (_, boot) ↦ take_boot_record-HasDirRoots vd st st' boot k
    | inr (_, h2) ↦ elim (if-split (t == 2) _ _ h2) [
      | inl (_, other) ↦ take_supplementary-HasDirRoots vd st st' other k
      | inr (_, same) ↦ subst HasDirRoots (ok-injective same) k
    ]
  ]
]

choose_root-IsDirRoot :
    (susp : Option ℕ) (joliet : Option Inode) (pvd : Inode)
    → IsDirRoot joliet
    → IsDirRoot (some pvd)
    → IsDirRoot (some (choose_root susp joliet pvd).0)
choose_root-IsDirRoot (some skip) joliet pvd j p = p
choose_root-IsDirRoot none (some root) pvd j p = j
choose_root-IsDirRoot none none pvd j p = p

module _ (src : BlockSource) where
  scan_descriptors-HasDirRoots :
      (turns i : ℕ) (st st' : Found)
      → scan_descriptors src turns i st ≡ ok st'
      → HasDirRoots st
      → HasDirRoots st'
  unfolding scan_descriptors
  scan_descriptors-HasDirRoots zero i st st' h k = subst HasDirRoots (ok-injective h) k
  scan_descriptors-HasDirRoots (suc turns) i st st' h k =
      let off = vd_region_offset + i * vd_size in
      elim (if-eq-ok (ltb src.len (off + vd_size)) _ _ h) [
        | inl (_, same) ↦ subst HasDirRoots (ok-injective same) k
        | inr (_, rest) ↦
            let (vd, _, h1) = bind-eq-ok (src.read_at off vd_size) _ rest in
            let (_, _, h2) =
              bind-eq-ok (guard (bytes_eq (take 5 (drop 1 vd)) standard_id) _) _ h1 in
            elim (if-eq-ok (get_or vd 0 0 == 255) _ _ h2) [
              | inl (_, same) ↦ subst HasDirRoots (ok-injective same) k
              | inr (_, on) ↦
                  let (next, took, h3) = bind-eq-ok (take_descriptor (get_or vd 0 0) vd st) _ on in
                  scan_descriptors-HasDirRoots turns (suc i) next st' h3
                    (take_descriptor-HasDirRoots (get_or vd 0 0) vd st next took k)
            ]
      ]

-- No nodes agree with an empty table.
empty-IsInterned : (v : Iso) → v.nodes ≡ [] → v.by_record ≡ [] → IsInterned v
unfolding get_elem? TreeMap.lookup
empty-IsInterned v n r = record {
  names = λ k id h. absurd (let bad = ap (TreeMap.lookup k) (sym r) ∙ h in cc);
  listed = λ id i h. absurd (let bad = ap (λ l. get_elem? l id) (sym n) ∙ h in cc);
}

-- Node 0 is the record of a directory.
abbrev pub HasRoot : Iso → Type 0
HasRoot v = (i : Inode) × (get_elem? v.nodes 0 ≡ some i) × (is_dir_kind i.kind ≡ true)

intern_first :
    (i : Inode) (v : Iso)
    → v.nodes ≡ []
    → v.by_record ≡ []
    → is_dir_kind i.kind ≡ true
    → IsInterned (intern i v).1 × HasRoot (intern i v).1
unfolding get_elem? TreeMap.lookup
intern_first i v n r dir =
    let new : TreeMap.lookup i.key v.by_record ≡ none = rw r refl in
    (
      (intern-Interns i v (empty-IsInterned v n r)).is_interned,
      subst (λ s. HasRoot s.1) (sym (intern_new i v new))
          (i, ap (λ l. get_elem? (l ++ i ∷ []) 0) n, dir),
    )

open_volume-IsInterned :
    (src : BlockSource) (v : Iso) → open_volume src ≡ ok v → IsInterned v × HasRoot v
unfolding open_volume
open_volume-IsInterned src v h =
    let start : Found = record {
      block_size = 2048;
      pvd_root = none;
      joliet_root = none;
      catalog = none;
    } in
    let (st, scanned, h1) = bind-eq-ok (scan_descriptors src max_vd_scan 0 start) _ h in
    let (pvd, has_pvd, h2) =
      bind-eq-ok (ok_or st.pvd_root (corrupt "iso: no primary volume descriptor")) _ h1 in
    let (susp, _, h3) = bind-eq-ok (detect_susp src st.block_size pvd) _ h2 in
    let dirs = scan_descriptors-HasDirRoots src max_vd_scan 0 start st scanned (tt, tt) in
    let pvd_dir = subst IsDirRoot (ok_or-eq-ok st.pvd_root _ has_pvd) dirs.0 in
    let choice = choose_root susp st.joliet_root pvd in
    let empty : Iso = record {
      block_size = st.block_size;
      nodes = [];
      by_record = [];
      rock_ridge = elim choice.1 [ some _ ↦ true | none ↦ false ];
      susp_skip = elim choice.1 [ some n ↦ n | none ↦ 0 ];
      joliet = choice.2;
      el_torito_catalog_lba = st.catalog;
    } in
    let root_dir = choose_root-IsDirRoot susp st.joliet_root pvd dirs.1 pvd_dir in
    subst (λ w. IsInterned w × HasRoot w) (ok-injective h3)
      (intern_first choice.0 empty refl refl root_dir)

-- From `open` on, through any calls of `lookup` and `read_dir`: the intern table and the nodes agree, so that
-- a directory record has one node and a node one record; node 0 is a directory; and a node that was
-- handed out keeps its inode.
pub open-Calls :
    (src : BlockSource) (v u w : Iso)
    → open_volume src ≡ ok v
    → Calls src v u
    → Calls src u w
    → IsInterned w × HasRoot w × Extends u w
open-Calls src v u w h before after =
    let (first, (root, at, dir)) = open_volume-IsInterned src v h in
    let until = Calls-Grows src v u first before in
    let then_ = Calls-Grows src u w until.is_interned after in
    (then_.is_interned, (root, then_.extends 0 root (until.extends 0 root at), dir), then_.extends)
