-- ===== src/Iso9660/Descriptors.antt =====
-- The volume descriptors and the boot image of crates/lamfold-iso/src/iso9660.rs: `probe`, `open` and
-- `el_torito_uefi_image`.
use lamfold.Prelude.{
  ℕ, zero, suc, ◌+◌, ◌*◌, ◌%◌, Bool, true, false, not, ◌&&◌, ◌||◌, leb, ltb, ◌==◌, if◌then◌else◌,
  Bytes, [], ◌∷◌, length, take, drop, get_or, get_elem?, slice?, bytes_eq, Option, none, some,
}
use lamfold.ElTorito.{UefiImage, parse_catalog, fat_image_sectors}
use lamfold.Error.{Result, ok, corrupt, ◌>>=◌, ◌>>◌, guard, ok_or}
use lamfold.RockRidge.{detect_sp}
use lamfold.Source.{BlockSource}
use lamfold.Iso9660.{Inode, Iso, intern, le_u16, le_u32, root_record, read_dir_extent}

abbrev pub vd_region_offset : ℕ
vd_region_offset = 16 * 2048

abbrev pub vd_size : ℕ
vd_size = 2048

abbrev pub max_vd_scan : ℕ
max_vd_scan = 64

abbrev pub standard_id : Bytes
standard_id = b'C' ∷ b'D' ∷ b'0' ∷ b'0' ∷ b'1' ∷ []

-- "EL TORITO SPECIFICATION".
abbrev pub el_torito_id : Bytes
el_torito_id =
    b'E' ∷ b'L' ∷ 0x20 ∷ b'T' ∷ b'O' ∷ b'R' ∷ b'I' ∷ b'T' ∷ b'O' ∷ 0x20 ∷ b'S' ∷ b'P' ∷ b'E' ∷ b'C'
    ∷ b'I' ∷ b'F' ∷ b'I' ∷ b'C' ∷ b'A' ∷ b'T' ∷ b'I' ∷ b'O' ∷ b'N' ∷ []

-- What the loop over the descriptors of `open` has found.
pub record Found : Type 0 where
  pub block_size : ℕ
  pub pvd_root : Option Inode
  pub joliet_root : Option Inode
  pub catalog : Option ℕ

-- A Joliet escape sequence at offset 88 of a descriptor.
unfoldable pub is_joliet : Bytes → Bool
unfolding get_or
is_joliet vd =
    let level = get_or vd 90 0 in
    get_or vd 88 0 == 0x25
    && get_or vd 89 0 == 0x2f
    && (level == 0x40 || level == 0x43 || level == 0x45)

-- A primary, a boot record and a supplementary descriptor.
unfoldable pub take_primary : Bytes → Found → Result Found
unfolding le_u16 root_record
take_primary vd st = do
  block_size ← le_u16 vd 128
  guard (not (block_size == 0)) (corrupt "iso: zero logical block size")
  root ← root_record vd
  ok (record st { block_size = block_size; pvd_root = some root })

unfoldable pub take_boot_record : Bytes → Found → Result Found
unfolding slice? bytes_eq le_u32
take_boot_record vd st = elim (slice? vd 7 23) [
  | none ↦ ok st
  | some id ↦ elim (bytes_eq id el_torito_id) [
    | false ↦ ok st
    | true ↦ do lba ← le_u32 vd 71; ok (record st { catalog = some lba })
  ]
]

unfoldable pub take_supplementary : Bytes → Found → Result Found
unfolding is_joliet root_record
take_supplementary vd st = elim (is_joliet vd) [
  | false ↦ ok st
  | true ↦ do root ← root_record vd; ok (record st { joliet_root = some root })
]

unfoldable pub take_descriptor : ℕ → Bytes → Found → Result Found
unfolding take_primary take_boot_record take_supplementary
take_descriptor vd_type vd st =
    if vd_type == 1
    then take_primary vd st
    else if vd_type == 0
    then take_boot_record vd st
    else if vd_type == 2
    then take_supplementary vd st
    else ok st

-- The root record is the "." of the root directory.
unfoldable pub root_system_use : Bytes → Result (Option ℕ)
unfolding slice? get_elem? drop detect_sp take
root_system_use buf = do
  rec ← ok_or (slice? buf 0 (get_or buf 0 0)) (corrupt "iso: short root record")
  fi_len ← ok_or (get_elem? rec 32) (corrupt "iso: short root record")
  let pad = if fi_len % 2 == 0 then 1 else 0
  ok (detect_sp (drop (33 + fi_len + pad) rec))

-- The name tree that `open` settles on: its root, the skip length of Rock Ridge, and Joliet.
abbrev pub choose_root : Option ℕ → Option Inode → Inode → Inode × Option ℕ × Bool
choose_root (some skip) joliet_root pvd_root = (pvd_root, some skip, false)
choose_root none (some root) pvd_root = (root, none, true)
choose_root none none pvd_root = (pvd_root, none, false)

module _ (src : BlockSource) where
  unfoldable pub probe : Result Bool
  unfolding bytes_eq take drop
  probe =
      if ltb src.len (vd_region_offset + 8)
      then ok false
      else do hdr ← src.read_at vd_region_offset 8; ok (bytes_eq (take 5 (drop 1 hdr)) standard_id)

  -- The loop over `0..MAX_VD_SCAN`, at descriptor `i`.
  unfoldable pub scan_descriptors : ℕ → ℕ → Found → Result Found
  unfolding bytes_eq take drop get_or take_descriptor
  scan_descriptors zero i st = ok st
  scan_descriptors (suc turns) i st =
      let off = vd_region_offset + i * vd_size in
      elim (ltb src.len (off + vd_size)) [
        | true ↦ ok st
        | false ↦ do
          vd ← src.read_at off vd_size
          guard (bytes_eq (take 5 (drop 1 vd)) standard_id)
              (corrupt "iso: missing CD001 standard id")
          elim (get_or vd 0 0 == 255) [
            | true ↦ ok st
            | false ↦ do
              st' ← take_descriptor (get_or vd 0 0) vd st
              scan_descriptors turns (suc i) st'
          ]
      ]

  unfoldable pub detect_susp : ℕ → Inode → Result (Option ℕ)
  unfolding read_dir_extent root_system_use
  detect_susp block_size root = do
    buf ← read_dir_extent src block_size root
    elim (length buf == 0) [ true ↦ ok none | false ↦ root_system_use buf ]

  unfoldable pub open_volume : Result Iso
  unfolding scan_descriptors detect_susp intern
  open_volume = do
    st ←
        scan_descriptors max_vd_scan 0
          (record { block_size = 2048; pvd_root = none; joliet_root = none; catalog = none })
    pvd_root ← ok_or st.pvd_root (corrupt "iso: no primary volume descriptor")
    susp ← detect_susp st.block_size pvd_root
    let (root, skip, joliet) = choose_root susp st.joliet_root pvd_root
    ok
        (intern root (record {
          block_size = st.block_size;
          nodes = [];
          by_record = [];
          rock_ridge = elim skip [ some _ ↦ true | none ↦ false ];
          susp_skip = elim skip [ some n ↦ n | none ↦ 0 ];
          joliet = joliet;
          el_torito_catalog_lba = st.catalog;
        })).1

  -- The image with the size that its own boot sector gives, if the catalogue does not.
  unfoldable pub sized_image : Iso → UefiImage → Result UefiImage
  unfolding fat_image_sectors
  sized_image v image =
      let at = image.lba * v.block_size in
      elim (leb image.sectors 1 && leb (at + 512) src.len) [
        | false ↦ ok image
        | true ↦ do
          boot ← src.read_at at 512
          ok (elim (fat_image_sectors boot) [
            | none ↦ image
            | some n ↦ record image { sectors = n }
          ])
      ]

  unfoldable pub el_torito_uefi_image : Iso → Result (Option UefiImage)
  unfolding parse_catalog sized_image
  el_torito_uefi_image v = elim v.el_torito_catalog_lba [
    | none ↦ ok none
    | some cat_lba ↦
        let off = cat_lba * v.block_size in
        elim (ltb src.len (off + vd_size)) [
          | true ↦ ok none
          | false ↦ do
            cat ← src.read_at off vd_size
            elim (parse_catalog cat) [
              | none ↦ ok none
              | some found ↦ do image ← sized_image v found; ok (some image)
            ]
        ]
  ]
