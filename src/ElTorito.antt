-- ===== src/ElTorito.antt =====
-- crates/lamfold-iso/src/el_torito.rs: the boot catalogue of an ISO image.
pub mod Layout
pub mod Sections
pub mod Catalog
use lamfold.Prelude.{
  ℕ, zero, suc, ◌+◌, ◌*◌, ◌/◌, ◌%◌, ◌^◌, Bool, true, false, ◌&&◌, ◌||◌, not, ltb, leb, ◌==◌,
  if◌then◌else◌, Bytes, List, [], ◌∷◌, length, take, drop, get_or, slice?, le16, le32, bytes_eq,
  Option, none, some,
}

abbrev pub platform_uefi : ℕ
platform_uefi = 0xef

abbrev pub bootable : ℕ
bootable = 0x88

pub record UefiImage : Type 0 where
  pub lba : ℕ
  pub sectors : ℕ

unfoldable pub parse_entry : Bytes → Option UefiImage
unfolding get_or le16 le32 drop
parse_entry e =
    if ltb (length e) 12 || not (get_or e 0 0 == bootable)
    then none
    else some (record { lba = le32 (drop 8 e); sectors = le16 (drop 6 e) })

-- `for _ in 0..n_entries`: the image, if an entry has one, and the offset that the loop leaves.
unfoldable pub scan_entries : ℕ → Bytes → ℕ → Option UefiImage × ℕ
unfolding parse_entry take drop
scan_entries zero cat off = (none, off)
scan_entries (suc n) cat off = elim (ltb (length cat) (off + 32)) [
  | true ↦ (none, off)
  | false ↦ elim (parse_entry (take 32 (drop off cat))) [
    | some img ↦ (some img, off)
    | none ↦ scan_entries n cat (off + 32)
  ]
]

-- What the entries behind a header give: only a UEFI section is searched.
unfoldable pub section : Bytes → ℕ → ℕ → ℕ → Option UefiImage × ℕ
unfolding scan_entries
section cat platform n off =
    if platform == platform_uefi then scan_entries n cat off else (none, off + n * 32)

-- The walk over the section headers, on fuel: each turn passes over a header.
unfoldable pub walk_headers : ℕ → Bytes → ℕ → Option UefiImage
unfolding section drop get_or le16
walk_headers zero cat off = none
walk_headers (suc fuel) cat off = elim (leb (off + 32) (length cat)) [
  | false ↦ none
  | true ↦
      let hdr = drop off cat in
      let indicator = get_or hdr 0 0 in
      elim (indicator == 0x90 || indicator == 0x91) [
        | false ↦ none
        | true ↦
            let found = section cat (get_or hdr 1 0) (le16 (drop 2 hdr)) (off + 32) in
            elim found.0 [
              | some img ↦ some img
              | none ↦ elim (indicator == 0x91) [
                | true ↦ none
                | false ↦ walk_headers fuel cat found.1
              ]
            ]
      ]
]

unfoldable pub parse_catalog : Bytes → Option UefiImage
unfolding get_or parse_entry take drop walk_headers
parse_catalog cat =
    if ltb (length cat) 64
      || (not (get_or cat 0 0 == 0x01)
          || (not (get_or cat 30 0 == 0x55) || not (get_or cat 31 0 == 0xaa)))
    then none
    else if get_or cat 1 0 == platform_uefi
    then parse_entry (take 32 (drop 32 cat))
    else walk_headers (length cat) cat 64

-- `fat_image_sectors`; `get(i)?` on a boot sector whose bytes 510 and 511 are there cannot fail.
unfoldable pub fat_image_sectors : Bytes → Option ℕ
unfolding slice? bytes_eq get_or le16 le32 drop
fat_image_sectors boot = elim (slice? boot 510 2) [
  | none ↦ none
  | some key ↦
      let bytes_per_sector = le16 (drop 11 boot) in
      let total16 = le16 (drop 19 boot) in
      let total = if total16 == 0 then le32 (drop 32 boot) else total16 in
      if not (bytes_eq key (0x55 ∷ 0xaa ∷ []))
      then none
      else if not (
          bytes_per_sector == 512
          || (bytes_per_sector == 1024 || (bytes_per_sector == 2048 || bytes_per_sector == 4096)))
      then none
      else if total == 0
      then none
      else if ltb (total * (bytes_per_sector / 512)) (2 ^ 32)
      then some (total * (bytes_per_sector / 512))
      else none
]
