-- ===== src/Tests/RockRidge.antt =====
-- Rock Ridge entries in a record and in a continuation area, and a symlink target.
use lamfold.Prelude.{
  ℕ, false, not, ◌&&◌, if◌then◌else◌, Bytes, List, [], ◌∷◌, ◌++◌, take, drop, replicate, le32_bytes,
  le32, le16, get_elem?, get_or, slice?, bytes_eq, position, some, none, ◌≡◌, refl, arith,
}
use lamfold.Codec.{decode}
use lamfold.Error.{ok}
use lamfold.Prelude.TreeMap
use lamfold.RockRidge.{default, feed, finish, is_empty, detect_sp}
use lamfold.RockRidge.Entries.{Entry, area_bytes, take_entries}
use lamfold.RockRidge.Names.{pieces, any_piece}
use lamfold.RockRidge.Links.{sl_entries, finish_target}
use lamfold.RockRidge.Targets.{parent, text, target_of}
use lamfold.Romfs.{find_name}
use lamfold.Source.{BlockSource}
use lamfold.Utf8.{is_utf8}
use lamfold.Iso9660.{key_ord, intern}
use lamfold.Iso9660.Areas.{Areas, last, more, parse_rock_ridge-Areas}
use lamfold.Iso9660.Compressed.{read_block, ptr, read_blocks, read_zisofs}
use lamfold.Iso9660.Descriptors.{probe, open_volume}
use lamfold.Iso9660.Records.{scan_from, entries_of, parse_rock_ridge}
use lamfold.Iso9660.Volume.{lookup, read_dir, metadata_at, read_at, read_link, read_plain}
use lamfold.Tests.Codec.{stored}
use lamfold.Tests.Sparse.{sparse_read, sparse, zeros}

program : Unit {0}
unfolding sparse_read replicate le32_bytes le32 le16 take drop get_elem? get_or slice? bytes_eq
    position is_utf8 intern TreeMap.lookup TreeMap.insert decode stored probe open_volume read_dir
    lookup metadata_at read_at read_link read_plain detect_sp feed finish scan_from find_name
    take_entries read_zisofs read_blocks read_block ptr parse_rock_ridge entries_of
program = tt

-- A name in two pieces, the second in a continuation area at block 30.
abbrev nm_entry : ℕ → Bytes → Entry
nm_entry flags name = record { sig0 = b'N'; sig1 = b'M'; version = 1; body = flags ∷ name }

abbrev ce_entry : ℕ → ℕ → ℕ → Entry
ce_entry block offset len = record {
  sig0 = b'C';
  sig1 = b'E';
  version = 1;
  body =
      le32_bytes block
      ++ (zeros 4 ++ (le32_bytes offset ++ (zeros 4 ++ (le32_bytes len ++ zeros 4))));
}

abbrev first_entries : List Entry
first_entries = nm_entry 1 (b'l' ∷ b'o' ∷ []) ∷ ce_entry 30 4 7 ∷ []

abbrev later_entries : List Entry
later_entries = nm_entry 0 (b'n' ∷ b'g' ∷ []) ∷ []

abbrev area_src : BlockSource
area_src = sparse ((61444, area_bytes later_entries) ∷ [])

long_name-Areas :
    Areas area_src 2048 16 (area_bytes first_entries ++ []) (first_entries ++ later_entries)
unfolding program
long_name-Areas =
    more {area = area_bytes later_entries ++ []} {fs = later_entries} first_entries []
      (record { block = 30; offset = 4; len = 7 }) ((omega arith, refl), ((omega arith, refl), tt))
      refl refl (omega arith) (omega arith) (omega arith) refl
      (last later_entries [] ((omega arith, refl), tt) refl refl)

parse_rock_ridge-Areas_example :
    let es = first_entries ++ later_entries in
    (parse_rock_ridge area_src 2048 (area_bytes first_entries ++ [])
      ≡ ok (finish (take_entries es (default, none)).0))
    × ((finish (take_entries es (default, none)).0).name ≡ (
        if any_piece es && (is_utf8 (pieces es) && not (is_empty (pieces es)))
        then some (pieces es)
        else none))
parse_rock_ridge-Areas_example =
    parse_rock_ridge-Areas area_src 2048 (area_bytes first_entries ++ [])
      (first_entries ++ later_entries) long_name-Areas

-- "../xy", with the last name in two pieces that stand in two entries.
finish_target_example :
    (finish
      (take_entries
        (sl_entries (((4, []) ∷ (1, b'x' ∷ []) ∷ []) ∷ ((0, b'y' ∷ []) ∷ []) ∷ []))
        (default, none)).0).symlink_target
    ≡ some (target_of false (parent ∷ text (b'x' ∷ []) ((b'y' ∷ []) ∷ []) ∷ []))
unfolding program
finish_target_example =
    finish_target false (parent ∷ text (b'x' ∷ []) ((b'y' ∷ []) ∷ []) ∷ [])
      ((4, []) ∷ (1, b'x' ∷ []) ∷ []) (((0, b'y' ∷ []) ∷ []) ∷ [])
      ((refl, refl), ((refl, refl), tt)) refl
