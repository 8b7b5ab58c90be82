-- ===== src/Iso9660/Held.antt =====
-- What a directory holds that the scan of crates/lamfold-iso/src/iso9660.rs reads: records, padding, and files
-- in several records, on a volume without Rock Ridge.
use lamfold.Prelude.{
  ℕ, ◌+◌, ◌*◌, ◌/◌, ◌%◌, ◌^◌, ◌≤◌, ◌<◌, Bool, true, false, not, ◌&&◌, Bytes, List, [], ◌∷◌, ◌++◌,
  length, get_or, none, ◌≡◌, if◌then◌else◌,
}
use lamfold.Error.{ok}
use lamfold.Frontend.{regular, directory}
use lamfold.Iso9660.{Inode, Reading, decode_name, decode_name_joliet}
use lamfold.Iso9660.Records.{max_extents, flag_directory, flag_multi_extent, is_dot}
use lamfold.Iso9660.Written.{RawRecord, FitsRecord, record_length, HasRecord}

-- The inode of a record at `pos`, and that of a file whose later records add `xs`.
abbrev pub inode_of : ℕ → ℕ → RawRecord → Inode
inode_of dir_lba pos r = record {
  key = (dir_lba, pos % 2 ^ 32);
  lba = r.lba;
  size = r.size;
  extents = (r.lba, r.size) ∷ [];
  kind = if flag_directory r.flags then directory else regular;
  link_target = none;
  zisofs = none;
}

abbrev pub total : List (ℕ × ℕ) → ℕ
total [] = 0
total ((lba, size) ∷ xs) = size + total xs

abbrev pub with_extents : List (ℕ × ℕ) → Inode → Inode
with_extents xs inode = record inode { extents = inode.extents ++ xs; size = inode.size + total xs }

-- Whether more records of the file follow.
abbrev pub goes_on : RawRecord → Bool
goes_on r = flag_multi_extent r.flags && not (flag_directory r.flags)

abbrev pub Named : Reading → RawRecord → Bytes → Type 0
Named v r name =
    (if v.joliet
      then decode_name_joliet r.identifier (flag_directory r.flags)
      else decode_name r.identifier (flag_directory r.flags))
    ≡ ok name

module _ (v : Reading) (dir_lba : ℕ) (buf : Bytes) where
  -- From a place to the next record, over the padding of blocks.
  pub data Reaches : ℕ → ℕ → Type 0 where
    at_once : (p : ℕ) → Reaches p p
    padded :
        (p q : ℕ)
        → p < length buf
        → get_or buf p 0 ≡ 0
        → Reaches ((p / v.block_size + 1) * v.block_size) q
        → Reaches p q

  -- The later records of a file, with their extents, up to where the last one ends.
  pub data Later (identifier : Bytes) : ℕ → List (ℕ × ℕ) → ℕ → Type 0 where
    last_record :
        (p q : ℕ) (r : RawRecord)
        → Reaches p q
        → HasRecord buf q r
        → FitsRecord r
        → r.identifier ≡ identifier
        → flag_directory r.flags ≡ false
        → flag_multi_extent r.flags ≡ false
        → Later identifier p ((r.lba, r.size) ∷ []) (q + record_length r)
    one_more :
        (p q e : ℕ) (r : RawRecord) (xs : List (ℕ × ℕ))
        → Reaches p q
        → HasRecord buf q r
        → FitsRecord r
        → r.identifier ≡ identifier
        → flag_directory r.flags ≡ false
        → flag_multi_extent r.flags ≡ true
        → Later identifier (q + record_length r) xs e
        → Later identifier p ((r.lba, r.size) ∷ xs) e

  -- From a place on, the directory holds these entries.
  pub data Holds : ℕ → List (Bytes × Inode) → Type 0 where
    ended : (p q : ℕ) → Reaches p q → length buf ≤ q → Holds p []
    dot :
        (p q : ℕ) (r : RawRecord) (es : List (Bytes × Inode))
        → Reaches p q
        → HasRecord buf q r
        → FitsRecord r
        → is_dot r.identifier ≡ true
        → Holds (q + record_length r) es
        → Holds p es
    whole :
        (p q : ℕ) (r : RawRecord) (name : Bytes) (es : List (Bytes × Inode))
        → Reaches p q
        → HasRecord buf q r
        → FitsRecord r
        → is_dot r.identifier ≡ false
        → Named v r name
        → goes_on r ≡ false
        → Holds (q + record_length r) es
        → Holds p ((name, inode_of dir_lba q r) ∷ es)
    in_parts :
        (p q e : ℕ) (r : RawRecord) (name : Bytes) (xs : List (ℕ × ℕ)) (es : List (Bytes × Inode))
        → Reaches p q
        → HasRecord buf q r
        → FitsRecord r
        → is_dot r.identifier ≡ false
        → Named v r name
        → goes_on r ≡ true
        → Later r.identifier (q + record_length r) xs e
        → length xs < max_extents
        → Holds e es
        → Holds p ((name, with_extents xs (inode_of dir_lba q r)) ∷ es)
