-- ===== src/Iso9660.antt =====
-- crates/lamfold-iso/src/iso9660.rs: the ISO 9660 frontend, its state and the parts that read single fields.
-- The scan of a directory stands in Iso9660/Records, compressed files in Iso9660/Compressed, `open` in Iso9660/Descriptors and
-- the methods in Iso9660/Volume. `u32 as usize` and products of a block and the block size fit 64 bits.
pub mod Interned
pub mod Records
pub mod Areas
pub mod Extents
pub mod Compressed
pub mod Descriptors
pub mod Volume
pub mod Listed
pub mod Mounted
pub mod Ends
pub mod Written
pub mod Held
pub mod Turns
pub mod Scanned
pub mod Packed
pub mod Blocks
use Prim.Native.Nat.{compare, Ordering}
use lamfold.Prelude.{
  ℕ, suc, ◌+◌, ◌-◌, ◌*◌, ◌/◌, ◌%◌, Bool, true, false, ◌&&◌, ◌||◌, ltb, leb, ◌==◌, if◌then◌else◌,
  Bytes, List, [], ◌∷◌, ◌++◌, length, take, drop, get_elem?, slice?, position, le16, le32, Option,
  none, some, ◌≡◌, ◌↔◌, refl, arith,
}
use lamfold.Error.{
  FoldError, Result, ok, err, corrupt, invalid_path, not_found, ◌>>=◌, ◌>>◌, guard, ok_or,
}
use lamfold.Frontend.{NodeId, FileKind, directory}
use lamfold.Prelude.TreeMap.{Ord, TreeMap, lookup, insert}
use lamfold.ReadCap.{checked_full_read_len}
use lamfold.RockRidge.{Zisofs}
use lamfold.Source.{BlockSource, usize_end}
use lamfold.Utf8.{is_utf8}

-- The key of a directory record: the extent of its directory, and its byte offset there.
abbrev pub Key : Type 0
Key = ℕ × ℕ

abbrev pub key_cmp : Key → Key → Ordering
key_cmp a b = elim (compare a.0 b.0) [
  | Ordering.lt ↦ Ordering.lt
  | Ordering.eq ↦ compare a.1 b.1
  | Ordering.gt ↦ Ordering.gt
]

pub key_cmp-eq_iff : (a b : Key) → (key_cmp a b ≡ Ordering.eq) ↔ (a ≡ b)
key_cmp-eq_iff a b = ground arith

pub key_cmp-lt_trans :
    (a b c : Key)
    → key_cmp a b ≡ Ordering.lt
    → key_cmp b c ≡ Ordering.lt
    → key_cmp a c ≡ Ordering.lt
key_cmp-lt_trans a b c p q = ground arith

pub key_cmp-gt_swap : (a b : Key) → key_cmp a b ≡ Ordering.gt → key_cmp b a ≡ Ordering.lt
key_cmp-gt_swap a b h = ground arith

-- The order of a pair in a `BTreeMap`.
instance abbrev pub key_ord : Ord Key
key_ord = record {
  cmp = key_cmp;
  eq_iff = key_cmp-eq_iff;
  lt_trans = key_cmp-lt_trans;
  gt_swap = key_cmp-gt_swap;
}

abbrev pub root_key : Key
root_key = (4_294_967_295, 4_294_967_295)

pub record Inode : Type 0 where
  pub key : Key
  pub lba : ℕ
  pub size : ℕ
  pub extents : List (ℕ × ℕ)
  pub kind : FileKind
  pub link_target : Option Bytes
  pub zisofs : Option Zisofs

-- The fields of `Iso9660` but for the source.
pub record Iso : Type 0 where
  pub block_size : ℕ
  pub nodes : List Inode
  pub by_record : TreeMap Key NodeId
  pub rock_ridge : Bool
  pub susp_skip : ℕ
  pub joliet : Bool
  pub el_torito_catalog_lba : Option ℕ

-- The fields that say how a directory of the volume is read.
pub record Reading : Type 0 where
  pub block_size : ℕ
  pub rock_ridge : Bool
  pub susp_skip : ℕ
  pub joliet : Bool

abbrev pub reading : Iso → Reading
reading v = record {
  block_size = v.block_size;
  rock_ridge = v.rock_ridge;
  susp_skip = v.susp_skip;
  joliet = v.joliet;
}

abbrev pub add_node : Inode → Iso → NodeId × Iso
add_node inode v =
    let id = length v.nodes in
    (id, record v { nodes = v.nodes ++ inode ∷ []; by_record = insert inode.key id v.by_record })

unfoldable pub intern : Inode → Iso → NodeId × Iso
unfolding lookup insert
intern inode v = elim (lookup inode.key v.by_record) [ some id ↦ (id, v) | none ↦ add_node inode v ]

unfoldable pub inode_at : Iso → NodeId → Result Inode
unfolding get_elem?
inode_at v node = ok_or (get_elem? v.nodes node) not_found

unfoldable pub le_u16 : Bytes → ℕ → Result ℕ
unfolding slice? le16
le_u16 b off = do s ← ok_or (slice? b off 2) (corrupt "iso: truncated u16 field"); ok (le16 s)

unfoldable pub le_u32 : Bytes → ℕ → Result ℕ
unfolding slice? le32
le_u32 b off = do s ← ok_or (slice? b off 4) (corrupt "iso: truncated u32 field"); ok (le32 s)

unfoldable pub root_record : Bytes → Result Inode
unfolding slice? le_u32
root_record vd = do
  rdr ← ok_or (slice? vd 156 34) (corrupt "iso: short root directory record")
  lba ← le_u32 rdr 2
  size ← le_u32 rdr 10
  ok (record {
    key = root_key;
    lba = lba;
    size = size;
    extents = (lba, size) ∷ [];
    kind = directory;
    link_target = none;
    zisofs = none;
  })

-- `split(c).next()`.
unfoldable pub up_to : ℕ → Bytes → Bytes
unfolding position take
up_to c s = elim (position c s) [ none ↦ s | some n ↦ take n s ]

-- `strip_suffix('.')`, with the name itself if there is no such suffix.
unfoldable pub strip_dot : Bytes → Bytes
strip_dot [] = []
strip_dot (b ∷ []) = if b == b'.' then [] else b ∷ []
strip_dot (b ∷ c ∷ bs) = b ∷ strip_dot (c ∷ bs)

-- The name of a file, without its version and a dot at the end; a directory has neither.
unfoldable pub base_name : Bool → Bytes → Bytes
unfolding up_to strip_dot
base_name is_dir raw = if is_dir then raw else strip_dot (up_to b';' raw)

unfoldable pub decode_name : Bytes → Bool → Result Bytes
unfolding is_utf8 base_name
decode_name fi is_dir = do
  guard (is_utf8 fi) (invalid_path "iso: non-utf8 file id")
  ok (base_name is_dir fi)

-- `chunks_exact(2)` as big-endian units.
unfoldable pub utf16_units : Bytes → List ℕ
utf16_units (a ∷ b ∷ rest) = (256 * a + b) ∷ utf16_units rest
utf16_units _ = []

-- `String::push` of a character.
abbrev pub utf8_char : ℕ → Bytes
utf8_char c =
    if ltb c 0x80
    then c ∷ []
    else if ltb c 0x800
    then (0xc0 + c / 64) ∷ (0x80 + c % 64) ∷ []
    else if ltb c 0x10000
    then (0xe0 + c / 4096) ∷ (0x80 + c / 64 % 64) ∷ (0x80 + c % 64) ∷ []
    else (0xf0 + c / 262144) ∷ (0x80 + c / 4096 % 64) ∷ (0x80 + c / 64 % 64) ∷ (0x80 + c % 64) ∷ []

abbrev pub high : ℕ → Bool
high u = leb 0xd800 u && ltb u 0xdc00

abbrev pub low : ℕ → Bool
low u = leb 0xdc00 u && ltb u 0xe000

-- The loop over `char::decode_utf16`: a surrogate that is not one of a pair is an error.
unfoldable pub utf16_name : List ℕ → Bytes → Result Bytes
utf16_name [] s = ok s
utf16_name (u ∷ []) s =
    if high u || low u
    then err (invalid_path "iso: bad UTF-16 in joliet name")
    else ok (s ++ utf8_char u)
utf16_name (u ∷ v ∷ rest) s = elim (high u && low v) [
  | true ↦ utf16_name rest (s ++ utf8_char (0x10000 + (u - 0xd800) * 1024 + (v - 0xdc00)))
  | false ↦ elim (high u || low u) [
    | true ↦ err (invalid_path "iso: bad UTF-16 in joliet name")
    | false ↦ utf16_name (v ∷ rest) (s ++ utf8_char u)
  ]
]

unfoldable pub decode_name_joliet : Bytes → Bool → Result Bytes
unfolding utf16_units utf16_name base_name
decode_name_joliet fi is_dir = do s ← utf16_name (utf16_units fi) []; ok (base_name is_dir s)

-- `read_dir_extent`.
unfoldable pub read_dir_extent : BlockSource → ℕ → Inode → Result Bytes
unfolding checked_full_read_len
read_dir_extent src block_size inode = do
  len ← checked_full_read_len usize_end inode.size
  src.read_at (inode.lba * block_size) len
