-- ===== src/Cpio/Record.antt =====
-- The newc and CRC records of crates/lamfold-cpio/src/cpio.rs.
use lamfold.Prelude.{
  ℕ, ◌+◌, ◌-◌, ◌*◌, ◌/◌, ◌%◌, ◌^◌, Bool, true, false, not, ◌&&◌, ltb, leb, ◌==◌, if◌then◌else◌,
  Bytes, List, [], ◌∷◌, length, take, drop, slice?, get_elem?, Option, none, some,
}
use lamfold.Error.{Result, ok, corrupt, ◌>>=◌, ◌>>◌, guard, ok_or}
use lamfold.Frontend.{FileKind, directory, regular, symlink, other}
use lamfold.Source.{usize_end}

-- `mode & S_IFMT` is `mode / 4096 % 16 * 4096`; the file types.
abbrev pub file_type : ℕ → ℕ
file_type mode = mode / 4096 % 16 * 4096

abbrev pub s_ifdir : ℕ
s_ifdir = 16384

abbrev pub s_ifreg : ℕ
s_ifreg = 32768

abbrev pub s_iflnk : ℕ
s_iflnk = 40960

abbrev pub newc_header : ℕ
newc_header = 110

abbrev pub max_name : ℕ
max_name = 4096

abbrev pub newc_magic : Bytes
newc_magic = b'0' ∷ b'7' ∷ b'0' ∷ b'7' ∷ b'0' ∷ b'1' ∷ []

abbrev pub crc_magic : Bytes
crc_magic = b'0' ∷ b'7' ∷ b'0' ∷ b'7' ∷ b'0' ∷ b'2' ∷ []

abbrev pub trailer : Bytes
trailer = b'T' ∷ b'R' ∷ b'A' ∷ b'I' ∷ b'L' ∷ b'E' ∷ b'R' ∷ b'!' ∷ b'!' ∷ b'!' ∷ []

-- `Record`: where the name and the data stand, as offset and length.
pub record Record : Type 0 where
  pub name : ℕ × ℕ
  pub mode : ℕ
  pub inode : List ℕ
  pub nlink : ℕ
  pub data_ : ℕ × ℕ

unfoldable pub align4 : ℕ → ℕ
align4 n = (n + 3) / 4 * 4

-- `char::from(d).to_digit(16)`.
unfoldable pub to_digit16 : ℕ → Option ℕ
to_digit16 d =
    if leb b'0' d && leb d b'9'
    then some (d - b'0')
    else if leb b'a' d && leb d b'f'
    then some (d - b'a' + 10)
    else if leb b'A' d && leb d b'F'
    then some (d - b'A' + 10)
    else none

-- `try_fold` over the digits; a digit fills the four bits that the shift clears.
unfoldable pub hex_digits : ℕ → Bytes → Result ℕ
unfolding to_digit16
hex_digits acc [] = ok acc
hex_digits acc (d ∷ digits) = do
  v ← ok_or (to_digit16 d) (corrupt "cpio_bad_header")
  hex_digits (acc * 16 % 2 ^ 32 + v) digits

unfoldable pub hex_field : Bytes → ℕ → ℕ → Result ℕ
unfolding slice? hex_digits
hex_field archive start i = do
  digits ← ok_or (slice? archive (start + 6 + i * 8) 8) (corrupt "cpio_short_header")
  hex_digits 0 digits

-- The byte sum, in 32 bits, from `acc`.
unfoldable pub byte_sum : ℕ → Bytes → ℕ
byte_sum acc [] = acc
byte_sum acc (b ∷ bs) = byte_sum ((acc + b) % 2 ^ 32) bs

-- The eight fields that are read of the thirteen.
pub record Fields : Type 0 where
  pub ino : ℕ
  pub mode : ℕ
  pub nlink : ℕ
  pub filesize : ℕ
  pub devmajor : ℕ
  pub devminor : ℕ
  pub namesize : ℕ
  pub check : ℕ

unfoldable pub read_fields : Bytes → ℕ → Result Fields
unfolding hex_field
read_fields archive start = do
  ino ← hex_field archive start 0
  mode ← hex_field archive start 1
  nlink ← hex_field archive start 4
  filesize ← hex_field archive start 6
  devmajor ← hex_field archive start 7
  devminor ← hex_field archive start 8
  namesize ← hex_field archive start 11
  check ← hex_field archive start 12
  ok (record {
    ino = ino;
    mode = mode;
    nlink = nlink;
    filesize = filesize;
    devmajor = devmajor;
    devminor = devminor;
    namesize = namesize;
    check = check;
  })

abbrev pub is_nul : Option ℕ → Bool
is_nul (some b) = b == 0
is_nul none = false

-- `parse_record` behind its fields.
unfoldable pub place_record : Bytes → ℕ → Bool → Fields → Result (Record × ℕ)
unfolding get_elem? align4 take drop byte_sum
place_record archive start crc f = do
  guard (not (f.namesize == 0) && leb f.namesize max_name) (corrupt "cpio_bad_namesize")
  let name_start = start + newc_header
  let name_end = name_start + f.namesize - 1
  guard (is_nul (get_elem? archive name_end)) (corrupt "cpio_bad_name")
  let data_start = align4 (name_start + f.namesize)
  let data_end = data_start + f.filesize
  guard (ltb data_end usize_end && leb data_end (length archive)) (corrupt "cpio_short_data")
  let sum = byte_sum 0 (take f.filesize (drop data_start archive))
  guard (if crc && file_type f.mode == s_ifreg then sum == f.check else true)
      (corrupt "cpio_bad_crc")
  ok (
    record {
      name = (name_start, name_end - name_start);
      mode = f.mode;
      inode = f.devmajor ∷ f.devminor ∷ f.ino ∷ [];
      nlink = f.nlink;
      data_ = (data_start, f.filesize);
    },
    align4 data_end,
  )

unfoldable pub parse_record : Bytes → ℕ → Bool → Result (Record × ℕ)
unfolding read_fields place_record
parse_record archive start crc = do f ← read_fields archive start; place_record archive start crc f

unfoldable pub file_kind : ℕ → FileKind
file_kind mode =
    let t = file_type mode in
    if t == s_ifdir
    then directory
    else if t == s_ifreg
    then regular
    else if t == s_iflnk
    then symlink
    else other
