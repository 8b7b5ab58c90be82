-- ===== src/RockRidge.antt =====
-- crates/lamfold-iso/src/rock_ridge.rs: Rock Ridge over SUSP. The cursor `p` of a loop over an area is the
-- part of the area from `p` on, which is what the loops read.
pub mod Entries
pub mod Targets
pub mod Links
pub mod Names
use lamfold.Prelude.{
  ℕ, zero, suc, ◌+◌, ◌-◌, ◌/◌, ◌%◌, Bool, true, false, not, ◌&&◌, ◌||◌, ltb, leb, ◌==◌,
  if◌then◌else◌, Bytes, List, [], ◌∷◌, ◌++◌, length, take, drop, le32, get_or, Option, none, some,
}
use lamfold.Utf8.{is_utf8}

pub record Zisofs : Type 0 where
  pub uncompressed_size : ℕ
  pub block_size_log2 : ℕ

pub record RrInfo : Type 0 where
  pub name : Option Bytes
  pub mode : Option ℕ
  pub symlink_target : Option Bytes
  pub zisofs : Option Zisofs

pub record Continuation : Type 0 where
  pub block : ℕ
  pub offset : ℕ
  pub len : ℕ

pub record RrParser : Type 0 where
  pub info : RrInfo
  pub name : Bytes
  pub have_nm : Bool
  pub sl : Bytes
  pub have_sl : Bool
  pub sl_continues : Bool

-- `RrParser::default()`.
abbrev pub default : RrParser
default = record {
  info = record { name = none; mode = none; symlink_target = none; zisofs = none };
  name = [];
  have_nm = false;
  sl = [];
  have_sl = false;
  sl_continues = false;
}

-- Bit `b` of `flags`, the bit being its power of two.
abbrev pub has_flag : ℕ → ℕ → Bool
has_flag flags b = flags / b % 2 == 1

-- The two bytes of a signature.
abbrev pub is_sig : ℕ → ℕ → ℕ → ℕ → Bool
is_sig a b x y = a == x && b == y

-- The loop of `detect_sp`, on fuel: each turn passes over an entry of four bytes or more.
unfoldable pub detect_from : ℕ → Bytes → Option ℕ
unfolding drop get_or
detect_from (suc turns) (a ∷ b ∷ len ∷ version ∷ rest) =
    let later = detect_from turns (drop (len - 4) rest) in
    if ltb len 4 || ltb (length rest + 4) len
    then none
    else if is_sig a b b'S' b'P' && leb 7 len && get_or rest 0 0 == 0xbe && get_or rest 1 0 == 0xef
    then some (get_or rest 2 0)
    else later
detect_from _ _ = none

unfoldable pub detect_sp : Bytes → Option ℕ
unfolding detect_from
detect_sp su = detect_from (length su) su

-- `out.last() == Some(&b'/')`.
unfoldable pub ends_slash : Bytes → Bool
ends_slash [] = false
ends_slash (b ∷ []) = b == b'/'
ends_slash (b ∷ c ∷ bs) = ends_slash (c ∷ bs)

abbrev pub is_empty : Bytes → Bool
is_empty [] = true
is_empty (_ ∷ _) = false

-- What a component with these flags and this content makes of the target so far.
unfoldable pub push_component : ℕ → Bytes → Bytes → Bool → Bytes
unfolding ends_slash
push_component flags content out continues =
    if has_flag flags 8
    then (if is_empty out then b'/' ∷ [] else out)
    else (let sep =
          if not continues && (not (is_empty out) && not (ends_slash out)) then b'/' ∷ [] else [] in
        let text =
          if has_flag flags 2
          then b'.' ∷ []
          else if has_flag flags 4
          then b'.' ∷ b'.' ∷ []
          else content in
        out ++ (sep ++ text))

-- `parse_sl_components`, on fuel: each turn passes over a component of two bytes or more.
unfoldable pub sl_from : ℕ → Bytes → Bytes → Bool → Bytes × Bool
unfolding push_component take drop
sl_from (suc turns) (flags ∷ clen ∷ rest) out continues = elim (ltb (length rest) clen) [
  | true ↦ (out, continues)
  | false ↦
      sl_from turns (drop clen rest) (push_component flags (take clen rest) out continues)
        (has_flag flags 1)
]
sl_from _ _ out continues = (out, continues)

unfoldable pub parse_sl_components : Bytes → Bytes → Bool → Bytes × Bool
unfolding sl_from
parse_sl_components comp out continues = sl_from (length comp) comp out continues

abbrev pub feed_nm : Bytes → RrParser → RrParser
feed_nm [] p = p
feed_nm (flags ∷ name) p =
    if has_flag flags 2 || has_flag flags 4
    then p
    else record p { name = p.name ++ name; have_nm = true }

unfoldable pub feed_px : Bytes → RrParser → RrParser
unfolding le32
feed_px data_ p =
    if leb 4 (length data_)
    then record p { info = record (p.info) { mode = some (le32 data_) } }
    else p

unfoldable pub feed_sl : Bytes → RrParser → RrParser
unfolding parse_sl_components
feed_sl [] p = record p { have_sl = true }
feed_sl (flags ∷ comp) p =
    let (sl, continues) = parse_sl_components comp p.sl p.sl_continues in
    record p { have_sl = true; sl = sl; sl_continues = continues }

unfoldable pub feed_zf : Bytes → RrParser → RrParser
unfolding get_or le32 drop
feed_zf data_ p =
    if leb 8 (length data_) && is_sig (get_or data_ 0 0) (get_or data_ 1 0) b'p' b'z'
    then record p {
      info = record (p.info) {
        zisofs = some (record {
          block_size_log2 = get_or data_ 3 0;
          uncompressed_size = le32 (drop 4 data_);
        });
      };
    }
    else p

-- The continuation area that a `CE` entry points to.
unfoldable pub continuation : Bytes → Option Continuation
unfolding le32 drop
continuation data_ =
    if leb 24 (length data_)
    then some
        (record { block = le32 data_; offset = le32 (drop 8 data_); len = le32 (drop 16 data_) })
    else none

-- The `match` on the signature, but for `ST`.
unfoldable pub feed_entry : ℕ → ℕ → Bytes → RrParser → RrParser
unfolding feed_px feed_sl feed_zf
feed_entry a b data_ p =
    if is_sig a b b'N' b'M'
    then feed_nm data_ p
    else if is_sig a b b'P' b'X'
    then feed_px data_ p
    else if is_sig a b b'S' b'L'
    then feed_sl data_ p
    else if is_sig a b b'Z' b'F'
    then feed_zf data_ p
    else p

abbrev pub or_else {ℓ} : {A : Type ℓ} → Option A → Option A → Option A
or_else (some a) o = some a
or_else none o = o

abbrev pub next_of : ℕ → ℕ → Bytes → Option Continuation → Option Continuation
next_of a b data_ next = if is_sig a b b'C' b'E' then or_else (continuation data_) next else next

-- The loop of `feed`, on fuel: each turn passes over an entry of four bytes or more.
unfoldable pub feed_from :
    ℕ → Bytes → RrParser → Option Continuation → RrParser × Option Continuation
unfolding take drop feed_entry continuation
feed_from (suc turns) (a ∷ b ∷ len ∷ version ∷ rest) p next =
    elim (ltb len 4 || ltb (length rest + 4) len || is_sig a b b'S' b'T') [
      | true ↦ (p, next)
      | false ↦
          let data_ = take (len - 4) rest in
          feed_from turns (drop (len - 4) rest) (feed_entry a b data_ p) (next_of a b data_ next)
    ]
feed_from _ _ p next = (p, next)

unfoldable pub feed : Bytes → RrParser → RrParser × Option Continuation
unfolding feed_from
feed su p = feed_from (length su) su p none

-- The name that `finish` takes over.
unfoldable pub named : Bool → Bytes → Option Bytes → Option Bytes
unfolding is_utf8
named have_nm name before =
    if have_nm && (is_utf8 name && not (is_empty name)) then some name else before

unfoldable pub finish : RrParser → RrInfo
unfolding named
finish p = record (p.info) {
  name = named p.have_nm p.name p.info.name;
  symlink_target = if p.have_sl then some p.sl else p.info.symlink_target;
}
