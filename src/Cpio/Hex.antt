-- ===== src/Cpio/Hex.antt =====
-- The numbers of a newc header of crates/lamfold-cpio/src/cpio.rs: eight hexadecimal digits each.
use lamfold.Prelude.{
  ℕ, zero, suc, ◌+◌, ◌*◌, ◌-◌, ◌/◌, ◌%◌, ◌^◌, ◌<◌, ltb, if◌then◌else◌, Bytes, List, [], ◌∷◌, ◌++◌,
  length, length-append, append_assoc, get_elem?, slice?, slice?-append, some, ◌≡◌, arith,
  some-injective, sym, ◌∙◌, refl,
}
use lamfold.Error.{ok}
use lamfold.Cpio.Record.{to_digit16, hex_digits, hex_field}

unfoldable pub hex_char : ℕ → ℕ
hex_char d = if ltb d 10 then d + b'0' else d - 10 + b'a'

unfoldable pub hex8 : ℕ → Bytes
unfolding hex_char
hex8 n =
    hex_char (n / 268435456 % 16)
    ∷ hex_char (n / 16777216 % 16)
    ∷ hex_char (n / 1048576 % 16)
    ∷ hex_char (n / 65536 % 16)
    ∷ hex_char (n / 4096 % 16)
    ∷ hex_char (n / 256 % 16)
    ∷ hex_char (n / 16 % 16)
    ∷ hex_char (n % 16)
    ∷ []

unfoldable pub hex_bytes : List ℕ → Bytes
unfolding hex8
hex_bytes [] = []
hex_bytes (n ∷ ns) = hex8 n ++ hex_bytes ns

to_digit16-hex_char : (d : ℕ) → d < 16 → to_digit16 (hex_char d) ≡ some d
unfolding to_digit16 hex_char
to_digit16-hex_char d h = ground arith

hex_digits_step :
    (acc d next : ℕ) (digits : Bytes)
    → d < 16
    → next ≡ acc * 16 + d
    → next < 2 ^ 32
    → hex_digits acc (hex_char d ∷ digits) ≡ hex_digits next digits
unfolding hex_digits
hex_digits_step acc d next digits h e small =
    let same : acc * 16 % 2 ^ 32 + d ≡ next = omega arith in rw (to_digit16-hex_char d h, same) refl

hex_digits_end : (acc : ℕ) → hex_digits acc [] ≡ ok acc
unfolding hex_digits
hex_digits_end acc = refl

hex_digits-hex8 : (n : ℕ) → n < 2 ^ 32 → hex_digits 0 (hex8 n) ≡ ok n
unfolding hex8
hex_digits-hex8 n h =
    let a1 = n / 268435456 % 16 in
    let a2 = a1 * 16 + n / 16777216 % 16 in
    let a3 = a2 * 16 + n / 1048576 % 16 in
    let a4 = a3 * 16 + n / 65536 % 16 in
    let a5 = a4 * 16 + n / 4096 % 16 in
    let a6 = a5 * 16 + n / 256 % 16 in
    let a7 = a6 * 16 + n / 16 % 16 in
    hex_digits_step 0 (n / 268435456 % 16) a1 _ (omega arith) (omega arith) (omega arith)
    ∙ hex_digits_step a1 (n / 16777216 % 16) a2 _ (omega arith) (omega arith) (omega arith)
    ∙ hex_digits_step a2 (n / 1048576 % 16) a3 _ (omega arith) (omega arith) (omega arith)
    ∙ hex_digits_step a3 (n / 65536 % 16) a4 _ (omega arith) (omega arith) (omega arith)
    ∙ hex_digits_step a4 (n / 4096 % 16) a5 _ (omega arith) (omega arith) (omega arith)
    ∙ hex_digits_step a5 (n / 256 % 16) a6 _ (omega arith) (omega arith) (omega arith)
    ∙ hex_digits_step a6 (n / 16 % 16) a7 _ (omega arith) (omega arith) (omega arith)
    ∙ hex_digits_step a7 (n % 16) n [] (omega arith) (omega arith) (omega arith)
    ∙ hex_digits_end n

length-hex8 : (n : ℕ) → 8 ≡ length (hex8 n)
unfolding hex8
length-hex8 n = refl

-- The field `i` of a header is the number that stands there.
slice?-hex_bytes :
    (pre : Bytes) (ns : List ℕ) (post : Bytes) (i n off : ℕ)
    → off ≡ length pre + i * 8
    → get_elem? ns i ≡ some n
    → slice? (pre ++ (hex_bytes ns ++ post)) off 8 ≡ some (hex8 n)
unfolding hex_bytes get_elem?
slice?-hex_bytes pre [] post i n off e found = absurd (cc)
slice?-hex_bytes pre (m ∷ ns) post zero n off e found =
    let same : m ≡ n = some-injective found in
    rw (append_assoc (hex8 m) (hex_bytes ns) post, sym same)
      (slice?-append pre (hex8 m) (hex_bytes ns ++ post) off 8 (omega arith) (length-hex8 m))
slice?-hex_bytes pre (m ∷ ns) post (suc i) n off e found =
    rw
      (
        append_assoc (hex8 m) (hex_bytes ns) post,
        sym (append_assoc pre (hex8 m) (hex_bytes ns ++ post)),
      )
      (slice?-hex_bytes (pre ++ hex8 m) ns post i n off
        (omega (arith, length-append pre (hex8 m), length-hex8 m)) found)

pub hex_field-hex_bytes :
    (before magic : Bytes) (ns : List ℕ) (post : Bytes) (start i n : ℕ)
    → start ≡ length before
    → length magic ≡ 6
    → get_elem? ns i ≡ some n
    → n < 2 ^ 32
    → hex_field (before ++ (magic ++ (hex_bytes ns ++ post))) start i ≡ ok n
unfolding hex_field
hex_field-hex_bytes before magic ns post start i n e six found small =
    let cut =
      slice?-hex_bytes (before ++ magic) ns post i n (start + 6 + i * 8)
        (omega (arith, length-append before magic)) found in
    let joined = append_assoc before magic (hex_bytes ns ++ post) in
    rw (sym joined, cut) (hex_digits-hex8 n small)

pub length-hex_bytes : (ns : List ℕ) → length (hex_bytes ns) ≡ 8 * length ns
unfolding hex_bytes hex8
length-hex_bytes [] = refl
length-hex_bytes (n ∷ ns) =
    omega (arith, length-append (hex8 n) (hex_bytes ns), length-hex8 n, length-hex_bytes ns)
