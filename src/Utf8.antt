-- ===== src/Utf8.antt =====
-- UTF-8 as Rust's standard library checks it (`core::str::from_utf8`) and repairs it
-- (`String::from_utf8_lossy`): one pass over the bytes, with what a started sequence still needs.
use lamfold.Prelude.{
  ℕ, zero, suc, Bool, true, false, ◌&&◌, leb, if◌then◌else◌, Bytes, [], ◌∷◌, ◌++◌, Option, none,
  some,
}

-- The range of the next byte of a started sequence, and the number of bytes behind that one.
record Need : Type 0 where
  lo : ℕ
  hi : ℕ
  more : ℕ

abbrev within : ℕ → ℕ → ℕ → Bool
within lo hi b = leb lo b && leb b hi

-- The shortest-form, surrogate and range rules are the ranges of the second byte.
start_need : ℕ → Option Need
start_need b =
    if within 0xc2 0xdf b
    then some (record { lo = 0x80; hi = 0xbf; more = 0 })
    else if within 0xe0 0xe0 b
    then some (record { lo = 0xa0; hi = 0xbf; more = 1 })
    else if within 0xed 0xed b
    then some (record { lo = 0x80; hi = 0x9f; more = 1 })
    else if within 0xe1 0xef b
    then some (record { lo = 0x80; hi = 0xbf; more = 1 })
    else if within 0xf0 0xf0 b
    then some (record { lo = 0x90; hi = 0xbf; more = 2 })
    else if within 0xf1 0xf3 b
    then some (record { lo = 0x80; hi = 0xbf; more = 2 })
    else if within 0xf4 0xf4 b
    then some (record { lo = 0x80; hi = 0x8f; more = 2 })
    else none

abbrev next_need : ℕ → Option Need
next_need zero = none
next_need (suc n) = some (record { lo = 0x80; hi = 0xbf; more = n })

-- The state is the sequence read so far, with what it needs next; `bad` is what a broken sequence
-- leaves in the output.
record Scan : Type 0 where
  need : Option Need
  part : Bytes
  out : Bytes
  valid : Bool

abbrev replacement : Bytes
replacement = 0xef ∷ 0xbf ∷ 0xbd ∷ []

-- A byte at the start of a sequence.
scan_start : Bytes → Bool → ℕ → Scan
unfolding start_need
scan_start out valid b =
    if leb b 0x7f
    then record { need = none; part = []; out = out ++ (b ∷ []); valid = valid }
    else elim (start_need b) [
      | none ↦ record { need = none; part = []; out = out ++ replacement; valid = false }
      | some n ↦ record { need = some n; part = b ∷ []; out = out; valid = valid }
    ]

-- A byte inside a sequence: it goes on with it, ends it, or breaks it and is read again.
scan_inside : Need → Scan → ℕ → Scan
unfolding scan_start
scan_inside n s b =
    if within n.lo n.hi b
    then elim n.more [
      | zero ↦ record s { need = none; part = []; out = s.out ++ (s.part ++ (b ∷ [])) }
      | suc m ↦ record s { need = next_need (suc m); part = s.part ++ (b ∷ []) }
    ]
    else scan_start (s.out ++ replacement) false b

scan_step : Option Need → Scan → ℕ → Scan
unfolding scan_inside
scan_step none s b = scan_start s.out s.valid b
scan_step (some n) s b = scan_inside n s b

scan : Scan → Bytes → Scan
unfolding scan_step
scan s [] = s
scan s (b ∷ bs) = scan (scan_step s.need s b) bs

finish : Option Need → Scan → Scan
finish none s = s
finish (some n) s = record s { out = s.out ++ replacement; valid = false }

abbrev scan_all : Bytes → Scan
scan_all bs =
    let s = scan (record { need = none; part = []; out = []; valid = true }) bs in finish s.need s

unfoldable pub is_utf8 : Bytes → Bool
unfolding scan finish
is_utf8 bs = (scan_all bs).valid

unfoldable pub from_utf8_lossy : Bytes → Bytes
unfolding scan finish
from_utf8_lossy bs = (scan_all bs).out
