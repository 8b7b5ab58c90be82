-- ===== src/RockRidge/Entries.antt =====
-- The entries of a System Use area, for crates/lamfold-iso/src/rock_ridge.rs: what a writer puts down
-- one behind the other, `feed` takes in one after the other.
use lamfold.Prelude.{
  ℕ, zero, suc, ◌+◌, ◌-◌, ◌≤◌, Bool, true, false, ◌||◌, ltb, Bytes, List, [], ◌∷◌, ◌++◌, length,
  length-append, append_assoc, take-append, drop-append, Option, none, ◌≡◌, refl, ap, ◌∙◌, arith,
}
use lamfold.RockRidge.{RrParser, Continuation, is_sig, feed_entry, next_of, feed_from, feed}

pub record Entry : Type 0 where
  pub sig0 : ℕ
  pub sig1 : ℕ
  pub version : ℕ
  pub body : Bytes

abbrev pub is_terminator : Entry → Bool
is_terminator e = is_sig e.sig0 e.sig1 b'S' b'T'

-- The length byte counts the four bytes of the header, so a body has 251 bytes at most.
abbrev pub IsEntry : Entry → Type 0
IsEntry e = (length e.body ≤ 251) × (is_terminator e ≡ false)

abbrev pub IsEntries : List Entry → Type 0
IsEntries [] = Unit
IsEntries (e ∷ es) = IsEntry e × IsEntries es

abbrev pub entry_bytes : Entry → Bytes
entry_bytes e = e.sig0 ∷ e.sig1 ∷ (4 + length e.body) ∷ e.version ∷ e.body

abbrev pub area_bytes : List Entry → Bytes
area_bytes [] = []
area_bytes (e ∷ es) = entry_bytes e ++ area_bytes es

-- The bytes behind the last entry: fewer than a header, a length that cannot be, or an `ST` entry.
abbrev pub ends_area : Bytes → Bool
ends_area (a ∷ b ∷ len ∷ version ∷ rest) =
    ltb len 4 || ltb (length rest + 4) len || is_sig a b b'S' b'T'
ends_area _ = true

-- What the entries make of the parser, and where the last `CE` entry points.
abbrev pub take_entry : Entry → RrParser × Option Continuation → RrParser × Option Continuation
take_entry e (p, next) = (feed_entry e.sig0 e.sig1 e.body p, next_of e.sig0 e.sig1 e.body next)

unfoldable pub take_entries :
    List Entry → RrParser × Option Continuation → RrParser × Option Continuation
take_entries [] s = s
take_entries (e ∷ es) s = take_entries es (take_entry e s)

feed_from_end :
    (turns : ℕ) (tail : Bytes) (p : RrParser) (next : Option Continuation)
    → ends_area tail ≡ true
    → feed_from turns tail p next ≡ (p, next)
unfolding feed_from
feed_from_end zero tail p next h = refl
feed_from_end (suc turns) [] p next h = refl
feed_from_end (suc turns) (a ∷ []) p next h = refl
feed_from_end (suc turns) (a ∷ b ∷ []) p next h = refl
feed_from_end (suc turns) (a ∷ b ∷ c ∷ []) p next h = refl
feed_from_end (suc turns) (a ∷ b ∷ len ∷ version ∷ rest) p next h = rw (feed_from, h) refl

feed_from_step :
    (turns : ℕ) (e : Entry) (rest : Bytes) (p : RrParser) (next : Option Continuation)
    → IsEntry e
    → feed_from (suc turns) (entry_bytes e ++ rest) p next
      ≡ feed_from turns rest (take_entry e (p, next)).0 (take_entry e (p, next)).1
unfolding feed_from
feed_from_step turns e rest p next h =
    let n = 4 + length e.body in
    let both = length-append e.body rest in
    let long : ltb n 4 ≡ false = ground arith in
    let inside : ltb (length (e.body ++ rest) + 4) n ≡ false = ground (arith, both) in
    let back : n - 4 ≡ length e.body = omega arith in
    let front = take-append e.body rest (n - 4) back in
    let behind = drop-append e.body rest (n - 4) back in
    rw (feed_from, long, inside, h.1, front, behind) refl

pub feed_from-take_entries :
    (turns : ℕ) (es : List Entry) (tail : Bytes) (p : RrParser) (next : Option Continuation)
    → length es ≤ turns
    → IsEntries es
    → ends_area tail ≡ true
    → feed_from turns (area_bytes es ++ tail) p next ≡ take_entries es (p, next)
unfolding take_entries
feed_from-take_entries turns [] tail p next le h e = feed_from_end turns tail p next e
feed_from-take_entries zero (x ∷ es) tail p next le h e = absurd (omega arith)
feed_from-take_entries (suc turns) (x ∷ es) tail p next le h e =
    let s = take_entry x (p, next) in
    ap (λ bs. feed_from (suc turns) bs p next) (append_assoc (entry_bytes x) (area_bytes es) tail)
    ∙ feed_from_step turns x (area_bytes es ++ tail) p next h.0
    ∙ feed_from-take_entries turns es tail s.0 s.1 (omega arith) h.1 e

length-area_bytes : (es : List Entry) → length es ≤ length (area_bytes es)
length-area_bytes [] = omega arith
length-area_bytes (e ∷ es) =
    omega (arith, length-append (entry_bytes e) (area_bytes es), length-area_bytes es)

-- An area that holds some entries and then nothing more that can be read as one is taken in entry by
-- entry: the loop ends, and passes over none.
pub feed-take_entries :
    (es : List Entry) (tail : Bytes) (p : RrParser)
    → IsEntries es
    → ends_area tail ≡ true
    → feed (area_bytes es ++ tail) p ≡ take_entries es (p, none)
unfolding feed
feed-take_entries es tail p h e =
    let enough = length-append (area_bytes es) tail in
    feed_from-take_entries (length (area_bytes es ++ tail)) es tail p none
      (omega (arith, length-area_bytes es, enough)) h e
