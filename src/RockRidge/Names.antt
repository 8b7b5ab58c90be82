-- ===== src/RockRidge/Names.antt =====
-- The name that Rock Ridge gives a file, for crates/lamfold-iso/src/rock_ridge.rs: the `NM` entries hold it in
-- pieces.
use lamfold.Prelude.{
  Bool, true, false, not, ◌&&◌, ◌||◌, if◌then◌else◌, Bytes, List, [], ◌∷◌, ◌++◌, append_assoc,
  append-nil, Bool-cases, inl, inr, Option, none, some, ◌≡◌, refl, sym, ap, ◌∙◌, arith, length, leb,
  get_or,
}
use lamfold.Utf8.{is_utf8}
use lamfold.RockRidge.{
  RrParser, Continuation, default, has_flag, is_sig, is_empty, feed_nm, feed_px, feed_sl, feed_zf,
  feed_entry, named, finish,
}
use lamfold.RockRidge.Entries.{Entry, take_entry, take_entries}

-- The piece of a name that an entry holds: a `NM` entry for "." or ".." holds none.
abbrev pub piece_of : Bytes → Option Bytes
piece_of [] = none
piece_of (flags ∷ name) = if has_flag flags 2 || has_flag flags 4 then none else some name

abbrev pub piece : Entry → Option Bytes
piece e = if is_sig e.sig0 e.sig1 b'N' b'M' then piece_of e.body else none

abbrev pub add_piece : Option Bytes → Bytes → Bytes
add_piece (some name) rest = name ++ rest
add_piece none rest = rest

abbrev pub is_piece : Option Bytes → Bool
is_piece (some name) = true
is_piece none = false

-- All the pieces, joined, and whether there is one.
abbrev pub pieces : List Entry → Bytes
pieces [] = []
pieces (e ∷ es) = add_piece (piece e) (pieces es)

abbrev pub any_piece : List Entry → Bool
any_piece [] = false
any_piece (e ∷ es) = is_piece (piece e) || any_piece es

-- What an entry leaves of the name, in the parser and in what it has found.
abbrev pub Named : Option Bytes → RrParser → RrParser → Type 0
Named o p q =
    (q.name ≡ p.name ++ add_piece o [])
    × (q.have_nm ≡ (is_piece o || p.have_nm))
    × (q.info.name ≡ p.info.name)

feed_nm-Named : (data_ : Bytes) (p : RrParser) → Named (piece_of data_) p (feed_nm data_ p)
feed_nm-Named [] p = (sym (append-nil p.name), refl, refl)
feed_nm-Named (flags ∷ name) p = elim (Bool-cases (has_flag flags 2 || has_flag flags 4)) [
  | inl dot ↦ rw dot (sym (append-nil p.name), refl, refl)
  | inr text ↦ rw text (ap (λ n. p.name ++ n) (sym (append-nil name)), refl, refl)
]

-- Entries of the other signatures leave the name as it is.
kept : (p : RrParser) → p.name ≡ p.name ++ add_piece none []
kept p = sym (append-nil p.name)

feed_px-Named : (data_ : Bytes) (p : RrParser) → Named none p (feed_px data_ p)
unfolding feed_px
feed_px-Named data_ p = elim (Bool-cases (leb 4 (length data_))) [
  | inl long ↦ rw (feed_px, long) (kept p, refl, refl)
  | inr short ↦ rw (feed_px, short) (kept p, refl, refl)
]

feed_sl-Named : (data_ : Bytes) (p : RrParser) → Named none p (feed_sl data_ p)
unfolding feed_sl
feed_sl-Named [] p = (kept p, refl, refl)
feed_sl-Named (flags ∷ comp) p = (kept p, refl, refl)

feed_zf-Named : (data_ : Bytes) (p : RrParser) → Named none p (feed_zf data_ p)
unfolding feed_zf
feed_zf-Named data_ p =
    elim (Bool-cases
      (leb 8 (length data_) && is_sig (get_or data_ 0 0) (get_or data_ 1 0) b'p' b'z')) [
        | inl pz ↦ rw (feed_zf, pz) (kept p, refl, refl)
        | inr other ↦ rw (feed_zf, other) (kept p, refl, refl)
      ]

take_entry-Named :
    (e : Entry) (p : RrParser) (next : Option Continuation)
    → Named (piece e) p (take_entry e (p, next)).0
unfolding feed_entry
take_entry-Named e p next = elim (Bool-cases (is_sig e.sig0 e.sig1 b'N' b'M')) [
  | inl nm ↦ rw (feed_entry, nm) (feed_nm-Named e.body p)
  | inr not_nm ↦ elim (Bool-cases (is_sig e.sig0 e.sig1 b'P' b'X')) [
    | inl px ↦ rw (feed_entry, not_nm, px) (feed_px-Named e.body p)
    | inr not_px ↦ elim (Bool-cases (is_sig e.sig0 e.sig1 b'S' b'L')) [
      | inl sl ↦ rw (feed_entry, not_nm, not_px, sl) (feed_sl-Named e.body p)
      | inr not_sl ↦ elim (Bool-cases (is_sig e.sig0 e.sig1 b'Z' b'F')) [
        | inl zf ↦ rw (feed_entry, not_nm, not_px, not_sl, zf) (feed_zf-Named e.body p)
        | inr not_zf ↦ rw (feed_entry, not_nm, not_px, not_sl, not_zf) (kept p, refl, refl)
      ]
    ]
  ]
]

add_piece-append :
    (o : Option Bytes) (xs rest : Bytes) → (xs ++ add_piece o []) ++ rest ≡ xs ++ add_piece o rest
add_piece-append none xs rest = rw (append-nil xs)
add_piece-append (some name) xs rest = rw (append-nil name) (append_assoc xs name rest)

any_piece_step : (a b c d : Bool) → c ≡ (a || b) → (d || c) ≡ ((a || d) || b)
any_piece_step a b c d h = ground arith

or_false : (b : Bool) → (b || false) ≡ b
or_false true = refl
or_false false = refl

-- What a run of entries leaves of the name.
pub take_entries-Named :
    (es : List Entry) (p : RrParser) (next : Option Continuation)
    → let q = (take_entries es (p, next)).0 in
      (q.name ≡ p.name ++ pieces es)
      × (q.have_nm ≡ (any_piece es || p.have_nm))
      × (q.info.name ≡ p.info.name)
unfolding take_entries
take_entries-Named [] p next = (sym (append-nil p.name), refl, refl)
take_entries-Named (e ∷ es) p next =
    let s = take_entry e (p, next) in
    let (name, have, kept_) = take_entry-Named e p next in
    let (rest, any, same) = take_entries-Named es s.0 s.1 in
    (
      rest ∙ ap (λ n. n ++ pieces es) name ∙ add_piece-append (piece e) p.name (pieces es),
      any ∙ any_piece_step (is_piece (piece e)) p.have_nm s.0.have_nm (any_piece es) have,
      same ∙ kept_,
    )

-- The name that `finish` gives after a run of entries from the start is the `NM` pieces in order, joined,
-- with the pieces for "." and ".." left out: if there is one, and the whole is UTF-8 and not empty.
pub finish_name :
    (es : List Entry)
    → (finish (take_entries es (default, none)).0).name ≡ (
        if any_piece es && (is_utf8 (pieces es) && not (is_empty (pieces es)))
        then some (pieces es)
        else none)
unfolding finish named
finish_name es =
    let (name, have, kept_) = take_entries-Named es default none in
    rw (finish, named, name, have, kept_, or_false (any_piece es)) refl
