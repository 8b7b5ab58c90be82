-- ===== src/Cpio/Turns.antt =====
-- The loop over the records of an archive, of crates/lamfold-cpio/src/cpio.rs, as turns that come to an end.
use lamfold.Prelude.{
  false, true, subst, sym, ◌++◌, append-nil, append_assoc, ℕ, zero, suc, ◌-◌, ◌<◌, ◌||◌, Bytes,
  List, [], ◌∷◌, length, slice?, slice?_bound, bytes_eq, none, some, ◌≡◌, arith, Bool-cases, inl,
  inr, refl, Option-cases, ap,
}
use lamfold.Prelude.Halts.{Turn, stop, go, Halts, stops, goes}
use lamfold.Cpio.Record.{Record}
use lamfold.Error.{Result, ok, err, corrupt, ◌>>=◌, Result-cases}
use lamfold.Cpio.Record.{newc_magic, crc_magic, trailer, parse_record}
use lamfold.Cpio.Archive.{name_of, records_from}
use lamfold.Cpio.Fits.{parse_record-Placed}

-- What is read so far, in front of what is read from here on.
abbrev pub prepend : List Record → Result (List Record × ℕ) → Result (List Record × ℕ)
prepend read (err why) = err why
prepend read (ok (records, end)) = ok (read ++ records, end)

pub prepend_nothing : (r : Result (List Record × ℕ)) → prepend [] r ≡ r
prepend_nothing (err why) = refl
prepend_nothing (ok (records, end)) = refl

prepend_one :
    (read : List Record) (rec : Record) (r : Result (List Record × ℕ))
    → prepend read (r >>= λ p. ok (rec ∷ p.0, p.1)) ≡ prepend (read ++ rec ∷ []) r
prepend_one read rec (err why) = refl
prepend_one read rec (ok (records, end)) =
    ap (λ l. ok (l, end)) (sym (append_assoc read (rec ∷ []) records))

module _ (archive : Bytes) where
  -- A turn over the records of an archive: the trailer and a bad record end it, and a record leads to what
  -- stands behind it.
  unfoldable pub record_turn : List Record × ℕ → Turn (List Record × ℕ) (Result (List Record × ℕ))
  record_turn (read, pos) = elim (slice? archive pos 6) [
    | none ↦ stop (err (corrupt "cpio_no_trailer"))
    | some magic ↦
        let crc = bytes_eq magic crc_magic in
        elim (crc || bytes_eq magic newc_magic) [
          | false ↦ stop (err (corrupt "cpio_bad_magic"))
          | true ↦ elim (parse_record archive pos crc) [
            | err why ↦ stop (err why)
            | ok (rec, next) ↦ elim (bytes_eq (name_of archive rec) trailer) [
              | true ↦ stop (ok (read, next))
              | false ↦ go (read ++ rec ∷ [], next)
            ]
          ]
        ]
  ]

  pub records_from-Halts :
      (fuel : ℕ) (read : List Record) (pos : ℕ)
      → length archive - pos < fuel
      → Halts record_turn (read, pos) (prepend read (records_from fuel archive pos))
  unfolding records_from record_turn
  records_from-Halts zero read pos p = absurd (omega arith)
  records_from-Halts (suc fuel) read pos p = elim (Option-cases (slice? archive pos 6)) [
    | inl e ↦ rw (records_from, e) (stops (rw (record_turn, e) refl))
    | inr (magic, e) ↦
        let there = slice?_bound archive pos 6 e in
        let crc = bytes_eq magic crc_magic in
        elim (Bool-cases (crc || bytes_eq magic newc_magic)) [
          | inr bad ↦ rw (records_from, e, bad) (stops (rw (record_turn, e, bad) refl))
          | inl good ↦ elim (Result-cases (parse_record archive pos crc)) [
            | inr (why, r) ↦
                rw (records_from, e, good, r) (stops (rw (record_turn, e, good, r) refl))
            | inl ((rec, next), r) ↦
                let (_, behind) = parse_record-Placed archive pos crc r in
                elim (Bool-cases (bytes_eq (name_of archive rec) trailer)) [
                  | inl end ↦
                      rw (records_from, e, good, r, ◌>>=◌, end)
                        (stops (rw (record_turn, e, good, r, end, append-nil read) refl))
                  | inr on ↦
                      let later =
                        subst (Halts record_turn (read ++ rec ∷ [], next))
                          (sym (prepend_one read rec (records_from fuel archive next)))
                          (records_from-Halts fuel (read ++ rec ∷ []) next (omega arith)) in
                      rw (records_from, e, good, r, ◌>>=◌, on)
                        (goes (rw (record_turn, e, good, r, on) refl) later)
                ]
          ]
        ]
  ]
