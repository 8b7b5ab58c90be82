-- ===== src/Cpio/Ends.antt =====
-- The loops of crates/lamfold-cpio/src/cpio.rs end: their turns, from the first one on, come to the result.
use lamfold.Prelude.{
  false, true, subst, ℕ, zero, suc, ◌+◌, ◌-◌, ◌%◌, ◌<◌, ◌&&◌, ◌||◌, ◌==◌, Bytes, List, [], ◌∷◌,
  length, length-drop, drop, Option, none, some, ◌≡◌, arith, Bool-cases, inl, inr, ◌∙◌, refl,
  Option-cases, some-injective, ap,
}
use lamfold.Prelude.Halts.{Turn, stop, go, Halts, stops, goes}
use lamfold.Error.{Result, ok, err, corrupt, Result-cases, ok-injective}
use lamfold.Stream.Parts.{StreamCodec, sniff, starts_with, Decoders}
use lamfold.Stream.Decode.{decode_stream}
use lamfold.Cpio.Record.{newc_magic, crc_magic}
use lamfold.Cpio.Tree.{Node}
use lamfold.Cpio.Archive.{records_from, insert_newc_archive, with_end, insert_records, link_data}
use lamfold.Cpio.Chain.{
  Chain, OnMember, refuse_member, nonzero, next_start, chain_loop, with_used, decode_member,
  insert_chain,
}
use lamfold.Cpio.Fits.{records_from-Listed}
use lamfold.Cpio.Turns.{prepend_nothing, record_turn, records_from-Halts}

with_end-eq :
    (end : ℕ) (result : Option (Result (List Node))) {nodes : List Node} {k : ℕ}
    → with_end end result ≡ some (ok (nodes, k))
    → end ≡ k
with_end-eq end none h = absurd (cc)
with_end-eq end (some (err why)) h = absurd (cc)
with_end-eq end (some (ok nodes)) h = ap (λ p. p.1) (ok-injective (some-injective h))

newc_behind :
    (archive : Bytes) (idx : ℕ) (nodes : List Node) (start : ℕ) {end : List Node} {k : ℕ}
    → insert_newc_archive archive idx nodes start ≡ some (ok (end, k))
    → start < k
unfolding insert_newc_archive
newc_behind archive idx nodes start h =
    elim (Result-cases (records_from (length archive + 1) archive start)) [
      | inr (why, e) ↦ absurd (let bad = rw (e, insert_newc_archive) at h in cc)
      | inl ((records, end), e) ↦
          let done = rw (e, insert_newc_archive) at h in
          let (_, behind) = records_from-Listed (length archive + 1) archive start e in
          omega (
            arith,
            behind,
            with_end-eq end (insert_records archive idx (link_data [] records) nodes records) done,
          )
    ]

nonzero-lt : (bs : Bytes) (n : ℕ) → nonzero bs ≡ some n → n < length bs
unfolding nonzero
nonzero-lt [] n h = absurd (cc)
nonzero-lt (b ∷ bs) zero h = omega arith
nonzero-lt (b ∷ bs) (suc n) h = ground (arith, nonzero-lt bs n)

next_start-lt :
    (archive : Bytes) (pos n : ℕ) → next_start archive pos ≡ some n → pos + n < length archive
unfolding next_start
next_start-lt archive pos n h =
    ground (arith, nonzero-lt (drop pos archive) n, length-drop pos archive)

-- A member that is gone through has taken at least a byte of the input.
abbrev pub Advances : OnMember → Type 0
Advances m =
    (c : Chain) (rest : Bytes) (codec : StreamCodec) (c' : Chain) (used : ℕ)
    → m c rest codec ≡ some (ok (c', used))
    → 0 < used

refuse_member-Advances : Advances refuse_member
refuse_member-Advances c rest codec c' used h = absurd (cc)

module _ (m : OnMember) (archive : Bytes) (idx : ℕ) where
  -- A turn over the archives and members of a buffer.
  unfoldable pub chain_turn : ℕ × Chain → Turn (ℕ × Chain) (Option (Result Chain))
  chain_turn (pos, c) = elim (next_start archive pos) [
    | none ↦ stop (some (ok c))
    | some n ↦
        let rest = drop (pos + n) archive in
        elim (sniff rest) [
          | some codec ↦ elim (m c rest codec) [
            | none ↦ stop none
            | some (err why) ↦ stop (some (err why))
            | some (ok (c', used)) ↦ go (pos + n + used, c')
          ]
          | none ↦
              elim ((starts_with crc_magic rest || starts_with newc_magic rest)
                && (pos + n) % 4 == 0) [
                  | false ↦ stop (some (err (corrupt "cpio_junk_between_archives")))
                  | true ↦ elim (insert_newc_archive archive idx c.nodes (pos + n)) [
                    | none ↦ stop none
                    | some (err why) ↦ stop (some (err why))
                    | some (ok (nodes, end)) ↦ go (end, record c { nodes = nodes })
                  ]
                ]
        ]
  ]

  chain_loop-Halts :
      (fuel pos : ℕ) (c : Chain)
      → Advances m
      → length archive - pos < fuel
      → Halts chain_turn (pos, c) (chain_loop m fuel archive idx pos c)
  unfolding chain_loop chain_turn
  chain_loop-Halts zero pos c advances p = absurd (omega arith)
  chain_loop-Halts (suc fuel) pos c advances p = elim (Option-cases (next_start archive pos)) [
    | inl e ↦ rw (chain_loop, e) (stops (rw (chain_turn, e) refl))
    | inr (n, e) ↦
        let start = pos + n in
        let rest = drop start archive in
        let inside = next_start-lt archive pos n e in
        elim (Option-cases (sniff rest)) [
          | inr (codec, s) ↦ elim (Option-cases (m c rest codec)) [
            | inl r ↦ rw (chain_loop, e, s, r) (stops (rw (chain_turn, e, s, r) refl))
            | inr (outcome, r) ↦ elim (Result-cases outcome) [
              | inr (why, o) ↦
                  rw (chain_loop, e, s, r, o) (stops (rw (chain_turn, e, s, r, o) refl))
              | inl ((c', used), o) ↦
                  let took = advances c rest codec c' used (r ∙ ap some o) in
                  rw (chain_loop, e, s, r, o)
                    (goes (rw (chain_turn, e, s, r, o) refl)
                      (chain_loop-Halts fuel (start + used) c' advances (omega arith)))
            ]
          ]
          | inl s ↦
              elim (Bool-cases
                ((starts_with crc_magic rest || starts_with newc_magic rest) && start % 4 == 0)) [
                  | inr junk ↦
                      rw (chain_loop, e, s, junk) (stops (rw (chain_turn, e, s, junk) refl))
                  | inl newc ↦ elim (Option-cases (insert_newc_archive archive idx c.nodes start)) [
                    | inl r ↦
                        rw (chain_loop, e, s, newc, r) (stops (rw (chain_turn, e, s, newc, r) refl))
                    | inr (outcome, r) ↦ elim (Result-cases outcome) [
                      | inr (why, o) ↦
                          rw (chain_loop, e, s, newc, r, o)
                            (stops (rw (chain_turn, e, s, newc, r, o) refl))
                      | inl ((nodes, end), o) ↦
                          let behind = newc_behind archive idx c.nodes start (r ∙ ap some o) in
                          rw (chain_loop, e, s, newc, r, o)
                            (goes (rw (chain_turn, e, s, newc, r, o) refl) (
                              chain_loop-Halts fuel end (record c { nodes = nodes }) advances
                                (omega arith)))
                    ]
                  ]
                ]
        ]
  ]

-- A stream that is decoded takes at least a byte of the input: each format starts with its magic.
abbrev pub Takes : Decoders → Type 0
Takes d =
    (codec : StreamCodec) (input : Bytes) (max_out : ℕ) (out : Bytes) (used : ℕ)
    → decode_stream d codec input max_out ≡ ok (out, used)
    → 0 < used

used_is :
    (used : ℕ) (inner : Option (Result Chain)) {c' : Chain} {k : ℕ}
    → with_used used inner ≡ some (ok (c', k))
    → used ≡ k
used_is used none h = absurd (cc)
used_is used (some (err why)) h = absurd (cc)
used_is used (some (ok c'')) h = ap (λ p. p.1) (ok-injective (some-injective h))

decode_member-Advances : (d : Decoders) → Takes d → Advances (decode_member d)
unfolding decode_member
decode_member-Advances d takes c rest codec c' k h =
    elim (Result-cases (decode_stream d codec rest c.budget)) [
      | inr (why, e) ↦ absurd (let bad = rw (e, decode_member) at h in cc)
      | inl ((out, used), e) ↦
          let done = rw (e, decode_member) at h in
          let took = takes codec rest c.budget out used e in
          omega (arith, took, used_is used _ done)
    ]

-- The loops of `insert_chain` end by themselves, if a stream that is decoded takes at least one byte of the
-- input: turn after turn, the chain of the input, the chain of a decompressed member and the records of one
-- archive come from the start of their buffer to a turn that stops them, with the result that the code
-- works with.
pub insert_chain-Halts :
    (d : Decoders)
    → Takes d
    → (archive : Bytes) (idx start : ℕ) (c : Chain)
    → Halts (chain_turn (decode_member d) archive 0) (0, c) (insert_chain d archive c)
      × Halts
          (chain_turn refuse_member archive idx)
          (0, c)
          (chain_loop refuse_member (length archive + 1) archive idx 0 c)
      × Halts (record_turn archive) ([], start) (records_from (length archive + 1) archive start)
unfolding insert_chain
insert_chain-Halts d takes archive idx start c = (
  chain_loop-Halts (decode_member d) archive 0 (length archive + 1) 0 c
      (decode_member-Advances d takes) (omega arith),
  chain_loop-Halts refuse_member archive idx (length archive + 1) 0 c refuse_member-Advances
      (omega arith),
  subst (Halts (record_turn archive) ([], start))
      (prepend_nothing (records_from (length archive + 1) archive start))
      (records_from-Halts archive (length archive + 1) [] start (omega arith)),
)
