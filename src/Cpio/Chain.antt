-- ===== src/Cpio/Chain.antt =====
-- `insert_chain` of crates/lamfold-cpio/src/cpio.rs: archive after archive, and compressed members.
use lamfold.Prelude.{
  ℕ, zero, suc, ◌+◌, ◌-◌, ◌%◌, true, false, ◌&&◌, ◌||◌, ◌==◌, if◌then◌else◌, Bytes, List, [], ◌∷◌,
  ◌++◌, length, drop, leb, Option, none, some,
}
use lamfold.Error.{Result, ok, err, corrupt}
use lamfold.Stream.Parts.{StreamCodec, sniff, starts_with, Decoders}
use lamfold.Stream.Decode.{decode_stream}
use lamfold.Cpio.Record.{newc_magic, crc_magic}
use lamfold.Cpio.Tree.{Node}
use lamfold.Cpio.Archive.{insert_newc_archive}

-- What the calls of `insert_chain` share.
pub record Chain : Type 0 where
  pub buffers : List Bytes
  pub nodes : List Node
  pub budget : ℕ

-- `archive.get(pos..).and_then(|r| r.iter().position(|&b| b != 0))`.
unfoldable pub nonzero : Bytes → Option ℕ
nonzero [] = none
nonzero (b ∷ bs) =
    let rest = nonzero bs in
    if b == 0 then elim rest [ none ↦ none | some n ↦ some (suc n) ] else some 0

unfoldable pub next_start : Bytes → ℕ → Option ℕ
unfolding drop nonzero
next_start archive pos = if leb pos (length archive) then nonzero (drop pos archive) else none

-- What is done with a compressed member: it differs with the buffer that the member stands in.
abbrev pub OnMember : Type 0
OnMember = Chain → Bytes → StreamCodec → Option (Result (Chain × ℕ))

-- The kernel does not decompress again inside a decompressed member.
abbrev pub refuse_member : OnMember
refuse_member c rest codec = some (err (corrupt "cpio_compressed_inside_compressed"))

-- The loop, on fuel: an archive and a stream are longer than nothing.
unfoldable pub chain_loop : OnMember → ℕ → Bytes → ℕ → ℕ → Chain → Option (Result Chain)
unfolding next_start drop sniff starts_with insert_newc_archive
chain_loop on_member zero archive idx pos c = some (err (corrupt "cpio_junk_between_archives"))
chain_loop on_member (suc fuel) archive idx pos c = elim (next_start archive pos) [
  | none ↦ some (ok c)
  | some n ↦
      let start = pos + n in
      let rest = drop start archive in
      elim (sniff rest) [
        | some codec ↦ elim (on_member c rest codec) [
          | none ↦ none
          | some (err why) ↦ some (err why)
          | some (ok (c', used)) ↦ chain_loop on_member fuel archive idx (start + used) c'
        ]
        | none ↦
            elim ((starts_with crc_magic rest || starts_with newc_magic rest) && start % 4 == 0) [
              | false ↦ some (err (corrupt "cpio_junk_between_archives"))
              | true ↦ elim (insert_newc_archive archive idx c.nodes start) [
                | none ↦ none
                | some (err why) ↦ some (err why)
                | some (ok (nodes, end)) ↦
                    chain_loop on_member fuel archive idx end (record c { nodes = nodes })
              ]
            ]
      ]
]

-- The chain of a member, with the input that the member's stream has taken.
abbrev pub with_used : ℕ → Option (Result Chain) → Option (Result (Chain × ℕ))
with_used used none = none
with_used used (some (err why)) = some (err why)
with_used used (some (ok c)) = some (ok (c, used))

module _ (d : Decoders) where
  -- A member of the input: decoded into a buffer of its own, whose archives are folded in.
  unfoldable pub decode_member : OnMember
  unfolding decode_stream chain_loop
  decode_member c rest codec = elim (decode_stream d codec rest c.budget) [
    | err why ↦ some (err why)
    | ok (out, used) ↦
        let member = length c.buffers in
        let c' : Chain = record {
          buffers = c.buffers ++ out ∷ [];
          nodes = c.nodes;
          budget = c.budget - length out;
        } in
        with_used used (chain_loop refuse_member (length out + 1) out member 0 c')
  ]

  -- The chain in buffer 0, the input.
  unfoldable pub insert_chain : Bytes → Chain → Option (Result Chain)
  unfolding chain_loop decode_member
  insert_chain archive c = chain_loop decode_member (length archive + 1) archive 0 0 c
