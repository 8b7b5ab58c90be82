-- ===== src/Cpio/Opened.antt =====
-- What `open` of crates/lamfold-cpio/src/cpio.rs gives.
use lamfold.Prelude.{
  ℕ, ◌+◌, ◌-◌, ◌%◌, ◌≤◌, ◌||◌, Bytes, List, [], ◌∷◌, ◌++◌, length, length-append, get_elem?,
  get_elem?-append_lt, get_elem?-append_last, get_elem?_inbounds, some, ◌≡◌, arith, Bool-cases, inl,
  inr, ◌∙◌, refl,
}
use lamfold.Error.{Result-cases}
use lamfold.Path.{components_of, split}
use lamfold.Stream.Parts.{starts_with, Decoders}
use lamfold.Stream.Decode.{decode_stream, decode_stream-Within}
use lamfold.Cpio.Record.{newc_magic, crc_magic, file_kind}
use lamfold.Cpio.Tree.{Node, Span, insert}
use lamfold.Cpio.Tree.Insert.{insert-Inserts}
use lamfold.Cpio.Chain.{Chain, refuse_member, chain_loop, decode_member, insert_chain}
use lamfold.Cpio.Volume.{Entry, WithinArchive, CpioReader, insert_single, Cpio, root_nodes, mount}
use lamfold.Cpio.Spans.{
  Outcome, Outcome-cases, All-mono, InBuffers, InBuffers-append, insert_at-All,
}
use lamfold.Cpio.Mounted.{
  Safe, ChainOk, total, total-append, Later, MemberOk, chain_loop-Later, Later-trans,
}

-- A chain with the output of a member as one more buffer.
pushed : Chain → Bytes → Chain
pushed c out = record {
  buffers = c.buffers ++ out ∷ [];
  nodes = c.nodes;
  budget = c.budget - length out;
}

pushed-Later :
    (c : Chain) (out : Bytes) → ChainOk c → length out ≤ c.budget → Later c (pushed c out)
unfolding pushed
pushed-Later c out fine le = record {
  is_ok = record {
    safe = (
      fine.safe.0,
      All-mono (InBuffers c.buffers) (InBuffers (c.buffers ++ out ∷ [])) c.nodes
          (InBuffers-append c.buffers out) fine.safe.1,
    );
    input = omega (arith, length-append c.buffers (out ∷ []), fine.input);
  };
  keeps =
      λ i b at. get_elem?-append_lt c.buffers (out ∷ []) i (get_elem?_inbounds c.buffers i at) ∙ at;
  paid = omega (arith, total-append c.buffers out, le);
}

module _ (d : Decoders) where
  decode_member-MemberOk : MemberOk (decode_member d)
  unfolding decode_member pushed
  decode_member-MemberOk c rest codec fine =
      elim (Result-cases (decode_stream d codec rest c.budget)) [
        | inr (why, e) ↦ rw (e, Outcome, decode_member) tt
        | inl ((out, used), e) ↦
            let (small, _) = decode_stream-Within d codec rest c.budget e in
            let c' = pushed c out in
            let first = pushed-Later c out fine small in
            let newest = get_elem?-append_last c.buffers out in
            let inner =
              chain_loop-Later refuse_member (λ _ _ _ _. tt) (length out + 1) out (length c.buffers)
                0 c' first.is_ok newest in
            elim (Outcome-cases (Later c')
              (chain_loop refuse_member (length out + 1) out (length c.buffers) 0 c') inner) [
                | inl (why, r) ↦ rw (e, Outcome, decode_member, r) tt
                | inr (c'', r, later) ↦
                    rw (e, Outcome, decode_member, r) (Later-trans c c' c'' first later)
              ]
      ]

  -- Folding a chain never stops with a panic. If it succeeds, the nodes are a tree, every file's span
  -- lies in the buffer that it names, the earlier buffers are as they were, and the decompressed
  -- members together are as long as the budget has shrunk.
  pub insert_chain-Later :
      (archive : Bytes) (c : Chain)
      → ChainOk c
      → get_elem? c.buffers 0 ≡ some archive
      → Outcome (Later c) (insert_chain d archive c)
  unfolding insert_chain
  insert_chain-Later archive c fine at =
      chain_loop-Later (decode_member d) decode_member-MemberOk (length archive + 1) archive 0 0 c
        fine at

single-Safe :
    (archive : Bytes) (es : List Entry) (nodes : List Node)
    → WithinArchive (length archive) es
    → Safe (archive ∷ []) nodes
    → (end : List Node) × (insert_single es nodes ≡ some end) × Safe (archive ∷ []) end
unfolding insert_single insert
single-Safe archive [] nodes within safe = (nodes, refl, safe)
single-Safe archive (e ∷ es) nodes (le, within) (tree, all) =
    let P = InBuffers (archive ∷ []) in
    let span : Span = record { buf = 0; off = e.off; len = e.len } in
    let kind = file_kind e.mode in
    let (mid, ran, inserted) = insert-Inserts kind (e.mode % 4096) span nodes e.name tree in
    let comps = components_of (split e.name) in
    let spans =
      insert_at-All P kind (e.mode % 4096) span (archive, refl, omega arith) (archive, refl, le)
        nodes mid 0 comps all ran in
    let (end, rest, safe) = single-Safe archive es mid within (inserted.tree, spans) in
    (end, rw (ran, insert_single) rest, safe)

-- A volume that `open` can give: its nodes are a tree, its spans lie in its buffers, the input is the
-- first buffer, and the decompressed members are within the budget.
pub record Mounted (budget : ℕ) (archive : Bytes) (v : Cpio) : Type 0 where
  pub safe : Safe v.buffers v.nodes
  pub input : get_elem? v.buffers 0 ≡ some archive
  pub bounded : total v.buffers ≤ length archive + budget

root-Safe : (archive : Bytes) → Safe (archive ∷ []) root_nodes
unfolding get_elem?
root-Safe archive = ((omega arith, ((tt, tt), tt)), ((archive, refl, omega arith), tt))

-- Opening an input that is in memory never stops with a panic, whatever its bytes are. If it
-- succeeds, the nodes are a tree, every span lies in the buffer that it names, buffer 0 is the input,
-- and the buffers together are no longer than the input and the budget.
pub mount-Mounted :
    (d : Decoders) (reader : CpioReader) (budget : ℕ) (archive : Bytes)
    → Outcome (Mounted budget archive) (mount d reader budget archive)
unfolding mount
mount-Mounted d reader budget archive =
    elim (Bool-cases (starts_with newc_magic archive || starts_with crc_magic archive)) [
      | inl newc ↦
          let c : Chain = record { buffers = archive ∷ []; nodes = root_nodes; budget = budget } in
          let fine : ChainOk c = record { safe = root-Safe archive; input = omega arith } in
          elim (Outcome-cases (Later c) (insert_chain d archive c)
            (insert_chain-Later d archive c fine refl)) [
              | inl (why, r) ↦ rw (newc, Outcome, mount, r) tt
              | inr (c', r, later) ↦
                  rw (newc, Outcome, mount, r)
                    (record {
                      safe = later.is_ok.safe;
                      input = later.keeps 0 archive refl;
                      bounded = omega (arith, later.paid);
                    })
            ]
      | inr old ↦
          let (end, ran, safe) =
            single-Safe archive (reader.iter_files archive) root_nodes (reader.files_within archive)
              (root-Safe archive) in
          rw (old, Outcome, mount, ran)
            (record { safe = safe; input = refl; bounded = omega arith })
    ]
