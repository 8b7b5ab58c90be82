-- ===== src/Cpio/Mounted.antt =====
-- What `insert_chain` and `open` of crates/lamfold-cpio/src/cpio.rs give.
use lamfold.Prelude.{
  ℕ, zero, suc, ◌+◌, ◌%◌, ◌<◌, ◌&&◌, ◌||◌, ◌==◌, Bytes, List, [], ◌∷◌, ◌++◌, length, get_elem?,
  get_elem?_lt, drop, some, ◌≡◌, arith, Bool-cases, inl, inr, ◌∙◌, refl, Option-cases,
}
use lamfold.Stream.Parts.{StreamCodec, sniff, starts_with}
use lamfold.Cpio.Record.{newc_magic, crc_magic}
use lamfold.Cpio.Tree.{Node, no_span}
use lamfold.Cpio.Archive.{insert_newc_archive}
use lamfold.Cpio.Chain.{Chain, OnMember, next_start, chain_loop}
use lamfold.Cpio.Spans.{Outcome, Outcome-mono, Outcome-cases, InBuffers}
use lamfold.Cpio.Grown.{Sound, Folded, insert_newc_archive-Outcome}

abbrev pub Safe : List Bytes → List Node → Type 0
Safe buffers nodes = Sound (InBuffers buffers) nodes

pub record ChainOk (c : Chain) : Type 0 where
  pub safe : Safe c.buffers c.nodes
  pub input : 0 < length c.buffers

abbrev pub total : List Bytes → ℕ
total [] = 0
total (b ∷ buffers) = length b + total buffers

pub total-append :
    (buffers : List Bytes) (out : Bytes) → total (buffers ++ out ∷ []) ≡ total buffers + length out
total-append [] out = omega arith
total-append (b ∷ buffers) out = omega (arith, total-append buffers out)

-- The buffers stay, and a new one is paid for from the budget.
pub record Later (c c' : Chain) : Type 0 where
  pub is_ok : ChainOk c'
  pub keeps : (i : ℕ) (b : Bytes) → get_elem? c.buffers i ≡ some b → get_elem? c'.buffers i ≡ some b
  pub paid : total c'.buffers + c'.budget ≡ total c.buffers + c.budget

pub Later-refl : (c : Chain) → ChainOk c → Later c c
Later-refl c fine = record { is_ok = fine; keeps = λ i b at. at; paid = refl }

pub Later-trans : (a b c : Chain) → Later a b → Later b c → Later a c
Later-trans a b c p q = record {
  is_ok = q.is_ok;
  keeps = λ i buf at. q.keeps i buf (p.keeps i buf at);
  paid = q.paid ∙ p.paid;
}

abbrev pub MemberOk : OnMember → Type 0
MemberOk m =
    (c : Chain) (rest : Bytes) (codec : StreamCodec)
    → ChainOk c
    → Outcome (λ r. Later c r.0) (m c rest codec)

in_blank : (buffers : List Bytes) → 0 < length buffers → InBuffers buffers no_span
in_blank buffers some_ = let (b, at) = get_elem?_lt buffers 0 some_ in (b, at, omega arith)

-- An archive of the buffer `idx`, folded into the tree.
fold_archive :
    (c : Chain) (archive : Bytes) (idx start : ℕ)
    → ChainOk c
    → get_elem? c.buffers idx ≡ some archive
    → Outcome (Folded (InBuffers c.buffers) start) (insert_newc_archive archive idx c.nodes start)
fold_archive c archive idx start fine at =
    insert_newc_archive-Outcome (InBuffers c.buffers) (in_blank c.buffers fine.input) archive idx
      (λ off len le. (archive, at, le)) c.nodes start fine.safe

with_nodes :
    (c : Chain) (nodes : List Node)
    → ChainOk c
    → Safe c.buffers nodes
    → Later c (record c { nodes = nodes })
with_nodes c nodes fine safe = record {
  is_ok = record { safe = safe; input = fine.input };
  keeps = λ i b at. at;
  paid = refl;
}

-- The loop of `insert_chain` does not panic, whatever a compressed member is done with.
pub chain_loop-Later :
    (m : OnMember)
    → MemberOk m
    → (fuel : ℕ) (archive : Bytes) (idx pos : ℕ) (c : Chain) → ChainOk c
    → get_elem? c.buffers idx ≡ some archive
    → Outcome (Later c) (chain_loop m fuel archive idx pos c)
unfolding chain_loop
chain_loop-Later m member zero archive idx pos c fine at = tt
chain_loop-Later m member (suc fuel) archive idx pos c fine at =
    elim (Option-cases (next_start archive pos)) [
      | inl e ↦ rw (e, Outcome, chain_loop) (Later-refl c fine)
      | inr (n, e) ↦
          let start = pos + n in
          let rest = drop start archive in
          elim (Option-cases (sniff rest)) [
            | inr (codec, s) ↦
                elim (Outcome-cases (λ r. Later c r.0) (m c rest codec)
                  (member c rest codec fine)) [
                    | inl (why, r) ↦ rw (e, Outcome, chain_loop, s, r) tt
                    | inr ((c', used), r, later) ↦
                        let on =
                          chain_loop-Later m member fuel archive idx (start + used) c' later.is_ok
                            (later.keeps idx archive at) in
                        rw (e, Outcome, chain_loop, s, r)
                          (Outcome-mono (Later c') (Later c)
                            (chain_loop m fuel archive idx (start + used) c')
                            (λ c''. Later-trans c c' c'' later) on)
                  ]
            | inl s ↦
                elim (Bool-cases
                  ((starts_with crc_magic rest || starts_with newc_magic rest) && start % 4 == 0)) [
                    | inr junk ↦ rw (e, Outcome, chain_loop, s, junk) tt
                    | inl newc ↦
                        elim (Outcome-cases (Folded (InBuffers c.buffers) start)
                          (insert_newc_archive archive idx c.nodes start)
                          (fold_archive c archive idx start fine at)) [
                            | inl (why, r) ↦ rw (e, Outcome, chain_loop, s, newc, r) tt
                            | inr ((nodes, end), r, (safe, _)) ↦
                                let c' : Chain = record c { nodes = nodes } in
                                let later = with_nodes c nodes fine safe in
                                let on =
                                  chain_loop-Later m member fuel archive idx end c' later.is_ok
                                    at in
                                rw (e, Outcome, chain_loop, s, newc, r)
                                  (Outcome-mono (Later c') (Later c)
                                    (chain_loop m fuel archive idx end c')
                                    (λ c''. Later-trans c c' c'' later) on)
                          ]
                  ]
          ]
    ]
