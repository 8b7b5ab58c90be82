-- ===== src/Udf/Listed.antt =====
-- The loop of `parse_fids` of crates/lamfold-udf/src/udf.rs over a directory that is written out.
use lamfold.Prelude.{
  ℕ, zero, suc, ◌+◌, ◌≤◌, ◌<◌, false, leb, Bool-cases, inl, inr, Bytes, List, [], ◌∷◌, ◌++◌, length,
  length-append, append_assoc, append-nil, ◌≡◌, refl, sym, ap, ◌∙◌, arith,
}
use lamfold.Error.{ok}
use lamfold.Prelude.Parts.{join, join-append}
use lamfold.Udf.{block_add}
use lamfold.Udf.Names.{Fid, is_listed, fids_from, parse_fids}
use lamfold.Udf.Written.{
  RawFid, FitsAll, parts, dir_bytes, add_listed, listed, length-parts, buffer, next, fids_from_step,
}

add_listed-append :
    (partition_start : ℕ) (f : RawFid) (out rest : List Fid)
    → (out ++ add_listed partition_start f []) ++ rest ≡ out ++ add_listed partition_start f rest
add_listed-append partition_start f out rest = elim (Bool-cases (is_listed f.characteristics)) [
  | inl shown ↦
      rw shown (append_assoc out ((f.name, block_add partition_start f.icb_block) ∷ []) rest)
  | inr hidden ↦ rw (hidden, append-nil out) refl
]

fids_from_end :
    (turns partition_start p : ℕ) (data_ : Bytes) (out : List Fid)
    → leb (p + 38) (length data_) ≡ false
    → fids_from turns partition_start data_ p out ≡ ok out
unfolding fids_from
fids_from_end zero partition_start p data_ out h = refl
fids_from_end (suc turns) partition_start p data_ out h = rw (fids_from, h) refl

fids_from_written :
    (turns partition_start : ℕ) (before : Bytes) (fs : List RawFid) (slack : Bytes) (out : List Fid)
    → FitsAll fs
    → length slack < 38
    → length fs ≤ turns
    → fids_from turns partition_start (before ++ (dir_bytes fs ++ slack)) (length before) out
      ≡ ok (out ++ listed partition_start fs)
fids_from_written turns partition_start before [] slack out h short le =
    fids_from_end turns partition_start (length before) (before ++ slack) out
      (ground (arith, length-append before slack))
    ∙ ap ok (sym (append-nil out))
fids_from_written zero partition_start before (f ∷ fs) slack out h short le = absurd (omega arith)
fids_from_written (suc turns) partition_start before (f ∷ fs) slack out h short le =
    let after = dir_bytes fs ++ slack in
    let bytes = join (parts f) in
    let here : before ++ ((bytes ++ dir_bytes fs) ++ slack) ≡ buffer f h.0 before after =
      ap (λ t. before ++ t)
        (append_assoc bytes (dir_bytes fs) slack
          ∙ ap (λ t. bytes ++ t) (sym (append-nil after))
          ∙ sym (join-append (parts f) (after ∷ []))) in
    let there : buffer f h.0 before after ≡ (before ++ bytes) ++ after =
      ap (λ t. before ++ t)
        (join-append (parts f) (after ∷ []) ∙ ap (λ t. bytes ++ t) (append-nil after))
      ∙ sym (append_assoc before bytes after) in
    let end : next f h.0 before after ≡ length (before ++ bytes) =
      omega (arith, length-append before bytes, length-parts f h.0) in
    let out' = out ++ add_listed partition_start f [] in
    ap (λ t. fids_from (suc turns) partition_start t (length before) out) here
    ∙ fids_from_step f h.0 before after turns partition_start out
    ∙ ap (λ t. fids_from turns partition_start t (next f h.0 before after) out') there
    ∙ ap (λ p. fids_from turns partition_start ((before ++ bytes) ++ after) p out') end
    ∙ fids_from_written turns partition_start (before ++ bytes) fs slack out' h.1 short
        (omega arith)
    ∙ ap ok (add_listed-append partition_start f out (listed partition_start fs))

length-dir_bytes : (fs : List RawFid) → FitsAll fs → length fs ≤ length (dir_bytes fs)
length-dir_bytes [] h = omega arith
length-dir_bytes (f ∷ fs) h = omega (
  arith,
  length-append (join (parts f)) (dir_bytes fs),
  length-parts f h.0,
  length-dir_bytes fs h.1,
)

-- A directory written out as File Identifier Descriptors, with less than one more behind them, is read back:
-- the names in order with the blocks of their entries, without the parent and what is deleted. The loop
-- ends within its turns.
pub parse_fids_written :
    (partition_start : ℕ) (fs : List RawFid) (slack : Bytes)
    → FitsAll fs
    → length slack < 38
    → parse_fids partition_start (dir_bytes fs ++ slack) ≡ ok (listed partition_start fs)
unfolding parse_fids
parse_fids_written partition_start fs slack h short =
    fids_from_written (length (dir_bytes fs ++ slack)) partition_start [] fs slack [] h short
      (omega (arith, length-append (dir_bytes fs) slack, length-dir_bytes fs h))
