-- ===== src/ElTorito/Layout.antt =====
-- A boot catalogue as crates/lamfold-iso/src/el_torito.rs reads it, written out, and read back.
use lamfold.Prelude.{
  ℕ, ◌+◌, ◌*◌, ◌≤◌, false, ltb, Bytes, List, [], ◌∷◌, ◌++◌, length, length-append, append_assoc,
  take, drop, take-append, drop-append, Option, none, some, ◌≡◌, refl, sym, ap, ◌∙◌, arith,
  Option-cases, inl, inr,
}
use lamfold.ElTorito.{UefiImage, parse_entry, scan_entries}

abbrev pub concat : List Bytes → Bytes
concat [] = []
concat (e ∷ es) = e ++ concat es

abbrev pub Entries : List Bytes → Type 0
Entries [] = Unit
Entries (e ∷ es) = (length e ≡ 32) × Entries es

pub length-concat : (es : List Bytes) → Entries es → length (concat es) ≡ length es * 32
length-concat [] h = omega arith
length-concat (e ∷ es) (size, h) =
    omega (arith, length-append e (concat es), length-concat es h, size)

-- The first entry that boots.
unfoldable pub first_boot : List Bytes → Option UefiImage
first_boot [] = none
first_boot (e ∷ es) =
    let rest = first_boot es in elim (parse_entry e) [ some img ↦ some img | none ↦ rest ]

-- A piece of 32 bytes at `off` is read as it is.
pub piece_there :
    (cat pre e post : Bytes) (off : ℕ)
    → cat ≡ pre ++ (e ++ post)
    → off ≡ length pre
    → length e ≡ 32
    → (off + 32 ≤ length cat) × (drop off cat ≡ e ++ post)
piece_there cat pre e post off shape at size = (
  omega (arith, ap length shape, length-append pre (e ++ post), length-append e post),
  rw shape (drop-append pre (e ++ post) off at),
)

pub next_piece : (cat pre e post : Bytes) → cat ≡ pre ++ (e ++ post) → cat ≡ (pre ++ e) ++ post
next_piece cat pre e post shape = shape ∙ sym (append_assoc pre e post)

pub scan_entries-first_boot :
    (es : List Bytes) (cat pre post : Bytes) (off : ℕ)
    → Entries es
    → cat ≡ pre ++ (concat es ++ post)
    → off ≡ length pre
    → ((scan_entries (length es) cat off).0 ≡ first_boot es)
      × (first_boot es ≡ none → (scan_entries (length es) cat off).1 ≡ off + length es * 32)
unfolding scan_entries first_boot
scan_entries-first_boot [] cat pre post off h shape at = (refl, λ _. omega arith)
scan_entries-first_boot (e ∷ es) cat pre post off (size, h) shape at =
    let split : cat ≡ pre ++ (e ++ (concat es ++ post)) =
      shape ∙ ap (λ t. pre ++ t) (append_assoc e (concat es) post) in
    let (inside, here) = piece_there cat pre e (concat es ++ post) off split at size in
    let there : ltb (length cat) (off + 32) ≡ false = ground (arith, inside) in
    let cut : take 32 (drop off cat) ≡ e =
      rw here (take-append e (concat es ++ post) 32 (sym size)) in
    let (found, past) =
      scan_entries-first_boot es cat (pre ++ e) post (off + 32) h
        (next_piece cat pre e (concat es ++ post) split) (omega (arith, length-append pre e)) in
    elim (Option-cases (parse_entry e)) [
      | inr (img, p) ↦ (
        rw (there, scan_entries, cut, first_boot, p) refl,
        λ none_. absurd (let bad = rw (first_boot, p) at none_ in cc),
      )
      | inl p ↦ (
        rw (there, scan_entries, cut, first_boot, p) found,
        λ none_.
            rw (there, scan_entries, cut, p) (past (rw (first_boot, p) at none_) ∙ (omega arith)),
      )
    ]
