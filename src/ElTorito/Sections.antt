-- ===== src/ElTorito/Sections.antt =====
-- The section headers of crates/lamfold-iso/src/el_torito.rs: the walk finds the first UEFI image.
use lamfold.Prelude.{
  ℕ, suc, ◌+◌, ◌*◌, ◌/◌, ◌%◌, ◌<◌, true, false, ◌||◌, leb, ◌==◌, if◌then◌else◌, Bytes, List, [],
  ◌∷◌, ◌++◌, length, length-append, drop, get_or, le16, Option, none, some, ◌≡◌, refl, arith,
  Bool-cases, Option-cases, inl, inr,
}
use lamfold.ElTorito.{platform_uefi, UefiImage, section, walk_headers}
use lamfold.ElTorito.Layout.{
  concat, Entries, first_boot, piece_there, next_piece, scan_entries-first_boot,
}

pub record Section : Type 0 where
  pub platform : ℕ
  pub id : Bytes
  pub entries : List Bytes

abbrev pub SectionOk : Section → Type 0
SectionOk s = (length s.id ≡ 28) × (length s.entries < 65536) × Entries s.entries

abbrev pub Sections : List Section → Type 0
Sections [] = Unit
Sections (s ∷ ss) = SectionOk s × Sections ss

-- A header, the last one marked, and its entries.
abbrev pub header_of : ℕ → Section → Bytes
header_of indicator s =
    indicator ∷ s.platform ∷ (length s.entries % 256) ∷ (length s.entries / 256) ∷ s.id

abbrev pub sections_bytes : List Section → Bytes
sections_bytes [] = []
sections_bytes (s ∷ []) = header_of 0x91 s ++ concat s.entries
sections_bytes (s ∷ t ∷ ss) = header_of 0x90 s ++ (concat s.entries ++ sections_bytes (t ∷ ss))

-- The first bootable entry of a section, if it is one for UEFI.
unfoldable pub in_section : Section → Option UefiImage
unfolding first_boot
in_section s = if s.platform == platform_uefi then first_boot s.entries else none

-- The first bootable entry of the sections for UEFI.
unfoldable pub first_uefi : List Section → Option UefiImage
unfolding in_section
first_uefi [] = none
first_uefi (s ∷ ss) =
    let rest = first_uefi ss in elim (in_section s) [ some img ↦ some img | none ↦ rest ]

section-first_boot :
    (s : Section) (cat pre post : Bytes) (off : ℕ)
    → SectionOk s
    → cat ≡ pre ++ (concat s.entries ++ post)
    → off ≡ length pre
    → ((section cat s.platform (length s.entries) off).0 ≡ in_section s)
      × (in_section s ≡ none
          → (section cat s.platform (length s.entries) off).1 ≡ off + length s.entries * 32)
unfolding section in_section
section-first_boot s cat pre post off (_, _, entries) shape at =
    elim (Bool-cases (s.platform == platform_uefi)) [
      | inr e ↦ (rw (section, e, in_section) refl, λ _. rw (section, e) refl)
      | inl e ↦
          let (found, past) = scan_entries-first_boot s.entries cat pre post off entries shape at in
          (
            rw (section, e, in_section) found,
            λ none_. rw (section, e) (past (rw (in_section, e) at none_)),
          )
    ]

le16_count : (n : ℕ) (rest : Bytes) → n < 65536 → le16 (n % 256 ∷ n / 256 ∷ rest) ≡ n
unfolding le16
le16_count n rest h = omega arith

-- One turn of the walk, at a header that is there.
pub walk_headers_turn :
    (fuel indicator : ℕ) (s : Section) (cat pre post : Bytes) (off : ℕ)
    → SectionOk s
    → (indicator == 0x90 || indicator == 0x91) ≡ true
    → cat ≡ pre ++ (header_of indicator s ++ (concat s.entries ++ post))
    → off ≡ length pre
    → walk_headers (suc fuel) cat off ≡ (elim (in_section s) [
      | some img ↦ some img
      | none ↦ elim (indicator == 0x91) [
        | true ↦ none
        | false ↦ walk_headers fuel cat (off + 32 + length s.entries * 32)
      ]
    ])
unfolding walk_headers get_or drop
walk_headers_turn fuel indicator s cat pre post off fine known shape at =
    let hdr = header_of indicator s in
    let tail = concat s.entries ++ post in
    let wide : length hdr ≡ 32 = omega (arith, fine.0) in
    let (inside, here) = piece_there cat pre hdr tail off shape at wide in
    let there : leb (off + 32) (length cat) ≡ true = ground (arith, inside) in
    let count = le16_count (length s.entries) (s.id ++ tail) fine.1 in
    let (found, past) =
      section-first_boot s cat (pre ++ hdr) post (off + 32) fine (next_piece cat pre hdr tail shape)
        (omega (arith, length-append pre hdr, wide)) in
    let mark : get_or (drop off cat) 0 0 ≡ indicator = rw here refl in
    let plat : get_or (drop off cat) 1 0 ≡ s.platform = rw here refl in
    let many : le16 (drop 2 (drop off cat)) ≡ length s.entries = rw here count in
    elim (Option-cases (in_section s)) [
      | inr (img, e) ↦ rw (there, walk_headers, mark, known, plat, many, found, e) refl
      | inl e ↦ elim (Bool-cases (indicator == 0x91)) [
        | inl last ↦ rw (there, walk_headers, mark, known, plat, many, found, e, mark, last) refl
        | inr on ↦
            rw
              (there, walk_headers, mark, known, plat, many, found, e, mark, on, plat, many, past e)
              refl
      ]
    ]
