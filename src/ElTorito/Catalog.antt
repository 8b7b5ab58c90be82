-- ===== src/ElTorito/Catalog.antt =====
-- `parse_catalog` of crates/lamfold-iso/src/el_torito.rs on a catalogue that is written out.
use lamfold.Prelude.{
  ℕ, zero, suc, ◌+◌, ◌*◌, ◌≤◌, false, ltb, ◌==◌, if◌then◌else◌, Bytes, List, [], ◌∷◌, ◌++◌, length,
  length-append, append_assoc, take, drop, take-append, get_or, none, some, ◌≡◌, refl, sym, ap, ◌∙◌,
  arith,
}
use lamfold.ElTorito.{platform_uefi, parse_entry, walk_headers, parse_catalog}
use lamfold.ElTorito.Layout.{concat, length-concat, piece_there, next_piece}
use lamfold.ElTorito.Sections.{
  Section, Sections, header_of, sections_bytes, in_section, first_uefi, walk_headers_turn,
}

walk_headers-first_uefi :
    (s : Section) (ss : List Section) (fuel : ℕ) (cat pre post : Bytes) (off : ℕ)
    → Sections (s ∷ ss)
    → cat ≡ pre ++ (sections_bytes (s ∷ ss) ++ post)
    → off ≡ length pre
    → length (s ∷ ss) ≤ fuel
    → walk_headers fuel cat off ≡ first_uefi (s ∷ ss)
unfolding first_uefi
walk_headers-first_uefi s ss zero cat pre post off fine shape at enough = absurd (omega arith)
walk_headers-first_uefi s [] (suc fuel) cat pre post off (fine, _) shape at enough =
    let split =
      shape ∙ ap (λ t. pre ++ t) (append_assoc (header_of 0x91 s) (concat s.entries) post) in
    walk_headers_turn fuel 0x91 s cat pre post off fine refl split at
walk_headers-first_uefi s (t ∷ ss) (suc fuel) cat pre post off (fine, rest) shape at enough =
    let hdr = header_of 0x90 s in
    let later = sections_bytes (t ∷ ss) ++ post in
    let split : cat ≡ pre ++ (hdr ++ (concat s.entries ++ later)) = shape ∙ (simp append_assoc) in
    let split' : cat ≡ (pre ++ (hdr ++ concat s.entries)) ++ later = split ∙ (simp append_assoc) in
    let on =
      walk_headers-first_uefi t ss fuel cat (pre ++ (hdr ++ concat s.entries)) post
        (off + 32 + length s.entries * 32) rest split'
        (omega (
          arith,
          length-append pre (hdr ++ concat s.entries),
          length-append hdr (concat s.entries),
          length-concat s.entries fine.2,
          fine.0,
        ))
        (omega arith) in
    walk_headers_turn fuel 0x90 s cat pre later off fine refl split at
    ∙ ap (λ t. elim (in_section s) [ some img ↦ some img | none ↦ t ]) on

-- A catalogue: the validation entry with its key, the default entry, the sections, and what follows.
unfoldable pub image_of : ℕ → Bytes → Bytes → List Section → Bytes → Bytes
image_of platform id initial ss post =
    (1 ∷ platform ∷ (id ++ (0x55 ∷ 0xaa ∷ []))) ++ (initial ++ (sections_bytes ss ++ post))

get_or-append :
    (xs ys : Bytes) (n m d : ℕ) → n ≡ length xs + m → get_or (xs ++ ys) n d ≡ get_or ys m d
unfolding get_or
get_or-append [] ys n m d e = let same : n ≡ m = omega arith in rw same refl
get_or-append (x ∷ xs) ys zero m d e = absurd (omega arith)
get_or-append (x ∷ xs) ys (suc n) m d e = get_or-append xs ys n m d (omega arith)

enough_turns : (ss : List Section) → Sections ss → length ss ≤ length (sections_bytes ss)
enough_turns [] h = omega arith
enough_turns (s ∷ []) (fine, h) =
    omega (arith, length-append (header_of 0x91 s) (concat s.entries), fine.0)
enough_turns (s ∷ t ∷ ss) (fine, h) = omega (
  arith,
  length-append (header_of 0x90 s) (concat s.entries ++ sections_bytes (t ∷ ss)),
  length-append (concat s.entries) (sections_bytes (t ∷ ss)),
  fine.0,
  enough_turns (t ∷ ss) h,
)

-- What is read behind a valid validation entry.
parse_catalog_valid :
    (cat : Bytes) (platform : ℕ)
    → ltb (length cat) 64 ≡ false
    → get_or cat 0 0 ≡ 1
    → get_or cat 30 0 ≡ 0x55
    → get_or cat 31 0 ≡ 0xaa
    → get_or cat 1 0 ≡ platform
    → parse_catalog cat ≡ (
        if platform == platform_uefi
        then parse_entry (take 32 (drop 32 cat))
        else walk_headers (length cat) cat 64)
unfolding parse_catalog
parse_catalog_valid cat platform long first k0 k1 at = rw (long, first, k0, k1, at) refl

-- A catalogue with its validation entry, its default entry and one section at least gives the
-- default entry's image if the validation entry is for UEFI, and else the image of the first bootable
-- entry of its UEFI sections, in their order, or none; what follows the last section is not read.
pub parse_catalog-image_of :
    (platform : ℕ) (id initial : Bytes) (s : Section) (ss : List Section) (post : Bytes)
    → length id ≡ 28
    → length initial ≡ 32
    → Sections (s ∷ ss)
    → parse_catalog (image_of platform id initial (s ∷ ss) post)
      ≡ (if platform == platform_uefi then parse_entry initial else first_uefi (s ∷ ss))
unfolding image_of get_or
parse_catalog-image_of platform id initial s ss post id_size initial_size fine =
    let key : Bytes = 0x55 ∷ 0xaa ∷ [] in
    let head : Bytes = 1 ∷ platform ∷ (id ++ key) in
    let sections = sections_bytes (s ∷ ss) ++ post in
    let cat = head ++ (initial ++ sections) in
    let head_size : length head ≡ 32 = omega (arith, length-append id key, id_size) in
    let flat : (id ++ key) ++ (initial ++ sections) ≡ id ++ (key ++ (initial ++ sections)) =
      append_assoc id key (initial ++ sections) in
    let k0 : get_or cat 30 0 ≡ 0x55 =
      rw flat (get_or-append id (key ++ (initial ++ sections)) 28 0 0 (omega arith)) in
    let k1 : get_or cat 31 0 ≡ 0xaa =
      rw flat (get_or-append id (key ++ (initial ++ sections)) 29 1 0 (omega arith)) in
    let size = length-append head (initial ++ sections) in
    let size' = length-append initial sections in
    let long : ltb (length cat) 64 ≡ false = ground (arith, size, size', head_size, initial_size) in
    let (_, here) = piece_there cat head initial sections 32 refl (sym head_size) initial_size in
    let cut : take 32 (drop 32 cat) ≡ initial =
      rw here (take-append initial sections 32 (sym initial_size)) in
    let room = length-append (sections_bytes (s ∷ ss)) post in
    let walked =
      walk_headers-first_uefi s ss (length cat) cat (head ++ initial) post 64 fine
        (next_piece cat head initial sections refl)
        (omega (arith, length-append head initial, head_size, initial_size))
        (omega (arith, enough_turns (s ∷ ss) fine, size, size', room)) in
    parse_catalog_valid cat platform long refl k0 k1 refl ∙ (rw (cut, walked) refl)
