-- ===== src/RockRidge/Links.antt =====
-- The target that the pieces of crates/lamfold-iso/src/rock_ridge.rs's `SL` entries give.
use lamfold.Prelude.{
  Bool, true, false, not, ◌&&◌, if◌then◌else◌, Bytes, List, [], ◌∷◌, ◌++◌, append_assoc, append-nil,
  Option, none, some, ◌≡◌, refl, sym, ap, ◌∙◌,
}
use lamfold.RockRidge.{
  RrParser, Continuation, default, is_empty, ends_slash, push_component, feed_sl, feed_entry,
  finish,
}
use lamfold.RockRidge.Entries.{Entry, take_entry, take_entries}
use lamfold.RockRidge.Targets.{
  Piece, pieces_bytes, take_pieces, take_pieces-append, parse_sl_components-take_pieces, Component,
  current, parent, text, text_pieces, pieces_of, joined, text_of, IsComponents, all_pieces, slashed,
  path_of, target_pieces, target_of,
}

abbrev separator : Bytes → Bytes
separator out = if not (is_empty out) && not (ends_slash out) then b'/' ∷ [] else []

take_text :
    (first : Bytes) (rest : List Bytes) (out : Bytes)
    → take_pieces (text_pieces first rest) out true ≡ (out ++ joined first rest, false)
unfolding take_pieces push_component
take_text first [] out = refl
take_text first (more ∷ rest) out =
    take_text more rest (out ++ first)
    ∙ ap (λ t. (t, false)) (append_assoc out first (joined more rest))

take_component :
    (c : Component) (out : Bytes)
    → take_pieces (pieces_of c) out false ≡ (out ++ (separator out ++ text_of c), false)
unfolding take_pieces push_component
take_component current out = refl
take_component parent out = refl
take_component (text first []) out = refl
take_component (text first (more ∷ rest)) out =
    take_text more rest (out ++ (separator out ++ first))
    ∙ ap (λ t. (t, false))
        (append_assoc out (separator out ++ first) (joined more rest)
          ∙ ap (λ t. out ++ t) (append_assoc (separator out) first (joined more rest)))

-- A target that is not empty and has no slash at its end.
abbrev IsOpen : Bytes → Type 0
IsOpen out = (is_empty out ≡ false) × (ends_slash out ≡ false)

ends_slash-append : (xs ys : Bytes) → is_empty ys ≡ false → ends_slash (xs ++ ys) ≡ ends_slash ys
unfolding ends_slash
ends_slash-append xs [] h = absurd (cc)
ends_slash-append [] (y ∷ ys) h = refl
ends_slash-append (x ∷ []) (y ∷ ys) h = refl
ends_slash-append (x ∷ z ∷ xs) (y ∷ ys) h = ends_slash-append (z ∷ xs) (y ∷ ys) h

is_empty-append : (xs ys : Bytes) → is_empty ys ≡ false → is_empty (xs ++ ys) ≡ false
is_empty-append [] ys h = h
is_empty-append (x ∷ xs) ys h = refl

append-IsOpen : (xs ys : Bytes) → IsOpen ys → IsOpen (xs ++ ys)
append-IsOpen xs ys h = (is_empty-append xs ys h.0, ends_slash-append xs ys h.0 ∙ h.1)

take_all :
    (cs : List Component) (out : Bytes)
    → IsComponents cs
    → IsOpen out
    → take_pieces (all_pieces cs) out false ≡ (out ++ slashed cs, false)
unfolding take_pieces
take_all [] out h o = ap (λ t. (t, false)) (sym (append-nil out))
take_all (c ∷ cs) out h o =
    let e = take_component c out in
    let sep : separator out ≡ b'/' ∷ [] = rw (o.0, o.1) refl in
    take_pieces-append (pieces_of c) (all_pieces cs) out false
    ∙ rw (e, sep)
        (take_all cs (out ++ (b'/' ∷ text_of c)) h.1
          (append-IsOpen out (b'/' ∷ text_of c) (append-IsOpen (b'/' ∷ []) (text_of c) h.0)))
    ∙ ap (λ t. (t, false)) (append_assoc out (b'/' ∷ text_of c) (slashed cs))

-- From an empty target, or the slash of an absolute one, no separator is put down.
take_first :
    (c : Component) (cs : List Component) (out : Bytes)
    → IsComponents (c ∷ cs)
    → separator out ≡ []
    → take_pieces (all_pieces (c ∷ cs)) out false ≡ (out ++ path_of (c ∷ cs), false)
unfolding take_pieces
take_first c cs out h sep =
    take_pieces-append (pieces_of c) (all_pieces cs) out false
    ∙ rw (take_component c out, sep)
        (take_all cs (out ++ text_of c) h.1 (append-IsOpen out (text_of c) h.0))
    ∙ ap (λ t. (t, false)) (append_assoc out (text_of c) (slashed cs))

take_target :
    (absolute : Bool) (cs : List Component)
    → IsComponents cs
    → take_pieces (target_pieces absolute cs) [] false ≡ (target_of absolute cs, false)
unfolding take_pieces push_component ends_slash
take_target true [] h = refl
take_target false [] h = refl
take_target true (c ∷ cs) h = take_first c cs (b'/' ∷ []) h refl
take_target false (c ∷ cs) h = take_first c cs [] h refl

-- An `SL` entry that holds these pieces.
abbrev pub sl_entry : List Piece → Entry
sl_entry xs = record { sig0 = b'S'; sig1 = b'L'; version = 1; body = 0 ∷ pieces_bytes xs }

abbrev pub sl_entries : List (List Piece) → List Entry
sl_entries [] = []
sl_entries (xs ∷ gs) = sl_entry xs ∷ sl_entries gs

abbrev pub concat : List (List Piece) → List Piece
concat [] = []
concat (xs ∷ gs) = xs ++ concat gs

abbrev with_target : Bytes × Bool → RrParser → RrParser
with_target (sl, continues) p = record p { have_sl = true; sl = sl; sl_continues = continues }

take_sl_entry :
    (xs : List Piece) (p : RrParser) (next : Option Continuation)
    → take_entry (sl_entry xs) (p, next)
      ≡ (with_target (take_pieces xs p.sl p.sl_continues) p, next)
unfolding feed_entry feed_sl
take_sl_entry xs p next = rw (parse_sl_components-take_pieces xs p.sl p.sl_continues) refl

take_sl_entries :
    (gs : List (List Piece)) (p : RrParser) (next : Option Continuation)
    → p.have_sl ≡ true
    → let q = (take_entries (sl_entries gs) (p, next)).0 in
      (q.sl ≡ (take_pieces (concat gs) p.sl p.sl_continues).0) × (q.have_sl ≡ true)
unfolding take_entries take_pieces
take_sl_entries [] p next h = (refl, h)
take_sl_entries (xs ∷ gs) p next h =
    let q = with_target (take_pieces xs p.sl p.sl_continues) p in
    let (sl, have) = take_sl_entries gs q next refl in
    let step = ap (λ s. (take_entries (sl_entries gs) s).0) (take_sl_entry xs p next) in
    (
      ap (λ r. r.sl) step
          ∙ sl
          ∙ ap (λ t. t.0) (sym (take_pieces-append xs (concat gs) p.sl p.sl_continues)),
      ap (λ r. r.have_sl) step ∙ have,
    )

-- A symlink target written as components, each in one piece or cut into several, is put together again
-- however its pieces are spread over `SL` entries: "." and ".." from their flags, a slash before all
-- components but the first, and one in front if the target is absolute.
pub finish_target :
    (absolute : Bool) (cs : List Component) (first : List Piece) (more : List (List Piece))
    → IsComponents cs
    → concat (first ∷ more) ≡ target_pieces absolute cs
    → (finish (take_entries (sl_entries (first ∷ more)) (default, none)).0).symlink_target
      ≡ some (target_of absolute cs)
unfolding finish take_entries
finish_target absolute cs first more h e =
    let q = with_target (take_pieces first [] false) default in
    let (sl, have) = take_sl_entries more q none refl in
    let step = ap (λ s. (take_entries (sl_entries more) s).0) (take_sl_entry first default none) in
    let whole =
      ap (λ r. r.sl) step
      ∙ sl
      ∙ ap (λ t. t.0) (sym (take_pieces-append first (concat more) [] false))
      ∙ ap (λ xs. (take_pieces xs [] false).0) e
      ∙ ap (λ t. t.0) (take_target absolute cs h) in
    rw (ap (λ r. r.have_sl) step ∙ have, whole) refl
