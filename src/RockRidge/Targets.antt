-- ===== src/RockRidge/Targets.antt =====
-- Symlink targets of crates/lamfold-iso/src/rock_ridge.rs: the components of a target, cut into pieces, and the
-- pieces spread over `SL` entries.
use lamfold.Prelude.{
  ℕ, zero, suc, ◌≤◌, Bool, true, false, ltb, Bytes, List, [], ◌∷◌, ◌++◌, length, length-append,
  take-append, drop-append, ◌≡◌, refl, ◌∙◌, arith,
}
use lamfold.RockRidge.{has_flag, is_empty, ends_slash, push_component, sl_from, parse_sl_components}

-- A component record: its flags and its content.
abbrev pub Piece : Type 0
Piece = ℕ × Bytes

abbrev pub piece_bytes : Piece → Bytes
piece_bytes (flags, content) = flags ∷ length content ∷ content

abbrev pub pieces_bytes : List Piece → Bytes
pieces_bytes [] = []
pieces_bytes (x ∷ xs) = piece_bytes x ++ pieces_bytes xs

-- What the pieces make of a target.
unfoldable pub take_pieces : List Piece → Bytes → Bool → Bytes × Bool
take_pieces [] out continues = (out, continues)
take_pieces ((flags, content) ∷ xs) out continues =
    take_pieces xs (push_component flags content out continues) (has_flag flags 1)

pub take_pieces-append :
    (xs ys : List Piece) (out : Bytes) (continues : Bool)
    → take_pieces (xs ++ ys) out continues
      ≡ take_pieces ys (take_pieces xs out continues).0 (take_pieces xs out continues).1
unfolding take_pieces
take_pieces-append [] ys out continues = refl
take_pieces-append ((flags, content) ∷ xs) ys out continues =
    take_pieces-append xs ys (push_component flags content out continues) (has_flag flags 1)

sl_from_step :
    (turns flags : ℕ) (content rest out : Bytes) (continues : Bool)
    → sl_from (suc turns) (piece_bytes (flags, content) ++ rest) out continues
      ≡ sl_from turns rest (push_component flags content out continues) (has_flag flags 1)
unfolding sl_from
sl_from_step turns flags content rest out continues =
    let inside : ltb (length (content ++ rest)) (length content) ≡ false =
      ground (arith, length-append content rest) in
    let front = take-append content rest (length content) refl in
    let behind = drop-append content rest (length content) refl in
    rw (sl_from, inside, front, behind) refl

sl_from_nil :
    (turns : ℕ) (out : Bytes) (continues : Bool) → sl_from turns [] out continues ≡ (out, continues)
unfolding sl_from
sl_from_nil zero out continues = refl
sl_from_nil (suc turns) out continues = refl

sl_from-take_pieces :
    (turns : ℕ) (xs : List Piece) (out : Bytes) (continues : Bool)
    → length xs ≤ turns
    → sl_from turns (pieces_bytes xs) out continues ≡ take_pieces xs out continues
unfolding take_pieces
sl_from-take_pieces turns [] out continues le = sl_from_nil turns out continues
sl_from-take_pieces zero (x ∷ xs) out continues le = absurd (omega arith)
sl_from-take_pieces (suc turns) ((flags, content) ∷ xs) out continues le =
    sl_from_step turns flags content (pieces_bytes xs) out continues
    ∙ sl_from-take_pieces turns xs (push_component flags content out continues) (has_flag flags 1)
        (omega arith)

length-pieces_bytes : (xs : List Piece) → length xs ≤ length (pieces_bytes xs)
length-pieces_bytes [] = omega arith
length-pieces_bytes (x ∷ xs) =
    omega (arith, length-append (piece_bytes x) (pieces_bytes xs), length-pieces_bytes xs)

pub parse_sl_components-take_pieces :
    (xs : List Piece) (out : Bytes) (continues : Bool)
    → parse_sl_components (pieces_bytes xs) out continues ≡ take_pieces xs out continues
unfolding parse_sl_components
parse_sl_components-take_pieces xs out continues =
    sl_from-take_pieces (length (pieces_bytes xs)) xs out continues (length-pieces_bytes xs)

-- A component of a target: ".", "..", or a name in one piece or more.
pub data Component : Type 0 where
  current parent : Component
  text : Bytes → List Bytes → Component

abbrev pub text_pieces : Bytes → List Bytes → List Piece
text_pieces first [] = (0, first) ∷ []
text_pieces first (more ∷ rest) = (1, first) ∷ text_pieces more rest

abbrev pub pieces_of : Component → List Piece
pieces_of current = (2, []) ∷ []
pieces_of parent = (4, []) ∷ []
pieces_of (text first rest) = text_pieces first rest

abbrev pub joined : Bytes → List Bytes → Bytes
joined first [] = first
joined first (more ∷ rest) = first ++ joined more rest

abbrev pub text_of : Component → Bytes
text_of current = b'.' ∷ []
text_of parent = b'.' ∷ b'.' ∷ []
text_of (text first rest) = joined first rest

-- A name is not empty and has no slash at its end.
abbrev pub IsComponent : Component → Type 0
IsComponent c = (is_empty (text_of c) ≡ false) × (ends_slash (text_of c) ≡ false)

abbrev pub IsComponents : List Component → Type 0
IsComponents [] = Unit
IsComponents (c ∷ cs) = IsComponent c × IsComponents cs

abbrev pub all_pieces : List Component → List Piece
all_pieces [] = []
all_pieces (c ∷ cs) = pieces_of c ++ all_pieces cs

abbrev pub slashed : List Component → Bytes
slashed [] = []
slashed (c ∷ cs) = b'/' ∷ text_of c ++ slashed cs

-- The components with a slash between them.
abbrev pub path_of : List Component → Bytes
path_of [] = []
path_of (c ∷ cs) = text_of c ++ slashed cs

-- A target is absolute or relative.
abbrev pub target_pieces : Bool → List Component → List Piece
target_pieces true cs = (8, []) ∷ all_pieces cs
target_pieces false cs = all_pieces cs

abbrev pub target_of : Bool → List Component → Bytes
target_of true cs = b'/' ∷ path_of cs
target_of false cs = path_of cs
