-- ===== src/Prelude/Words.antt =====
-- Machine integers as they stand in bytes, and the search for a byte.
use Prim.Native.Nat.{ℕ, zero, suc, ◌+◌, ◌*◌, ◌/◌, ◌%◌, ◌^◌, ◌<◌}
use mathlib.Core.Bool.{Bool, true, false}
use mathlib.Core.List.{List, [], ◌∷◌, ◌++◌}
use mathlib.Core.Option.{Option, none, some}
use mathlib.Core.Path.{◌≡◌, refl}
use native.Mathlib.Omega.{arith}
use lamfold.Prelude.Tests.{◌==◌, if◌then◌else◌}
use lamfold.Prelude.Lists.{length}

abbrev pub IsBytes : List ℕ → Type 0
IsBytes [] = Unit
IsBytes (b ∷ bs) = (b < 256) × IsBytes bs

-- `u16::from_le_bytes`, `u32::from_le_bytes` and `u32::from_be_bytes` at the head of a list.
unfoldable pub le16 : List ℕ → ℕ
le16 (a ∷ b ∷ _) = a + 256 * b
le16 _ = 0

unfoldable pub le32 : List ℕ → ℕ
le32 (a ∷ b ∷ c ∷ d ∷ _) = a + 256 * b + 65536 * c + 16777216 * d
le32 _ = 0

unfoldable pub be32 : List ℕ → ℕ
be32 (a ∷ b ∷ c ∷ d ∷ _) = 16777216 * a + 65536 * b + 256 * c + d
be32 _ = 0

-- The bytes of a 32-bit number, high byte first or last.
unfoldable pub be32_bytes : ℕ → List ℕ
be32_bytes n = n / 16777216 % 256 ∷ n / 65536 % 256 ∷ n / 256 % 256 ∷ n % 256 ∷ []

unfoldable pub le32_bytes : ℕ → List ℕ
le32_bytes n = n % 256 ∷ n / 256 % 256 ∷ n / 65536 % 256 ∷ n / 16777216 % 256 ∷ []

pub be32-be32_bytes : (n : ℕ) (rest : List ℕ) → n < 2 ^ 32 → be32 (be32_bytes n ++ rest) ≡ n
unfolding be32 be32_bytes
be32-be32_bytes n rest h = omega arith

pub be32_bytes_lem : (n : ℕ) → n < 2 ^ 32 → be32 (be32_bytes n) ≡ n
unfolding be32 be32_bytes
be32_bytes_lem n h = omega arith

pub le32_bytes_lem : (n : ℕ) → n < 2 ^ 32 → le32 (le32_bytes n) ≡ n
unfolding le32 le32_bytes
le32_bytes_lem n h = omega arith

pub le32-le32_bytes : (n : ℕ) (rest : List ℕ) → n < 2 ^ 32 → le32 (le32_bytes n ++ rest) ≡ n
unfolding le32 le32_bytes
le32-le32_bytes n rest h = omega arith

pub length-le32_bytes : (n : ℕ) → length (le32_bytes n) ≡ 4
unfolding le32_bytes
length-le32_bytes n = refl

pub le32-lt : (bs : List ℕ) → IsBytes bs → le32 bs < 2 ^ 32
unfolding le32
le32-lt [] h = omega arith
le32-lt (a ∷ []) h = omega arith
le32-lt (a ∷ b ∷ []) h = omega arith
le32-lt (a ∷ b ∷ c ∷ []) h = omega arith
le32-lt (a ∷ b ∷ c ∷ d ∷ r) h = omega arith

-- `iter().position(|&b| b == x)`.
unfoldable pub position : ℕ → List ℕ → Option ℕ
position x [] = none
position x (b ∷ bs) =
    let rest = position x bs in
    if b == x then some 0 else elim rest [ none ↦ none | some i ↦ some (suc i) ]

-- No byte of the list is `x`.
abbrev pub Avoids : ℕ → List ℕ → Type 0
Avoids x [] = Unit
Avoids x (b ∷ bs) = ((b == x) ≡ false) × Avoids x bs

pub position-append :
    (x : ℕ) (bs rest : List ℕ) → Avoids x bs → position x (bs ++ x ∷ rest) ≡ some (length bs)
unfolding position
position-append x [] rest h = ground arith
position-append x (b ∷ bs) rest h = ground (arith, position-append x bs rest h.1)

pub position-lt : (x : ℕ) (bs : List ℕ) (i : ℕ) → position x bs ≡ some i → i < length bs
unfolding position
position-lt x [] i h = absurd (cc)
position-lt x (b ∷ bs) zero h = omega arith
position-lt x (b ∷ bs) (suc i) h = ground (arith, position-lt x bs i)

-- Equality of byte strings.
unfoldable pub bytes_eq : List ℕ → List ℕ → Bool
bytes_eq [] [] = true
bytes_eq (a ∷ as_) (b ∷ bs) = let rest = bytes_eq as_ bs in if a == b then rest else false
bytes_eq _ _ = false

pub bytes_eq→eq : (a b : List ℕ) → bytes_eq a b ≡ true → a ≡ b
unfolding bytes_eq
bytes_eq→eq [] [] h = refl
bytes_eq→eq (x ∷ a) (y ∷ b) h = ground (arith, bytes_eq→eq a b)
bytes_eq→eq [] (y ∷ b) h = absurd (cc)
bytes_eq→eq (x ∷ a) [] h = absurd (cc)

pub bytes_eq_refl : (a : List ℕ) → bytes_eq a a ≡ true
unfolding bytes_eq
bytes_eq_refl [] = refl
bytes_eq_refl (x ∷ a) = ground (arith, bytes_eq_refl a)
