-- ===== src/Prelude/Parts.antt =====
-- A buffer as the parts that it is made of, and a part at its place.
use Prim.Native.Nat.{ℕ, zero, suc, ◌+◌}
use mathlib.Core.List.{List, [], ◌∷◌, ◌++◌, append_assoc}
use mathlib.Core.Option.{some}
use mathlib.Core.Path.{◌≡◌, refl, sym, ap, ◌∙◌}
use native.Mathlib.Omega.{arith}
use lamfold.Prelude.Tests.{some-injective}
use lamfold.Prelude.Lists.{
  length, length-append, slice?, slice?-append, get_or, get_elem?, take, drop,
}

module _ {ℓ} {A : Type ℓ} where
  abbrev pub join : List (List A) → List A
  join [] = []
  join (x ∷ xs) = x ++ join xs

  pub join-append : (xs ys : List (List A)) → join (xs ++ ys) ≡ join xs ++ join ys
  join-append [] ys = refl
  join-append (x ∷ xs) ys =
      ap (λ t. x ++ t) (join-append xs ys) ∙ sym (append_assoc x (join xs) (join ys))

  abbrev pub total : List (List A) → ℕ
  total [] = 0
  total (x ∷ xs) = length x + total xs

  pub length-join : (xs : List (List A)) → length (join xs) ≡ total xs
  length-join [] = refl
  length-join (x ∷ xs) = omega (arith, length-append x (join xs), length-join xs)

  -- The part `b` behind the parts `xs`.
  slice?-join :
      (xs : List (List A)) (b : List A) (ys : List (List A)) (off n : ℕ)
      → off ≡ length (join xs)
      → n ≡ length b
      → slice? (join (xs ++ b ∷ ys)) off n ≡ some b
  slice?-join xs b ys off n at size =
      ap (λ t. slice? t off n) (join-append xs (b ∷ ys))
      ∙ slice?-append (join xs) b (join ys) off n at size

  get_or-append : (xs ys : List A) (b d : A) (i : ℕ) → i ≡ length xs → get_or (xs ++ b ∷ ys) i d ≡ b
  unfolding get_or
  get_or-append [] ys b d zero e = refl
  get_or-append [] ys b d (suc i) e = absurd (omega arith)
  get_or-append (x ∷ xs) ys b d zero e = absurd (omega arith)
  get_or-append (x ∷ xs) ys b d (suc i) e = get_or-append xs ys b d i (omega arith)

  get_or-join :
      (xs : List (List A)) (b d : A) (ys : List (List A)) (i : ℕ)
      → i ≡ length (join xs)
      → get_or (join (xs ++ (b ∷ []) ∷ ys)) i d ≡ b
  get_or-join xs b d ys i at =
      ap (λ t. get_or t i d) (join-append xs ((b ∷ []) ∷ ys))
      ∙ get_or-append (join xs) (join ys) b d i at

  split_at :
      (ps : List (List A)) (k : ℕ) {b : List A}
      → get_elem? ps k ≡ some b
      → ps ≡ take k ps ++ b ∷ drop (suc k) ps
  unfolding get_elem? take drop
  split_at [] k h = absurd (cc)
  split_at (p ∷ ps) zero h = ap (λ t. t ∷ ps) (some-injective h)
  split_at (p ∷ ps) (suc k) h = ap (◌∷◌ p) (split_at ps k h)

  -- The `k`-th part stands behind the parts before it.
  pub slice?-part :
      (ps : List (List A)) (k off n : ℕ) {b : List A}
      → get_elem? ps k ≡ some b
      → off ≡ total (take k ps)
      → n ≡ length b
      → slice? (join ps) off n ≡ some b
  slice?-part ps k off n {b = b} h at size =
      ap (λ l. slice? (join l) off n) (split_at ps k h)
      ∙ slice?-join (take k ps) b (drop (suc k) ps) off n (at ∙ sym (length-join (take k ps))) size

  pub get_or-part :
      (ps : List (List A)) (k i : ℕ) {b : A} (d : A)
      → get_elem? ps k ≡ some (b ∷ [])
      → i ≡ total (take k ps)
      → get_or (join ps) i d ≡ b
  get_or-part ps k i {b = b} d h at =
      ap (λ l. get_or (join l) i d) (split_at ps k h)
      ∙ get_or-join (take k ps) b d (drop (suc k) ps) i (at ∙ sym (length-join (take k ps)))

  get_elem?-append :
      (xs ys : List A) (b : A) (i : ℕ) → i ≡ length xs → get_elem? (xs ++ b ∷ ys) i ≡ some b
  unfolding get_elem?
  get_elem?-append [] ys b zero e = refl
  get_elem?-append [] ys b (suc i) e = absurd (omega arith)
  get_elem?-append (x ∷ xs) ys b zero e = absurd (omega arith)
  get_elem?-append (x ∷ xs) ys b (suc i) e = get_elem?-append xs ys b i (omega arith)

  pub get_elem?-part :
      (ps : List (List A)) (k i : ℕ) {b : A}
      → get_elem? ps k ≡ some (b ∷ [])
      → i ≡ total (take k ps)
      → get_elem? (join ps) i ≡ some b
  get_elem?-part ps k i {b = b} h at =
      let before = take k ps in
      let after = drop (suc k) ps in
      ap (λ l. get_elem? (join l) i) (split_at ps k h)
      ∙ ap (λ l. get_elem? l i) (join-append before ((b ∷ []) ∷ after))
      ∙ get_elem?-append (join before) (join after) b i (at ∙ sym (length-join before))
