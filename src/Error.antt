-- ===== src/Error.antt =====
-- crates/lamfold/src/error.rs: the errors of the substrate, and results.
use lamfold.Prelude.{ℕ, String, Bool, true, false, Option, none, some, ◌≡◌, ◌⊎◌, inl, inr, refl, ap}

-- `FoldError`. A `&'static str` is a text.
pub data FoldError : Type 0 where
  not_found not_directory is_directory : FoldError
  invalid_path corrupt unsupported decompress verify_failed io : String → FoldError
  file_too_large : ℕ → ℕ → FoldError

-- `FoldError::as_token`.
unfoldable pub as_token : FoldError → String
as_token not_found = "not_found"
as_token not_directory = "not_directory"
as_token is_directory = "is_directory"
as_token (invalid_path _) = "invalid_path"
as_token (corrupt _) = "corrupt"
as_token (unsupported _) = "unsupported"
as_token (file_too_large _ _) = "file_too_large"
as_token (decompress _) = "decompress"
as_token (verify_failed _) = "verify_failed"
as_token (io _) = "io"

pub data Result {ℓ} (A : Type ℓ) : Type ℓ where
  ok : A → Result A
  err : FoldError → Result A

infixl 5 ◌>>=◌ ◌>>◌
abbrev pub ◌>>=◌ {ℓ κ} : {A : Type ℓ} {B : Type κ} → Result A → (A → Result B) → Result B
ok x >>= next = next x
err why >>= next = err why

abbrev pub ◌>>◌ {ℓ} : {B : Type ℓ} → Result (Unit {0}) → Result B → Result B
first >> second = first >>= λ _. second

-- `if !b { return Err(e) }`.
abbrev pub guard : Bool → FoldError → Result (Unit {0})
guard true why = ok tt
guard false why = err why

-- `o.ok_or(e)`.
abbrev pub ok_or {ℓ} : {A : Type ℓ} → Option A → FoldError → Result A
ok_or (some a) e = ok a
ok_or none e = err e

abbrev pub is_ok {ℓ} : {A : Type ℓ} → Result A → Bool
is_ok (ok _) = true
is_ok (err _) = false

module _ {ℓ κ} {A : Type ℓ} {B : Type κ} where
  -- A chain that succeeds has a first step that succeeds.
  pub bind-eq-ok :
      (r : Result A) (next : A → Result B) {end : B}
      → (r >>= next) ≡ ok end
      → (x : A) × (r ≡ ok x) × (next x ≡ ok end)
  bind-eq-ok (ok x) next done = (x, refl, done)
  bind-eq-ok (err why) next done = absurd (cc)

pub Result-cases {ℓ} :
    {A : Type ℓ} (m : Result A) → ((a : A) × (m ≡ ok a)) ⊎ ((e : FoldError) × (m ≡ err e))
Result-cases (ok a) = inl (a, refl)
Result-cases (err e) = inr (e, refl)

pub ok-injective {ℓ} : {A : Type ℓ} {a b : A} → ok a ≡ ok b → a ≡ b
ok-injective h = cc

pub ok_or-eq-ok {ℓ} :
    {A : Type ℓ} (o : Option A) (why : FoldError) {a : A} → ok_or o why ≡ ok a → o ≡ some a
ok_or-eq-ok (some x) why h = ap some (ok-injective h)
ok_or-eq-ok none why h = absurd (cc)

-- A test whose outcome succeeds has a branch that succeeds.
pub if-eq-ok {ℓ} :
    {A : Type ℓ} (b : Bool) (first second : Result A) {end : A}
    → (elim b [ true ↦ first | false ↦ second ]) ≡ ok end
    → ((b ≡ true) × (first ≡ ok end)) ⊎ ((b ≡ false) × (second ≡ ok end))
if-eq-ok true first second done = inl (refl, done)
if-eq-ok false first second done = inr (refl, done)

pub option-eq-ok {ℓ κ} :
    {A : Type ℓ} {B : Type κ} (o : Option A) (absent : Result B) (present : A → Result B) {end : B}
    → (elim o [ none ↦ absent | some a ↦ present a ]) ≡ ok end
    → ((o ≡ none) × (absent ≡ ok end)) ⊎ ((a : A) × (o ≡ some a) × (present a ≡ ok end))
option-eq-ok none absent present done = inl (refl, done)
option-eq-ok (some a) absent present done = inr (a, refl, done)

pub guard-eq-ok : (b : Bool) (why : FoldError) → guard b why ≡ ok tt → b ≡ true
guard-eq-ok true why h = refl
guard-eq-ok false why h = absurd (cc)
