-- ===== src/Prelude/Tests.antt =====
-- Boolean tests on the native numbers, the conditional, and case splits that keep an equation.
use Prim.Native.Nat.{ℕ, ◌≤◌, ◌<◌, compare, Ordering}
use mathlib.Core.Bool.{Bool, true, false}
use mathlib.Core.Logic.{◌⊎◌, inl, inr}
use mathlib.Core.Option.{Option, none, some}
use mathlib.Core.Path.{◌≡◌, refl}
use native.Mathlib.Omega.{arith}

abbrev pub ltb : ℕ → ℕ → Bool
ltb a b = elim (compare a b) [ Ordering.lt ↦ true | _ ↦ false ]

abbrev pub leb : ℕ → ℕ → Bool
leb a b = elim (compare a b) [ Ordering.gt ↦ false | _ ↦ true ]

infix 50 ◌==◌
abbrev pub ◌==◌ : ℕ → ℕ → Bool
a == b = elim (compare a b) [ Ordering.eq ↦ true | _ ↦ false ]

infix 1 if◌then◌else◌
abbrev pub if◌then◌else◌ {ℓ} : {A : Type ℓ} → Bool → A → A → A
if true then x else y = x
if false then x else y = y

pub ltb→lt : (a b : ℕ) → ltb a b ≡ true → a < b
ltb→lt a b h = ground arith

pub lt→ltb : (a b : ℕ) → a < b → ltb a b ≡ true
lt→ltb a b h = ground arith

pub leb→le : (a b : ℕ) → leb a b ≡ true → a ≤ b
leb→le a b h = ground arith

pub le→leb : (a b : ℕ) → a ≤ b → leb a b ≡ true
le→leb a b h = ground arith

pub ==→eq : (a b : ℕ) → (a == b) ≡ true → a ≡ b
==→eq a b h = ground arith

pub ==_refl : (a : ℕ) → (a == a) ≡ true
==_refl a = ground arith

pub Bool-cases : (b : Bool) → (b ≡ true) ⊎ (b ≡ false)
Bool-cases true = inl refl
Bool-cases false = inr refl

pub Option-cases {ℓ} : {A : Type ℓ} (o : Option A) → (o ≡ none) ⊎ ((a : A) × (o ≡ some a))
Option-cases none = inl refl
Option-cases (some a) = inr (a, refl)

-- A chain of options that has a value has one at its first step.
pub option-eq-some {ℓ κ} :
    {A : Type ℓ} {B : Type κ} (o : Option A) (present : A → Option B) {end : B}
    → (elim o [ none ↦ none | some a ↦ present a ]) ≡ some end
    → (a : A) × (o ≡ some a) × (present a ≡ some end)
option-eq-some none present done = absurd (cc)
option-eq-some (some a) present done = (a, refl, done)

pub some-injective {ℓ} : {A : Type ℓ} {a b : A} → some a ≡ some b → a ≡ b
some-injective h = cc

-- Which case of a match on an option a value comes from.
pub option-split {ℓ κ} :
    {A : Type ℓ} {B : Type κ} (o : Option A) (absent : B) (present : A → B) {end : B}
    → (elim o [ none ↦ absent | some a ↦ present a ]) ≡ end
    → ((o ≡ none) × (absent ≡ end)) ⊎ ((a : A) × (o ≡ some a) × (present a ≡ end))
option-split none absent present done = inl (refl, done)
option-split (some a) absent present done = inr (a, refl, done)

pub if-split {ℓ} :
    {A : Type ℓ} (b : Bool) (first second : A) {end : A}
    → (if b then first else second) ≡ end
    → ((b ≡ true) × (first ≡ end)) ⊎ ((b ≡ false) × (second ≡ end))
if-split true first second done = inl (refl, done)
if-split false first second done = inr (refl, done)
