-- ===== src/Prelude/TreeMap.antt =====
-- Rust's `BTreeMap` as the list of its entries in key order: the code looks up, inserts, removes
-- and walks in order, and nothing else of the map can be seen.
use Prim.Native.Nat.{compare, Ordering}
use lamfold.Prelude.{
  ℕ, Bool, true, false, List, [], ◌∷◌, ◌≡◌, ◌↔◌, Option, none, some, if◌then◌else◌, arith, refl,
}

pub record Ord {ℓ} (K : Type ℓ) : Type ℓ where
  pub cmp : K → K → Ordering
  pub eq_iff : (a b : K) → (cmp a b ≡ Ordering.eq) ↔ (a ≡ b)
  pub lt_trans : (a b c : K) → cmp a b ≡ Ordering.lt → cmp b c ≡ Ordering.lt → cmp a c ≡ Ordering.lt
  pub gt_swap : (a b : K) → cmp a b ≡ Ordering.gt → cmp b a ≡ Ordering.lt

pub compare-eq_iff : (a b : ℕ) → (compare a b ≡ Ordering.eq) ↔ (a ≡ b)
compare-eq_iff a b = ground arith

pub compare-lt_trans :
    (a b c : ℕ) → compare a b ≡ Ordering.lt → compare b c ≡ Ordering.lt → compare a c ≡ Ordering.lt
compare-lt_trans a b c p q = ground arith

pub compare-gt_swap : (a b : ℕ) → compare a b ≡ Ordering.gt → compare b a ≡ Ordering.lt
compare-gt_swap a b h = ground arith

instance abbrev pub nat_ord : Ord ℕ
nat_ord = record {
  cmp = compare;
  eq_iff = compare-eq_iff;
  lt_trans = compare-lt_trans;
  gt_swap = compare-gt_swap;
}

abbrev pub TreeMap {ℓ} : Type ℓ → Type ℓ → Type ℓ
TreeMap K V = List (K × V)

abbrev pub same {ℓ} : {K : Type ℓ} ⦃o : Ord K⦄ → K → K → Bool
same ⦃o⦄ a b = elim (o.cmp a b) [ Ordering.eq ↦ true | _ ↦ false ]

module _ {ℓ} {K V : Type ℓ} ⦃o : Ord K⦄ where
  unfoldable pub lookup : K → TreeMap K V → Option V
  lookup k [] = none
  lookup k ((j, v) ∷ m) = if same k j then some v else lookup k m

  unfoldable pub insert : K → V → TreeMap K V → TreeMap K V
  insert k v [] = (k, v) ∷ []
  insert k v ((j, w) ∷ m) = elim (o.cmp k j) [
    | Ordering.lt ↦ (k, v) ∷ (j, w) ∷ m
    | Ordering.eq ↦ (k, v) ∷ m
    | Ordering.gt ↦ (j, w) ∷ insert k v m
  ]

  unfoldable pub remove : K → TreeMap K V → TreeMap K V
  remove k [] = []
  remove k ((j, w) ∷ m) = if same k j then m else (j, w) ∷ remove k m

  -- Every key of `m` is above `k`.
  abbrev pub Above : K → TreeMap K V → Type ℓ
  Above k [] = Unit
  Above k ((j, v) ∷ m) = (o.cmp k j ≡ Ordering.lt) × Above k m

  -- The keys rise strictly: the order in which a `BTreeMap` is walked.
  abbrev pub IsSorted : TreeMap K V → Type ℓ
  IsSorted [] = Unit
  IsSorted ((j, v) ∷ m) = Above j m × IsSorted m

  pub lookup-insert :
      (k j : K) (v : V) (m : TreeMap K V)
      → lookup j (insert k v m) ≡ (if same j k then some v else lookup j m)
  unfolding lookup insert
  lookup-insert k j v [] = refl
  lookup-insert k j v ((i, w) ∷ m) =
      ground (arith, o.eq_iff k i, o.eq_iff j i, o.eq_iff j k, lookup-insert k j v m)

  pub lookup-remove_ne :
      (k j : K) (m : TreeMap K V) → same j k ≡ false → lookup j (remove k m) ≡ lookup j m
  unfolding lookup remove
  lookup-remove_ne k j [] h = refl
  lookup-remove_ne k j ((i, w) ∷ m) h =
      ground (arith, o.eq_iff k i, o.eq_iff j i, o.eq_iff j k, lookup-remove_ne k j m)

  pub lookup-Above : (k : K) (m : TreeMap K V) → Above k m → lookup k m ≡ none
  unfolding lookup
  lookup-Above k [] h = refl
  lookup-Above k ((i, w) ∷ m) h = ground (arith, lookup-Above k m h.1)

  pub Above-trans : (k j : K) (m : TreeMap K V) → o.cmp k j ≡ Ordering.lt → Above j m → Above k m
  Above-trans k j [] h a = tt
  Above-trans k j ((i, w) ∷ m) h a = (o.lt_trans k j i h a.0, Above-trans k j m h a.1)

  Above-insert :
      (i k : K) (v : V) (m : TreeMap K V)
      → Above i m
      → o.cmp i k ≡ Ordering.lt
      → Above i (insert k v m)
  unfolding insert
  Above-insert i k v [] a h = (h, tt)
  Above-insert i k v ((j, w) ∷ m) a h = ground (arith, Above-insert i k v m a.1 h)

  pub insert-IsSorted : (k : K) (v : V) (m : TreeMap K V) → IsSorted m → IsSorted (insert k v m)
  unfolding insert
  insert-IsSorted k v [] s = (tt, tt)
  insert-IsSorted k v ((j, w) ∷ m) s = ground (
    arith,
    o.eq_iff k j,
    Above-trans k j m,
    Above-insert j k v m s.0,
    o.gt_swap k j,
    insert-IsSorted k v m s.1,
  )

  Above-remove : (i k : K) (m : TreeMap K V) → Above i m → Above i (remove k m)
  unfolding remove
  Above-remove i k [] a = tt
  Above-remove i k ((j, w) ∷ m) a = ground (arith, Above-remove i k m a.1)

  pub remove-IsSorted : (k : K) (m : TreeMap K V) → IsSorted m → IsSorted (remove k m)
  unfolding remove
  remove-IsSorted k [] s = tt
  remove-IsSorted k ((j, w) ∷ m) s = ground (arith, Above-remove j k m s.0, remove-IsSorted k m s.1)

  pub lookup-remove_self : (k : K) (m : TreeMap K V) → IsSorted m → lookup k (remove k m) ≡ none
  unfolding lookup remove
  lookup-remove_self k [] s = refl
  lookup-remove_self k ((j, w) ∷ m) s =
      ground (arith, o.eq_iff k j, lookup-Above j m s.0, lookup-remove_self k m s.1)
