-- ===== src/Prelude/Order.antt =====
-- The lexicographic orders of Rust's strings and tuples.
use Prim.Native.Nat.{compare, Ordering}
use lamfold.Prelude.{ℕ, List, [], ◌∷◌, ◌≡◌, ◌↔◌, arith, refl}
use lamfold.Prelude.TreeMap.{Ord, nat_ord}

unfoldable pub bytes_cmp : List ℕ → List ℕ → Ordering
bytes_cmp [] [] = Ordering.eq
bytes_cmp [] (b ∷ bs) = Ordering.lt
bytes_cmp (a ∷ as_) [] = Ordering.gt
bytes_cmp (a ∷ as_) (b ∷ bs) =
    let rest = bytes_cmp as_ bs in
    elim (compare a b) [
      | Ordering.lt ↦ Ordering.lt
      | Ordering.gt ↦ Ordering.gt
      | Ordering.eq ↦ rest
    ]

bytes_cmp-eq : (a b : List ℕ) → bytes_cmp a b ≡ Ordering.eq → a ≡ b
unfolding bytes_cmp
bytes_cmp-eq [] [] h = refl
bytes_cmp-eq [] (y ∷ b) h = absurd (cc)
bytes_cmp-eq (x ∷ a) [] h = absurd (cc)
bytes_cmp-eq (x ∷ a) (y ∷ b) h = ground (arith, bytes_cmp-eq a b)

bytes_cmp_refl : (a : List ℕ) → bytes_cmp a a ≡ Ordering.eq
unfolding bytes_cmp
bytes_cmp_refl [] = refl
bytes_cmp_refl (x ∷ a) = ground (arith, bytes_cmp_refl a)

pub bytes_cmp-eq_iff : (a b : List ℕ) → (bytes_cmp a b ≡ Ordering.eq) ↔ (a ≡ b)
bytes_cmp-eq_iff a b = (bytes_cmp-eq a b, λ e. rw e (bytes_cmp_refl b))

pub bytes_cmp-lt_trans :
    (a b c : List ℕ)
    → bytes_cmp a b ≡ Ordering.lt
    → bytes_cmp b c ≡ Ordering.lt
    → bytes_cmp a c ≡ Ordering.lt
unfolding bytes_cmp
bytes_cmp-lt_trans [] [] c p q = absurd (cc)
bytes_cmp-lt_trans [] (y ∷ b) [] p q = absurd (cc)
bytes_cmp-lt_trans [] (y ∷ b) (z ∷ c) p q = refl
bytes_cmp-lt_trans (x ∷ a) [] c p q = absurd (cc)
bytes_cmp-lt_trans (x ∷ a) (y ∷ b) [] p q = absurd (cc)
bytes_cmp-lt_trans (x ∷ a) (y ∷ b) (z ∷ c) p q = ground (arith, bytes_cmp-lt_trans a b c)

pub bytes_cmp-gt_swap : (a b : List ℕ) → bytes_cmp a b ≡ Ordering.gt → bytes_cmp b a ≡ Ordering.lt
unfolding bytes_cmp
bytes_cmp-gt_swap [] [] h = absurd (cc)
bytes_cmp-gt_swap [] (y ∷ b) h = absurd (cc)
bytes_cmp-gt_swap (x ∷ a) [] h = refl
bytes_cmp-gt_swap (x ∷ a) (y ∷ b) h = ground (arith, bytes_cmp-gt_swap a b)

instance abbrev pub bytes_ord : Ord (List ℕ)
bytes_ord = record {
  cmp = bytes_cmp;
  eq_iff = bytes_cmp-eq_iff;
  lt_trans = bytes_cmp-lt_trans;
  gt_swap = bytes_cmp-gt_swap;
}
