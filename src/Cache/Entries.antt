-- ===== src/Cache/Entries.antt =====
-- The bytes that the entries of the cache hold, and the cache's invariant
-- (crates/lamfold/src/cache.rs).
use lamfold.Prelude.{
  ℕ, ◌+◌, ◌≤◌, length, [], ◌∷◌, none, some, ◌≡◌, refl, arith, inl, inr, Option-cases,
}
use lamfold.Prelude.TreeMap.{
  TreeMap, nat_ord, lookup, insert, remove, IsSorted, lookup-Above, insert-IsSorted, Above-trans,
}
use lamfold.Cache.{Entry, BlockCache, next_tick, new, get}

abbrev pub total : TreeMap ℕ Entry → ℕ
total [] = 0
total ((k, e) ∷ m) = length e.data_ + total m

pub total-remove :
    (k : ℕ) (m : TreeMap ℕ Entry) (e : Entry)
    → lookup k m ≡ some e
    → total (remove k m) + length e.data_ ≡ total m
unfolding lookup remove
total-remove k [] e h = absurd (cc)
total-remove k ((j, f) ∷ m) e h = ground (arith, total-remove k m e)

pub length-remove :
    (k : ℕ) (m : TreeMap ℕ Entry) (e : Entry)
    → lookup k m ≡ some e
    → length (remove k m) + 1 ≡ length m
unfolding lookup remove
length-remove k [] e h = absurd (cc)
length-remove k ((j, f) ∷ m) e h = ground (arith, length-remove k m e)

pub total-insert_absent :
    (k : ℕ) (v : Entry) (m : TreeMap ℕ Entry)
    → lookup k m ≡ none
    → total (insert k v m) ≡ total m + length v.data_
unfolding lookup insert
total-insert_absent k v [] h = omega arith
total-insert_absent k v ((j, f) ∷ m) h = ground (arith, total-insert_absent k v m)

pub total-insert_present :
    (k : ℕ) (v : Entry) (m : TreeMap ℕ Entry) (e : Entry)
    → IsSorted m
    → lookup k m ≡ some e
    → total (insert k v m) + length e.data_ ≡ total m + length v.data_
unfolding lookup insert
total-insert_present k v [] e s h = absurd (cc)
total-insert_present k v ((j, f) ∷ m) e s h =
    ground (arith, lookup-Above k m, Above-trans k j m, total-insert_present k v m e s.1)

-- The counter is exact and within the capacity, and the entries are a map.
pub record IsValid (c : BlockCache) : Type 0 where
  pub sorted : IsSorted c.entries
  pub counted : c.cur_bytes ≡ total c.entries
  pub bounded : c.cur_bytes ≤ c.cap_bytes

pub new-IsValid : (cap : ℕ) → IsValid (new cap)
unfolding new
new-IsValid cap = record { sorted = tt; counted = refl; bounded = omega arith }

pub get-IsValid : (c : BlockCache) (key : ℕ) → IsValid c → IsValid (get c key).0
unfolding get
get-IsValid c key v = elim (Option-cases (lookup key c.entries)) [
  | inl miss ↦ rw (miss, get) assumption
  | inr (e, hit) ↦
      let e' : Entry = record { data_ = e.data_; last = next_tick c.tick } in
      rw (hit, get)
        (record {
          sorted = insert-IsSorted key e' c.entries v.sorted;
          counted = omega (arith, total-insert_present key e' c.entries e v.sorted hit);
          bounded = v.bounded;
        })
]
