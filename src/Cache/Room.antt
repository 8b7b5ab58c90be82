-- ===== src/Cache/Room.antt =====
-- The eviction loop of `BlockCache::insert` (crates/lamfold/src/cache.rs): it makes room, keeps the
-- invariant, and leaves of the entries those that it does not evict, oldest first.
use lamfold.Prelude.{
  ℕ, zero, suc, ◌+◌, ◌-◌, ◌≤◌, ◌<◌, true, false, ltb, length, [], ◌∷◌, none, some, ◌≡◌, refl, arith,
  inl, inr, ◌⊎◌, Bool-cases,
}
use lamfold.Prelude.TreeMap.{
  TreeMap, nat_ord, same, lookup, remove, IsSorted, lookup-Above, lookup-remove_ne,
  lookup-remove_self, remove-IsSorted,
}
use lamfold.Cache.{Entry, BlockCache, older, oldest, victim, evict_one, make_room}
use lamfold.Cache.Entries.{total, total-remove, length-remove}

-- `e` is stored under `k`, and nothing in `m` was used before it.
pub record IsOldest (m : TreeMap ℕ Entry) (k : ℕ) (e : Entry) : Type 0 where
  pub stored : lookup k m ≡ some e
  pub least : (q : ℕ) (f : Entry) → lookup q m ≡ some f → e.last ≤ f.last

lookup-cons :
    (j q : ℕ) (f e : Entry) (m : TreeMap ℕ Entry)
    → IsSorted ((j, f) ∷ m)
    → lookup q m ≡ some e
    → lookup q ((j, f) ∷ m) ≡ some e
unfolding lookup
lookup-cons j q f e m s h = ground (arith, lookup-Above j m s.0)

-- The running minimum ends at its start or at an entry of the rest, and below all of them.
record OldestOf (best r : ℕ × Entry) (m : TreeMap ℕ Entry) : Type 0 where
  found : (r ≡ best) ⊎ (lookup r.0 m ≡ some r.1)
  le_best : r.1.last ≤ best.1.last
  le_rest : (q : ℕ) (f : Entry) → lookup q m ≡ some f → r.1.last ≤ f.last

older_lem :
    (best r : ℕ × Entry) (j : ℕ) (f : Entry) (m : TreeMap ℕ Entry)
    → IsSorted ((j, f) ∷ m)
    → OldestOf (older best (j, f)) r m
    → OldestOf best r ((j, f) ∷ m)
unfolding older lookup
older_lem best r j f m s t = record {
  found = ground (arith, t.found, lookup-Above j m s.0);
  le_best = ground (arith, t.le_best);
  le_rest = λ q g h. ground (arith, t.le_best, t.le_rest q g);
}

oldest_lem : (best : ℕ × Entry) (m : TreeMap ℕ Entry) → IsSorted m → OldestOf best (oldest best m) m
unfolding oldest lookup
oldest_lem best [] s = record {
  found = inl refl;
  le_best = omega arith;
  le_rest = λ q f h. absurd (cc);
}
oldest_lem best ((j, f) ∷ m) s = older_lem best _ j f m s (oldest_lem (older best (j, f)) m s.1)

victim-IsOldest :
    (x : ℕ × Entry) (m : TreeMap ℕ Entry)
    → IsSorted (x ∷ m)
    → (k : ℕ) × (e : Entry) × (victim (x ∷ m) ≡ some (k, e)) × IsOldest (x ∷ m) k e
unfolding victim lookup
victim-IsOldest (j, f) m s =
    let t = oldest_lem (j, f) m s.1 in
    let r = oldest (j, f) m in
    (
      r.0,
      r.1,
      refl,
      record {
        stored = ground (arith, t.found, lookup-Above j m s.0);
        least = λ q g h. ground (arith, t.le_best, t.le_rest q g);
      },
    )

-- What the loop may turn `c` into: some entries are gone, none of which was used after one that is
-- left, and those that are left are as they were.
pub record Evicts (c d : BlockCache) : Type 0 where
  pub sorted : IsSorted d.entries
  pub counted : d.cur_bytes ≡ total d.entries
  pub same_cap : d.cap_bytes ≡ c.cap_bytes
  pub same_tick : d.tick ≡ c.tick
  pub kept : (q : ℕ) (e : Entry) → lookup q d.entries ≡ some e → lookup q c.entries ≡ some e
  pub oldest_first :
      (q p : ℕ) (v e : Entry)
      → lookup q c.entries ≡ some v
      → lookup q d.entries ≡ none
      → lookup p d.entries ≡ some e
      → v.last ≤ e.last

Evicts-refl : (c : BlockCache) → IsSorted c.entries → c.cur_bytes ≡ total c.entries → Evicts c c
Evicts-refl c s n = record {
  sorted = s;
  counted = n;
  same_cap = refl;
  same_tick = refl;
  kept = λ q e h. h;
  oldest_first = λ q p v e h none' _. absurd (cc);
}

-- The cache after one eviction.
abbrev without : ℕ → Entry → BlockCache → BlockCache
without k e c = record c { entries = remove k c.entries; cur_bytes = c.cur_bytes - length e.data_ }

lookup_without :
    (k q : ℕ) (e : Entry) (m : TreeMap ℕ Entry)
    → IsSorted m
    → lookup q (remove k m) ≡ some e
    → (lookup q m ≡ some e) × (same q k ≡ false)
lookup_without k q e m s h = ground (arith, lookup-remove_ne k q m, lookup-remove_self k m s)

Evicts-step :
    (c d : BlockCache) (k : ℕ) (e : Entry)
    → IsSorted c.entries
    → IsOldest c.entries k e
    → Evicts (without k e c) d
    → Evicts c d
Evicts-step c d k e s o t = record {
  sorted = t.sorted;
  counted = t.counted;
  same_cap = t.same_cap;
  same_tick = t.same_tick;
  kept = λ q f h. (lookup_without k q f c.entries s (t.kept q f h)).0;
  oldest_first = λ q p v f stored gone left. ground (
    arith,
    t.oldest_first q p v f,
    o.stored,
    o.least p f,
    t.kept p f left,
    lookup_without k p f c.entries s,
    lookup-remove_ne k q c.entries,
  );
}

without-counted :
    (c : BlockCache) (k : ℕ) (e : Entry)
    → lookup k c.entries ≡ some e
    → c.cur_bytes ≡ total c.entries
    → (without k e c).cur_bytes ≡ total (without k e c).entries
without-counted c k e h n = omega (arith, total-remove k c.entries e h)

evict_one-without :
    (c : BlockCache) (k : ℕ) (e : Entry)
    → victim c.entries ≡ some (k, e)
    → lookup k c.entries ≡ some e
    → evict_one c ≡ some (length e.data_, record c { entries = remove k c.entries })
unfolding evict_one
evict_one-without c k e v h = ground arith

total-eq-zero : (m : TreeMap ℕ Entry) → length m ≤ 0 → total m ≡ 0
total-eq-zero [] h = refl
total-eq-zero (x ∷ m) h = absurd (omega arith)

victim_of_total-pos :
    (m : TreeMap ℕ Entry)
    → IsSorted m
    → 0 < total m
    → (k : ℕ) × (e : Entry) × (victim m ≡ some (k, e)) × IsOldest m k e
victim_of_total-pos [] s h = absurd (omega arith)
victim_of_total-pos (x ∷ m) s h = victim-IsOldest x m s

-- One turn of the loop that evicts.
make_room_step :
    (fuel size : ℕ) (c : BlockCache) (k : ℕ) (e : Entry)
    → ltb c.cap_bytes (c.cur_bytes + size) ≡ true
    → victim c.entries ≡ some (k, e)
    → lookup k c.entries ≡ some e
    → make_room (suc fuel) size c ≡ make_room fuel size (without k e c)
unfolding make_room
make_room_step fuel size c k e full v h = ground (arith, evict_one-without c k e v h)

-- A block that fits evicts nothing.
pub make_room_fits :
    (fuel size : ℕ) (c : BlockCache) → c.cur_bytes + size ≤ c.cap_bytes → make_room fuel size c ≡ c
unfolding make_room
make_room_fits zero size c h = refl
make_room_fits (suc fuel) size c h = ground arith

-- One round for each entry is enough: then there is room, or there was none to make.
pub make_room-Evicts :
    (fuel size : ℕ) (c : BlockCache)
    → IsSorted c.entries
    → c.cur_bytes ≡ total c.entries
    → length c.entries ≤ fuel
    → size ≤ c.cap_bytes
    → Evicts c (make_room fuel size c) × ((make_room fuel size c).cur_bytes + size ≤ c.cap_bytes)
make_room-Evicts zero size c s n enough fits =
    let z = total-eq-zero c.entries enough in
    let stay = make_room_fits zero size c (omega arith) in rw stay (Evicts-refl c s n, omega arith)
make_room-Evicts (suc fuel) size c s n enough fits =
    elim (Bool-cases (ltb c.cap_bytes (c.cur_bytes + size))) [
      | inr room ↦
          let h : c.cur_bytes + size ≤ c.cap_bytes = ground arith in
          rw (make_room_fits (suc fuel) size c h) (Evicts-refl c s n, h)
      | inl full ↦
          let some_bytes : 0 < total c.entries = ground arith in
          let (k, e, v, o) = victim_of_total-pos c.entries s some_bytes in
          let rest =
            make_room-Evicts fuel size (without k e c) (remove-IsSorted k c.entries s)
              (without-counted c k e o.stored n)
              (omega (arith, length-remove k c.entries e o.stored)) fits in
          rw (make_room_step fuel size c k e full v o.stored)
            (Evicts-step c _ k e s o rest.0, rest.1)
    ]
