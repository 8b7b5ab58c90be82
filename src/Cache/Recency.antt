-- ===== src/Cache/Recency.antt =====
-- `BlockCache::get` and `insert` (crates/lamfold/src/cache.rs): what is kept, what is evicted, and
-- in which order.
use lamfold.Prelude.{
  ℕ, ◌+◌, ◌^◌, ◌≤◌, ◌<◌, true, false, ◌||◌, ltb, ◌==◌, Bytes, length, none, some, ◌≡◌, ◌≢◌, refl,
  sym, ◌∙◌, ◌⊎◌, arith, inl, inr, Option-cases, Bool-cases,
}
use lamfold.Prelude.TreeMap.{
  nat_ord, lookup, IsSorted, lookup-insert, lookup-remove_ne, lookup-remove_self, remove-IsSorted,
  insert-IsSorted,
}
use lamfold.Cache.{Entry, BlockCache, next_tick, get, make_room, drop_key, store, insert_block}
use lamfold.Cache.Entries.{total, total-remove, total-insert_absent, IsValid}
use lamfold.Cache.Room.{Evicts, make_room-Evicts, make_room_fits}

-- `drop_key` forgets the key, counts its bytes off, and leaves every other key.
record Forgets (key : ℕ) (c d : BlockCache) : Type 0 where
  sorted : IsSorted d.entries
  counted : d.cur_bytes ≡ total d.entries
  same_cap : d.cap_bytes ≡ c.cap_bytes
  same_tick : d.tick ≡ c.tick
  gone : lookup key d.entries ≡ none
  others : (q : ℕ) → q ≢ key → lookup q d.entries ≡ lookup q c.entries
  smaller : d.cur_bytes ≤ c.cur_bytes

drop_key-Forgets : (key : ℕ) (c : BlockCache) → IsValid c → Forgets key c (drop_key key c)
unfolding drop_key
drop_key-Forgets key c v = elim (Option-cases (lookup key c.entries)) [
  | inl miss ↦
      rw (miss, drop_key)
        (record {
          sorted = v.sorted;
          counted = v.counted;
          same_cap = refl;
          same_tick = refl;
          gone = miss;
          others = λ q h. refl;
          smaller = omega arith;
        })
  | inr (e, hit) ↦
      rw (hit, drop_key)
        (record {
          sorted = remove-IsSorted key c.entries v.sorted;
          counted = omega (arith, total-remove key c.entries e hit, v.counted);
          same_cap = refl;
          same_tick = refl;
          gone = lookup-remove_self key c.entries v.sorted;
          others = λ q h. lookup-remove_ne key q c.entries (ground arith);
          smaller = omega arith;
        })
]

abbrev fresh : BlockCache → Bytes → Entry
fresh c bytes = record { data_ = bytes; last = next_tick c.tick }

-- What `insert` promises of the cache `d` that it leaves.
pub record Inserts (key : ℕ) (bytes : Bytes) (c d : BlockCache) : Type 0 where
  pub valid : IsValid d
  pub same_cap : d.cap_bytes ≡ c.cap_bytes
  pub stored : lookup key d.entries ≡ some (record { data_ = bytes; last = next_tick c.tick })
  pub kept :
      (q : ℕ) (e : Entry) → q ≢ key → lookup q d.entries ≡ some e → lookup q c.entries ≡ some e
  pub oldest_first :
      (q p : ℕ) (v e : Entry)
      → q ≢ key
      → p ≢ key
      → lookup q c.entries ≡ some v
      → lookup q d.entries ≡ none
      → lookup p d.entries ≡ some e
      → v.last ≤ e.last
  pub fits :
      (q : ℕ)
      → q ≢ key
      → c.cur_bytes + length bytes ≤ c.cap_bytes
      → lookup q d.entries ≡ lookup q c.entries

module _ (key : ℕ) (bytes : Bytes) (c : BlockCache) (v : IsValid c) where
  abbrev dropped : BlockCache
  dropped = drop_key key c

  abbrev roomy : BlockCache
  roomy = make_room (length dropped.entries) (length bytes) dropped

  module _ (small : length bytes ≤ c.cap_bytes) where
    forgets : Forgets key c dropped
    forgets = drop_key-Forgets key c v

    evicts : Evicts dropped roomy × (roomy.cur_bytes + length bytes ≤ dropped.cap_bytes)
    evicts =
        let f = forgets in
        make_room-Evicts (length dropped.entries) (length bytes) dropped f.sorted f.counted
          (omega arith) (omega arith)

    key_gone : lookup key roomy.entries ≡ none
    key_gone = elim (Option-cases (lookup key roomy.entries)) [
      | inl n ↦ n
      | inr (e, s) ↦ cc (evicts.0.kept key e s, forgets.gone)
    ]

    roomy-lookup :
        (q : ℕ) (e : Entry)
        → q ≢ key
        → lookup q roomy.entries ≡ some e
        → lookup q c.entries ≡ some e
    roomy-lookup q e ne h = cc (evicts.0.kept q e h, forgets.others q ne)

    store-lookup :
        (q : ℕ) → q ≢ key → lookup q (store key bytes roomy).entries ≡ lookup q roomy.entries
    unfolding store
    store-lookup q ne = ground (arith, lookup-insert key q (fresh roomy bytes) roomy.entries)

    store-IsValid : IsValid (store key bytes roomy)
    unfolding store
    store-IsValid =
        let t = evicts in
        record {
          sorted = insert-IsSorted key _ roomy.entries t.0.sorted;
          counted = omega (
            arith,
            total-insert_absent key (fresh roomy bytes) roomy.entries key_gone,
            t.0.counted,
          );
          bounded = omega (arith, t.1, t.0.same_cap);
        }

    roomy_tick : roomy.tick ≡ c.tick
    roomy_tick = evicts.0.same_tick ∙ forgets.same_tick

    roomy_cap : roomy.cap_bytes ≡ c.cap_bytes
    roomy_cap = evicts.0.same_cap ∙ forgets.same_cap

    store-stored : lookup key (store key bytes roomy).entries ≡ some (fresh c bytes)
    unfolding store
    store-stored =
        ground (arith, lookup-insert key key (fresh roomy bytes) roomy.entries, roomy_tick)

    store-same_cap : (store key bytes roomy).cap_bytes ≡ c.cap_bytes
    unfolding store
    store-same_cap = roomy_cap

    roomy-oldest_first :
        (q p : ℕ) (u e : Entry)
        → q ≢ key
        → lookup q c.entries ≡ some u
        → lookup q roomy.entries ≡ none
        → lookup p roomy.entries ≡ some e
        → u.last ≤ e.last
    roomy-oldest_first q p u e ne was gone left =
        evicts.0.oldest_first q p u e (forgets.others q ne ∙ was) gone left

    roomy_fits : c.cur_bytes + length bytes ≤ c.cap_bytes → roomy ≡ dropped
    roomy_fits h =
        let f = forgets in
        make_room_fits (length dropped.entries) (length bytes) dropped (omega arith)

    Inserts-store : Inserts key bytes c (store key bytes roomy)
    Inserts-store = record {
      valid = store-IsValid;
      same_cap = store-same_cap;
      stored = store-stored;
      kept = λ q e ne h. roomy-lookup q e ne (sym (store-lookup q ne) ∙ h);
      oldest_first = λ q p u e nq np was gone left.
          roomy-oldest_first q p u e nq was (sym (store-lookup q nq) ∙ gone)
            (sym (store-lookup p np) ∙ left);
      fits = λ q ne h. store-lookup q ne ∙ rw (roomy_fits h) (forgets.others q ne);
    }

-- Inserting a block that the cache can hold leaves the invariant, the capacity and the block under
-- its key with a new tick; every other entry that is left is as it was, no entry is evicted that
-- was used after one that is left, and none is evicted if the block fits beside what is there.
pub insert_block-Inserts :
    (key : ℕ) (bytes : Bytes) (c : BlockCache)
    → IsValid c
    → 0 < c.cap_bytes
    → length bytes ≤ c.cap_bytes
    → Inserts key bytes c (insert_block c key bytes)
unfolding insert_block
insert_block-Inserts key bytes c v pos small =
    let not_zero : (c.cap_bytes == 0 || ltb c.cap_bytes (length bytes)) ≡ false = ground arith in
    rw not_zero (Inserts-store key bytes c v small)

insert_block_declines :
    (key : ℕ) (bytes : Bytes) (c : BlockCache)
    → (c.cap_bytes ≡ 0) ⊎ (c.cap_bytes < length bytes)
    → insert_block c key bytes ≡ c
unfolding insert_block
insert_block_declines key bytes c h =
    let stop : (c.cap_bytes == 0 || ltb c.cap_bytes (length bytes)) ≡ true = ground arith in rw stop

-- Whatever is inserted, the byte counter is exact and never passes the capacity.
pub insert_block-IsValid :
    (key : ℕ) (bytes : Bytes) (c : BlockCache) → IsValid c → IsValid (insert_block c key bytes)
insert_block-IsValid key bytes c v =
    elim (Bool-cases (c.cap_bytes == 0 || ltb c.cap_bytes (length bytes))) [
      | inl stop ↦ rw (insert_block_declines key bytes c (ground arith)) v
      | inr go ↦ (insert_block-Inserts key bytes c v (ground arith) (ground arith)).valid
    ]

-- No entry was used after the clock's time.
pub record IsStamped (c : BlockCache) : Type 0 where
  pub past : (q : ℕ) (f : Entry) → lookup q c.entries ≡ some f → f.last ≤ c.tick

-- A hit returns the stored block, leaves every other entry as it was, and makes the block the newest:
-- until the clock wraps, its tick is above every other one.
pub get_newest :
    (c : BlockCache) (key : ℕ) (e : Entry)
    → IsStamped c
    → c.tick + 1 < 2 ^ 64
    → lookup key c.entries ≡ some e
    → ((get c key).1 ≡ some e.data_)
      × ((q : ℕ) → q ≢ key → lookup q (get c key).0.entries ≡ lookup q c.entries)
      × (lookup key (get c key).0.entries ≡ some (record { data_ = e.data_; last = c.tick + 1 }))
      × ((q : ℕ) (f : Entry)
          → q ≢ key
          → lookup q (get c key).0.entries ≡ some f
          → f.last < c.tick + 1)
unfolding get
get_newest c key e stamped small hit =
    let tick : next_tick c.tick ≡ c.tick + 1 = omega arith in
    rw (hit, get)
      (
        refl,
        (λ q ne. ground (arith, lookup-insert key q (fresh c e.data_) c.entries)),
        rw tick (ground (arith, lookup-insert key key (fresh c e.data_) c.entries)),
        λ q f ne h.
            ground (arith, stamped.past q f, lookup-insert key q (fresh c e.data_) c.entries),
      )
