-- ===== src/Cache.antt =====
-- crates/lamfold/src/cache.rs: the byte-capacity LRU cache of decompressed blocks. `tick` wraps as a
-- `u64` does; byte counts are lengths of buffers in memory, so their sums need no wrap.
pub mod Entries
pub mod Room
pub mod Recency
use lamfold.Prelude.{
  ℕ, zero, suc, ◌+◌, ◌-◌, ◌%◌, ◌^◌, true, false, ◌||◌, ltb, ◌==◌, if◌then◌else◌, Bytes, length, [],
  ◌∷◌, Option, none, some,
}
use lamfold.Prelude.TreeMap.{TreeMap, nat_ord, lookup, insert, remove}

pub record Entry : Type 0 where
  pub data_ : Bytes
  pub last : ℕ

pub record BlockCache : Type 0 where
  pub entries : TreeMap ℕ Entry
  pub tick : ℕ
  pub cap_bytes : ℕ
  pub cur_bytes : ℕ

abbrev pub next_tick : ℕ → ℕ
next_tick t = (t + 1) % 2 ^ 64

unfoldable pub new : ℕ → BlockCache
new cap = record { entries = []; tick = 0; cap_bytes = cap; cur_bytes = 0 }

-- `BlockCache::get`: a miss moves the clock too.
unfoldable pub get : BlockCache → ℕ → BlockCache × Option Bytes
unfolding lookup insert
get c key = elim (lookup key c.entries) [
  | none ↦ (record c { tick = next_tick c.tick }, none)
  | some e ↦ (
    record c {
      entries = insert key (record { data_ = e.data_; last = next_tick c.tick }) c.entries;
      tick = next_tick c.tick;
    },
    some e.data_,
  )
]

-- `min_by_key(|(_, e)| e.last)`: the first entry with the least `last`, here its key and entry.
unfoldable pub older : ℕ × Entry → ℕ × Entry → ℕ × Entry
older best x = if ltb x.1.last best.1.last then x else best

unfoldable pub oldest : ℕ × Entry → TreeMap ℕ Entry → ℕ × Entry
unfolding older
oldest best [] = best
oldest best (x ∷ m) = oldest (older best x) m

unfoldable pub victim : TreeMap ℕ Entry → Option (ℕ × Entry)
unfolding oldest
victim [] = none
victim (x ∷ m) = some (oldest x m)

-- `evict_one`: the freed bytes and the cache without the victim.
unfoldable pub evict_one : BlockCache → Option (ℕ × BlockCache)
unfolding victim remove lookup
evict_one c = elim (victim c.entries) [
  | none ↦ none
  | some (k, _) ↦ elim (lookup k c.entries) [
    | none ↦ none
    | some e ↦ some (length e.data_, record c { entries = remove k c.entries })
  ]
]

-- `while self.cur_bytes + data.len() > self.cap_bytes`, on fuel.
unfoldable pub make_room : ℕ → ℕ → BlockCache → BlockCache
unfolding evict_one
make_room zero size c = c
make_room (suc fuel) size c = elim (ltb c.cap_bytes (c.cur_bytes + size)) [
  | false ↦ c
  | true ↦ elim (evict_one c) [
    | none ↦ c
    | some (freed, d) ↦ make_room fuel size (record d { cur_bytes = d.cur_bytes - freed })
  ]
]

-- `if let Some(old) = self.entries.remove(&key)`.
unfoldable pub drop_key : ℕ → BlockCache → BlockCache
unfolding lookup remove
drop_key key c = elim (lookup key c.entries) [
  | none ↦ c
  | some old ↦ record c {
    entries = remove key c.entries;
    cur_bytes = c.cur_bytes - length old.data_;
  }
]

-- The end of `insert`: the block goes in with a new tick.
unfoldable pub store : ℕ → Bytes → BlockCache → BlockCache
unfolding insert
store key bytes c = record c {
  tick = next_tick c.tick;
  cur_bytes = c.cur_bytes + length bytes;
  entries = insert key (record { data_ = bytes; last = next_tick c.tick }) c.entries;
}

-- `BlockCache::insert`. One round for each entry is enough fuel: see `Room`.
unfoldable pub insert_block : BlockCache → ℕ → Bytes → BlockCache
unfolding make_room drop_key store
insert_block c key bytes =
    if c.cap_bytes == 0 || ltb c.cap_bytes (length bytes)
    then c
    else let d = drop_key key c in store key bytes (make_room (length d.entries) (length bytes) d)
