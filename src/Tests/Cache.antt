-- ===== src/Tests/Cache.antt =====
-- The cache at the capacity and with the keys of the source's own tests
-- (crates/lamfold/src/cache.rs), with blocks of 2 bytes for 100.
use lamfold.Prelude.{ℕ, ◌+◌, ◌<◌, [], ◌∷◌, some, none, ◌≡◌, ◌≢◌, refl, arith}
use lamfold.Prelude.TreeMap.{nat_ord, lookup}
use lamfold.Cache.{Entry, BlockCache, new, get, insert_block}
use lamfold.Cache.Entries.{IsValid}
use lamfold.Cache.Recency.{
  Inserts, IsStamped, insert_block-Inserts, insert_block-IsValid, get_newest,
}

abbrev two_blocks : BlockCache
two_blocks = record {
  entries =
      (1, record { data_ = 1 ∷ 1 ∷ []; last = 3 })
      ∷ (2, record { data_ = 2 ∷ 2 ∷ []; last = 2 })
      ∷ [];
  tick = 3;
  cap_bytes = 5;
  cur_bytes = 4;
}

-- Two blocks, the first one touched.
two_blocks_run :
    (get (insert_block (insert_block (new 5) 1 (1 ∷ 1 ∷ [])) 2 (2 ∷ 2 ∷ [])) 1).0 ≡ two_blocks
unfolding new get insert_block
two_blocks_run = refl

-- A third one evicts the second, which is the least recently used.
third_evicts :
    ((get (insert_block two_blocks 3 (3 ∷ 3 ∷ [])) 2).1 ≡ none)
    × ((get (insert_block two_blocks 3 (3 ∷ 3 ∷ [])) 1).1 ≡ some (1 ∷ 1 ∷ []))
unfolding get insert_block
third_evicts = (refl, refl)

two_blocks-IsValid : IsValid two_blocks
two_blocks-IsValid = record {
  sorted = ((refl, tt), (tt, tt));
  counted = refl;
  bounded = omega arith;
}

insert_block-Inserts_example :
    Inserts 3 (3 ∷ 3 ∷ []) two_blocks (insert_block two_blocks 3 (3 ∷ 3 ∷ []))
insert_block-Inserts_example =
    insert_block-Inserts 3 (3 ∷ 3 ∷ []) two_blocks two_blocks-IsValid (omega arith) (omega arith)

insert_block-IsValid_example : IsValid (insert_block two_blocks 3 (3 ∷ 3 ∷ []))
insert_block-IsValid_example = insert_block-IsValid 3 (3 ∷ 3 ∷ []) two_blocks two_blocks-IsValid

two_blocks-IsStamped : IsStamped two_blocks
unfolding lookup
two_blocks-IsStamped = record { past = λ q f h. ground arith }

get_newest_example :
    ((get two_blocks 2).1 ≡ some (2 ∷ 2 ∷ []))
    × ((q : ℕ) → q ≢ 2 → lookup q (get two_blocks 2).0.entries ≡ lookup q two_blocks.entries)
    × (lookup 2 (get two_blocks 2).0.entries ≡ some (record { data_ = 2 ∷ 2 ∷ []; last = 3 + 1 }))
    × ((q : ℕ) (f : Entry)
        → q ≢ 2
        → lookup q (get two_blocks 2).0.entries ≡ some f
        → f.last < 3 + 1)
unfolding lookup
get_newest_example =
    get_newest two_blocks 2 (record { data_ = 2 ∷ 2 ∷ []; last = 2 }) two_blocks-IsStamped
      (omega arith) refl
