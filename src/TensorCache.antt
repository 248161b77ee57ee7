-- ===== src/TensorCache.antt =====
-- include/memvanta/lru_cache.hpp and src/lru_cache.cpp: a byte-bounded cache of tensor copies with
-- least-recently-used eviction. `mu_` makes each method one step. The front of `lru` is its head.
-- An `Entry`'s list iterator stands for the node of its id, so erasing through it drops that id.
-- The bytes that `src` points at are a function from offsets, and `none` is the null pointer.
pub mod Invariant
pub mod Rounds
pub mod Eviction
pub mod Changes
pub mod Loads
pub mod Coherence
pub mod Served
mod Tests
use mem_vanta.Prelude.{
  ℕ, zero, suc, ◌+◌, ◌≤◌, max, ◌≡◌, refl, Bool, true, false, ◌||◌, ◌&&◌, not, Option, none, some,
  List, [], ◌∷◌, Result, ok, err, ltb, ◌==◌, if◌then◌else◌, length, erase, table, replicate, add64,
  sub64, u64_max,
}
use mem_vanta.Prelude.Dict.{find, contains, assign, erase_key, emplace}

pub record CacheStats : Type 0 where
  pub hits : ℕ
  pub misses : ℕ
  pub evictions : ℕ
  pub bytes_copied : ℕ

pub record Entry : Type 0 where
  pub bytes : List ℕ
  pub prefetched : Bool

pub record TensorCache : Type 0 where
  pub capacity : ℕ
  pub used : ℕ
  pub prefetched_used : ℕ
  pub peak_prefetched_used : ℕ
  pub lru : List ℕ
  pub entries : List (ℕ × Entry)
  pub stats : CacheStats

-- `dangling` stands for the undefined behaviour of reading through `map_.end()`.
pub data CacheError : Type 0 where
  larger_than_capacity too_large_for_address_space null_source dangling : CacheError

-- The bytes behind a `const std::byte*`.
abbrev pub Source : Type 0
Source = Option (ℕ → ℕ)

-- TensorCache(capacity_bytes)
unfoldable pub init : ℕ → TensorCache
init cap = record {
  capacity = cap;
  used = 0;
  prefetched_used = 0;
  peak_prefetched_used = 0;
  lru = [];
  entries = [];
  stats = record { hits = 0; misses = 0; evictions = 0; bytes_copied = 0 };
}

abbrev pub size_of : Entry → ℕ
size_of e = length e.bytes

-- `lru_.back()`
abbrev pub back : List ℕ → Option ℕ
back [] = none
back (x ∷ []) = some x
back (x ∷ y ∷ xs) = back (y ∷ xs)

-- `lru_.pop_back()`
abbrev pub pop_back : List ℕ → List ℕ
pop_back [] = []
pop_back (x ∷ []) = []
pop_back (x ∷ y ∷ xs) = x ∷ pop_back (y ∷ xs)

-- One round of the loop of `evict_for`, at the entry that `it` points at.
pub evict_entry : TensorCache → ℕ → Entry → TensorCache
evict_entry c id e = record c {
  prefetched_used = if e.prefetched then sub64 c.prefetched_used (size_of e) else c.prefetched_used;
  used = sub64 c.used (size_of e);
  lru = pop_back c.lru;
  entries = erase_key id c.entries;
  stats = record c.stats { evictions = add64 c.stats.evictions 1 };
}

-- The loop, on fuel: each round drops one id of `lru`, so its length is enough.
pub evict_loop : ℕ → ℕ → TensorCache → Result CacheError TensorCache
evict_loop zero incoming c = ok c
evict_loop (suc fuel) incoming c = elim (ltb (sub64 c.capacity c.used) incoming) [
  | false ↦ ok c
  | true ↦ elim (back c.lru) [
    | none ↦ ok c
    | some id ↦ elim (find id c.entries) [
      | none ↦ err dangling
      | some e ↦ evict_loop fuel incoming (evict_entry c id e)
    ]
  ]
]

pub evict_for : ℕ → TensorCache → Result CacheError TensorCache
evict_for incoming c = evict_loop (length c.lru) incoming c

-- The zeroed vector of that size, overwritten by `memcpy`.
pub copy_bytes : Source → ℕ → List ℕ
copy_bytes none n = replicate n 0
copy_bytes (some src) n = table src 0 n

abbrev pub is_null : Source → Bool
is_null none = true
is_null (some _) = false

-- From `make_shared` to `used_ += bytes`.
pub add_entry : TensorCache → ℕ → List ℕ → ℕ → Bool → TensorCache
add_entry c id bytes n prefetched = record c {
  stats = record c.stats { bytes_copied = add64 c.stats.bytes_copied n };
  lru = id ∷ c.lru;
  entries = emplace id (record { bytes = bytes; prefetched = prefetched }) c.entries;
  used = add64 c.used n;
}

-- The branch of `get_or_load` for an id that is there.
pub hit : TensorCache → ℕ → Entry → TensorCache
hit c id e = record c {
  stats = record c.stats { hits = add64 c.stats.hits 1 };
  prefetched_used = if e.prefetched then sub64 c.prefetched_used (size_of e) else c.prefetched_used;
  lru = id ∷ erase id c.lru;
  entries = assign id (record e { prefetched = false }) c.entries;
}

-- The rest of `get_or_load`, once the miss is counted.
pub load : TensorCache → ℕ → Source → ℕ → TensorCache × Result CacheError (List ℕ)
unfolding add_entry
load c id src n =
    if ltb c.capacity n
    then (c, err larger_than_capacity)
    else if ltb u64_max n
    then (c, err too_large_for_address_space)
    else if not (n == 0) && is_null src
    then (c, err null_source)
    else elim (evict_for n c) [
      | err e ↦ (c, err e)
      | ok d ↦ (add_entry d id (copy_bytes src n) n false, ok (copy_bytes src n))
    ]

pub count_miss : TensorCache → TensorCache
count_miss c = record c { stats = record c.stats { misses = add64 c.stats.misses 1 } }

pub get_or_load : TensorCache → ℕ → Source → ℕ → TensorCache × Result CacheError (List ℕ)
get_or_load c id src n = elim (find id c.entries) [
  | some e ↦ (hit c id e, ok e.bytes)
  | none ↦ load (count_miss c) id src n
]

unfoldable pub holds : TensorCache → ℕ → Bool
holds c id = contains id c.entries

-- The two last lines of `insert_prefetched`.
pub count_prefetched : TensorCache → ℕ → TensorCache
count_prefetched c n = record c {
  prefetched_used = add64 c.prefetched_used n;
  peak_prefetched_used = max c.peak_prefetched_used (add64 c.prefetched_used n);
}

pub insert_prefetched : TensorCache → ℕ → Source → ℕ → TensorCache × Result CacheError (Unit {0})
unfolding add_entry count_prefetched
insert_prefetched c id src n =
    if contains id c.entries || ltb c.capacity n || ltb u64_max n
    then (c, ok tt)
    else if not (n == 0) && is_null src
    then (c, err null_source)
    else elim (evict_for n c) [
      | err e ↦ (c, err e)
      | ok d ↦ (count_prefetched (add_entry d id (copy_bytes src n) n true) n, ok tt)
    ]
