-- ===== src/TensorCache/Served.antt =====
-- What `get_or_load` of src/lru_cache.cpp does to the recency list, the entries and the statistics.
use mem_vanta.Prelude.{
  ℕ, ◌+◌, ◌≤◌, ◌<◌, ◌%◌, ◌≡◌, ◌≢◌, refl, false, none, some, List, ◌∷◌, arith, ◌==◌, Result, ok, err,
  erase, ==_refl, add64, add64_lem, u64_mod, if◌then◌else◌,
}
use mem_vanta.Prelude.Dict.{find, contains, find-assign, contains-find-some}
use mem_vanta.TensorCache.{
  TensorCache, Entry, Source, CacheError, null_source, larger_than_capacity, add_entry, size_of,
  hit, count_miss, get_or_load,
}
use mem_vanta.TensorCache.Invariant.{Inv}
use mem_vanta.TensorCache.Rounds.{Evicts}
use mem_vanta.TensorCache.Eviction.{Minimal, Evicts-Minimal, Evicts-Evicted}
use mem_vanta.TensorCache.Changes.{Readable, Evicts-absent, prefetched-hit}
use mem_vanta.TensorCache.Loads.{Got, Loaded, get_or_load-Got, count_miss-Inv, absent-count_miss}
use mem_vanta.TensorCache.Coherence.{contents, copy_bytes-contents}

-- From `c` to `d` by a hit on the id with the entry `e`: it moves to the front and is no longer
-- a prefetched one.
pub record Touched (c : TensorCache) (id : ℕ) (e : Entry) (d : TensorCache) : Type 0 where
  pub front : d.lru ≡ id ∷ erase id c.lru
  pub entry : find id d.entries ≡ some (record { bytes = e.bytes; prefetched = false })
  pub others : (i : ℕ) → i ≢ id → find i d.entries ≡ find i c.entries
  pub sizes : (d.capacity ≡ c.capacity) × (d.used ≡ c.used)
  pub prefetched : d.prefetched_used + (if e.prefetched then size_of e else 0) ≡ c.prefetched_used
  pub peak : d.peak_prefetched_used ≡ c.peak_prefetched_used
  pub counted : d.stats ≡ record c.stats { hits = (c.stats.hits + 1) % u64_mod }

-- From `m`, which is what eviction left of `c`, to `d` by a counted miss that adds the bytes.
pub record Added (c : TensorCache) (id : ℕ) (bytes : List ℕ) (n : ℕ) (m d : TensorCache)
    : Type 0 where
  pub front : d.lru ≡ id ∷ m.lru
  pub entry : find id d.entries ≡ some (record { bytes = bytes; prefetched = false })
  pub others : (i : ℕ) → i ≢ id → find i d.entries ≡ find i m.entries
  pub sizes : (d.capacity ≡ c.capacity) × (d.used ≡ m.used + n) × (d.used ≤ d.capacity)
  pub prefetched : d.prefetched_used ≡ m.prefetched_used
  pub peak : d.peak_prefetched_used ≡ c.peak_prefetched_used
  pub counted : d.stats ≡ record {
    hits = c.stats.hits;
    misses = (c.stats.misses + 1) % u64_mod;
    evictions = m.stats.evictions;
    bytes_copied = (c.stats.bytes_copied + n) % u64_mod;
  }

-- The cache with a counted miss.
abbrev pub missed : TensorCache → TensorCache
missed c = record c { stats = record c.stats { misses = (c.stats.misses + 1) % u64_mod } }

-- How `get_or_load` ends.
pub data Served (c : TensorCache) (id : ℕ) (src : Source) (n : ℕ)
    : TensorCache × Result CacheError (List ℕ) → Type 0 where
  hits :
      (e : Entry) (d : TensorCache)
      → find id c.entries ≡ some e
      → Touched c id e d
      → Served c id src n (d, ok e.bytes)
  too_large :
      find id c.entries ≡ none
      → c.capacity < n
      → Served c id src n (missed c, err larger_than_capacity)
  null :
      find id c.entries ≡ none
      → n ≤ c.capacity
      → src ≡ none
      → n ≢ 0
      → Served c id src n (missed c, err null_source)
  loads :
      (m d : TensorCache)
      → find id c.entries ≡ none
      → Readable src n
      → Minimal n (missed c) m
      → Added c id (contents src n) n m d
      → Served c id src n (d, ok (contents src n))

different : (i id : ℕ) → i ≢ id → (i == id) ≡ false
different i id h = ground (arith, h)

hit-Touched :
    {c : TensorCache} (id : ℕ) (e : Entry)
    → Inv c
    → find id c.entries ≡ some e
    → Touched c id e (hit c id e)
unfolding hit add64
hit-Touched {c} id e v found =
    let there = contains-find-some id e c.entries found in
    let after = λ (i : ℕ). find-assign id i (record e { prefetched = false }) c.entries there in
    record {
      front = refl;
      entry = ground (arith, after id, ==_refl id);
      others = λ i h. ground (arith, after i, different i id h);
      sizes = (refl, refl);
      prefetched = prefetched-hit v id e found;
      peak = refl;
      counted = refl;
    }

add_entry-Added :
    {c m : TensorCache} (id : ℕ) (bytes : List ℕ) (n : ℕ)
    → Inv (missed c)
    → Evicts n (missed c) m
    → contains id m.entries ≡ false
    → Added c id bytes n m (add_entry m id bytes n false)
unfolding add_entry
add_entry-Added {c} {m} id bytes n v rounds absent =
    let w = Evicts-Evicted v rounds in
    let fits = add64_lem m.used n (omega (arith, w.room, w.inv.capacity_fits)) in
    record {
      front = refl;
      entry = rw absent (ground (arith, ==_refl id));
      others = λ i h. rw absent (ground (arith, different i id h));
      sizes = (w.capacity_same, fits, omega (arith, fits, w.room));
      prefetched = refl;
      peak = w.peak_same;
      counted = unfold add64 in rw (w.hits_same, w.misses_same, w.copied_same) refl;
    }

-- On a well-formed cache `get_or_load` is a hit, which returns the bytes that are there, moves the
-- id to the front of the recency list, makes its entry an ordinary one, leaves the others, takes
-- its size off the prefetched bytes if it was a prefetched one, and counts one hit; or a miss,
-- which counts one miss and either throws without any other change, for a slice larger than the
-- capacity or a null source of some bytes, or evicts as `Minimal` says, puts the id in front of
-- what stays, with a copy of the source that is returned, and counts the bytes.
pub get_or_load-Served :
    {c : TensorCache} (id : ℕ) (src : Source) (n : ℕ)
    → Inv c
    → Served c id src n (get_or_load c id src n)
get_or_load-Served {c} id src n v = go (get_or_load-Got id src n v)
  where
    loaded :
        {r : TensorCache × Result CacheError (List ℕ)}
        → find id c.entries ≡ none
        → Loaded (count_miss c) id src n r
        → Served c id src n r
    loaded missing (Loaded.too_large h) = unfold count_miss add64 in Served.too_large missing h
    loaded missing (Loaded.null h k l) = unfold count_miss add64 in Served.null missing h k l
    loaded missing (Loaded.loads {d = m} readable rounds) =
        let absent = Evicts-absent id (count_miss-Inv v) rounds (absent-count_miss c id missing) in
        let w : Inv (missed c) = unfold count_miss add64 in count_miss-Inv v in
        let from_missed : Evicts n (missed c) m = unfold count_miss add64 in rounds in
        rw (copy_bytes-contents src n readable) (
          Served.loads m (add_entry m id (contents src n) n false) missing readable
            (Evicts-Minimal w from_missed)
            (add_entry-Added id (contents src n) n w from_missed absent))

    go : {r : TensorCache × Result CacheError (List ℕ)} → Got c id src n r → Served c id src n r
    go (Got.hits e found) = Served.hits e (hit c id e) found (hit-Touched id e v found)
    go (Got.misses missing l) = loaded missing l
