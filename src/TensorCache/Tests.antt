-- ===== src/TensorCache/Tests.antt =====
-- The theorems on the cache at a cache of ten bytes, with slices of four bytes and more.
use mem_vanta.Prelude.{ℕ, ◌+◌, ◌*◌, ◌≤◌, ◌≡◌, some, List, [], ◌∷◌, arith, ok, sub64, add64}
use mem_vanta.TensorCache.{
  TensorCache, Source, init, load, count_miss, hit, evict_loop, evict_entry, add_entry,
  count_prefetched, copy_bytes, evict_for, get_or_load, insert_prefetched,
}
use mem_vanta.TensorCache.Invariant.{Inv}
use mem_vanta.TensorCache.Rounds.{Evicts, evict_for-Evicts}
use mem_vanta.TensorCache.Eviction.{Minimal, evict_for-Minimal}
use mem_vanta.TensorCache.Served.{Served, get_or_load-Served}
use mem_vanta.TensorCache.Coherence.{
  Call, loads, inserts, Returns, step, run, run-Returns, run-init-Inv,
}

-- Slice `id` has `4 + id` bytes, the first of them `16 * id`.
abbrev bytes_of : ℕ → Source
bytes_of id = some (λ i. 16 * id + i)

abbrev bytes_in : ℕ → ℕ
bytes_in id = 4 + id

-- Loads that hit and miss, an insertion, and evictions.
abbrev calls : List Call
calls = loads 0 ∷ inserts 1 ∷ loads 0 ∷ loads 2 ∷ []

abbrev after : TensorCache
after = run bytes_of bytes_in (init 10) calls

abbrev after-Inv : Inv after
after-Inv = run-init-Inv bytes_of bytes_in 10 calls (omega arith)

run-init-Inv_example : Inv after
run-init-Inv_example = run-init-Inv bytes_of bytes_in 10 calls (omega arith)

run-Returns_example : Returns bytes_of bytes_in 1 (get_or_load after 1 (bytes_of 1) 5).1
run-Returns_example = run-Returns bytes_of bytes_in 10 calls 1 (omega arith)

get_or_load-Served_example : Served after 3 (bytes_of 3) 7 (get_or_load after 3 (bytes_of 3) 7)
get_or_load-Served_example = get_or_load-Served 3 (bytes_of 3) 7 after-Inv

capacity-after : 7 ≤ after.capacity
unfolding run init step get_or_load insert_prefetched load count_miss hit evict_for evict_loop
    evict_entry add_entry count_prefetched copy_bytes sub64 add64
capacity-after = omega arith

evict_for-Evicts_example : (d : TensorCache) × (evict_for 7 after ≡ ok d) × Evicts 7 after d
evict_for-Evicts_example = evict_for-Evicts 7 after after-Inv capacity-after

evict_for-Minimal_example :
    (d : TensorCache) × (evict_for 7 after ≡ ok d) × (7 + d.used ≤ d.capacity) × Minimal 7 after d
evict_for-Minimal_example = evict_for-Minimal 7 after after-Inv capacity-after
