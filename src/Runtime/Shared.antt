-- ===== src/Runtime/Shared.antt =====
-- What the consumer does with the objects it shares with the prefetch worker: src/prefetcher.cpp
-- and src/lru_cache.cpp as src/runtime.cpp calls them. Before each of its locked sections the
-- worker has run as many of its own as `pace` says, so that `pace` ranges over the interleavings.
use mem_vanta.Prelude.{
  ℕ, suc, Bool, Option, none, some, List, Result, ok, err, get_elem?, ◌+◌, if◌then◌else◌,
}
use mem_vanta.Prelude.Dict.{contains}
use mem_vanta.TensorCache.{CacheError, Source, get_or_load, holds}
use mem_vanta.TensorStore.{TensorStore, TensorSlice, slice, count}
use mem_vanta.Prefetcher.Thread.{worker_steps}
use mem_vanta.Prefetcher.{Prefetcher, RequestError, check_request, enqueue, request_stop, cancel}
use mem_vanta.Runtime.{RunError, cache_failed, prefetch_failed, request_failed, bad_slice}

-- `ticks` counts the locked sections of the consumer.
pub record World : Type 0 where
  pub shared : Prefetcher
  pub ticks : ℕ

-- Code that may throw, on the shared objects.
abbrev pub Run : Type 0 → Type 0
Run A = World → World × Result RunError A

unfoldable pub pure : {A : Type 0} → A → Run A
pure a w = (w, ok a)

unfoldable pub throw : {A : Type 0} → RunError → Run A
throw e w = (w, err e)

abbrev pub resume :
    {A B : Type 0} → (A → Run B) → World → Result RunError A → World × Result RunError B
resume k after (ok a) = k a after
resume k after (err e) = (after, err e)

infixl 5 ◌>>=◌ ◌>>◌
unfoldable pub ◌>>=◌ : {A B : Type 0} → Run A → (A → Run B) → Run B
(m >>= k) w = let (after, r) = m w in resume k after r

abbrev pub ◌>>◌ : {A B : Type 0} → Run A → Run B → Run B
first >> rest = first >>= λ unit. rest

-- A value, or the exception of another part.
unfoldable pub lift : {E A : Type 0} → (E → RunError) → Result E A → Run A
lift wrap (ok a) = pure a
lift wrap (err e) = throw (wrap e)

-- The bytes of a slice and their number, in a mapping whose byte at an offset is `mapped`. The
-- program has slices below `count` only.
module _ (store : TensorStore) (mapped : ℕ → ℕ) where
  size_or_zero : Option TensorSlice → ℕ
  size_or_zero none = 0
  size_or_zero (some s) = s.bytes

  offset_or_zero : Option TensorSlice → ℕ
  offset_or_zero none = 0
  offset_or_zero (some s) = s.offset

  unfoldable pub bytes_in : ℕ → ℕ
  unfolding size_or_zero
  bytes_in id = size_or_zero (get_elem? store.slices id)

  -- `ptr`
  unfoldable pub bytes_of : ℕ → Source
  unfolding offset_or_zero
  bytes_of id = some (λ j. mapped (offset_or_zero (get_elem? store.slices id) + j))

  -- The worker's sections in between.
  abbrev pub worker_runs : ℕ → Prefetcher → Prefetcher
  worker_runs = worker_steps bytes_of bytes_in

  abbrev pub after_check : Prefetcher → Result RequestError Bool → Prefetcher × Result RunError Bool
  after_check s (ok b) = (s, ok b)
  after_check s (err e) = (s, err (request_failed e))

  unfoldable pub checked : ℕ → Prefetcher → Prefetcher × Result RunError Bool
  checked id s = after_check s (check_request (count store) s id)

  abbrev pub after_enqueue :
      Prefetcher → Result RequestError Prefetcher → Prefetcher × Result RunError (Unit {0})
  after_enqueue s (ok p) = (p, ok tt)
  after_enqueue s (err e) = (s, err (request_failed e))

  unfoldable pub enqueued : ℕ → ℕ → Prefetcher → Prefetcher × Result RunError (Unit {0})
  enqueued id bytes s = after_enqueue s (enqueue s id bytes)

  abbrev pub after_load : Result CacheError (List ℕ) → Result RunError (List ℕ)
  after_load (ok buffer) = ok buffer
  after_load (err e) = err (cache_failed e)

  unfoldable pub loaded : ℕ → ℕ → Prefetcher → Prefetcher × Result RunError (List ℕ)
  loaded id bytes s =
      let (cache, result) = get_or_load s.cache id (bytes_of id) bytes in
      (record s { cache = cache }, after_load result)

  abbrev pub after_run : Prefetcher → Option CacheError → Prefetcher × Result RunError (Unit {0})
  after_run s none = (s, ok tt)
  after_run s (some e) = (s, err (prefetch_failed e))

  unfoldable pub rethrown : Prefetcher → Prefetcher × Result RunError (Unit {0})
  rethrown s = after_run s s.error

  module _ (pace : ℕ → ℕ) where
    -- One locked section of the consumer, or one atomic read.
    unfoldable pub locked : {A : Type 0} → (Prefetcher → Prefetcher × Result RunError A) → Run A
    locked section w =
        let (s, r) = section (worker_runs (pace w.ticks) w.shared) in
        (record { shared = s; ticks = suc w.ticks }, r)

    -- A section that only reads.
    unfoldable pub reads : {A : Type 0} → (Prefetcher → A) → Run A
    reads f = locked λ s. (s, ok (f s))

    -- `TensorStore::slice`
    unfoldable pub at : ℕ → Run TensorSlice
    at id = lift bad_slice (slice store id)

    -- `TensorStore::prefetch` and `release`: hints to the kernel, which change no byte.
    unfoldable pub advise : ℕ → Run (Unit {0})
    unfolding at
    advise id = do s ← at id; pure tt

    unfoldable pub cache_contains : ℕ → Run Bool
    cache_contains id = reads λ s. holds s.cache id

    unfoldable pub pending : ℕ → Run Bool
    pending id = reads λ s. contains id s.pending

    unfoldable pub pending_bytes : Run ℕ
    pending_bytes = reads λ s. s.pending_bytes

    unfoldable pub evictions : Run ℕ
    evictions = reads λ s. s.cache.stats.evictions

    -- `Prefetcher::request`
    unfoldable pub request : ℕ → Run (Unit {0})
    unfolding checked enqueued
    request id = do
      goes_on ← locked (checked id)
      if goes_on then (at id >>= λ s. locked (enqueued id s.bytes)) else pure tt

    -- `cache_.get_or_load(i, store_.ptr(i), s.bytes)`
    unfoldable pub load : ℕ → ℕ → Run (List ℕ)
    unfolding loaded
    load id bytes = locked (loaded id bytes)

    -- `Prefetcher::stop`: three sections are the most that the worker has left once it is told to
    -- stop, which Stopping.antt shows of it.
    unfoldable pub stop : Run (Unit {0})
    stop = do locked λ s. (request_stop s, ok tt); locked λ s. (cancel (worker_runs 3 s), ok tt)

    -- `Prefetcher::rethrow_if_failed`
    unfoldable pub rethrow_if_failed : Run (Unit {0})
    unfolding rethrown
    rethrow_if_failed = locked rethrown
