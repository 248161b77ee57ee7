-- ===== src/Prefetcher.antt =====
-- include/memvanta/prefetcher.hpp and src/prefetcher.cpp: the thread that copies slices of a store
-- into the cache ahead of the consumer. What one thread does under one lock, of the prefetcher or
-- of the cache, is one operation here; Prefetcher/Steps.antt interleaves them.
pub mod Peaks
pub mod Joining
pub mod Waking
pub mod Awake
pub mod Thread
pub mod Steps
pub mod Accounting
pub mod Stopping
pub mod Draining
pub mod Calls
mod Tests
use mem_vanta.Prelude.{
  ℕ, ◌-◌, ◌≤◌, max, Bool, true, false, ◌||◌, Option, none, some, List, [], ◌∷◌, ◌++◌, Result, ok,
  err, ltb, leb, if◌then◌else◌, add64, sub64, u64_max,
}
use mem_vanta.Prelude.Dict.{find, contains, emplace, erase_key}
use mem_vanta.TensorCache.{TensorCache, CacheError, Source, holds, insert_prefetched}

-- Where the worker is in its loop: before the wait, past `pop_front`, past `insert_prefetched`, in
-- the handler of an exception, or returned.
pub data Worker : Type 0 where
  idle ended : Worker
  inserting inserted : ℕ → Worker
  failing : ℕ → CacheError → Worker

pub record Prefetcher : Type 0 where
  pub cache : TensorCache
  pub stop : Bool
  pub queue : List ℕ
  pub pending : List (ℕ × ℕ)
  pub pending_bytes : ℕ
  pub peak_pending_bytes : ℕ
  pub error : Option CacheError
  pub worker : Worker

pub data RequestError : Type 0 where
  worker_failed : CacheError → RequestError
  pending_overflow : RequestError

-- Prefetcher(store, cache)
pub init : TensorCache → Prefetcher
init cache = record {
  cache = cache;
  stop = false;
  queue = [];
  pending = [];
  pending_bytes = 0;
  peak_pending_bytes = 0;
  error = none;
  worker = idle;
}

-- `request` up to its lock: whether it goes on. `count` is the number of slices of the store.
pub check_request : ℕ → Prefetcher → ℕ → Result RequestError Bool
check_request count s id = elim s.error [
  | some e ↦ err (worker_failed e)
  | none ↦ if s.stop || (leb count id || holds s.cache id) then ok false else ok true
]

-- `request` under its lock; `bytes` is the size of the slice.
pub enqueue : Prefetcher → ℕ → ℕ → Result RequestError Prefetcher
enqueue s id bytes =
    if s.stop || contains id s.pending
    then ok s
    else if ltb (sub64 u64_max s.pending_bytes) bytes
    then err pending_overflow
    else ok (record s {
      pending = emplace id bytes s.pending;
      pending_bytes = add64 s.pending_bytes bytes;
      peak_pending_bytes = max s.peak_pending_bytes (add64 s.pending_bytes bytes);
      queue = s.queue ++ id ∷ [];
    })

-- The worker behind its wait, which ends on `stop` or on a queued id; its sleep is in
-- Prefetcher/Waking.antt.
pub take_next : Prefetcher → Option Prefetcher
take_next s = if s.stop then some (record s { worker = ended }) else elim s.queue [
  | [] ↦ none
  | id ∷ ids ↦ some (record s { queue = ids; worker = inserting id })
]

after_insert : ℕ → Result CacheError (Unit {0}) → Worker
after_insert id (ok _) = inserted id
after_insert id (err e) = failing id e

-- The worker at the cache.
pub insert : Prefetcher → ℕ → Source → ℕ → Prefetcher
unfolding after_insert
insert s id src bytes =
    let (cache, result) = insert_prefetched s.cache id src bytes in
    record s { cache = cache; worker = after_insert id result }

-- The worker under its lock, when the slice is in the cache.
pub finish : Prefetcher → ℕ → Prefetcher
finish s id = elim (find id s.pending) [
  | none ↦ record s { worker = idle }
  | some bytes ↦ record s {
    pending_bytes = sub64 s.pending_bytes bytes;
    pending = erase_key id s.pending;
    worker = idle;
  }
]

first_error : Option CacheError → CacheError → CacheError
first_error none e = e
first_error (some old) e = old

-- The worker's handler of exceptions.
pub fail : Prefetcher → CacheError → Prefetcher
unfolding first_error
fail s e = record s {
  error = some (first_error s.error e);
  queue = [];
  pending = [];
  pending_bytes = 0;
  stop = true;
  worker = ended;
}

-- `stop` before it joins the worker, and after.
pub request_stop : Prefetcher → Prefetcher
request_stop s = record s { stop = true }

pub cancel : Prefetcher → Prefetcher
cancel s = record s { queue = []; pending = []; pending_bytes = 0 }
