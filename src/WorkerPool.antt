-- ===== src/WorkerPool.antt =====
-- include/memvanta/worker_pool.hpp, src/worker_pool.cpp, and `parallel_rows` of src/quant.cpp:
-- how a loop of n rounds is cut into ranges for the threads.
pub mod Returning
pub mod Phases
pub mod Sections
pub mod CallerSteps
pub mod Handover
pub mod Invariant
pub mod Counts
pub mod Protocol
pub mod Waking
pub mod Dozing
pub mod Awake
pub mod Ranges
mod Tests
use mem_vanta.Prelude.{
  ℕ, zero, suc, ◌+◌, ◌/◌, min, max, List, [], ◌∷◌, ltb, ◌==◌, if◌then◌else◌, add64, sub64, mul64,
}

-- `(n + threads_ - 1) / threads_`
pub step_of : ℕ → ℕ → ℕ
step_of n threads = sub64 (add64 n threads) 1 / threads

-- The bounds `a` and `b` of a thread.
pub start_of : ℕ → ℕ → ℕ → ℕ
start_of n threads tid = mul64 tid (step_of n threads)

pub end_of : ℕ → ℕ → ℕ → ℕ
end_of n threads tid = min n (add64 (start_of n threads tid) (step_of n threads))

-- The ranges of `count` threads from `tid` on: a thread calls `f(a, b)` only if `a < b`.
pub ranges_from : ℕ → ℕ → ℕ → ℕ → List (ℕ × ℕ)
ranges_from n threads tid zero = []
ranges_from n threads tid (suc count) =
    if ltb (start_of n threads tid) (end_of n threads tid)
    then (start_of n threads tid, end_of n threads tid) ∷ ranges_from n threads (suc tid) count
    else ranges_from n threads (suc tid) count

-- WorkerPool(threads)
pub pool_size : ℕ → ℕ
pool_size threads = max 1 threads

-- The calls of `fn` that `parallel_for` makes, the caller's own first. For thread 0 the source
-- tests `b` alone, and its start is 0.
pub parallel_for_ranges : ℕ → ℕ → List (ℕ × ℕ)
parallel_for_ranges threads n =
    if n == 0 then [] else if ltb 1 threads then ranges_from n threads 0 threads else (0, n) ∷ []

-- The threads that `parallel_rows` uses, and the calls that it makes.
pub row_threads : ℕ → ℕ → ℕ
row_threads rows threads = let t = max 1 threads in if ltb rows t then rows else t

pub parallel_rows_ranges : ℕ → ℕ → List (ℕ × ℕ)
parallel_rows_ranges rows threads =
    if rows == 0
    then []
    else let t = row_threads rows threads in
      if t == 1 then (0, rows) ∷ [] else ranges_from rows t 0 t
