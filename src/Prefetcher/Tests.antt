-- ===== src/Prefetcher/Tests.antt =====
-- The theorems on the prefetcher at runs over a cache of ten bytes.
use mem_vanta.Prelude.{
  ℕ, ◌+◌, ◌*◌, ◌≡◌, ◌⊎◌, refl, Bool, true, false, some, [], ◌∷◌, arith, ok, add64, sub64,
}
use mem_vanta.TensorCache.{TensorCache, Source, null_source, insert_prefetched}
use mem_vanta.TensorCache
use mem_vanta.TensorCache.Invariant
use mem_vanta.Prefetcher.{
  idle, ended, take_next, Prefetcher, check_request, enqueue, fail, request_stop, cancel, init,
}
use mem_vanta.Prefetcher.Steps.{System, start, Step, Steps}
use mem_vanta.Prefetcher.Accounting.{Accounted, start-Accounted}
use mem_vanta.Prefetcher.Stopping.{Quiet, cancel-Steps, fail-Steps}
use mem_vanta.TensorCache.{get_or_load}
use mem_vanta.TensorCache.Coherence.{Returns}
use mem_vanta.Prefetcher.Calls.{Steps-Returns}
use mem_vanta.Prefetcher.Thread.{worker_steps}
use mem_vanta.Prefetcher.Waking.{Sleeping, notices, is_worker, awake, Move, Run}
use mem_vanta.Prefetcher.Awake.{Waits, Run-awake}
use mem_vanta.Prefetcher.Draining.{drain-Steps}

abbrev bytes_of : ℕ → Source
bytes_of id = some (λ i. 16 * id + i)

abbrev bytes_in : ℕ → ℕ
bytes_in id = 4 + id

abbrev cache : TensorCache
cache = TensorCache.init 10

-- One request is in the queue.
abbrev queued : Prefetcher
queued = record (init cache) {
  queue = 1 ∷ [];
  pending = (1, 5) ∷ [];
  pending_bytes = 5;
  peak_pending_bytes = 5;
}

abbrev one : System
one = record { shared = queued; asked = [] }

enqueue-init : enqueue (init cache) 1 5 ≡ ok queued
unfolding enqueue init add64 sub64
enqueue-init = refl

check_request-init : check_request 3 (init cache) 1 ≡ ok true
unfolding check_request init TensorCache.holds TensorCache.init
check_request-init = refl

asked_one : Steps bytes_of bytes_in 3 (start cache) one
asked_one =
    Steps.more (Step.asks 1 check_request-init)
      (Steps.more (Step.enqueues 1 queued refl enqueue-init) Steps.done)

start-Accounted_example : Accounted one.shared
start-Accounted_example =
    start-Accounted bytes_of bytes_in 3 cache (Invariant.init-Inv 10 (omega arith)) asked_one

one-Accounted : Accounted one.shared
one-Accounted =
    start-Accounted bytes_of bytes_in 3 cache (Invariant.init-Inv 10 (omega arith)) asked_one

drain-Steps_example :
    (t : System) × Steps bytes_of bytes_in 3 one t
    × (t.shared.queue ≡ [])
    × (t.shared.pending_bytes ≡ 0)
    × (t.shared.worker ≡ idle)
unfolding init
drain-Steps_example = drain-Steps bytes_of bytes_in 3 (λ id. tt) one one-Accounted refl refl

-- The worker has returned with a request in the queue.
abbrev left : System
left = record { shared = record queued { stop = true; worker = ended }; asked = 2 ∷ [] }

cancel-Steps_example : Quiet (request_stop (cancel left.shared))
cancel-Steps_example =
    cancel-Steps bytes_of bytes_in 3 left refl refl (Steps.more Step.stops Steps.done)

fail-Steps_example : Quiet (request_stop (fail one.shared null_source))
fail-Steps_example =
    fail-Steps bytes_of bytes_in 3 one null_source (Steps.more Step.stops Steps.done)

Steps-Returns_example :
    Returns bytes_of bytes_in 1 (get_or_load one.shared.cache 1 (bytes_of 1) (bytes_in 1)).1
Steps-Returns_example = Steps-Returns bytes_of bytes_in 3 10 1 (omega arith) asked_one

-- The worker is asleep, a request is queued, and the worker is told to stop before it is notified of
-- the request.
abbrev sleeper : System → Bool → ℕ → Sleeping
sleeper system dozes due = record { system = system; dozes = dozes; due = due }

abbrev asked : System
asked = record { shared = init cache; asked = 1 ∷ [] }

abbrev stopping : System
stopping = record one { shared = request_stop queued }

run_stopping : Run bytes_of bytes_in 3 (awake bytes_of bytes_in 3 cache) (sleeper stopping false 0)
unfolding notices is_worker init take_next
run_stopping =
    let first : Moves (awake bytes_of bytes_in 3 cache) (sleeper (start cache) true 0) =
      Move.dozes_off refl refl in
    let second : Moves (sleeper (start cache) true 0) (sleeper asked true 0) =
      Move.acts asked (Step.asks 1 check_request-init) (λ e. absurd cc) in
    let third : Moves (sleeper asked true 0) (sleeper one true 1) =
      Move.acts one (Step.enqueues 1 queued refl enqueue-init) (λ e. absurd cc) in
    let fourth : Moves (sleeper one true 1) (sleeper stopping true 2) =
      Move.acts stopping Step.stops (λ e. absurd cc) in
    let fifth : Moves (sleeper stopping true 2) (sleeper stopping false 1) =
      Move.notifies (omega arith) in
    let sixth : Moves (sleeper stopping false 1) (sleeper stopping false 0) =
      Move.notifies (omega arith) in
    Run.moved
      (Run.moved (Run.moved (Run.moved (Run.moved (Run.moved Run.rest first) second) third) fourth)
        fifth)
      sixth
  where
    Moves : Sleeping → Sleeping → Type 0
    Moves = Move bytes_of bytes_in 3

Run-awake_example :
    ((false ≡ true) × Waits stopping.shared)
    ⊎ ((false ≡ false)
        × ((stopping.shared.stop ≡ false)
            ⊎ ((worker_steps bytes_of bytes_in 3 stopping.shared).worker ≡ ended)))
Run-awake_example = Run-awake bytes_of bytes_in 3 cache run_stopping refl
