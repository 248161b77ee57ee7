-- ===== src/Prefetcher/Waking.antt =====
-- src/prefetcher.cpp: the sections of Prefetcher/Steps.antt with the condition variable `cv_`, on
-- which the worker falls asleep and is notified.
use mem_vanta.Prelude.{ℕ, ◌+◌, ◌-◌, ◌<◌, ◌≡◌, Bool, true, false, ◌||◌, none, if◌then◌else◌}
use mem_vanta.Prelude.Dict.{contains}
use mem_vanta.TensorCache.{TensorCache, Source}
use mem_vanta.Prefetcher.{idle, take_next}
use mem_vanta.Prefetcher.Steps.{System, start, Step}

-- Whether the worker sleeps, and how many threads have left a section and are about to notify it.
pub record Sleeping : Type 0 where
  pub system : System
  pub dozes : Bool
  pub due : ℕ

module _ (bytes_of : ℕ → Source) (bytes_in : ℕ → ℕ) (count : ℕ) where
  -- The calls of `notify_one` and `notify_all` that follow a section: of `request` that queued the
  -- id, of the worker's handler of exceptions, and of `stop`.
  unfoldable pub notices : {s t : System} → Step bytes_of bytes_in count s t → ℕ
  notices (Step.asks id _) = 0
  notices {s} (Step.enqueues id p _ _) =
      if s.shared.stop || contains id s.shared.pending then 0 else 1
  notices (Step.refuses id e _ _) = 0
  notices (Step.takes p _ _) = 0
  notices (Step.inserts id _) = 0
  notices (Step.finishes id _) = 0
  notices (Step.fails id e _) = 1
  notices (Step.consumes id) = 0
  notices Step.stops = 1
  notices (Step.cancels _ _) = 0

  unfoldable pub is_worker : {s t : System} → Step bytes_of bytes_in count s t → Bool
  is_worker (Step.asks id _) = false
  is_worker (Step.enqueues id p _ _) = false
  is_worker (Step.refuses id e _ _) = false
  is_worker (Step.takes p _ _) = true
  is_worker (Step.inserts id _) = true
  is_worker (Step.finishes id _) = true
  is_worker (Step.fails id e _) = true
  is_worker (Step.consumes id) = false
  is_worker Step.stops = false
  is_worker (Step.cancels _ _) = false

  abbrev pub awake : TensorCache → Sleeping
  awake cache = record { system = start cache; dozes = false; due = 0 }

  -- A section, which the worker takes only when it is awake; a notice; and the worker falling asleep
  -- where the test of its wait fails, or waking up without a notice.
  pub data Move (s : Sleeping) : Sleeping → Type 0 where
    acts :
        (t : System) (step : Step bytes_of bytes_in count s.system t)
        → (is_worker step ≡ true → s.dozes ≡ false)
        → Move s (record { system = t; dozes = s.dozes; due = s.due + notices step })
    notifies : 0 < s.due → Move s (record s { dozes = false; due = s.due - 1 })
    dozes_off :
        s.system.shared.worker ≡ idle
        → take_next s.system.shared ≡ none
        → Move s (record s { dozes = true })
    wakes : Move s (record s { dozes = false })

  pub data Run : Sleeping → Sleeping → Type 0 where
    rest : {s : Sleeping} → Run s s
    moved : {s t u : Sleeping} → Run s t → Move t u → Run s u
