-- ===== src/Prefetcher/Thread.antt =====
-- src/prefetcher.cpp, `loop`: the worker as a function of the state that it finds.
use mem_vanta.Prelude.{ℕ, zero, suc, Option, none, some}
use mem_vanta.TensorCache.{Source}
use mem_vanta.Prefetcher.{
  idle, ended, inserting, inserted, failing, Prefetcher, take_next, insert, finish, fail,
}

-- The state that a wait ends with, if it ends.
abbrev pub or_stay : Prefetcher → Option Prefetcher → Prefetcher
or_stay s none = s
or_stay s (some p) = p

module _ (bytes_of : ℕ → Source) (bytes_in : ℕ → ℕ) where
  -- The next section of the worker, if it is not asleep or gone.
  unfoldable pub worker_step : Prefetcher → Prefetcher
  worker_step s = elim s.worker [
    | idle ↦ or_stay s (take_next s)
    | ended ↦ s
    | inserting id ↦ insert s id (bytes_of id) (bytes_in id)
    | inserted id ↦ finish s id
    | failing id e ↦ fail s e
  ]

  unfoldable pub worker_steps : ℕ → Prefetcher → Prefetcher
  worker_steps zero s = s
  worker_steps (suc n) s = worker_steps n (worker_step s)
