-- ===== src/Prefetcher/Awake.antt =====
-- src/prefetcher.cpp: when the worker may be asleep on `cv_`.
use mem_vanta.Prelude.{
  ℕ, ◌≡◌, refl, sym, subst, ◌∙◌, true, false, ◌||◌, ◌⊎◌, inl, inr, Option, none, some, List, [],
  ◌∷◌, ok, ok-injective, arith, Bool-cases, if-cases,
}
use mem_vanta.Prelude.Dict.{contains}
use mem_vanta.TensorCache.{TensorCache, Source}
use mem_vanta.Prefetcher.{idle, ended, Prefetcher, Worker, take_next, enqueue}
use mem_vanta.Prefetcher.Steps.{System, Step, consume}
use mem_vanta.Prefetcher.Thread.{worker_steps}
use mem_vanta.Prefetcher.Joining.{worker_steps-ended}
use mem_vanta.Prefetcher.Waking.{Sleeping, notices, is_worker, awake, Move, Run}

-- The test of the worker's wait fails.
abbrev pub Waits : Prefetcher → Type 0
Waits s = (s.worker ≡ idle) × (s.queue ≡ []) × (s.stop ≡ false)

none-Waits : (s : Prefetcher) → s.worker ≡ idle → take_next s ≡ none → Waits s
unfolding take_next
none-Waits s at = if-cases P s.stop _ _ (λ stopped e. absurd cc) λ live. go s.queue refl live
  where
    P : Option Prefetcher → Type 0
    P o = o ≡ none → Waits s

    go :
        (q : List ℕ)
        → s.queue ≡ q
        → s.stop ≡ false
        → P (elim q [
          | [] ↦ none
          | id ∷ ids ↦ some (record s { queue = ids; worker = Worker.inserting id })
        ])
    go [] e live = λ _. (at, e, live)
    go (id ∷ ids) e live = λ stuck. absurd cc

module _ (bytes_of : ℕ → Source) (bytes_in : ℕ → ℕ) (count : ℕ) where
  enqueue-unchanged :
      (s p : Prefetcher) (id : ℕ)
      → enqueue s id (bytes_in id) ≡ ok p
      → (s.stop || contains id s.pending) ≡ true
      → s ≡ p
  unfolding enqueue
  enqueue-unchanged s p id ran there =
      let kept : enqueue s id (bytes_in id) ≡ ok s = rw there refl in ok-injective (sym kept ∙ ran)

  Step-Waits :
      {s t : System} (step : Step bytes_of bytes_in count s t)
      → is_worker bytes_of bytes_in count step ≡ false
      → notices bytes_of bytes_in count step ≡ 0
      → Waits s.shared
      → Waits t.shared
  unfolding is_worker notices
  Step-Waits (Step.asks id _) other silent v = v
  Step-Waits {s} (Step.enqueues id p _ ran) other silent v =
      elim (Bool-cases (s.shared.stop || contains id s.shared.pending)) [
        | inl there ↦ subst Waits (enqueue-unchanged s.shared p id ran there) v
        | inr missing ↦ absurd (ground (arith, silent, missing))
      ]
  Step-Waits (Step.refuses id e _ _) other silent v = v
  Step-Waits (Step.takes p _ _) other silent v = absurd cc
  Step-Waits (Step.inserts id _) other silent v = absurd cc
  Step-Waits (Step.finishes id _) other silent v = absurd cc
  Step-Waits (Step.fails id e _) other silent v = absurd cc
  Step-Waits (Step.consumes id) other silent v = unfold consume in v
  Step-Waits Step.stops other silent v = absurd (omega (arith, silent))
  Step-Waits (Step.cancels stopped _) other silent v = absurd cc

  Awaited : Sleeping → Type 0
  Awaited s = s.dozes ≡ true → s.due ≡ 0 → Waits s.system.shared

  Move-Awaited : {s t : Sleeping} → Move bytes_of bytes_in count s t → Awaited s → Awaited t
  unfolding Awaited
  Move-Awaited {s} (Move.acts t step free) v asleep none_due =
      elim (Bool-cases (is_worker bytes_of bytes_in count step)) [
        | inl itself ↦ let up = free itself in absurd cc
        | inr other ↦ Step-Waits step other (omega arith) (v asleep (omega arith))
      ]
  Move-Awaited (Move.notifies due) v asleep none_due = absurd cc
  Move-Awaited {s} (Move.dozes_off at stuck) v asleep none_due = none-Waits s.system.shared at stuck
  Move-Awaited Move.wakes v asleep none_due = absurd cc

  Run-Awaited : {s t : Sleeping} → Run bytes_of bytes_in count s t → Awaited s → Awaited t
  Run-Awaited Run.rest v = v
  Run-Awaited (Run.moved before last) v = Move-Awaited last (Run-Awaited before v)

  -- Whatever requesting threads, the worker, the consumer and a stopping thread did before, with
  -- the worker falling asleep in its wait and waking up with and without a notice: if no thread is
  -- about to notify it, the worker is asleep with an empty queue and has not been told to stop, or
  -- it is awake, and returns within three of its sections if it has been told to stop.
  pub Run-awake :
      (cache : TensorCache) {s : Sleeping}
      → Run bytes_of bytes_in count (awake bytes_of bytes_in count cache) s
      → s.due ≡ 0
      → ((s.dozes ≡ true) × Waits s.system.shared)
        ⊎ ((s.dozes ≡ false)
            × ((s.system.shared.stop ≡ false)
                ⊎ ((worker_steps bytes_of bytes_in 3 s.system.shared).worker ≡ ended)))
  Run-awake cache {s} before none_due = elim (Bool-cases s.dozes) [
    | inl asleep ↦
        inl (asleep, unfold Awaited in Run-Awaited before (λ up _. absurd cc) asleep none_due)
    | inr up ↦ inr (
      up,
      elim (Bool-cases s.system.shared.stop) [
        | inl stopped ↦ inr (worker_steps-ended bytes_of bytes_in s.system.shared stopped)
        | inr live ↦ inl live
      ],
    )
  ]
