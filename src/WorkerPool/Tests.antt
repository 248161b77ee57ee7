-- ===== src/WorkerPool/Tests.antt =====
-- The hand-over of a loop of five rounds.
use mem_vanta.Prelude.{
  ℕ, ◌==◌, if◌then◌else◌, none, some, true, false, [], ◌∷◌, List, Option, subst, sym, refl, add64,
  sub64, mul64, sub32,
}
use mem_vanta.WorkerPool.{step_of, start_of, end_of}
use mem_vanta.WorkerPool.Protocol.{
  Fn, Thread, Place, Caller, waiting, running, called, done, outside, working, awaiting, Pool,
  start, start_workers, publish, advance, advance_at, call_range, proceed, proceed_at, call_first,
  Step, publishes, proceeds, advances, Steps, rest, more,
}
use mem_vanta.WorkerPool.Returning.{Completed, Steps-Completed}
use mem_vanta.WorkerPool.Waking
use mem_vanta.WorkerPool.Waking.{Sleeping, doze, notify_all, awake, Move, Drift, Run}
use mem_vanta.WorkerPool.Awake.{Run-moves}
use mem_vanta.Prelude.{◌≡◌, arith}

-- A loop of 5 rounds on the caller and one worker; the function throws on the worker's range, whose
-- call comes first.
abbrev throws_late : Fn ℕ
throws_late a b = if a == 0 then none else some a

-- The pool at work, by what changes.
abbrev at_work : ℕ → Option ℕ → ℕ → Place ℕ → Caller ℕ → List (ℕ × ℕ) → Pool ℕ
at_work finished error seen place caller calls = record {
  threads = 2;
  stop = false;
  generation = 1;
  fn = throws_late;
  n = 5;
  finished = finished;
  error = error;
  workers = record { tid = 1; seen = seen; place = place } ∷ [];
  caller = caller;
  calls = calls;
}

abbrev worker : ℕ → Place ℕ → Thread ℕ
worker seen place = record { tid = 1; seen = seen; place = place }

abbrev published : Pool ℕ
published = at_work 0 none 0 waiting working []

abbrev took : Pool ℕ
took = at_work 0 none 1 (running throws_late 5 1) working []

abbrev called_late : Pool ℕ
called_late = at_work 0 none 1 (called 3 1) working ((3, 5) ∷ [])

abbrev both_called : Pool ℕ
both_called = at_work 0 none 1 (called 3 1) awaiting ((0, 3) ∷ (3, 5) ∷ [])

abbrev recorded : Pool ℕ
recorded = at_work 0 (some 3) 1 (done 1) awaiting ((0, 3) ∷ (3, 5) ∷ [])

abbrev returning : Pool ℕ
returning = at_work 1 (some 3) 1 waiting awaiting ((0, 3) ∷ (3, 5) ∷ [])

moves_to :
    (s t : Pool ℕ) (w w' : Thread ℕ)
    → s.workers ≡ w ∷ []
    → t.workers ≡ w' ∷ []
    → advance s w ≡ some (record t { workers = s.workers }, w')
    → Step s t
moves_to s t w w' e e' h =
    subst (λ ws. Step s (record t { workers = ws })) (sym e')
      (advances [] [] w w' (record t { workers = s.workers }) e h)

run_steps : Steps (start throws_late 1) returning
unfolding start start_workers publish advance advance_at call_range start_of end_of step_of add64
    sub64 mul64 proceed proceed_at call_first
run_steps =
    let first : Step (start throws_late 1) published =
      publishes 5 throws_late refl refl refl refl in
    let second : Step published took =
      moves_to _ _ (worker 0 waiting) (worker 1 (running throws_late 5 1)) refl refl refl in
    let third : Step took called_late =
      moves_to _ _ (worker 1 (running throws_late 5 1)) (worker 1 (called 3 1)) refl refl refl in
    let fourth : Step called_late both_called = proceeds both_called refl in
    let fifth : Step both_called recorded =
      moves_to _ _ (worker 1 (called 3 1)) (worker 1 (done 1)) refl refl refl in
    let sixth : Step recorded returning =
      moves_to _ _ (worker 1 (done 1)) (worker 1 waiting) refl refl refl in
    more first (more second (more third (more fourth (more fifth (more sixth rest)))))

returning-proceeds : proceed returning ≡ some (record returning { caller = outside })
unfolding proceed proceed_at sub32
returning-proceeds = refl

Steps-Completed_example : Completed returning
Steps-Completed_example =
    Steps-Completed throws_late 1 (omega arith) run_steps (omega arith) refl returning-proceeds

-- The worker falls asleep, the loop is published and the worker notified, and the caller is through
-- with its own range and falls asleep.
abbrev worker_asleep : Sleeping ℕ
worker_asleep = doze (awake throws_late 1) 0 true

abbrev notice_given : Sleeping ℕ
notice_given = notify_all (Waking.published worker_asleep 5 throws_late)

abbrev own_called : Sleeping ℕ
own_called = record notice_given { pool = call_first notice_given.pool }

abbrev both_wait : Sleeping ℕ
both_wait = record own_called { caller_dozes = true }

run_both_wait : Run (awake throws_late 1) both_wait
unfolding awake doze Waking.published notify_all start start_workers publish advance advance_at
    proceed proceed_at call_first step_of add64 sub64 sub32
run_both_wait =
    let first : Drift (awake throws_late 1) worker_asleep =
      Drift.dozes_off [] [] (worker 0 waiting) refl refl refl in
    let second : Move worker_asleep (Waking.published worker_asleep 5 throws_late) =
      Move.publishes 5 throws_late refl refl refl refl in
    let third : Move (Waking.published worker_asleep 5 throws_late) notice_given =
      Move.notifies refl in
    let fourth : Move notice_given own_called =
      Move.proceeds (call_first notice_given.pool) refl refl refl in
    let fifth : Drift own_called both_wait = Drift.caller_dozes_off refl refl refl in
    Run.drifted (Run.moved (Run.moved (Run.moved (Run.drifted Run.rest first) second) third) fourth)
      fifth

caller-inside : both_wait.pool.caller ≡ awaiting
unfolding awake doze Waking.published notify_all start start_workers publish call_first step_of
    add64 sub64
caller-inside = refl

Run-moves_example : (t : Sleeping ℕ) × Move both_wait t
Run-moves_example =
    Run-moves throws_late 1 (omega arith) run_both_wait λ e. let at = caller-inside in absurd cc
