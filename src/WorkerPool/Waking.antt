-- ===== src/WorkerPool/Waking.antt =====
-- src/worker_pool.cpp: the sections of WorkerPool/Protocol.antt with the two condition variables,
-- on which threads fall asleep and are notified: the workers on `cv_`, the caller on `done_`.
use mem_vanta.Prelude.{
  ℕ, ◌≡◌, Bool, true, false, ◌&&◌, none, some, List, ◌∷◌, ◌++◌, ltb, ◌==◌, if◌then◌else◌, length,
  add64, sub32,
}
use mem_vanta.WorkerPool.Protocol.{
  Fn, Place, waiting, returned, running, called, done, Thread, outside, awaiting, Pool, advance,
  proceed, publish, shut_down, start,
}

-- Which workers sleep on `cv_`, by their index in `workers`, whether the caller sleeps on `done_`,
-- and whether a thread has left its section and is about to call `cv_.notify_all`.
pub record Sleeping (E : Type 0) : Type 0 where
  pub pool : Pool E
  pub dozes : ℕ → Bool
  pub caller_dozes : Bool
  pub notice_due : Bool

module _ {E : Type 0} where
  -- `g == generation_ && ++finished_ == threads_ - 1` of a worker that is past its call, with the
  -- count from before.
  unfoldable pub is_last : Pool E → Place E → Bool
  is_last s (done g) = (g == s.generation) && (add64 s.finished 1 == sub32 s.threads 1)
  is_last s waiting = false
  is_last s returned = false
  is_last s (running f n g) = false
  is_last s (called e g) = false

  -- A worker's section, which calls `done_.notify_one` if it is the last.
  unfoldable pub advanced : Sleeping E → Thread E → Pool E → Sleeping E
  unfolding is_last
  advanced s w t = record s {
    pool = t;
    caller_dozes = if is_last s.pool w.place then false else s.caller_dozes;
  }

  unfoldable pub published : Sleeping E → ℕ → Fn E → Sleeping E
  published s n fn = record s { pool = publish s.pool n fn; notice_due = true }

  unfoldable pub shutting_down : Sleeping E → Sleeping E
  shutting_down s = record s { pool = shut_down s.pool; notice_due = true }

  -- `cv_.notify_all()`
  unfoldable pub notify_all : Sleeping E → Sleeping E
  notify_all s = record s { dozes = λ k. false; notice_due = false }

  unfoldable pub doze : Sleeping E → ℕ → Bool → Sleeping E
  doze s k b = record s { dozes = λ j. if j == k then b else s.dozes j }

  unfoldable pub awake : Fn E → ℕ → Sleeping E
  awake fn count = record {
    pool = start fn count;
    dozes = λ k. false;
    caller_dozes = false;
    notice_due = false;
  }

  -- What a thread does that is awake: a section, or the call of `notify_all` that follows it.
  pub data Move (s : Sleeping E) : Sleeping E → Type 0 where
    publishes :
        (n : ℕ) (fn : Fn E)
        → s.pool.caller ≡ outside
        → s.pool.stop ≡ false
        → (n == 0) ≡ false
        → ltb 1 s.pool.threads ≡ true
        → Move s (published s n fn)
    shuts_down : s.pool.caller ≡ outside → Move s (shutting_down s)
    notifies : s.notice_due ≡ true → Move s (notify_all s)
    proceeds :
        (t : Pool E)
        → s.notice_due ≡ false
        → s.caller_dozes ≡ false
        → proceed s.pool ≡ some t
        → Move s (record s { pool = t })
    advances :
        (xs ys : List (Thread E)) (w w' : Thread E) (t : Pool E)
        → s.dozes (length xs) ≡ false
        → s.pool.workers ≡ xs ++ w ∷ ys
        → advance s.pool w ≡ some (t, w')
        → Move s (advanced s w (record t { workers = xs ++ w' ∷ ys }))

  -- A thread falls asleep where the test of its wait fails, and may wake up without a notice.
  pub data Drift (s : Sleeping E) : Sleeping E → Type 0 where
    dozes_off :
        (xs ys : List (Thread E)) (w : Thread E)
        → s.pool.workers ≡ xs ++ w ∷ ys
        → w.place ≡ waiting
        → advance s.pool w ≡ none
        → Drift s (doze s (length xs) true)
    wakes : (k : ℕ) → Drift s (doze s k false)
    caller_dozes_off :
        s.notice_due ≡ false
        → s.pool.caller ≡ awaiting
        → proceed s.pool ≡ none
        → Drift s (record s { caller_dozes = true })
    caller_wakes : Drift s (record s { caller_dozes = false })

  pub data Run : Sleeping E → Sleeping E → Type 0 where
    rest : {s : Sleeping E} → Run s s
    moved : {s t u : Sleeping E} → Run s t → Move t u → Run s u
    drifted : {s t u : Sleeping E} → Run s t → Drift t u → Run s u
