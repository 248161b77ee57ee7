-- ===== src/WorkerPool/Protocol.antt =====
-- src/worker_pool.cpp: the hand-over of a generation of work, one locked section or one call of the
-- loop's function at a time. `call_mu_` lets one caller in. A wait is a section that runs when its
-- test holds; WorkerPool/Waking.antt has the sleep and the notices.
use mem_vanta.Prelude.{
  ℕ, zero, suc, ◌≡◌, Bool, true, false, Option, none, some, List, [], ◌∷◌, ◌++◌, ltb, ◌==◌,
  if◌then◌else◌, add64, sub32, min,
}
use mem_vanta.WorkerPool.{step_of, start_of, end_of}

-- What a call of the loop's function on a range throws, if it throws.
abbrev pub Fn : Type 0 → Type 0
Fn E = ℕ → ℕ → Option E

-- Where a worker is in its loop: in the wait, returned, past the wait with what it copied there,
-- in the handler of an exception, or past its call, with the generation of the work.
pub data Place (E : Type 0) : Type 0 where
  waiting returned : Place E
  running : Fn E → ℕ → ℕ → Place E
  called : E → ℕ → Place E
  done : ℕ → Place E

pub record Thread (E : Type 0) : Type 0 where
  pub tid : ℕ
  pub seen : ℕ
  pub place : Place E

-- Where the caller is in `parallel_for`.
pub data Caller (E : Type 0) : Type 0 where
  outside working awaiting : Caller E
  failing : E → Caller E

-- `calls` is what the function was called on for this generation, the last call first: it is in no
-- variable of the program.
pub record Pool (E : Type 0) : Type 0 where
  pub threads : ℕ
  pub stop : Bool
  pub generation : ℕ
  pub fn : Fn E
  pub n : ℕ
  pub finished : ℕ
  pub error : Option E
  pub workers : List (Thread E)
  pub caller : Caller E
  pub calls : List (ℕ × ℕ)

module _ {E : Type 0} where
  abbrev pub is_some : Option E → Bool
  is_some none = false
  is_some (some e) = true

  -- `if (!error_) error_ = std::current_exception();`
  abbrev pub keep_first : Option E → E → Option E
  keep_first none e = some e
  keep_first (some first) e = some first

  abbrev pub after_call : Option E → ℕ → Place E
  after_call none g = done g
  after_call (some e) g = called e g

  -- A worker's call of its range, which may be empty.
  unfoldable pub call_range : Pool E → Thread E → Fn E → ℕ → ℕ → Pool E × Thread E
  call_range s t f n g =
      let a = start_of n s.threads t.tid in
      let b = end_of n s.threads t.tid in
      if ltb a b
      then (record s { calls = (a, b) ∷ s.calls }, record t { place = after_call (f a b) g })
      else (s, record t { place = done g })

  -- The next section of a worker, by its place.
  unfoldable pub advance_at : Pool E → Thread E → Place E → Option (Pool E × Thread E)
  unfolding call_range
  advance_at s t waiting =
      if s.stop
      then some (s, record t { place = returned })
      else if s.generation == t.seen
      then none
      else some (s, record t { seen = s.generation; place = running s.fn s.n s.generation })
  advance_at s t returned = none
  advance_at s t (running f n g) = some (call_range s t f n g)
  advance_at s t (called e g) = some (
    record s { error = if g == s.generation then keep_first s.error e else s.error },
    record t { place = done g },
  )
  advance_at s t (done g) = some (
    record s { finished = if g == s.generation then add64 s.finished 1 else s.finished },
    record t { place = waiting },
  )

  unfoldable pub advance : Pool E → Thread E → Option (Pool E × Thread E)
  advance s t = advance_at s t t.place

  abbrev pub after_own : Option E → Caller E
  after_own none = awaiting
  after_own (some e) = failing e

  -- The caller's own call, of the first range.
  unfoldable pub call_first : Pool E → Pool E
  call_first s =
      let b = min s.n (step_of s.n s.threads) in
      if b == 0
      then record s { caller = awaiting }
      else record s { calls = (0, b) ∷ s.calls; caller = after_own (s.fn 0 b) }

  -- The next section of the caller, by its place, up to its return.
  unfoldable pub proceed_at : Pool E → Caller E → Option (Pool E)
  proceed_at s outside = none
  proceed_at s working = some (call_first s)
  proceed_at s (failing e) = some (record s { error = keep_first s.error e; caller = awaiting })
  proceed_at s awaiting =
      if s.finished == sub32 s.threads 1 then some (record s { caller = outside }) else none

  unfoldable pub proceed : Pool E → Option (Pool E)
  proceed s = proceed_at s s.caller

  -- The first section of `parallel_for`, past its early returns.
  unfoldable pub publish : Pool E → ℕ → Fn E → Pool E
  publish s n fn = record s {
    fn = fn;
    n = n;
    finished = 0;
    error = none;
    generation = add64 s.generation 1;
    caller = working;
    calls = [];
  }

  -- The section of the destructor.
  unfoldable pub shut_down : Pool E → Pool E
  shut_down s = record s { stop = true; generation = add64 s.generation 1 }

  -- The workers that the constructor starts: those from `tid` on.
  unfoldable pub start_workers : ℕ → ℕ → List (Thread E)
  start_workers tid zero = []
  start_workers tid (suc count) =
      record { tid = tid; seen = 0; place = waiting } ∷ start_workers (suc tid) count

  -- WorkerPool(threads), of one thread more than there are workers.
  unfoldable pub start : Fn E → ℕ → Pool E
  start fn count = record {
    threads = suc count;
    stop = false;
    generation = 0;
    fn = fn;
    n = 0;
    finished = 0;
    error = none;
    workers = start_workers 1 count;
    caller = outside;
    calls = [];
  }

  -- A caller that takes the early returns touches none of this.
  pub data Step (s : Pool E) : Pool E → Type 0 where
    publishes :
        (n : ℕ) (fn : Fn E)
        → s.caller ≡ outside
        → s.stop ≡ false
        → (n == 0) ≡ false
        → ltb 1 s.threads ≡ true
        → Step s (publish s n fn)
    proceeds : (t : Pool E) → proceed s ≡ some t → Step s t
    advances :
        (xs ys : List (Thread E)) (w w' : Thread E) (t : Pool E)
        → s.workers ≡ xs ++ w ∷ ys
        → advance s w ≡ some (t, w')
        → Step s (record t { workers = xs ++ w' ∷ ys })
    shuts_down : s.caller ≡ outside → Step s (shut_down s)

  pub data Steps : Pool E → Pool E → Type 0 where
    rest : {s : Pool E} → Steps s s
    more : {s t u : Pool E} → Step s t → Steps t u → Steps s u
