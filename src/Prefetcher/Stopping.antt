-- ===== src/Prefetcher/Stopping.antt =====
-- The end of a prefetcher: once it was cancelled, or its worker failed, nothing is pending again.
use mem_vanta.Prelude.{ℕ, ◌≡◌, refl, subst, true, ◌||◌, [], Result, ok, if-cases, ok-injective}
use mem_vanta.Prelude.Dict.{contains}
use mem_vanta.TensorCache.{CacheError, Source}
use mem_vanta.Prefetcher.{ended, Prefetcher, RequestError, enqueue, fail, request_stop, cancel}
use mem_vanta.Prefetcher.Steps.{System, consume, Step, Steps}

-- The worker has returned, and nothing is queued or pending.
pub record Quiet (s : Prefetcher) : Type 0 where
  pub stopped : s.stop ≡ true
  pub returned : s.worker ≡ ended
  pub no_queue : s.queue ≡ []
  pub no_pending : s.pending ≡ []
  pub no_bytes : s.pending_bytes ≡ 0

-- Whatever the state, the worker's handler of exceptions ends quietly.
fail-Quiet : (s : Prefetcher) (e : CacheError) → Quiet (fail s e)
unfolding fail
fail-Quiet s e = record {
  stopped = refl;
  returned = refl;
  no_queue = refl;
  no_pending = refl;
  no_bytes = refl;
}

cancel-Quiet : (s : Prefetcher) → s.stop ≡ true → s.worker ≡ ended → Quiet (cancel s)
unfolding cancel
cancel-Quiet s h k = record {
  stopped = h;
  returned = k;
  no_queue = refl;
  no_pending = refl;
  no_bytes = refl;
}

enqueue-Quiet : {s p : Prefetcher} (id bytes : ℕ) → Quiet s → enqueue s id bytes ≡ ok p → Quiet p
unfolding enqueue
enqueue-Quiet {s} {p} id bytes v =
    if-cases P (s.stop || contains id s.pending) _ _ (λ _ e. subst Quiet (ok-injective e) v)
      λ live. absurd (cc (v.stopped))
  where
    P : Result RequestError Prefetcher → Type 0
    P r = r ≡ ok p → Quiet p

module _ (bytes_of : ℕ → Source) (bytes_in : ℕ → ℕ) (count : ℕ) where
  Step-Quiet : {s t : System} → Step bytes_of bytes_in count s t → Quiet s.shared → Quiet t.shared
  Step-Quiet (Step.asks id _) v = v
  Step-Quiet (Step.enqueues id p _ e) v = enqueue-Quiet id (bytes_in id) v e
  Step-Quiet (Step.refuses id _ _ _) v = v
  Step-Quiet (Step.takes p at e) v = absurd (cc v.returned)
  Step-Quiet (Step.inserts id at) v = absurd (cc v.returned)
  Step-Quiet (Step.finishes id at) v = absurd (cc v.returned)
  Step-Quiet {s} (Step.fails id e _) v = fail-Quiet s.shared e
  Step-Quiet (Step.consumes id) v =
      unfold consume in
      record {
        stopped = v.stopped;
        returned = v.returned;
        no_queue = v.no_queue;
        no_pending = v.no_pending;
        no_bytes = v.no_bytes;
      }
  Step-Quiet Step.stops v =
      unfold request_stop in
      record {
        stopped = refl;
        returned = v.returned;
        no_queue = v.no_queue;
        no_pending = v.no_pending;
        no_bytes = v.no_bytes;
      }
  Step-Quiet {s} (Step.cancels h k) v = cancel-Quiet s.shared h k

  Steps-Quiet : {s t : System} → Steps bytes_of bytes_in count s t → Quiet s.shared → Quiet t.shared
  Steps-Quiet Steps.done v = v
  Steps-Quiet (Steps.more first rest) v = Steps-Quiet rest (Step-Quiet first v)

  -- Once a stopping thread has cancelled what was queued, after the worker returned, nothing is
  -- queued or pending after any further steps, also of requests that were in flight.
  pub cancel-Steps :
      (s : System) {t : System}
      → s.shared.stop ≡ true
      → s.shared.worker ≡ ended
      → Steps bytes_of bytes_in count (record s { shared = cancel s.shared }) t
      → Quiet t.shared
  cancel-Steps s h k steps = Steps-Quiet steps (cancel-Quiet s.shared h k)

  -- Once the worker's handler of exceptions has run, whatever the state before, the prefetcher is
  -- stopped and nothing is queued or pending after any further steps.
  pub fail-Steps :
      (s : System) {t : System} (e : CacheError)
      → Steps bytes_of bytes_in count (record s { shared = fail s.shared e }) t
      → Quiet t.shared
  fail-Steps s e steps = Steps-Quiet steps (fail-Quiet s.shared e)
