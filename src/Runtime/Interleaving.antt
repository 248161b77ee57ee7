-- ===== src/Runtime/Interleaving.antt =====
-- What the consumer of src/runtime.cpp does with the shared objects, and what the worker does in
-- between, as steps of Prefetcher/Steps.antt.
use mem_vanta.Prelude.{
  ℕ, ◌<◌, ◌≡◌, refl, sym, ap, subst, Bool, true, false, Option, none, some, List, [], ◌∷◌, Result,
  ok, err, if◌then◌else◌, get_elem?, erase, ==_refl, u64_mod, ◌+◌,
}
use mem_vanta.TensorCache.{TensorCache, CacheError, Source, get_or_load, dangling}
use mem_vanta.TensorCache
use mem_vanta.TensorCache.Coherence.{Returns, stored}
use mem_vanta.TensorCache.Invariant
use mem_vanta.TensorCache.Loads.{Loaded, Got, get_or_load-Got}
use mem_vanta.TensorStore.{TensorStore, TensorSlice, slice, count}
use mem_vanta.TensorStore.Slices.{slice-below_count}
use mem_vanta.Prefetcher.{
  Worker, idle, ended, inserting, inserted, failing, Prefetcher, RequestError, check_request,
  enqueue, take_next, insert, finish, fail, request_stop, cancel,
}
use mem_vanta.Prefetcher.Steps.{System, consume, start, Step, Steps}
use mem_vanta.Prefetcher.Thread.{worker_step}
use mem_vanta.Prefetcher.Calls.{Steps-Returns}
use mem_vanta.Prefetcher.Accounting.{start-Accounted}
use mem_vanta.Runtime.{bad_slice}
use mem_vanta.Prefetcher.Joining.{
  worker_step-stop, worker_steps-stop, request_stop-stop, worker_steps-ended,
}
use mem_vanta.Runtime.Shared.{
  bytes_in, bytes_of, locked, checked, after_check, enqueued, after_enqueue, loaded, after_load,
  rethrown, after_run, at, load, rethrow_if_failed, advise, worker_runs,
}
use mem_vanta.Runtime.Triples.{
  Ends, Triple, IsStable, is_defined, pure-Triple, bind-Triple, lift-Triple, locked-Triple,
  worker_steps-IsStable,
}

module _ {bytes_of : ℕ → Source} {bytes_in : ℕ → ℕ} {count : ℕ} where
  pub Steps-snoc :
      {s t u : System}
      → Steps bytes_of bytes_in count s t
      → Step bytes_of bytes_in count t u
      → Steps bytes_of bytes_in count s u
  Steps-snoc Steps.done last = Steps.more last Steps.done
  Steps-snoc (Steps.more first rest) last = Steps.more first (Steps-snoc rest last)

module _ (store : TensorStore) (mapped : ℕ → ℕ) (cap : ℕ) where
  -- Steps from a fresh prefetcher lead here, with requests in flight.
  abbrev pub Reached : List ℕ → Prefetcher → Type 0
  Reached asked s =
      Steps (bytes_of store mapped) (bytes_in store mapped) (count store)
        (start (TensorCache.init cap)) (record { shared = s; asked = asked })

  pub Reached-IsStable : (asked : List ℕ) → IsStable store mapped (λ s. Reached asked s)
  unfolding worker_step
  Reached-IsStable asked s reached = at s.worker refl
    where
      next :
          (o : Option Prefetcher)
          → take_next s ≡ o
          → s.worker ≡ idle
          → Reached asked (elim o [ none ↦ s | some p ↦ p ])
      next none e w = reached
      next (some p) e w = Steps-snoc reached (Step.takes p w e)

      at :
          (w : Worker)
          → s.worker ≡ w
          → Reached asked (elim w [
            | idle ↦ elim (take_next s) [ none ↦ s | some p ↦ p ]
            | ended ↦ s
            | inserting id ↦ insert s id (bytes_of store mapped id) (bytes_in store mapped id)
            | inserted id ↦ finish s id
            | failing id e ↦ fail s e
          ])
      at idle e = next (take_next s) refl e
      at ended e = reached
      at (inserting id) e = Steps-snoc reached (Step.inserts id e)
      at (inserted id) e = Steps-snoc reached (Step.finishes id e)
      at (failing id x) e = Steps-snoc reached (Step.fails id x e)

  module _ (pace : ℕ → ℕ) where
    pub check_request-Triple :
        (id : ℕ)
        → Triple
            (Reached [])
            (locked store mapped pace (checked store mapped id))
            (λ goes_on. Reached (if goes_on then id ∷ [] else []))
    unfolding checked is_defined
    check_request-Triple id =
        locked-Triple store mapped pace (Reached-IsStable []) (checked store mapped id)
          λ s r. ends s r (check_request (count store) s id) refl
      where
        ends :
            (s : Prefetcher)
            → Reached [] s
            → (c : Result RequestError Bool) → check_request (count store) s id ≡ c
            → Ends
                (λ goes_on. Reached (if goes_on then id ∷ [] else []))
                (after_check store mapped s c).0
                (after_check store mapped s c).1
        ends s r (err e) h = refl
        ends s r (ok true) h = Steps-snoc r (Step.asks id h)
        ends s r (ok false) h = r

    pub enqueue-Triple :
        (id bytes : ℕ)
        → bytes ≡ bytes_in store mapped id
        → Triple
            (Reached (id ∷ []))
            (locked store mapped pace (enqueued store mapped id bytes))
            (λ done. Reached [])
    unfolding enqueued is_defined
    enqueue-Triple id bytes size =
        locked-Triple store mapped pace (Reached-IsStable (id ∷ []))
          (enqueued store mapped id bytes)
          λ s r. ends s r (enqueue s id bytes) (ap (enqueue s id) (sym size))
      where
        none_left : erase id (id ∷ []) ≡ []
        none_left = rw (==_refl id) refl

        ends :
            (s : Prefetcher)
            → Reached (id ∷ []) s
            → (c : Result RequestError Prefetcher) → enqueue s id (bytes_in store mapped id) ≡ c
            → Ends
                (λ done. Reached [])
                (after_enqueue store mapped s c).0
                (after_enqueue store mapped s c).1
        ends s r (err e) h = refl
        ends s r (ok p) h =
            subst (λ asked. Reached asked p) none_left
              (Steps-snoc r (Step.enqueues id p (rw (==_refl id) refl) h))

    -- A slice below the count is there.
    pub at-Triple :
        {P : Prefetcher → Type 0} (id : ℕ)
        → id < count store
        → Triple P (at store mapped pace id) (λ s p. P p × (get_elem? store.slices id ≡ some s))
    unfolding at
    at-Triple id h =
        let (s, found, there) = slice-below_count store id h in
        lift-Triple bad_slice (slice store id) (λ p r a e. (r, cc)) λ e thrown. cc

    pub advise-Triple :
        {P : Prefetcher → Type 0} (id : ℕ)
        → id < count store
        → Triple P (advise store mapped pace id) (λ done. P)
    unfolding advise
    advise-Triple id h = bind-Triple (at-Triple id h) λ s. pure-Triple tt λ p r. r.0

    pub bytes_in_lem :
        (id : ℕ) (s : TensorSlice)
        → get_elem? store.slices id ≡ some s
        → s.bytes ≡ bytes_in store mapped id
    unfolding bytes_in
    bytes_in_lem id s e = rw e refl

    pub bytes_of_lem :
        (id : ℕ) (s : TensorSlice)
        → get_elem? store.slices id ≡ some s
        → bytes_of store mapped id ≡ some (λ j. mapped (s.offset + j))
    unfolding bytes_of
    bytes_of_lem id s e = rw e refl

    pub load-Triple :
        (id bytes : ℕ)
        → cap < u64_mod
        → bytes ≡ bytes_in store mapped id
        → Triple (Reached []) (load store mapped pace id bytes) (λ buffer p.
          Reached [] p × (buffer ≡ stored (bytes_of store mapped) (bytes_in store mapped) id))
    unfolding load loaded is_defined consume
    load-Triple id bytes word size =
        locked-Triple store mapped pace (Reached-IsStable []) (loaded store mapped id bytes) λ s r.
          let ends =
            Steps-Returns (bytes_of store mapped) (bytes_in store mapped) (count store) cap id word
              r in
          subst
            (λ n.
              Ends Q (record s { cache = (get_or_load s.cache id (bytes_of store mapped id) n).0 })
                (after_load store mapped (get_or_load s.cache id (bytes_of store mapped id) n).1))
            (sym size)
            (after s (get_or_load s.cache id (bytes_of store mapped id) (bytes_in store mapped id))
              (Steps-snoc r (Step.consumes id)) ends (get_or_load-Got id _ _ (Reached-Inv r)))
      where
        Q : List ℕ → Prefetcher → Type 0
        Q buffer p =
            Reached [] p × (buffer ≡ stored (bytes_of store mapped) (bytes_in store mapped) id)

        Reached-Inv : {s : Prefetcher} → Reached [] s → Invariant.Inv s.cache
        Reached-Inv r =
            let v =
              start-Accounted (bytes_of store mapped) (bytes_in store mapped) (count store) _
                (Invariant.init-Inv cap word) r in
            v.cached

        after :
            (s : Prefetcher) (c : TensorCache × Result CacheError (List ℕ))
            → Reached [] (record s { cache = c.0 })
            → Returns (bytes_of store mapped) (bytes_in store mapped) id c.1
            → Got s.cache id (bytes_of store mapped id) (bytes_in store mapped id) c
            → Ends Q (record s { cache = c.0 }) (after_load store mapped c.1)
        after s c r e (Got.misses missing (Loaded.too_large _)) = refl
        after s c r e (Got.misses missing (Loaded.null _ _ _)) = refl
        after s c r e (Got.misses missing (Loaded.loads _ _)) = (r, e)
        after s c r e (Got.hits _ _) = (r, e)

    -- Once the stop is asked for.
    abbrev pub Stopping : Prefetcher → Type 0
    Stopping s = Reached [] s × (s.stop ≡ true)

    pub Stopping-IsStable : IsStable store mapped Stopping
    Stopping-IsStable s p = (
      Reached-IsStable [] s p.0,
      worker_step-stop (bytes_of store mapped) (bytes_in store mapped) s p.1,
    )

    pub request_stop-Triple :
        Triple
          (Reached [])
          (locked store mapped pace (λ s. (request_stop s, ok tt)))
          (λ (done : Unit {0}). Stopping)
    request_stop-Triple =
        locked-Triple store mapped pace (Reached-IsStable []) (λ s. (request_stop s, ok tt))
          λ s r. (
            Steps-snoc r Step.stops,
            request_stop-stop (bytes_of store mapped) (bytes_in store mapped) s,
          )

    -- The join has ended, so what is left may be cancelled.
    pub cancel-Triple :
        Triple Stopping
          (locked store mapped pace (λ s. (cancel (worker_runs store mapped 3 s), ok tt)))
          (λ (done : Unit {0}). Reached [])
    cancel-Triple =
        locked-Triple store mapped pace Stopping-IsStable
          (λ s. (cancel (worker_runs store mapped 3 s), ok tt))
          λ s p. Steps-snoc (worker_steps-IsStable store mapped 3 s (Reached-IsStable []) p.0) (
            Step.cancels (worker_steps-stop (bytes_of store mapped) (bytes_in store mapped) 3 s p.1)
              (worker_steps-ended (bytes_of store mapped) (bytes_in store mapped) s p.1))

    pub rethrow_if_failed-Triple :
        Triple (Reached []) (rethrow_if_failed store mapped pace) (λ done. Reached [])
    unfolding rethrow_if_failed rethrown is_defined
    rethrow_if_failed-Triple =
        locked-Triple store mapped pace (Reached-IsStable []) (rethrown store mapped)
          λ s r. ends s r s.error
      where
        ends :
            (s : Prefetcher)
            → Reached [] s
            → (e : Option CacheError)
            → Ends
                (λ done. Reached [])
                (after_run store mapped s e).0
                (after_run store mapped s e).1
        ends s r none = r
        ends s r (some e) = refl
