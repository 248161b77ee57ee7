-- ===== src/Runtime/Budget.antt =====
-- src/runtime.cpp: the calls of Runtime/Interleaving.antt, with the bytes that the look-ahead has
-- reserved: the prefetcher never has more pending than these.
use mem_vanta.Prelude.{
  ℕ, ◌+◌, ◌≤◌, ◌<◌, ◌≡◌, refl, sym, ◌∙◌, Bool, true, false, List, [], ◌∷◌, Option, none, some,
  Result, ok, err, arith, if◌then◌else◌, add64, add64-lt, sub64, u64_mod, subst,
}
use mem_vanta.TensorCache
use mem_vanta.TensorCache.{CacheError}
use mem_vanta.Prefetcher
use mem_vanta.Prefetcher.Steps.{Steps}
use mem_vanta.TensorCache.Invariant
use mem_vanta.TensorCache.Coherence.{stored}
use mem_vanta.TensorStore.{TensorStore, count}
use mem_vanta.Prefetcher.{Prefetcher, RequestError, check_request, enqueue, request_stop, cancel}
use mem_vanta.Prefetcher.Accounting.{Accounted, start-Accounted}
use mem_vanta.Prefetcher.Peaks.{
  init-peak, request_stop-peak, cancel-peak, worker_step-Shrinks, enqueue-peak,
}
use mem_vanta.Runtime.Shared.{
  bytes_in, bytes_of, locked, checked, after_check, enqueued, after_enqueue, loaded, rethrown,
  after_run, at, request, load, stop, rethrow_if_failed, pure, ◌>>=◌, worker_runs,
}
use mem_vanta.Runtime.Triples.{
  Triple, IsStable, pure-Triple, bind-Triple, given-Triple, locked-and, relax,
  worker_steps-IsStable,
}
use mem_vanta.Runtime.Interleaving.{
  Reached, Reached-IsStable, at-Triple, check_request-Triple, enqueue-Triple, load-Triple,
  rethrow_if_failed-Triple, Stopping, Stopping-IsStable, request_stop-Triple, cancel-Triple,
  bytes_in_lem,
}
use mem_vanta.Runtime.Statistics.{over_budget, saturate}

-- What fits the budget does not exceed it, and is counted.
pub fits_lem :
    (limit reserved bytes n : ℕ)
    → limit < u64_mod
    → reserved < u64_mod
    → over_budget limit reserved bytes ≡ false
    → n ≤ reserved + bytes
    → n < u64_mod
    → (n ≤ saturate reserved bytes) × (n ≤ limit)
unfolding add64 sub64
fits_lem limit reserved bytes n word small fits below low = ground arith

pub saturate-lt : (reserved bytes : ℕ) → saturate reserved bytes < u64_mod
saturate-lt reserved bytes = ground (arith, add64-lt reserved bytes)

module _ (store : TensorStore) (mapped : ℕ → ℕ) (cap : ℕ) (word : cap < u64_mod) (limit : ℕ)
    (copies : Bool) where
  abbrev Capped : Prefetcher → Type 0
  Capped s = s.peak_pending_bytes ≤ limit

  -- Between two items.
  unfoldable pub Good : Prefetcher → Type 0
  Good s = Reached store mapped cap [] s × Capped s

  Below : ℕ → Prefetcher → Type 0
  Below r s = Capped s × (copies ≡ true → (r < u64_mod) × (s.pending_bytes ≤ r))

  Asked : List ℕ → ℕ → Prefetcher → Type 0
  unfolding Below
  Asked asked r s = Reached store mapped cap asked s × Below r s

  -- While the look-ahead has `r` bytes reserved.
  unfoldable pub Held : ℕ → Prefetcher → Type 0
  unfolding Asked
  Held = Asked []

  Reached-Accounted :
      {asked : List ℕ} {s : Prefetcher} → Reached store mapped cap asked s → Accounted s
  Reached-Accounted steps =
      start-Accounted (bytes_of store mapped) (bytes_in store mapped) (count store) _
        (Invariant.init-Inv cap word) steps

  pub Good-IsStable : IsStable store mapped Good
  unfolding Good
  Good-IsStable s (r, h) =
      let (less, same) =
        worker_step-Shrinks (bytes_of store mapped) (bytes_in store mapped) s
          (Reached-Accounted r) in
      (Reached-IsStable store mapped cap [] s r, omega (arith, same, h))

  Asked-IsStable : (asked : List ℕ) (r : ℕ) → IsStable store mapped (Asked asked r)
  unfolding Asked Below
  Asked-IsStable asked r s (reached, (h, below)) =
      let (less, same) =
        worker_step-Shrinks (bytes_of store mapped) (bytes_in store mapped) s
          (Reached-Accounted reached) in
      (
        Reached-IsStable store mapped cap asked s reached,
        (omega (arith, same, h), λ c. ((below c).0, omega (arith, less, (below c).1))),
      )

  pub Held-IsStable : (r : ℕ) → IsStable store mapped (Held r)
  unfolding Held
  Held-IsStable r = Asked-IsStable [] r

  pub Good-peak : (s : Prefetcher) → Good s → s.peak_pending_bytes ≤ limit
  unfolding Good
  Good-peak s h = h.1

  pub Held-word : {r : ℕ} (s : Prefetcher) → copies ≡ true → Held r s → r < u64_mod
  unfolding Held Asked Below
  Held-word s c h = (h.1.1 c).0

  pub Held-Good : (r : ℕ) (s : Prefetcher) → Held r s → Good s
  unfolding Held Good Asked Below
  Held-Good r s h = (h.0, h.1.0)

  -- The pending bytes are what is reserved at first.
  pub Good-Held : (s : Prefetcher) → Good s → Held s.pending_bytes s
  unfolding Held Good Asked Below
  Good-Held s h = (h.0, (h.1, λ c. ((Reached-Accounted h.0).word, omega arith)))

  -- Without a cache any number may be reserved.
  pub Good-Held_mapped : (r : ℕ) (s : Prefetcher) → copies ≡ false → Good s → Held r s
  unfolding Held Good Asked Below
  Good-Held_mapped r s maps h = (h.0, (h.1, λ c. absurd cc))

  pub init-Good : Good (Prefetcher.init (TensorCache.init cap))
  unfolding Good
  init-Good = (Steps.done, omega (arith, init-peak (TensorCache.init cap)))

  module _ (pace : ℕ → ℕ) where
    pub load-Good :
        (id bytes : ℕ)
        → bytes ≡ bytes_in store mapped id
        → Triple Good (load store mapped pace id bytes) (λ buffer s.
          Good s × (buffer ≡ stored (bytes_of store mapped) (bytes_in store mapped) id))
    unfolding load Good loaded
    load-Good id bytes size =
        relax
          (locked-and store mapped pace Good-IsStable (loaded store mapped id bytes)
            (load-Triple store mapped cap pace id bytes word size) (λ s h. h.0) λ s h. h.1)
          λ buffer s h. ((h.0.0, h.1), h.0.1)

    pub rethrow_if_failed-Good : Triple Good (rethrow_if_failed store mapped pace) (λ done. Good)
    unfolding rethrow_if_failed rethrown Good
    rethrow_if_failed-Good =
        locked-and store mapped pace Good-IsStable (rethrown store mapped)
          (rethrow_if_failed-Triple store mapped cap pace) (λ s h. h.0) λ s h. same s s.error h.1
      where
        same :
            (s : Prefetcher) (e : Option CacheError)
            → Capped s
            → Capped (after_run store mapped s e).0
        same s none h = h
        same s (some e) h = h

    abbrev Halting : Prefetcher → Type 0
    Halting s = Stopping store mapped cap pace s × Capped s

    Halting-IsStable : IsStable store mapped Halting
    unfolding Good
    Halting-IsStable s h =
        (Stopping-IsStable store mapped cap pace s h.0, (Good-IsStable s (h.0.0, h.1)).1)

    cancelled-peak : (s : Prefetcher) → Halting s → Capped (cancel (worker_runs store mapped 3 s))
    unfolding Good
    cancelled-peak s h =
        let kept = (worker_steps-IsStable store mapped 3 s Good-IsStable (h.0.0, h.1)).1 in
        omega (arith, kept, cancel-peak (worker_runs store mapped 3 s))

    pub stop-Good : Triple Good (stop store mapped pace) (λ done. Good)
    unfolding stop Good
    stop-Good =
        bind-Triple
          (locked-and store mapped pace Good-IsStable {R = Capped} (λ s. (request_stop s, ok tt))
            (request_stop-Triple store mapped cap pace) (λ s h. h.0)
            λ s h. omega (arith, h.1, request_stop-peak s))
          λ done.
            locked-and store mapped pace Halting-IsStable
              (λ s. (cancel (worker_runs store mapped 3 s), ok tt))
              (cancel-Triple store mapped cap pace) (λ s h. h.0) cancelled-peak

    -- What the reservation grows to covers what is pending after the request.
    abbrev Covers : ℕ → ℕ → ℕ → Type 0
    Covers r bytes r' = (n : ℕ) → n ≤ r + bytes → n < u64_mod → (n ≤ r') × (n ≤ limit)

    module _ (copying : copies ≡ true) (r bytes r' : ℕ) (small : r' < u64_mod)
        (covers : Covers r bytes r') where
      Below-grows : (s : Prefetcher) → Accounted s → Below r s → Below r' s
      unfolding Below
      Below-grows s v (h, below) =
          (h, λ c. (small, (covers s.pending_bytes (omega (arith, (below c).1)) v.word).0))

      enqueued-Below :
          (id : ℕ) (s : Prefetcher)
          → Asked (id ∷ []) r s
          → Below r' (enqueued store mapped id bytes s).0
      unfolding Asked enqueued
      enqueued-Below id s (reached, h) = go (enqueue s id bytes) refl
        where
          go :
              (c : Result RequestError Prefetcher)
              → enqueue s id bytes ≡ c
              → Below r' (after_enqueue store mapped s c).0
          go (err e) ran = Below-grows s (Reached-Accounted reached) h
          go (ok p) ran =
              let (grown, p_word, peak) =
                enqueue-peak s id bytes (Reached-Accounted reached).word ran in
              let (fits, within) =
                covers p.pending_bytes (omega (arith, grown, (h.1 copying).1)) p_word in
              (omega (arith, peak, within, h.0), λ c. (small, fits))

      pub request-Held :
          (id : ℕ)
          → id < count store
          → bytes ≡ bytes_in store mapped id
          → Triple (Held r) (request store mapped pace id) (λ done. Held r')
      unfolding request Held
      request-Held id below size =
          bind-Triple
            (locked-and store mapped pace (Asked-IsStable [] r) {R = Below r}
              (checked store mapped id) (check_request-Triple store mapped cap pace id) (λ s h. h.0)
              λ s h. same s (check_request (count store) s id) h.1)
            go
        where
          same :
              (s : Prefetcher) (c : Result RequestError Bool)
              → Below r s
              → Below r (after_check store mapped s c).0
          same s (err e) h = h
          same s (ok b) h = h

          go :
              (goes_on : Bool)
              → Triple
                  (λ s. Reached store mapped cap (if goes_on then id ∷ [] else []) s × Below r s)
                  (if goes_on
                    then (at store mapped pace id >>= λ s.
                        locked store mapped pace (enqueued store mapped id s.bytes))
                    else pure tt)
                  (λ (done : Unit {0}). Asked [] r')
          go false = pure-Triple tt λ s h. (h.0, Below-grows s (Reached-Accounted h.0) h.1)
          go true = bind-Triple (at-Triple store mapped cap pace id below) λ t.
              given-Triple λ found.
                let same_size = bytes_in_lem store mapped cap pace id t found in
                unfold Asked in
                locked-and store mapped pace (Asked-IsStable (id ∷ []) r)
                  (enqueued store mapped id t.bytes)
                  (enqueue-Triple store mapped cap pace id t.bytes same_size) (λ s h. h.0)
                  λ s h.
                    subst (λ b. Below r' (enqueued store mapped id b s).0) (size ∙ sym same_size)
                      (enqueued-Below id s h)
