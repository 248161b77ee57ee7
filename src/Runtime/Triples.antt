-- ===== src/Runtime/Triples.antt =====
-- A logic for code on the shared objects: from a prefetcher with one property, a run that returns
-- leaves one with another, and a run that throws does not throw for undefined behaviour.
use mem_vanta.Prelude.{ℕ, zero, suc, ◌≡◌, refl, Bool, true, false, Result, ok, err}
use mem_vanta.TensorCache.{dangling, larger_than_capacity, too_large_for_address_space, null_source}
use mem_vanta.TensorStore.{TensorStore}
use mem_vanta.Prefetcher.{Prefetcher}
use mem_vanta.Prefetcher.Thread.{worker_step, worker_steps}
use mem_vanta.Runtime.{
  RunError, already_started, unreadable, cache_failed, prefetch_failed, request_failed, bad_slice,
  bad_window,
}
use mem_vanta.Runtime.Shared.{
  World, Run, pure, throw, lift, resume, ◌>>=◌, worker_runs, bytes_of, bytes_in, locked, reads,
}

-- The exceptions that stand for no undefined behaviour, and not for a slice that is not there.
unfoldable pub is_defined : RunError → Bool
is_defined already_started = true
is_defined unreadable = false
is_defined (cache_failed larger_than_capacity) = true
is_defined (cache_failed too_large_for_address_space) = true
is_defined (cache_failed null_source) = true
is_defined (cache_failed dangling) = false
is_defined (prefetch_failed e) = true
is_defined (request_failed e) = true
is_defined (bad_slice e) = false
is_defined (bad_window e) = true

-- What a run ends with.
abbrev pub Ends : {A : Type 0} → (A → Prefetcher → Type 0) → Prefetcher → Result RunError A → Type 0
Ends Q s (ok a) = Q a s
Ends Q s (err e) = is_defined e ≡ true

pub record Triple {A : Type 0} (P : Prefetcher → Type 0) (m : Run A) (Q : A → Prefetcher → Type 0)
    : Type 0 where
  pub apply : (w : World) → P w.shared → Ends Q (m w).0.shared (m w).1

module _ {A : Type 0} {P : Prefetcher → Type 0} where
  pub pure-Triple :
      {Q : A → Prefetcher → Type 0} (a : A) → ((s : Prefetcher) → P s → Q a s) → Triple P (pure a) Q
  unfolding pure
  pure-Triple a h = record { apply = λ w p. h w.shared p }

  pub throw-Triple :
      {Q : A → Prefetcher → Type 0} (e : RunError) → is_defined e ≡ true → Triple P (throw e) Q
  unfolding throw
  throw-Triple e h = record { apply = λ w p. h }

  pub bind-Triple :
      {B : Type 0} {Q : A → Prefetcher → Type 0} {R : B → Prefetcher → Type 0} {m : Run A}
      {k : A → Run B}
      → Triple P m Q
      → ((a : A) → Triple (Q a) (k a) R)
      → Triple P (m >>= k) R
  unfolding ◌>>=◌
  bind-Triple {B} {Q} {R} {m} {k} first next = record {
    apply = λ w p. later (m w).0 (m w).1 (first.apply w p);
  }
    where
      later :
          (after : World) (r : Result RunError A)
          → Ends Q after.shared r
          → Ends R (resume k after r).0.shared (resume k after r).1
      later after (ok a) q = (next a).apply after q
      later after (err e) q = q

  -- A fact that the step before has found.
  pub given-Triple :
      {G : Type 0} {Q : A → Prefetcher → Type 0} {m : Run A}
      → (G → Triple P m Q)
      → Triple (λ s. P s × G) m Q
  given-Triple h = record { apply = λ w p. (h p.1).apply w p.0 }

  -- A fact that the property tells.
  pub fact-Triple :
      {G : Type 0} {Q : A → Prefetcher → Type 0} {m : Run A}
      → ((s : Prefetcher) → P s → G)
      → (G → Triple P m Q)
      → Triple P m Q
  fact-Triple fact h = record { apply = λ w p. (h (fact w.shared p)).apply w p }

  pub lift-Triple :
      {E : Type 0} {Q : A → Prefetcher → Type 0} (wrap : E → RunError) (r : Result E A)
      → ((s : Prefetcher) → P s → (a : A) → r ≡ ok a → Q a s)
      → ((e : E) → r ≡ err e → is_defined (wrap e) ≡ true)
      → Triple P (lift wrap r) Q
  unfolding lift
  lift-Triple wrap (ok a) h k = pure-Triple a λ s p. h s p a refl
  lift-Triple wrap (err e) h k = throw-Triple (wrap e) (k e refl)

-- What a run ends with may be said in a weaker way.
pub relax :
    {A : Type 0} {P : Prefetcher → Type 0} {Q R : A → Prefetcher → Type 0} {m : Run A}
    → Triple P m Q
    → ((a : A) (s : Prefetcher) → Q a s → R a s)
    → Triple P m R
relax {A} {P} {Q} {R} {m} t h = record { apply = λ w p. ends (m w).0.shared (m w).1 (t.apply w p) }
  where
    ends : (s : Prefetcher) (r : Result RunError A) → Ends Q s r → Ends R s r
    ends s (ok a) q = h a s q
    ends s (err e) q = q

module _ (store : TensorStore) (mapped : ℕ → ℕ) where
  -- A property that the worker keeps.
  abbrev pub IsStable : (Prefetcher → Type 0) → Type 0
  IsStable P =
      (s : Prefetcher) → P s → P (worker_step (bytes_of store mapped) (bytes_in store mapped) s)

  pub worker_steps-IsStable :
      {P : Prefetcher → Type 0} (n : ℕ) (s : Prefetcher)
      → IsStable P
      → P s
      → P (worker_runs store mapped n s)
  unfolding worker_steps
  worker_steps-IsStable zero s h p = p
  worker_steps-IsStable (suc n) s h p =
      worker_steps-IsStable n (worker_step (bytes_of store mapped) (bytes_in store mapped) s) h
        (h s p)

  module _ (pace : ℕ → ℕ) {A : Type 0} {P : Prefetcher → Type 0} (stable : IsStable P) where
    pub locked-Triple :
        {Q : A → Prefetcher → Type 0} (section : Prefetcher → Prefetcher × Result RunError A)
        → ((s : Prefetcher) → P s → Ends Q (section s).0 (section s).1)
        → Triple P (locked store mapped pace section) Q
    unfolding locked
    locked-Triple section h = record {
      apply = λ w p. h _ (worker_steps-IsStable (pace w.ticks) w.shared stable p);
    }

    pub reads-Triple :
        {Q : A → Prefetcher → Type 0} (f : Prefetcher → A)
        → ((s : Prefetcher) → P s → Q (f s) s)
        → Triple P (reads store mapped pace f) Q
    unfolding reads
    reads-Triple f h = locked-Triple (λ s. (s, ok (f s))) h

    -- A section that ends as one triple says also ends with what holds of it whether it throws.
    pub locked-and :
        {P' : Prefetcher → Type 0} {Q : A → Prefetcher → Type 0} {R : Prefetcher → Type 0}
        (section : Prefetcher → Prefetcher × Result RunError A)
        → Triple P' (locked store mapped pace section) Q
        → ((s : Prefetcher) → P s → P' s)
        → ((s : Prefetcher) → P s → R (section s).0)
        → Triple P (locked store mapped pace section) (λ a s. Q a s × R s)
    unfolding locked
    locked-and {P'} {Q} {R} section t weaker h = record {
      apply = λ w p.
          both _ _ (t.apply w (weaker w.shared p))
            (h _ (worker_steps-IsStable (pace w.ticks) w.shared stable p));
    }
      where
        both :
            (s : Prefetcher) (r : Result RunError A)
            → Ends Q s r
            → R s
            → Ends (λ a s. Q a s × R s) s r
        both s (ok a) q p = (q, p)
        both s (err e) q p = q
