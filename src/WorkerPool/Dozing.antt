-- ===== src/WorkerPool/Dozing.antt =====
-- src/worker_pool.cpp: where the tests of the two waits fail, and what leaves them as they are.
use mem_vanta.Prelude.{
  ℕ, zero, suc, ◌≡◌, ◌⊎◌, refl, ap, subst, true, false, Option, none, some, List, [], ◌∷◌, ◌++◌,
  arith, ltb, ◌==◌, if-cases, min, length, get_elem?, inl, inr, sub32,
}
use mathlib.Core.Option.{some-injective}
use mem_vanta.WorkerPool.Protocol.{
  Place, waiting, returned, running, called, done, Thread, Caller, outside, working, awaiting,
  failing, Pool, advance, call_range, advance_at, proceed, proceed_at, call_first,
}
use mem_vanta.WorkerPool.{step_of, start_of, end_of}
use mem_vanta.WorkerPool.Waking.{Sleeping, is_last}

module _ {E : Type 0} where
  pub get_elem?-middle :
      (xs ys : List (Thread E)) (w w' : Thread E) (k : ℕ)
      → (k ≡ length xs) ⊎ (get_elem? (xs ++ w' ∷ ys) k ≡ get_elem? (xs ++ w ∷ ys) k)
  get_elem?-middle [] ys w w' zero = inl refl
  get_elem?-middle [] ys w w' (suc k) = inr refl
  get_elem?-middle (x ∷ xs) ys w w' zero = inr refl
  get_elem?-middle (x ∷ xs) ys w w' (suc k) = elim (get_elem?-middle xs ys w w' k) [
    | inl same ↦ inl (ap suc same)
    | inr same ↦ inr same
  ]

  pub get_elem?-at :
      (xs ys : List (Thread E)) (w : Thread E) → get_elem? (xs ++ w ∷ ys) (length xs) ≡ some w
  get_elem?-at [] ys w = refl
  get_elem?-at (x ∷ xs) ys w = get_elem?-at xs ys w

  -- The test of a worker's wait fails.
  abbrev pub Waits : Pool E → Thread E → Type 0
  Waits s w = (w.place ≡ waiting) × (s.stop ≡ false) × ((s.generation == w.seen) ≡ true)

  -- The test of the caller's wait fails.
  abbrev pub CallerWaits : Pool E → Type 0
  CallerWaits s = (s.caller ≡ awaiting) × ((s.finished == sub32 s.threads 1) ≡ false)

  -- Who sleeps does so in a wait whose test fails, unless a notice is due to the workers.
  pub record Awaited (s : Sleeping E) : Type 0 where
    pub workers :
        (k : ℕ) (w : Thread E)
        → s.notice_due ≡ false
        → s.dozes k ≡ true
        → get_elem? s.pool.workers k ≡ some w
        → Waits s.pool w
    pub caller : s.caller_dozes ≡ true → CallerWaits s.pool

  pub Waits-none : (s : Pool E) (w : Thread E) → Waits s w → advance s w ≡ none
  unfolding advance advance_at
  Waits-none s w (at, live, seen) = rw (at, live, seen) refl

  pub none-Waits : (s : Pool E) (w : Thread E) → w.place ≡ waiting → advance s w ≡ none → Waits s w
  unfolding advance advance_at
  none-Waits s w at stuck =
      let (live, seen) = refused (subst (λ p. advance_at s w p ≡ none) at stuck) in (at, live, seen)
    where
      P : Option (Pool E × Thread E) → Type 0
      P o = o ≡ none → (s.stop ≡ false) × ((s.generation == w.seen) ≡ true)

      refused : P (advance_at s w waiting)
      refused =
          if-cases P s.stop _ _ (λ stopped e. absurd cc)
            λ live.
              if-cases P (s.generation == w.seen) _ _ (λ seen e. (live, seen)) λ fresh e. absurd cc

  pub none-CallerWaits : (s : Pool E) → s.caller ≡ awaiting → proceed s ≡ none → CallerWaits s
  unfolding proceed proceed_at
  none-CallerWaits s at stuck = (at, refused (subst (λ c. proceed_at s c ≡ none) at stuck))
    where
      refused : proceed_at s awaiting ≡ none → (s.finished == sub32 s.threads 1) ≡ false
      refused =
          if-cases (λ (o : Option (Pool E)). o ≡ none → (s.finished == sub32 s.threads 1) ≡ false)
            (s.finished == sub32 s.threads 1) _ _ (λ all_done e. absurd cc)
            λ more_to_come e. more_to_come

  -- What no section of the caller changes.
  pub record Kept (s t : Pool E) : Type 0 where
    pub generation : t.generation ≡ s.generation
    pub stop : t.stop ≡ s.stop
    pub workers : t.workers ≡ s.workers

  pub proceed-Kept : (s t : Pool E) → proceed s ≡ some t → Kept s t
  unfolding proceed proceed_at
  proceed-Kept s t = go s.caller
    where
      P : Option (Pool E) → Type 0
      P o = o ≡ some t → Kept s t

      here : (p : Pool E) → Kept s p → P (some p)
      here p h e = subst (Kept s) (some-injective _ _ e) h

      go : (c : Caller E) → P (proceed_at s c)
      go outside = λ e. absurd cc
      go working = here (call_first s) (
          unfold call_first in
          if-cases (Kept s) (min s.n (step_of s.n s.threads) == 0) _ _
            (λ e. record { generation = refl; stop = refl; workers = refl })
            (λ e. record { generation = refl; stop = refl; workers = refl }))
      go (failing e) = here _ (record { generation = refl; stop = refl; workers = refl })
      go awaiting =
          if-cases P (s.finished == sub32 s.threads 1) _ _
            (λ h. here _ (record { generation = refl; stop = refl; workers = refl }))
            λ h e. absurd cc

  -- A worker that is not the last leaves the caller's test as it is.
  pub advance-unfinished :
      (s : Pool E) (w : Thread E) {t : Pool E} {w' : Thread E}
      → advance s w ≡ some (t, w')
      → is_last s w.place ≡ false
      → (s.finished == sub32 s.threads 1) ≡ false
      → (t.finished == sub32 t.threads 1) ≡ false
  unfolding advance advance_at is_last call_range
  advance-unfinished s w {t} {w'} ran free open_still = go w.place free ran
    where
      P : Option (Pool E × Thread E) → Type 0
      P o = o ≡ some (t, w') → (t.finished == sub32 t.threads 1) ≡ false

      here : (p : Pool E × Thread E) → (p.0.finished == sub32 p.0.threads 1) ≡ false → P (some p)
      here p h e =
          subst (λ (p : Pool E × Thread E). (p.0.finished == sub32 p.0.threads 1) ≡ false)
            (some-injective _ _ e) h

      go : (p : Place E) → is_last s p ≡ false → P (advance_at s w p)
      go waiting last =
          if-cases P s.stop _ _ (λ stopped. here _ open_still)
            λ live.
              if-cases P (s.generation == w.seen) _ _ (λ same e. absurd cc)
                λ fresh. here _ open_still
      go returned last = λ e. absurd cc
      go (called x g) last = here _ open_still
      go (done g) last = here _ (
          if-cases (λ (n : ℕ). (n == sub32 s.threads 1) ≡ false) (g == s.generation) _ _
            (λ same. ground (arith, last, same)) λ other. open_still)
      go (running f n g) last =
          if-cases (λ (o : Pool E × Thread E). P (some o))
            (ltb (start_of n s.threads w.tid) (end_of n s.threads w.tid)) _ _
            (λ some_range. here _ open_still) λ empty. here _ open_still
