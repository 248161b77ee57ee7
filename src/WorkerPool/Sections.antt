-- ===== src/WorkerPool/Sections.antt =====
-- src/worker_pool.cpp: what a worker's section leaves as it is, in every phase of the pool.
use mem_vanta.Prelude.{
  ℕ, suc, ◌≡◌, refl, ap, sym, ◌∙◌, subst, true, false, Option, none, some, List, [], ◌∷◌, ◌++◌,
  arith, ltb, ◌==◌, if-cases, inl, inr, length, ==_refl,
}
use mathlib.Core.Option.{some-injective}
use mem_vanta.WorkerPool.{start_of, end_of}
use mem_vanta.WorkerPool.Protocol.{
  Place, waiting, returned, running, called, done, Thread, Pool, advance, advance_at, call_range,
}
use mem_vanta.WorkerPool.Handover.{Sound, Phase, IsSettled, IsIdle, Numbered}

module _ {E : Type 0} where
  abbrev pub Inv : Pool E → Type 0
  Inv s = Sound s × Phase s

  -- What no section of a worker changes.
  pub record Same (s : Pool E) (w : Thread E) (t : Pool E) (w' : Thread E) : Type 0 where
    pub threads : t.threads ≡ s.threads
    pub generation : t.generation ≡ s.generation
    pub caller : t.caller ≡ s.caller
    pub stop : t.stop ≡ s.stop
    pub tid : w'.tid ≡ w.tid

  pub advance-Same :
      (s : Pool E) (w : Thread E) {t : Pool E} {w' : Thread E}
      → advance s w ≡ some (t, w')
      → Same s w t w'
  unfolding advance advance_at call_range
  advance-Same s w {t} {w'} = go w.place
    where
      P : Option (Pool E × Thread E) → Type 0
      P o = o ≡ some (t, w') → Same s w t w'

      here : (p : Pool E × Thread E) → Same s w p.0 p.1 → P (some p)
      here p same e =
          subst (λ (p : Pool E × Thread E). Same s w p.0 p.1) (some-injective _ _ e) same

      unchanged :
          (error : Option E) (finished : ℕ) (calls : List (ℕ × ℕ)) (seen : ℕ) (p : Place E)
          → P (
              some (
                record s { error = error; finished = finished; calls = calls },
                record w { seen = seen; place = p },
              ))
      unchanged error finished calls seen p =
          here _
            (record { threads = refl; generation = refl; caller = refl; stop = refl; tid = refl })

      go : (p : Place E) → P (advance_at s w p)
      go waiting =
          if-cases P s.stop _ _ (λ stopped. unchanged s.error s.finished s.calls w.seen returned)
            λ live.
              if-cases P (s.generation == w.seen) _ _ (λ same e. absurd cc)
                λ fresh. unchanged s.error s.finished s.calls s.generation _
      go returned = λ e. absurd cc
      go (called x g) = unchanged _ s.finished s.calls w.seen (done g)
      go (done g) = unchanged s.error _ s.calls w.seen waiting
      go (running f n g) =
          if-cases (λ (o : Pool E × Thread E). P (some o))
            (ltb (start_of n s.threads w.tid) (end_of n s.threads w.tid)) _ _
            (λ some_range. unchanged s.error s.finished _ w.seen _)
            λ empty. unchanged s.error s.finished s.calls w.seen (done g)

  -- A worker that moves leaves the pool as large as it was.
  pub advanced-Sound :
      (s t : Pool E) (xs ys : List (Thread E)) (w w' : Thread E)
      → s.workers ≡ xs ++ w ∷ ys
      → Same s w t w'
      → Sound s
      → Sound (record t { workers = xs ++ w' ∷ ys })
  advanced-Sound s t xs ys w w' among same v = record {
    sized = same.threads ∙ v.sized ∙ ap suc (ap length among ∙ same_length xs);
    few = omega (arith, same.threads, v.few);
    word = omega (arith, same.generation, v.word);
    numbered = renumbered 1 xs (subst (Numbered 1) among v.numbered);
  }
    where
      same_length : (xs : List (Thread E)) → length (xs ++ w ∷ ys) ≡ length (xs ++ w' ∷ ys)
      same_length [] = refl
      same_length (x ∷ xs) = ap suc (same_length xs)

      renumbered :
          (k : ℕ) (xs : List (Thread E)) → Numbered k (xs ++ w ∷ ys) → Numbered k (xs ++ w' ∷ ys)
      renumbered k [] h = (same.tid ∙ h.0, h.1)
      renumbered k (x ∷ xs) h = (h.0, renumbered (suc k) xs h.1)

  -- A worker at rest has nothing to do.
  pub settled-advance :
      (s : Pool E) (w : Thread E) → s.stop ≡ false → IsSettled s.generation w → advance s w ≡ none
  unfolding advance advance_at
  settled-advance s w live h = rw (h.0, live, h.1, ==_refl s.generation) refl

  -- Once the pool is shut down, a worker stays in the wait or returns.
  pub advance-IsIdle :
      (s : Pool E) (w : Thread E) {t : Pool E} {w' : Thread E}
      → s.stop ≡ true
      → IsIdle w
      → advance s w ≡ some (t, w')
      → IsIdle w'
  unfolding advance advance_at
  advance-IsIdle s w {t} {w'} stopped (inl at) =
      rw (at, stopped)
        λ e. inr (ap (λ (p : Pool E × Thread E). p.1.place) (sym (some-injective _ _ e)))
  advance-IsIdle s w {t} {w'} stopped (inr at) = rw at λ e. absurd cc
