-- ===== src/WorkerPool/Returning.antt =====
-- What `parallel_for` of src/worker_pool.cpp has done when it returns, whatever the order in which
-- the threads ran, and that a worker can move while it waits.
use mem_vanta.Prelude.{
  ℕ, zero, suc, ◌+◌, ◌-◌, ◌%◌, ◌<◌, ◌≡◌, ◌≢◌, refl, ap, ◌∙◌, subst, Bool, true, false, ◌&&◌, none,
  some, List, [], ◌∷◌, ◌++◌, arith, ltb, leb, ◌==◌, if◌then◌else◌, Bool-cases, inl, inr, ◌⊎◌, All,
  table, length, sub32, u64_mod, u32_mod, ==_refl, ==_iff,
}
use mem_vanta.WorkerPool.{ranges_from}
use mem_vanta.WorkerPool.Protocol.{
  Fn, Place, waiting, returned, running, called, done, Thread, awaiting, Pool, is_some, advance,
  advance_at, proceed, proceed_at, start, Steps,
}
use mem_vanta.WorkerPool.Counts.{
  All-middle, hits, threw, sum, any, owed, settled, settled_at, carries, CurrentAt, IsCurrent,
}
use mem_vanta.WorkerPool.Invariant.{Active, sum-settled}
use mem_vanta.WorkerPool.Handover.{Sound, resting, active, stopping, IsSettled}
use mem_vanta.WorkerPool.CallerSteps.{workers-IsSettled, fails_at, cover_at}
use mem_vanta.WorkerPool.Sections.{Inv}
use mem_vanta.WorkerPool.Ranges.{indices, all_indices, ranges_from_zero}
use mem_vanta.WorkerPool.Phases.{Steps-Inv, start-Inv}

-- How often an index stands in a list.
abbrev occurrences : ℕ → List ℕ → ℕ
occurrences i [] = 0
occurrences i (x ∷ xs) = (if i == x then 1 else 0) + occurrences i xs

occurrences-append :
    (i : ℕ) (xs ys : List ℕ) → occurrences i (xs ++ ys) ≡ occurrences i xs + occurrences i ys
occurrences-append i [] ys = omega arith
occurrences-append i (x ∷ xs) ys = omega (arith, occurrences-append i xs ys)

occurrences-table :
    (i a n : ℕ) → occurrences i (table (λ j. j) a n) ≡ (if leb a i && ltb i (a + n) then 1 else 0)
occurrences-table i a zero = ground arith
occurrences-table i a (suc n) = ground (arith, occurrences-table i (suc a) n)

hits-occurrences : (i : ℕ) (rs : List (ℕ × ℕ)) → hits i rs ≡ occurrences i (all_indices rs)
hits-occurrences i [] = refl
hits-occurrences i ((a, b) ∷ rs) =
    let same : (leb a i && ltb i b) ≡ (leb a i && ltb i (a + (b - a))) = ground arith in
    let one = occurrences-append i (indices a b) (all_indices rs) in
    let here = occurrences-table i a (b - a) in
    ap (λ (t : Bool). (if t then 1 else 0) + hits i rs) same
    ∙ omega (arith, one, here, hits-occurrences i rs)

-- What is done when the caller may return: the function was called on every index below `n` once,
-- and on no other; an exception is kept if and only if a call threw; and every worker is back in
-- its wait, through with the generation.
pub record Completed {E : Type 0} (s : Pool E) : Type 0 where
  pub once : (i : ℕ) → hits i s.calls ≡ (if ltb i s.n then 1 else 0)
  pub rethrows : is_some s.error ≡ threw s.fn s.calls
  pub idle : All (IsSettled s.generation) s.workers

module _ {E : Type 0} where
  none_owed :
      (s : Pool E) (i : ℕ) (ws : List (Thread E))
      → All (IsSettled s.generation) ws
      → (sum (owed i s) ws ≡ 0) × (any carries ws ≡ false)
  none_owed s i [] h = (refl, refl)
  none_owed s i (w ∷ ws) h =
      let (nothing, none_carries) = none_owed s i ws h.1 in
      (rw (h.0.0, h.0.1, ==_refl s.generation) (omega (arith, nothing)), rw h.0.0 none_carries)

  awaiting-Completed :
      (s : Pool E)
      → Sound s
      → Active s
      → s.caller ≡ awaiting
      → s.n + u32_mod < u64_mod
      → s.finished ≡ sub32 s.threads 1
      → Completed s
  awaiting-Completed s v act at small all_done =
      let idle =
        workers-IsSettled s.generation s.workers
          (unfold sub32 in omega (arith, all_done, act.count, v.sized, v.few)) in
      record {
        once = λ i. once i (none_owed s i s.workers idle).0;
        rethrows = rethrows (none_owed s 0 s.workers idle).1;
        idle = idle;
      }
    where
      covered :
          (i : ℕ) → hits i (ranges_from s.n s.threads 0 s.threads) ≡ (if ltb i s.n then 1 else 0)
      covered i =
          hits-occurrences i (ranges_from s.n s.threads 0 s.threads)
          ∙ ap (occurrences i) (
              ranges_from_zero s.n s.threads (omega (arith, v.sized)) (omega (arith, small, v.few)))
          ∙ occurrences-table i 0 (s.n - 0)
          ∙ ground arith

      once : (i : ℕ) → sum (owed i s) s.workers ≡ 0 → hits i s.calls ≡ (if ltb i s.n then 1 else 0)
      once i nothing = omega (arith, nothing, cover_at s awaiting at act i) ∙ covered i

      rethrows : any carries s.workers ≡ false → is_some s.error ≡ threw s.fn s.calls
      rethrows none_carries = ground (arith, fails_at s awaiting at act)

  -- When `parallel_for` returns or throws, after any steps of its thread and of the workers, also
  -- in earlier generations, in a pool of fewer than 2 ^ 32 threads and for n + 2 ^ 32 below 2 ^
  -- 64, the function has been called on every index below n once and on no other, an exception is
  -- thrown if and only if a call threw, and every worker is back in its wait.
  pub Steps-Completed :
      (fn : Fn E) (count : ℕ) {s t : Pool E}
      → suc count < u32_mod
      → Steps (start fn count) s
      → s.n + u32_mod < u64_mod
      → s.caller ≡ awaiting
      → proceed s ≡ some t
      → Completed s
  unfolding proceed proceed_at
  Steps-Completed fn count {s} {t} few steps small at ran =
      go (Steps-Inv steps (start-Inv fn count few)) (Bool-cases (s.finished == sub32 s.threads 1))
    where
      go :
          Inv s
          → ((s.finished == sub32 s.threads 1) ≡ true) ⊎ ((s.finished == sub32 s.threads 1) ≡ false)
          → Completed s
      go (v, active inside act) (inl all_done) =
          awaiting-Completed s v act at small ((==_iff s.finished (sub32 s.threads 1)).0 all_done)
      go (v, active inside act) (inr more_to_come) =
          let stuck : proceed s ≡ none = rw (at, more_to_come) refl in absurd cc
      go (v, resting _ out _) d = absurd cc
      go (v, stopping _ out _) d = absurd cc

  -- A worker that is not through can move.
  unsettled :
      (g : ℕ) (ws : List (Thread E))
      → sum (settled g) ws < length ws
      → (xs : List (Thread E)) × (w : Thread E) × (ys : List (Thread E)) × (ws ≡ xs ++ w ∷ ys)
        × (settled g w ≡ 0)
  unsettled g [] h = absurd (omega (arith, h))
  unsettled g (w ∷ ws) h = elim (Bool-cases (settled_at g w.seen w.place)) [
    | inl through ↦
        let (xs, u, ys, e, free) =
          unsettled g ws (let one : settled g w ≡ 1 = rw through refl in omega (arith, h, one)) in
        (w ∷ xs, u, ys, ap (λ us. w ∷ us) e, free)
    | inr free ↦ ([], w, ws, refl, rw free refl)
  ]

  moves :
      (s : Pool E) (w : Thread E)
      → s.stop ≡ false
      → IsCurrent s w
      → settled s.generation w ≡ 0
      → (p : Pool E × Thread E) × (advance s w ≡ some p)
  unfolding advance advance_at
  moves s w live current free = go w.place refl
    where
      count_at : Place E → ℕ
      count_at p = if settled_at s.generation w.seen p then 1 else 0

      go : (p : Place E) → w.place ≡ p → (r : Pool E × Thread E) × (advance_at s w p ≡ some r)
      go waiting at =
          let none_of_it : count_at waiting ≡ 0 = subst (λ p. count_at p ≡ 0) at free in
          let fresh : (s.generation == w.seen) ≡ false = ground (arith, none_of_it) in
          rw (live, fresh) (_, refl)
      go returned at =
          let stopped : s.stop ≡ true = subst (CurrentAt s w.seen) at current in absurd cc
      go (running f n g) at = (_, refl)
      go (called e g) at = (_, refl)
      go (done g) at = (_, refl)

  -- While the caller waits for workers, one of them can move.
  pub worker_moves :
      (s : Pool E)
      → Sound s
      → Active s
      → (s.finished == sub32 s.threads 1) ≡ false
      → (xs : List (Thread E)) × (w : Thread E) × (ys : List (Thread E)) × (p : Pool E × Thread E)
        × (s.workers ≡ xs ++ w ∷ ys)
        × (advance s w ≡ some p)
  worker_moves s v act more_to_come =
      let missing : sum (settled s.generation) s.workers < length s.workers =
        unfold sub32 in
        let most = sum-settled s.generation s.workers in
        let unequal : s.finished ≢ (s.threads + u32_mod - 1) % u32_mod =
          λ e. ground (arith, more_to_come, e) in
        omega (arith, most, unequal, act.count, v.sized, v.few) in
      let (xs, w, ys, among, free) = unsettled s.generation s.workers missing in
      let current =
        (All-middle (IsCurrent s) xs ys w (subst (All (IsCurrent s)) among act.current)).0 in
      let (p, ran) = moves s w act.live current free in (xs, w, ys, p, among, ran)
