-- ===== src/WorkerPool/Handover.antt =====
-- The phases of a pool of src/worker_pool.cpp: at rest, with a generation at work, and shut down.
use mem_vanta.Prelude.{
  ℕ, suc, ◌+◌, ◌<◌, min, ◌≡◌, ◌≢◌, refl, ap, sym, Bool, true, false, List, [], ◌∷◌, arith, ltb,
  ◌==◌, if◌then◌else◌, Bool-cases, inl, inr, ◌⊎◌, mul64, All, length, add64, u64_mod, u32_mod,
  ==_iff,
}
use mem_vanta.WorkerPool.Ranges.{step_of-lt}
use mem_vanta.WorkerPool.{step_of, start_of, end_of, ranges_from}
use mem_vanta.WorkerPool.Protocol.{Fn, waiting, returned, Thread, outside, Pool, publish}
use mem_vanta.WorkerPool.Counts.{
  hits, sum, any, range_of, first_range, owes, owed, settled, carries, IsCurrent,
}
use mem_vanta.WorkerPool.Invariant.{Active}

-- Whether a range is tested by its end or by both ends.
tested_hits :
    (i b : ℕ)
    → hits i (if b == 0 then [] else (0, b) ∷ []) ≡ hits i (if ltb 0 b then (0, b) ∷ [] else [])
tested_hits i b = elim (Bool-cases (b == 0)) [
  | inl nothing ↦ rw (nothing, (==_iff b 0).0 nothing) refl
  | inr nonzero ↦
      let positive : ltb 0 b ≡ true = ground (arith, nonzero) in rw (nonzero, positive) refl
]

first_range-range_of :
    (i n threads : ℕ) → hits i (first_range n threads) ≡ hits i (range_of n threads 0)
unfolding start_of end_of
first_range-range_of i n threads =
    let first : mul64 0 (step_of n threads) ≡ 0 = unfold mul64 in omega arith in
    let last : add64 0 (step_of n threads) ≡ step_of n threads =
      unfold add64 in omega (arith, step_of-lt n threads) in
    rw (first, last) (tested_hits i (min n (step_of n threads)))

hits-cons :
    (i : ℕ) (b : Bool) (r : ℕ × ℕ) (rs : List (ℕ × ℕ))
    → hits i (if b then r ∷ [] else []) + hits i rs ≡ hits i (if b then r ∷ rs else rs)
hits-cons i true r rs = omega arith
hits-cons i false r rs = omega arith

hits-ranges_from :
    (i n threads k count : ℕ)
    → hits i (range_of n threads k) + hits i (ranges_from n threads (suc k) count)
      ≡ hits i (ranges_from n threads k (suc count))
unfolding ranges_from
hits-ranges_from i n threads k count =
    hits-cons i (ltb (start_of n threads k) (end_of n threads k))
      (start_of n threads k, end_of n threads k) (ranges_from n threads (suc k) count)

module _ {E : Type 0} where
  -- In the wait, and done with the generation.
  abbrev pub IsSettled : ℕ → Thread E → Type 0
  IsSettled generation w = (w.place ≡ waiting) × (w.seen ≡ generation)

  -- In the wait, or returned.
  abbrev pub IsIdle : Thread E → Type 0
  IsIdle w = (w.place ≡ waiting) ⊎ (w.place ≡ returned)

  -- Threads are numbered in order.
  abbrev pub Numbered : ℕ → List (Thread E) → Type 0
  Numbered k [] = Unit {0}
  Numbered k (w ∷ ws) = (w.tid ≡ k) × Numbered (suc k) ws

  pub record Sound (s : Pool E) : Type 0 where
    pub sized : s.threads ≡ suc (length s.workers)
    pub few : s.threads < u32_mod
    pub word : s.generation < u64_mod
    pub numbered : Numbered 1 s.workers

  pub data Phase (s : Pool E) : Type 0 where
    resting : s.stop ≡ false → s.caller ≡ outside → All (IsSettled s.generation) s.workers → Phase s
    active : s.caller ≢ outside → Active s → Phase s
    stopping : s.stop ≡ true → s.caller ≡ outside → All IsIdle s.workers → Phase s

  Numbered-owed :
      (s : Pool E) (i k : ℕ) (ws : List (Thread E))
      → Numbered k ws
      → All (λ w. owes s.generation w ≡ true) ws
      → sum (owed i s) ws ≡ hits i (ranges_from s.n s.threads k (length ws))
  Numbered-owed s i k [] h fresh = unfold ranges_from in refl
  Numbered-owed s i k (w ∷ ws) h fresh =
      rw (fresh.0, h.0, Numbered-owed s i (suc k) ws h.1 fresh.1)
        (hits-ranges_from i s.n s.threads k (length ws))

  -- Every worker still has the call of a new generation to make.
  published-owes :
      (g g' : ℕ) (ws : List (Thread E))
      → g ≢ g'
      → All (IsSettled g) ws
      → All (λ w. owes g' w ≡ true) ws × (sum (settled g') ws ≡ 0) × (any carries ws ≡ false)
  published-owes g g' [] h v = (tt, refl, refl)
  published-owes g g' (w ∷ ws) h v =
      let (fresh, none_settled, none_carries) = published-owes g g' ws h v.1 in
      let new : (g' == w.seen) ≡ false = let same = v.0.1 in ground (arith, h) in
      (
        (rw (v.0.0, new) refl, fresh),
        rw (v.0.0, new) (omega (arith, none_settled)),
        rw (v.0.0) none_carries,
      )

  workers-IsCurrent :
      (s : Pool E) (ws : List (Thread E)) (g : ℕ) → All (IsSettled g) ws → All (IsCurrent s) ws
  workers-IsCurrent s [] g v = tt
  workers-IsCurrent s (w ∷ ws) g v = (rw (v.0.0) tt, workers-IsCurrent s ws g v.1)

  pub publish-Active :
      (s : Pool E) (n : ℕ) (fn : Fn E)
      → Sound s
      → s.stop ≡ false
      → All (IsSettled s.generation) s.workers
      → Active (publish s n fn)
  unfolding publish
  publish-Active s n fn v live idle =
      let next : s.generation ≢ add64 s.generation 1 = unfold add64 in omega (arith, v.word) in
      let (fresh, none_settled, none_carries) =
        published-owes s.generation (add64 s.generation 1) s.workers next idle in
      record {
        live = live;
        count = sym none_settled;
        few = omega (arith, v.few, v.sized);
        cover = λ i. omega (
          arith,
          first_range-range_of i n s.threads,
          Numbered-owed (publish s n fn) i 1 s.workers v.numbered fresh,
          hits-ranges_from i n s.threads 0 (length s.workers),
          ap (λ count. hits i (ranges_from n s.threads 0 count)) v.sized,
        );
        fails = rw none_carries refl;
        current = workers-IsCurrent (publish s n fn) s.workers s.generation idle;
      }
