-- ===== src/WorkerPool/CallerSteps.antt =====
-- src/worker_pool.cpp: what the caller of `parallel_for` does while a generation is at work.
use mem_vanta.Prelude.{
  ℕ, ◌+◌, ◌≤◌, min, ◌≡◌, refl, sym, ◌∙◌, subst, Bool, true, ◌||◌, ◌&&◌, Option, none, some, List,
  [], ◌∷◌, arith, ltb, leb, ◌==◌, if◌then◌else◌, if-cases, All, length,
}
use mem_vanta.WorkerPool.{step_of, ranges_from}
use mem_vanta.WorkerPool.Protocol.{
  Place, waiting, returned, running, called, done, Thread, Caller, working, awaiting, failing, Pool,
  is_some, keep_first, call_first, after_own,
}
use mem_vanta.WorkerPool.Counts.{
  hits, threw, sum, any, first_range, owed, settled, settled_at, carries, caller_owed,
  caller_carries,
}
use mem_vanta.WorkerPool.Invariant.{Active, made, sum-settled, keep_first-is_some}
use mem_vanta.WorkerPool.Handover.{IsSettled}

or_true : (b : Bool) → (b || true) ≡ true
or_true b = ground arith

module _ {E : Type 0} where
  -- Every worker is through when as many are as there are.
  settled-IsSettled : (g : ℕ) (w : Thread E) → settled g w ≡ 1 → IsSettled g w
  settled-IsSettled g w h = go w.place refl
    where
      count_at : Place E → ℕ
      count_at p = if settled_at g w.seen p then 1 else 0

      counted : (p : Place E) → w.place ≡ p → count_at p ≡ 1
      counted p at = subst (λ p. count_at p ≡ 1) at h

      go : (p : Place E) → w.place ≡ p → IsSettled g w
      go waiting at = let one = counted waiting at in (at, ground (arith, one))
      go returned at = let none_of_it = counted returned at in absurd (omega (arith, none_of_it))
      go (running f n k) at =
          let none_of_it = counted (running f n k) at in absurd (omega (arith, none_of_it))
      go (called e k) at =
          let none_of_it = counted (called e k) at in absurd (omega (arith, none_of_it))
      go (done k) at = let none_of_it = counted (done k) at in absurd (omega (arith, none_of_it))

  pub workers-IsSettled :
      (g : ℕ) (ws : List (Thread E)) → sum (settled g) ws ≡ length ws → All (IsSettled g) ws
  workers-IsSettled g [] h = tt
  workers-IsSettled g (w ∷ ws) h =
      let most = sum-settled g ws in
      let one : settled g w ≤ 1 = ground arith in
      (
        settled-IsSettled g w (omega (arith, h, most, one)),
        workers-IsSettled g ws (omega (arith, h, most, one)),
      )

  -- The caller at one of its places.
  module _ (s : Pool E) (c : Caller E) (at : s.caller ≡ c) (v : Active s) where
    pub cover_at :
        (i : ℕ)
        → hits i s.calls + caller_owed i s.n s.threads c + sum (owed i s) s.workers
          ≡ hits i (ranges_from s.n s.threads 0 s.threads)
    cover_at i =
        subst
          (λ c.
            hits i s.calls + caller_owed i s.n s.threads c + sum (owed i s) s.workers
            ≡ hits i (ranges_from s.n s.threads 0 s.threads))
          at (v.cover i)

    pub fails_at :
        threw s.fn s.calls ≡ (is_some s.error || (caller_carries c || any carries s.workers))
    fails_at =
        subst
          (λ c.
            threw s.fn s.calls ≡ (is_some s.error || (caller_carries c || any carries s.workers)))
          at v.fails

    moved-Active :
        (error : Option E) (c' : Caller E) (calls : List (ℕ × ℕ))
        → ((i : ℕ)
            → hits i calls + caller_owed i s.n s.threads c'
              ≡ hits i s.calls + caller_owed i s.n s.threads c)
        → threw s.fn calls ≡ (is_some error || (caller_carries c' || any carries s.workers))
        → Active (record s { error = error; caller = c'; calls = calls })
    moved-Active error c' calls same failed = record {
      live = v.live;
      count = v.count;
      few = v.few;
      cover = λ i. omega (arith, same i, cover_at i);
      fails = failed;
      current = v.current;
    }

  -- The caller's own call, and the record of what it threw.
  own_call-Active :
      (s : Pool E) (b : ℕ) (r : Option E)
      → s.caller ≡ working
      → Active s
      → s.fn 0 b ≡ r
      → ((i : ℕ) → hits i (first_range s.n s.threads) ≡ hits i ((0, b) ∷ []))
      → Active (record s { calls = (0, b) ∷ s.calls; caller = after_own r })
  own_call-Active s b none at v ran same =
      moved-Active s working at v s.error awaiting ((0, b) ∷ s.calls)
        (λ i. made (if leb 0 i && ltb i b then 1 else 0) (hits i s.calls) refl (same i))
        (rw ran (fails_at s working at v))
  own_call-Active s b (some e) at v ran same =
      moved-Active s working at v s.error (failing e) ((0, b) ∷ s.calls)
        (λ i. made (if leb 0 i && ltb i b then 1 else 0) (hits i s.calls) refl (same i))
        (rw ran (sym (or_true (is_some s.error))))

  pub call_first-Active : (s : Pool E) → s.caller ≡ working → Active s → Active (call_first s)
  unfolding call_first
  call_first-Active s at v =
      if-cases Active (min s.n (step_of s.n s.threads) == 0) _ _
        (λ empty.
          moved-Active s working at v s.error awaiting s.calls (λ i. rw empty refl)
            (fails_at s working at v))
        λ some_range. own_call-Active s _ (s.fn 0 _) at v refl λ i. rw some_range refl

  pub failing-Active :
      (s : Pool E) (e : E)
      → s.caller ≡ failing e
      → Active s
      → Active (record s { error = keep_first s.error e; caller = awaiting })
  failing-Active s e at v =
      moved-Active s (failing e) at v (keep_first s.error e) awaiting s.calls (λ i. refl)
        (rw (keep_first-is_some s.error e)
          (fails_at s (failing e) at v ∙ or_true (is_some s.error)))
