-- ===== src/WorkerPool/Invariant.antt =====
-- What holds of a pool of src/worker_pool.cpp while a generation is at work, kept by its workers.
use mem_vanta.Prelude.{
  ℕ, ◌+◌, ◌≤◌, ◌<◌, ◌≡◌, refl, ap, sym, ◌∙◌, subst, Bool, true, false, ◌||◌, Option, none, some,
  List, [], ◌∷◌, ◌++◌, arith, ltb, leb, ◌&&◌, ◌==◌, if◌then◌else◌, if-cases, All, length,
  length-append, add64, u64_mod, ==_refl, ==_iff, add64_lem,
}
use mem_vanta.WorkerPool.{start_of, end_of, ranges_from}
use mem_vanta.WorkerPool.Protocol.{
  Place, waiting, returned, running, called, done, Thread, Pool, is_some, keep_first, after_call,
  call_range, advance_at, advance,
}
use mem_vanta.WorkerPool.Counts.{
  hits, threw, sum, any, sum-middle, any-middle, All-middle, All-insert, range_of, owed, settled,
  settled_at, owes_at, carries_at, carries, CurrentAt, IsCurrent, caller_owed, caller_carries,
}

-- What was owed is made.
pub made :
    {owed range : ℕ} (hit rest : ℕ) → owed ≡ range → range ≡ hit + 0 → hit + rest + 0 ≡ rest + owed
made hit rest h k = omega (arith, h, k)

module _ {E : Type 0} where
  -- The calls that are made and those that are owed are those of the ranges of all threads; the
  -- count is of the workers that are through; an exception is kept or on its way if and only if a
  -- call threw.
  pub record Active (s : Pool E) : Type 0 where
    pub live : s.stop ≡ false
    pub count : s.finished ≡ sum (settled s.generation) s.workers
    pub few : length s.workers < u64_mod
    pub cover :
        (i : ℕ)
        → hits i s.calls + caller_owed i s.n s.threads s.caller + sum (owed i s) s.workers
          ≡ hits i (ranges_from s.n s.threads 0 s.threads)
    pub fails :
        threw s.fn s.calls ≡ (is_some s.error || (caller_carries s.caller || any carries s.workers))
    pub current : All (IsCurrent s) s.workers

  pub keep_first-is_some : (error : Option E) (e : E) → is_some (keep_first error e) ≡ true
  keep_first-is_some none e = refl
  keep_first-is_some (some first) e = refl

  pub sum-settled : (g : ℕ) (ws : List (Thread E)) → sum (settled g) ws ≤ length ws
  sum-settled g [] = omega arith
  sum-settled g (w ∷ ws) = ground (arith, sum-settled g ws)

  -- A worker among the others, which stay as they are.
  module _ (s : Pool E) (xs ys : List (Thread E)) (w : Thread E) (among : s.workers ≡ xs ++ w ∷ ys)
      (v : Active s) where
    count_w : s.finished ≡ settled s.generation w + sum (settled s.generation) (xs ++ ys)
    count_w =
        v.count ∙ ap (sum (settled s.generation)) among ∙ sum-middle (settled s.generation) xs ys w

    cover_w :
        (i : ℕ)
        → hits i s.calls
            + caller_owed i s.n s.threads s.caller
            + (owed i s w + sum (owed i s) (xs ++ ys))
          ≡ hits i (ranges_from s.n s.threads 0 s.threads)
    cover_w i =
        ap (λ n. hits i s.calls + caller_owed i s.n s.threads s.caller + n)
          (sym (ap (sum (owed i s)) among ∙ sum-middle (owed i s) xs ys w))
        ∙ v.cover i

    fails_w :
        threw s.fn s.calls
        ≡ (is_some s.error || (caller_carries s.caller || (carries w || any carries (xs ++ ys))))
    fails_w =
        v.fails
        ∙ ap (λ b. is_some s.error || (caller_carries s.caller || b))
            (ap (any carries) among ∙ any-middle carries xs ys w)

    w-IsCurrent : IsCurrent s w × All (IsCurrent s) (xs ++ ys)
    w-IsCurrent = All-middle (IsCurrent s) xs ys w (subst (All (IsCurrent s)) among v.current)

    few_w : (w' : Thread E) → length (xs ++ w' ∷ ys) < u64_mod
    few_w w' =
        omega (arith, v.few, ap length among, length-append xs (w ∷ ys), length-append xs (w' ∷ ys))

    -- The state after a section of the worker.
    abbrev after : Option E → ℕ → List (ℕ × ℕ) → Thread E → Pool E
    after error finished calls w' = record s {
      error = error;
      finished = finished;
      calls = calls;
      workers = xs ++ w' ∷ ys;
    }

    after-Active :
        (error : Option E) (finished : ℕ) (calls : List (ℕ × ℕ)) (w' : Thread E)
        → finished ≡ settled s.generation w' + sum (settled s.generation) (xs ++ ys)
        → ((i : ℕ) → hits i calls + owed i s w' ≡ hits i s.calls + owed i s w)
        → threw s.fn calls
          ≡ (is_some error || (caller_carries s.caller || (carries w' || any carries (xs ++ ys))))
        → IsCurrent s w'
        → Active (after error finished calls w')
    after-Active error finished calls w' counted covered failed current = record {
      live = v.live;
      count = counted ∙ sym (sum-middle (settled s.generation) xs ys w');
      few = few_w w';
      cover = λ i. omega (arith, covered i, cover_w i, sum-middle (owed i s) xs ys w');
      fails =
          failed
          ∙ ap (λ b. is_some error || (caller_carries s.caller || b))
              (sym (any-middle carries xs ys w'));
      current = All-insert (IsCurrent s) xs ys w' current w-IsCurrent.1;
    }

    abbrev pub P : Option (Pool E × Thread E) → Type 0
    P none = Unit {0}
    P (some (t, w')) = Active (record t { workers = xs ++ w' ∷ ys })

    -- What the worker is before its section, by its place.
    module _ (p : Place E) (at : w.place ≡ p) where
      settled_before :
          s.finished
          ≡ (if settled_at s.generation w.seen p then 1 else 0)
            + sum (settled s.generation) (xs ++ ys)
      settled_before =
          subst
            (λ p.
              s.finished
              ≡ (if settled_at s.generation w.seen p then 1 else 0)
                + sum (settled s.generation) (xs ++ ys))
            at count_w

      owed_before :
          (i : ℕ)
          → owed i s w
            ≡ (if owes_at s.generation w.seen p then hits i (range_of s.n s.threads w.tid) else 0)
      owed_before i =
          ap
            (λ p.
              if owes_at s.generation w.seen p then hits i (range_of s.n s.threads w.tid) else 0)
            at

      fails_before : threw s.fn s.calls ≡ (
          is_some s.error || (caller_carries s.caller || (carries_at p || any carries (xs ++ ys))))
      fails_before =
          subst
            (λ p. threw s.fn s.calls ≡ (
              is_some s.error
              || (caller_carries s.caller || (carries_at p || any carries (xs ++ ys)))))
            at fails_w

      before-CurrentAt : CurrentAt s w.seen p
      before-CurrentAt = subst (CurrentAt s w.seen) at w-IsCurrent.0

    waiting-P : w.place ≡ waiting → P (advance_at s w waiting)
    unfolding advance_at
    waiting-P at =
        if-cases P s.stop _ _ (λ stopped. absurd (cc v.live))
          λ live.
            if-cases P (s.generation == w.seen) _ _ (λ same. tt)
              λ fresh.
                after-Active s.error s.finished s.calls _
                  (settled_before waiting at ∙ rw fresh refl)
                  (λ i.
                    ap (λ n. hits i s.calls + n) (sym (owed_before waiting at i ∙ rw fresh refl)))
                  (fails_before waiting at) (refl, refl, refl, refl)

    done-P : (g : ℕ) → w.place ≡ done g → P (advance_at s w (done g))
    unfolding advance_at
    done-P g at =
        let (now, seen) = before-CurrentAt (done g) at in
        let through : (s.generation == w.seen) ≡ true = (==_iff s.generation w.seen).1 (sym seen) in
        rw (now, ==_refl s.generation)
          (after-Active s.error (add64 s.finished 1) s.calls (record w { place = waiting })
            (rw through (one_more (settled_before (done g) at)))
            (λ i. ap (λ n. hits i s.calls + n) (rw through (sym (owed_before (done g) at i))))
            (fails_before (done g) at) tt)
      where
        one_more :
            s.finished ≡ 0 + sum (settled s.generation) (xs ++ ys)
            → add64 s.finished 1 ≡ 1 + sum (settled s.generation) (xs ++ ys)
        one_more e =
            let bound : s.finished + 1 < u64_mod = omega (
              arith,
              e,
              few_w w,
              sum-settled s.generation (xs ++ ys),
              length-append xs ys,
              length-append xs (w ∷ ys),
            ) in
            omega (arith, e, add64_lem s.finished 1 bound)

    always : (a b : Bool) → (a || (b || true)) ≡ true
    always a b = ground arith

    called-P : (e : E) (g : ℕ) → w.place ≡ called e g → P (advance_at s w (called e g))
    unfolding advance_at
    called-P e g at =
        let (now, seen) = before-CurrentAt (called e g) at in
        rw (now, ==_refl s.generation)
          (after-Active (keep_first s.error e) s.finished s.calls _ (settled_before (called e g) at)
            (λ i. ap (λ n. hits i s.calls + n) (sym (owed_before (called e g) at i)))
            (rw (keep_first-is_some s.error e)
              (fails_before (called e g) at ∙ always (is_some s.error) (caller_carries s.caller)))
            (refl, seen))

    -- The call of a range.
    call_range-P :
        (a b : ℕ) (r : Option E)
        → w.place ≡ running s.fn s.n s.generation
        → s.fn a b ≡ r
        → ((i : ℕ) → hits i (range_of s.n s.threads w.tid) ≡ hits i ((a, b) ∷ []))
        → P (
            some (
              record s { calls = (a, b) ∷ s.calls },
              record w { place = after_call r s.generation },
            ))
    call_range-P a b none at ran same =
        after-Active s.error s.finished ((a, b) ∷ s.calls) (record w { place = done s.generation })
          (settled_before _ at)
          (λ i.
            made (if leb a i && ltb i b then 1 else 0) (hits i s.calls) (owed_before _ at i)
              (same i))
          (rw ran (fails_before _ at)) (refl, (before-CurrentAt _ at).3)
    call_range-P a b (some e) at ran same =
        after-Active s.error s.finished ((a, b) ∷ s.calls)
          (record w { place = called e s.generation }) (settled_before _ at)
          (λ i.
            made (if leb a i && ltb i b then 1 else 0) (hits i s.calls) (owed_before _ at i)
              (same i))
          (rw ran (sym (always (is_some s.error) (caller_carries s.caller))))
          (refl, (before-CurrentAt _ at).3)

    running-P :
        w.place ≡ running s.fn s.n s.generation → P (advance_at s w (running s.fn s.n s.generation))
    unfolding advance_at call_range
    running-P at =
        if-cases (λ r. P (some r)) (ltb (start_of s.n s.threads w.tid) (end_of s.n s.threads w.tid))
          _ _ (λ some_range. call_range-P _ _ (s.fn _ _) at refl λ i. rw some_range refl)
          λ empty.
            after-Active s.error s.finished s.calls (record w { place = done s.generation })
              (settled_before _ at)
              (λ i. ap (λ n. hits i s.calls + n) (sym (owed_before _ at i ∙ rw empty refl)))
              (fails_before _ at) (refl, (before-CurrentAt _ at).3)

    -- A section of a worker keeps what holds of the pool.
    pub advance-P : P (advance s w)
    unfolding advance
    advance-P = go w.place refl
      where
        go : (p : Place E) → w.place ≡ p → P (advance_at s w p)
        go waiting at = waiting-P at
        go returned at =
            let stopped : s.stop ≡ true = before-CurrentAt returned at in absurd (cc v.live)
        go (called e g) at = called-P e g at
        go (done g) at = done-P g at
        go (running f n g) at =
            let (same_fn, same_n, same_g, _) = before-CurrentAt (running f n g) at in
            let same : running f n g ≡ running s.fn s.n s.generation = cc in
            subst (λ p. P (advance_at s w p)) (sym same) (running-P (at ∙ same))
