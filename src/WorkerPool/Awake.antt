-- ===== src/WorkerPool/Awake.antt =====
-- src/worker_pool.cpp: which thread can move while others sleep on `cv_` and `done_`.
use mem_vanta.Prelude.{
  ℕ, suc, ◌<◌, ◌≡◌, ◌≢◌, refl, sym, ap, subst, ◌∙◌, true, false, some, List, ◌∷◌, ◌++◌, arith, ◌==◌,
  length, get_elem?, Bool-cases, inl, inr, sub32, u32_mod, ==_iff,
}
use mathlib.Core.Option.{some-injective}
use mem_vanta.WorkerPool.Protocol.{
  Fn, Thread, Caller, outside, working, awaiting, failing, Pool, keep_first, advance, proceed,
  proceed_at, call_first, Step,
}
use mem_vanta.WorkerPool.Sections.{Inv, advance-Same}
use mem_vanta.WorkerPool.Phases.{Step-Inv, start-Inv}
use mem_vanta.WorkerPool.Invariant.{Active}
use mem_vanta.WorkerPool.Handover.{Sound, resting, active, stopping}
use mem_vanta.WorkerPool.Returning.{worker_moves}
use mem_vanta.WorkerPool.Waking.{
  Sleeping, is_last, advanced, published, shutting_down, notify_all, doze, awake, Move, Drift, Run,
}
use mem_vanta.WorkerPool.Dozing.{
  get_elem?-middle, get_elem?-at, Waits, Awaited, Waits-none, none-Waits, none-CallerWaits,
  proceed-Kept, advance-unfinished,
}

module _ {E : Type 0} where
  -- What holds of every state of a run.
  record Sane (s : Sleeping E) : Type 0 where
    inv : Inv s.pool
    awaited : Awaited s

  outside-awake : (s : Sleeping E) → Awaited s → s.pool.caller ≡ outside → s.caller_dozes ≡ false
  outside-awake s v out = elim (Bool-cases s.caller_dozes) [
    | inl asleep ↦ let (at, _) = v.caller asleep in absurd cc
    | inr free ↦ free
  ]

  Move-Sane : {s t : Sleeping E} → Move s t → Sane s → Sane t
  unfolding published shutting_down notify_all advanced
  Move-Sane {s} (Move.publishes n fn out live some_rounds several) v =
      let free = outside-awake s v.awaited out in
      record {
        inv = Step-Inv (Step.publishes n fn out live some_rounds several) v.inv;
        awaited = record { workers = λ k w due. absurd cc; caller = λ asleep. absurd cc };
      }
  Move-Sane {s} (Move.shuts_down out) v =
      let free = outside-awake s v.awaited out in
      record {
        inv = Step-Inv (Step.shuts_down out) v.inv;
        awaited = record { workers = λ k w due. absurd cc; caller = λ asleep. absurd cc };
      }
  Move-Sane (Move.notifies due) v = record {
    inv = v.inv;
    awaited = record { workers = λ k w none_due asleep. absurd cc; caller = v.awaited.caller };
  }
  Move-Sane {s} (Move.proceeds t none_due free ran) v =
      let kept = proceed-Kept s.pool t ran in
      record {
        inv = Step-Inv (Step.proceeds t ran) v.inv;
        awaited = record {
          workers = λ k w none_due asleep here.
              let (at, live, seen) =
                v.awaited.workers k w none_due asleep
                  (subst (λ ws. get_elem? ws k ≡ some w) kept.workers here) in
              (at, kept.stop ∙ live, subst (λ g. (g == w.seen) ≡ true) (sym kept.generation) seen);
          caller = λ asleep. absurd cc;
        };
      }
  Move-Sane {s} (Move.advances xs ys w w' t free among ran) v =
      let same = advance-Same s.pool w ran in
      record {
        inv = Step-Inv (Step.advances xs ys w w' t among ran) v.inv;
        awaited = record {
          workers = λ k u none_due asleep here. elim (get_elem?-middle xs ys w w' k) [
            | inl itself ↦ absurd cc
            | inr other ↦
                let (at, live, seen) =
                  v.awaited.workers k u none_due asleep
                    (subst (λ ws. get_elem? ws k ≡ some u) (sym among) (sym other ∙ here)) in
                (at, same.stop ∙ live, subst (λ g. (g == u.seen) ≡ true) (sym same.generation) seen)
          ];
          caller = λ asleep. elim (Bool-cases (is_last s.pool w.place)) [
            | inl last ↦ absurd cc
            | inr more ↦
                let (at, open_still) = v.awaited.caller (ground arith) in
                (same.caller ∙ at, advance-unfinished s.pool w ran more open_still)
          ];
        };
      }

  Drift-Sane : {s t : Sleeping E} → Drift s t → Sane s → Sane t
  unfolding doze
  Drift-Sane {s} (Drift.dozes_off xs ys w among at stuck) v = record {
    inv = v.inv;
    awaited = record {
      workers = λ k u none_due asleep here. elim (Bool-cases (k == length xs)) [
        | inl itself ↦
            let there : get_elem? s.pool.workers k ≡ some w =
              ap (get_elem? s.pool.workers) ((==_iff k (length xs)).0 itself)
              ∙ ap (λ ws. get_elem? ws (length xs)) among
              ∙ get_elem?-at xs ys w in
            subst (Waits s.pool) (some-injective _ _ (sym there ∙ here))
              (none-Waits s.pool w at stuck)
        | inr other ↦ v.awaited.workers k u none_due (ground arith) here
      ];
      caller = v.awaited.caller;
    };
  }
  Drift-Sane {s} (Drift.wakes j) v = record {
    inv = v.inv;
    awaited = record {
      workers = λ k u none_due asleep here. v.awaited.workers k u none_due (ground arith) here;
      caller = v.awaited.caller;
    };
  }
  Drift-Sane {s} (Drift.caller_dozes_off none_due at stuck) v = record {
    inv = v.inv;
    awaited = record {
      workers = v.awaited.workers;
      caller = λ asleep. none-CallerWaits s.pool at stuck;
    };
  }
  Drift-Sane Drift.caller_wakes v = record {
    inv = v.inv;
    awaited = record { workers = v.awaited.workers; caller = λ asleep. absurd cc };
  }

  Run-Sane : {s t : Sleeping E} → Run s t → Sane s → Sane t
  Run-Sane Run.rest v = v
  Run-Sane (Run.moved before last) v = Move-Sane last (Run-Sane before v)
  Run-Sane (Run.drifted before last) v = Drift-Sane last (Run-Sane before v)

  awake-Sane : (fn : Fn E) (count : ℕ) → suc count < u32_mod → Sane (awake fn count)
  unfolding awake
  awake-Sane fn count few = record {
    inv = start-Inv fn count few;
    awaited = record { workers = λ k w none_due asleep. absurd cc; caller = λ asleep. absurd cc };
  }

  -- A worker whose section can run does not sleep, unless a notice is due.
  awake_at :
      (s : Sleeping E)
      → Sane s
      → s.notice_due ≡ false
      → (xs : List (Thread E)) (w : Thread E) (ys : List (Thread E)) (p : Pool E × Thread E)
      → s.pool.workers ≡ xs ++ w ∷ ys
      → advance s.pool w ≡ some p
      → s.dozes (length xs) ≡ false
  awake_at s v none_due xs w ys p among ran = elim (Bool-cases (s.dozes (length xs))) [
    | inl asleep ↦
        let waits =
          v.awaited.workers (length xs) w none_due asleep
            (ap (λ ws. get_elem? ws (length xs)) among ∙ get_elem?-at xs ys w) in
        let stuck = Waits-none s.pool w waits in absurd cc
    | inr free ↦ free
  ]

  -- A thread that is awake can move while a call of `parallel_for` goes on.
  call_moves : (s : Sleeping E) → Sane s → s.pool.caller ≢ outside → (t : Sleeping E) × Move s t
  unfolding proceed proceed_at
  call_moves s v inside = elim (Bool-cases s.notice_due) [
    | inl due ↦ (notify_all s, Move.notifies due)
    | inr none_due ↦ go none_due v.inv
  ]
    where
      sleepless : s.pool.caller ≢ awaiting → s.caller_dozes ≡ false
      sleepless busy = elim (Bool-cases s.caller_dozes) [
        | inl asleep ↦ absurd (busy (v.awaited.caller asleep).0)
        | inr free ↦ free
      ]

      at_caller :
          s.notice_due ≡ false
          → Sound s.pool
          → Active s.pool
          → (c : Caller E) → s.pool.caller ≡ c
          → (t : Sleeping E) × Move s t
      at_caller none_due sound act outside at = absurd (inside at)
      at_caller none_due sound act working at =
          let t = call_first s.pool in
          (record s { pool = t }, Move.proceeds t none_due (sleepless λ e. cc) (rw at refl))
      at_caller none_due sound act (failing e) at =
          let t = record s.pool { error = keep_first s.pool.error e; caller = awaiting } in
          (record s { pool = t }, Move.proceeds t none_due (sleepless λ e. cc) (rw at refl))
      at_caller none_due sound act awaiting at =
          elim (Bool-cases (s.pool.finished == sub32 s.pool.threads 1)) [
            | inl all_done ↦
                let t = record s.pool { caller = outside } in
                let free : s.caller_dozes ≡ false = elim (Bool-cases s.caller_dozes) [
                  | inl asleep ↦ let (_, open_still) = v.awaited.caller asleep in absurd cc
                  | inr free ↦ free
                ] in
                (record s { pool = t }, Move.proceeds t none_due free (rw (at, all_done) refl))
            | inr more_to_come ↦
                let (xs, w, ys, (t, w'), among, ran) = worker_moves s.pool sound act more_to_come in
                (
                  advanced s w (record t { workers = xs ++ w' ∷ ys }),
                  Move.advances xs ys w w' t (awake_at s v none_due xs w ys (t, w') among ran) among
                      ran,
                )
          ]

      go : s.notice_due ≡ false → Inv s.pool → (t : Sleeping E) × Move s t
      go none_due (sound, active _ act) = at_caller none_due sound act s.pool.caller refl
      go none_due (sound, resting _ out _) = absurd (inside out)
      go none_due (sound, stopping _ out _) = absurd (inside out)

  -- While a call of `parallel_for` has not returned, whatever a pool of fewer than 2 ^ 32 threads
  -- did before, with workers and the caller falling asleep in their waits and waking up with and
  -- without a notice, some thread that is awake can run a section or give the notice that is due:
  -- no wake-up is missed.
  pub Run-moves :
      (fn : Fn E) (count : ℕ) {s : Sleeping E}
      → suc count < u32_mod
      → Run (awake fn count) s
      → s.pool.caller ≢ outside
      → (t : Sleeping E) × Move s t
  Run-moves fn count {s} few before inside =
      call_moves s (Run-Sane before (awake-Sane fn count few)) inside
