-- ===== src/WorkerPool/Phases.antt =====
-- src/worker_pool.cpp: every step keeps the pool in one of its phases.
use mem_vanta.Prelude.{
  ℕ, zero, suc, ◌<◌, min, ◌≡◌, ◌≢◌, refl, ap, sym, ◌∙◌, subst, true, Option, none, some, List, [],
  ◌∷◌, ◌++◌, arith, ◌==◌, if-cases, inl, All, length, add64, add64-lt, sub32, u32_mod, ==_iff,
}
use mathlib.Core.Option.{some-injective}
use mem_vanta.WorkerPool.{step_of}
use mem_vanta.WorkerPool.Protocol.{
  Fn, Thread, Caller, outside, working, awaiting, failing, Pool, advance, proceed, proceed_at,
  call_first, after_own, publish, shut_down, start_workers, start, Step, publishes, proceeds,
  advances, shuts_down, Steps, rest, more,
}
use mem_vanta.WorkerPool.Counts.{All-middle, All-insert, sum, settled}
use mem_vanta.WorkerPool.Invariant.{P, advance-P}
use mem_vanta.WorkerPool.Handover.{
  Sound, Phase, resting, active, stopping, IsSettled, IsIdle, Numbered, publish-Active,
}
use mem_vanta.WorkerPool.CallerSteps.{workers-IsSettled, call_first-Active, failing-Active}
use mem_vanta.WorkerPool.Sections.{
  Inv, Same, advance-Same, advanced-Sound, settled-advance, advance-IsIdle,
}

start_workers-rest :
    (E : Type 0) (k count : ℕ)
    → let ws = start_workers {E = E} k count in
      (length ws ≡ count) × Numbered k ws × All (IsSettled 0) ws
unfolding start_workers
start_workers-rest E k zero = (refl, tt, tt)
start_workers-rest E k (suc count) =
    let (sized, numbered, idle) = start_workers-rest E (suc k) count in
    (ap suc sized, (refl, numbered), ((refl, refl), idle))

module _ {E : Type 0} where
  proceed-Inv : (s t : Pool E) → Inv s → proceed s ≡ some t → Inv t
  unfolding proceed proceed_at
  proceed-Inv s t (v, resting live out idle) = rw out λ e. absurd cc
  proceed-Inv s t (v, stopping stopped out idle) = rw out λ e. absurd cc
  proceed-Inv s t (v, active inside act) = go s.caller refl
    where
      P : Option (Pool E) → Type 0
      P o = o ≡ some t → Inv t

      here : (p : Pool E) → Inv p → P (some p)
      here p h e = subst Inv (some-injective _ _ e) h

      sound :
          (error : Option E) (c : Caller E) (calls : List (ℕ × ℕ))
          → Sound (record s { error = error; caller = c; calls = calls })
      sound error c calls = record {
        sized = v.sized;
        few = v.few;
        word = v.word;
        numbered = v.numbered;
      }

      first : s.caller ≡ working → Inv (call_first s)
      first at =
          let own = call_first-Active s at act in
          unfold call_first in
          (
            if-cases Sound (min s.n (step_of s.n s.threads) == 0) _ _ (λ e. sound _ _ _)
                (λ e. sound _ _ _),
            active
                (if-cases (λ (p : Pool E). p.caller ≢ outside)
                  (min s.n (step_of s.n s.threads) == 0) _ _ (λ e at. cc)
                  (λ e. own_inside (s.fn 0 _)))
                own,
          )
        where
          own_inside : (r : Option E) → after_own r ≢ outside
          own_inside none e = cc
          own_inside (some x) e = cc

      through :
          s.finished ≡ sub32 s.threads 1 → sum (settled s.generation) s.workers ≡ length s.workers
      through e = unfold sub32 in omega (arith, e, act.count, v.sized, v.few)

      go : (c : Caller E) → s.caller ≡ c → P (proceed_at s c)
      go outside at = absurd (inside at)
      go working at = here (call_first s) (first at)
      go (failing e) at = here _ (sound _ _ _, active (λ e. cc) (failing-Active s e at act))
      go awaiting at =
          if-cases P (s.finished == sub32 s.threads 1) _ _
            (λ all_done. here _ (
              sound s.error outside s.calls,
              resting act.live refl (
                  workers-IsSettled s.generation s.workers
                    (through ((==_iff s.finished (sub32 s.threads 1)).0 all_done))),
            ))
            λ more_to_come e. absurd cc

  advance-Inv :
      (s t : Pool E) (xs ys : List (Thread E)) (w w' : Thread E)
      → s.workers ≡ xs ++ w ∷ ys
      → advance s w ≡ some (t, w')
      → Inv s
      → Inv (record t { workers = xs ++ w' ∷ ys })
  advance-Inv s t xs ys w w' among ran (v, phase) =
      let same = advance-Same s w ran in (advanced-Sound s t xs ys w w' among same v, go same phase)
    where
      go : Same s w t w' → Phase s → Phase (record t { workers = xs ++ w' ∷ ys })
      go same (resting live out idle) = absurd (
          cc (
            settled-advance s w live
              (All-middle (IsSettled s.generation) xs ys w
                (subst (All (IsSettled s.generation)) among idle)).0))
      go same (active inside act) =
          active (λ e. inside (sym same.caller ∙ e))
            (subst (P s xs ys w among act) ran (advance-P s xs ys w among act))
      go same (stopping stopped out idle) =
          let (idle_w, others) = All-middle IsIdle xs ys w (subst (All IsIdle) among idle) in
          stopping (same.stop ∙ stopped) (same.caller ∙ out)
            (All-insert IsIdle xs ys w' (advance-IsIdle s w stopped idle_w ran) others)

  published : (s : Pool E) (n : ℕ) (fn : Fn E) → Sound s → Sound (publish s n fn)
  unfolding publish
  published s n fn v = record {
    sized = v.sized;
    few = v.few;
    word = add64-lt s.generation 1;
    numbered = v.numbered;
  }

  settled-IsIdle : (g : ℕ) (ws : List (Thread E)) → All (IsSettled g) ws → All IsIdle ws
  settled-IsIdle g [] h = tt
  settled-IsIdle g (w ∷ ws) h = (inl h.0.0, settled-IsIdle g ws h.1)

  shut_down-Inv : (s : Pool E) → s.caller ≡ outside → Inv s → Inv (shut_down s)
  unfolding shut_down
  shut_down-Inv s out (v, phase) = (
    record { sized = v.sized; few = v.few; word = add64-lt s.generation 1; numbered = v.numbered },
    halted phase,
  )
    where
      halted : Phase s → Phase (record s { stop = true; generation = add64 s.generation 1 })
      halted (resting _ _ idle) = stopping refl out (settled-IsIdle s.generation s.workers idle)
      halted (active inside act) = absurd (inside out)
      halted (stopping _ _ idle) = stopping refl out idle

  pub Step-Inv : {s t : Pool E} → Step s t → Inv s → Inv t
  Step-Inv {s} (publishes n fn out live some_rounds several) (v, resting _ _ idle) =
      (published s n fn v, active (unfold publish in λ e. cc) (publish-Active s n fn v live idle))
  Step-Inv {s} (publishes n fn out live some_rounds several) (v, active inside act) =
      absurd (inside out)
  Step-Inv {s} (publishes n fn out live some_rounds several) (v, stopping stopped _ _) = absurd cc
  Step-Inv {s} (proceeds t e) h = proceed-Inv s t h e
  Step-Inv {s} (advances xs ys w w' t among ran) h = advance-Inv s t xs ys w w' among ran h
  Step-Inv {s} (shuts_down out) h = shut_down-Inv s out h

  pub Steps-Inv : {s t : Pool E} → Steps s t → Inv s → Inv t
  Steps-Inv rest h = h
  Steps-Inv (more first others) h = Steps-Inv others (Step-Inv first h)

  pub start-Inv : (fn : Fn E) (count : ℕ) → suc count < u32_mod → Inv (start fn count)
  unfolding start
  start-Inv fn count h =
      let (sized, numbered, idle) = start_workers-rest E 1 count in
      (
        record { sized = ap suc (sym sized); few = h; word = omega arith; numbered = numbered },
        resting refl refl idle,
      )
