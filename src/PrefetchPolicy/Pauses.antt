-- ===== src/PrefetchPolicy/Pauses.antt =====
-- When the controller goes deeper: only on evidence, and never right after a change.
use mem_vanta.Prelude.{
  ◌-◌, ◌/◌, ◌≤◌, ◌<◌, ◌≡◌, refl, sym, ap, subst, Bool, true, false, ◌||◌, not, ◌⊎◌, inl, inr, ◌≢◌,
  arith, Result, ok, err, if-cases, sub32, u64_max, ◌∙◌,
}
use mem_vanta.Prelude.Float.{Double}
use mem_vanta.PrefetchPolicy.{
  PrefetchAdjustment, unchanged, up, PolicyError, Window, Decision, Controller, Signals, signals,
  settle_probe, back_off, settle, may_probe, probe, hold_or_probe, adjust, observe,
}

module _ (F : Double) where
  -- A probe under way, or two windows of cooldown.
  abbrev IsPaused : Controller F → Type 0
  IsPaused c = (c.probing_up ≡ true) ⊎ (c.cooldown_windows ≡ 2)

  settle_probe-IsPaused :
      (c : Controller F) (w : Window F) (s : Signals F) → IsPaused (settle_probe F c w s).0
  unfolding settle_probe
  settle_probe-IsPaused c w s = ground arith

  settle_probe-ne-up :
      (c : Controller F) (w : Window F) (s : Signals F) → (settle_probe F c w s).1 ≢ up
  unfolding settle_probe
  settle_probe-ne-up c w s = ground arith

  back_off-IsPaused : (c : Controller F) (w : Window F) → IsPaused (back_off F c w).0
  unfolding back_off
  back_off-IsPaused c w = inr refl

  back_off-ne-up : (c : Controller F) (w : Window F) → (back_off F c w).1 ≢ up
  unfolding back_off
  back_off-ne-up c w = ground arith

  -- One window of the cooldown is left, at least.
  may_probe-false :
      (c : Controller F) (w : Window F) (s : Signals F)
      → c.cooldown_windows ≡ 2
      → may_probe F (settle F c w s) w s ≡ false
  unfolding may_probe settle sub32
  may_probe-false c w s h = ground arith

  probe-IsPaused : (c : Controller F) (w : Window F) → IsPaused (probe F c w)
  unfolding probe
  probe-IsPaused c w = inl refl

  adjust-IsPaused :
      (c : Controller F) (w : Window F) (s : Signals F)
      → (adjust F c w s).1 ≢ unchanged
      → IsPaused (adjust F c w s).0
  unfolding adjust hold_or_probe
  adjust-IsPaused c w s =
      if-cases P c.probing_up _ _ (λ _ _. settle_probe-IsPaused c w s)
        λ _.
          if-cases P (s.hard_pressure || s.slower) _ _ (λ _ _. back_off-IsPaused c w)
            λ _.
              if-cases P (may_probe F (settle F c w s) w s) _ _
                (λ _ _. probe-IsPaused (settle F c w s) w) (λ _ h. absurd (h refl))
    where
      P : Controller F × PrefetchAdjustment → Type 0
      P r = r.1 ≢ unchanged → IsPaused r.0

  adjust-ne-up :
      (c : Controller F) (w : Window F) (s : Signals F) → IsPaused c → (adjust F c w s).1 ≢ up
  unfolding adjust hold_or_probe
  adjust-ne-up c w s (inl p) = rw p (settle_probe-ne-up _ w s)
  adjust-ne-up c w s (inr h) =
      if-cases P c.probing_up _ _ (λ _. settle_probe-ne-up c w s)
        λ _.
          if-cases P (s.hard_pressure || s.slower) _ _ (λ _. back_off-ne-up c w)
            λ _.
              if-cases P (may_probe F (settle F c w s) w s) _ _
                (λ go. absurd (cc (may_probe-false c w s h))) (λ _. λ e. cc)
    where
      P : Controller F × PrefetchAdjustment → Type 0
      P r = r.1 ≢ up

  -- What the signals of a window stand on.
  calm_signals :
      (c : Controller F) (w : Window F)
      → ((signals F c w).hard_pressure || (signals F c w).slower) ≡ false
      → (signals F c w).high_usefulness ≡ true
      → (signals F c w).needs_more_lookahead ≡ true
      → (2 ≤ w.consumed) × (0 < w.late) × (w.budget_skips ≡ 0)
  unfolding signals
  calm_signals c w calm useful late = ground arith

  may_probe-settle :
      (c : Controller F) (w : Window F) (s : Signals F)
      → may_probe F (settle F c w s) w s ≡ true
      → (s.high_usefulness ≡ true)
        × (s.needs_more_lookahead ≡ true)
        × (c.depth < c.config.max_depth)
        × ((w.inflight_limit ≡ u64_max)
            ⊎ (w.peak_inflight_bytes < w.inflight_limit - w.inflight_limit / 4))
  unfolding may_probe settle
  may_probe-settle c w s h = ground arith

  abbrev Evidence : Controller F → Window F → Type 0
  Evidence c w =
      (2 ≤ w.consumed)
      × (0 < w.late)
      × (w.budget_skips ≡ 0)
      × (c.depth < c.config.max_depth)
      × ((w.inflight_limit ≡ u64_max)
          ⊎ (w.peak_inflight_bytes < w.inflight_limit - w.inflight_limit / 4))

  adjust_up :
      (c : Controller F) (w : Window F) → (adjust F c w (signals F c w)).1 ≡ up → Evidence c w
  unfolding adjust hold_or_probe
  adjust_up c w =
      if-cases P c.probing_up _ _ (λ _ e. absurd (settle_probe-ne-up c w (signals F c w) e))
        λ _.
          if-cases P ((signals F c w).hard_pressure || (signals F c w).slower) _ _
            (λ _ e. absurd (back_off-ne-up c w e))
            λ calm.
              if-cases P (may_probe F (settle F c w (signals F c w)) w (signals F c w)) _ _
                (λ go _. probed calm go) (λ _ e. cc)
    where
      P : Controller F × PrefetchAdjustment → Type 0
      P r = r.1 ≡ up → Evidence c w

      probed :
          ((signals F c w).hard_pressure || (signals F c w).slower) ≡ false
          → may_probe F (settle F c w (signals F c w)) w (signals F c w) ≡ true
          → Evidence c w
      probed calm go =
          let (useful, late, below, headroom) = may_probe-settle c w (signals F c w) go in
          let (consumed, late', skips) = calm_signals c w calm useful late in
          (consumed, late', skips, below, headroom)

  abbrev is_bad : Window F → Bool
  is_bad w = not (F.is_finite w.average_item_ms) || F.lt w.average_item_ms (F.decimal 0 0)

  adjustment_of : Result PolicyError (Decision F) → PrefetchAdjustment
  adjustment_of (ok r) = r.adjustment
  adjustment_of (err e) = unchanged

  -- What `observe` returns for a window that it accepts.
  accepted : Controller F → Window F → Controller F × Result PolicyError (Decision F)
  accepted c w =
      let (d, adjustment) = adjust F c w (signals F c w) in
      (
        record d { previous_evictions = w.evictions },
        ok (record { depth = d.depth; adjustment = adjustment }),
      )

  observe_ok :
      (c : Controller F) (w : Window F) {d : Controller F} {r : Decision F}
      → observe F c w ≡ (d, ok r)
      → (record (adjust F c w (signals F c w)).0 { previous_evictions = w.evictions } ≡ d)
        × ((adjust F c w (signals F c w)).1 ≡ r.adjustment)
  unfolding observe accepted adjustment_of
  observe_ok c w {d} {r} h =
      if-cases P (is_bad w) _ _ (λ _ e. absurd (cc (ap (λ p. p.1) e)))
        (λ _ e. (ap (λ p. p.0) e, ap (λ p. adjustment_of p.1) e)) h
    where
      P : Controller F × Result PolicyError (Decision F) → Type 0
      P x =
          x ≡ (d, ok r) → ((accepted c w).0 ≡ d) × ((adjust F c w (signals F c w)).1 ≡ r.adjustment)

  -- If two windows in a row are accepted and the first changed the depth, the second does not make
  -- it deeper.
  pub observe_after_change :
      (c d e : Controller F) (w w' : Window F) (r r' : Decision F)
      → observe F c w ≡ (d, ok r)
      → r.adjustment ≢ unchanged
      → observe F d w' ≡ (e, ok r')
      → r'.adjustment ≢ up
  observe_after_change c d e w w' r r' h changed k deeper =
      let (state, adjustment) = observe_ok c w h in
      let (_, adjustment') = observe_ok d w' k in
      adjust-ne-up d w' (signals F d w')
        (subst IsPaused state
          (adjust-IsPaused c w (signals F c w) (λ q. changed (sym adjustment ∙ q))))
        (adjustment' ∙ deeper)

  -- If a window makes the controller go deeper, then at least two items were consumed in it, at
  -- least one came late, no request was skipped for lack of budget, the depth was below its
  -- maximum, and the peak of in-flight bytes was below the limit less its quarter, unless the
  -- limit is the greatest 64-bit word.
  pub observe_up :
      (c d : Controller F) (w : Window F) (r : Decision F)
      → observe F c w ≡ (d, ok r)
      → r.adjustment ≡ up
      → (2 ≤ w.consumed)
        × (0 < w.late)
        × (w.budget_skips ≡ 0)
        × (c.depth < c.config.max_depth)
        × ((w.inflight_limit ≡ u64_max)
            ⊎ (w.peak_inflight_bytes < w.inflight_limit - w.inflight_limit / 4))
  observe_up c d w r h deeper = adjust_up c w ((observe_ok c w h).1 ∙ deeper)
