-- ===== src/PrefetchPolicy/Depth.antt =====
-- The depth that the controller chooses: its range, its steps, and the pauses between them.
use mem_vanta.Prelude.{
  ℕ, ◌+◌, ◌≤◌, ◌<◌, ◌≡◌, refl, sym, subst, true, false, ◌||◌, not, ◌⊎◌, inl, inr, List, [], ◌∷◌,
  arith, Result, ok, err, Bool-cases, if-cases, add32, sub32, u32_mod,
}
use mem_vanta.Prelude.Float.{Double}
use mem_vanta.PrefetchPolicy.{
  PrefetchAdjustment, unchanged, up, down, PolicyError, Config, Window, Decision, Controller,
  Signals, make, signals, settle_probe, back_off, settle, may_probe, probe, hold_or_probe, adjust,
  observe,
}

-- A move: the new depth follows from the old one and the adjustment that is reported.
abbrev pub Moves : ℕ → ℕ → PrefetchAdjustment → Type 0
Moves before after unchanged = after ≡ before
Moves before after up = after ≡ before + 1
Moves before after down = after + 1 ≡ before

module _ {F : Double} where
  pub record Inv (c : Controller F) : Type 0 where
    pub min_positive : 0 < c.config.min_depth
    pub word : c.config.max_depth < u32_mod
    pub above_min : c.config.min_depth ≤ c.depth
    pub below_max : c.depth ≤ c.config.max_depth
    pub probing :
        (c.probing_up ≡ false)
        ⊎ ((c.config.min_depth ≤ c.probe_from_depth) × (c.depth ≡ c.probe_from_depth + 1))

  -- What one window does.
  pub record Adjusted (c : Controller F) (r : Controller F × PrefetchAdjustment) : Type 0 where
    pub inv : Inv r.0
    pub moves : Moves c.depth r.0.depth r.1

module _ (F : Double) where
  pub make-Inv :
      (config : Config F) (initial : ℕ)
      → config.max_depth < u32_mod
      → config.min_depth < u32_mod
      → Inv (make F config initial)
  unfolding make
  make-Inv config initial h k = ground arith

  settle_probe-Adjusted :
      (c : Controller F) (w : Window F) (s : Signals F)
      → Inv c
      → c.probing_up ≡ true
      → Adjusted c (settle_probe F c w s)
  unfolding settle_probe
  settle_probe-Adjusted c w s v p = ground arith

  back_off-Adjusted :
      (c : Controller F) (w : Window F) → Inv c → c.probing_up ≡ false → Adjusted c (back_off F c w)
  unfolding back_off sub32
  back_off-Adjusted c w v p = ground arith

  settle-Inv :
      (c : Controller F) (w : Window F) (s : Signals F)
      → Inv c
      → c.probing_up ≡ false
      → Inv (settle F c w s)
        × ((settle F c w s).depth ≡ c.depth)
        × ((settle F c w s).probing_up ≡ false)
  unfolding settle
  settle-Inv c w s v p = ground arith

  probe-Adjusted :
      (c : Controller F) (w : Window F) (s : Signals F)
      → Inv c
      → may_probe F c w s ≡ true
      → Adjusted c (probe F c w, up)
  unfolding probe may_probe add32
  probe-Adjusted c w s v h = ground arith

  adjust-Adjusted :
      (c : Controller F) (w : Window F) (s : Signals F) → Inv c → Adjusted c (adjust F c w s)
  unfolding adjust hold_or_probe
  adjust-Adjusted c w s v =
      if-cases (Adjusted c) c.probing_up _ _ (settle_probe-Adjusted c w s v) λ p.
        if-cases (Adjusted c) (s.hard_pressure || s.slower) _ _ (λ _. back_off-Adjusted c w v p)
          λ _.
            let (inv, same, _) = settle-Inv c w s v p in
            if-cases (Adjusted c) (may_probe F (settle F c w s) w s) _ _
              (λ go. moved same (probe-Adjusted (settle F c w s) w s inv go))
              (λ _. record { inv = inv; moves = same })
    where
      moved :
          {d : Controller F} {r : Controller F × PrefetchAdjustment}
          → d.depth ≡ c.depth
          → Adjusted d r
          → Adjusted c r
      moved {d} {r} same a = record {
        inv = a.inv;
        moves = subst (λ n. Moves n r.0.depth r.1) same a.moves;
      }

  -- What `observe` tells the caller, and what it leaves behind.
  abbrev pub Reports : Controller F → Controller F × Result PolicyError (Decision F) → Type 0
  Reports c (d, ok r) = Inv d × (r.depth ≡ d.depth) × Moves c.depth r.depth r.adjustment
  Reports c (d, err e) = d ≡ c

  -- A controller with its depth in range refuses a window and changes nothing, or it stays in
  -- range, and the decision has the new depth, which differs from the old one as the adjustment
  -- says, by one at most.
  pub observe-Reports : (c : Controller F) (w : Window F) → Inv c → Reports c (observe F c w)
  unfolding observe
  observe-Reports c w v =
      elim (Bool-cases
        (not (F.is_finite w.average_item_ms) || F.lt w.average_item_ms (F.decimal 0 0))) [
          | inl bad ↦ rw bad refl
          | inr good ↦
              let a = adjust-Adjusted c w (signals F c w) v in
              rw good (
                record {
                  min_positive = a.inv.min_positive;
                  word = a.inv.word;
                  above_min = a.inv.above_min;
                  below_max = a.inv.below_max;
                  probing = a.inv.probing;
                },
                refl,
                a.moves,
              )
        ]

  observe-Inv : (c : Controller F) (w : Window F) → Inv c → Inv (observe F c w).0
  observe-Inv c w v = go (observe F c w) (observe-Reports c w v)
    where
      go : (r : Controller F × Result PolicyError (Decision F)) → Reports c r → Inv r.0
      go (d, ok r) h = h.0
      go (d, err e) h = subst Inv (sym h) v

  pub observe_all : Controller F → List (Window F) → Controller F
  observe_all c [] = c
  observe_all c (w ∷ ws) = observe_all (observe F c w).0 ws

  observe_all-Inv : (ws : List (Window F)) {c : Controller F} → Inv c → Inv (observe_all c ws)
  unfolding observe_all
  observe_all-Inv [] v = v
  observe_all-Inv (w ∷ ws) {c} v = observe_all-Inv ws (observe-Inv c w v)

  -- Whatever bounds, each a 32-bit word, and initial depth a controller is made with, and whatever
  -- windows it observes, its depth stays between the bounds that it settled on, and is at least
  -- one.
  pub observe_all-bounds :
      (config : Config F) (initial : ℕ) (ws : List (Window F))
      → config.max_depth < u32_mod
      → config.min_depth < u32_mod
      → let c = observe_all (make F config initial) ws in
        (0 < c.depth) × (c.config.min_depth ≤ c.depth) × (c.depth ≤ c.config.max_depth)
  observe_all-bounds config initial ws h k =
      let v = observe_all-Inv ws (make-Inv config initial h k) in
      (omega (arith, v), v.above_min, v.below_max)
