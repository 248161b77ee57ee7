-- ===== src/PrefetchPolicy.antt =====
-- include/memvanta/prefetch_policy.hpp and src/prefetch_policy.cpp: the controller that adapts the
-- look-ahead depth, one observation window at a time. `double` is the parameter `F`.
pub mod Depth
pub mod Pauses
mod Tests
use mem_vanta.Prelude.{
  ℕ, ◌-◌, ◌/◌, ◌≤◌, max, Bool, true, false, ◌&&◌, ◌||◌, not, Result, ok, err, ltb, leb, ◌==◌,
  if◌then◌else◌, add32, sub32, u64_max,
}
use mem_vanta.Prelude.Float.{Double, clamp}

pub data PrefetchAdjustment : Type 0 where
  unchanged up down : PrefetchAdjustment

pub data PolicyError : Type 0 where
  bad_latency : PolicyError

-- std::clamp at `std::uint32_t`
abbrev pub clamp_u32 : ℕ → ℕ → ℕ → ℕ
clamp_u32 x lo hi = if ltb x lo then lo else if ltb hi x then hi else x

module _ (F : Double) where
  open F use {D, lt, le, mul, div, of_u64, decimal, infinity, is_finite}

  pub record Config : Type 0 where
    pub min_depth : ℕ
    pub max_depth : ℕ
    pub low_useful_ratio : D
    pub high_useful_ratio : D

  pub record Window : Type 0 where
    pub average_item_ms : D
    pub consumed : ℕ
    pub useful : ℕ
    pub late : ℕ
    pub budget_skips : ℕ
    pub evictions : ℕ
    pub peak_inflight_bytes : ℕ
    pub inflight_limit : ℕ

  pub record Decision : Type 0 where
    pub depth : ℕ
    pub adjustment : PrefetchAdjustment

  pub record Controller : Type 0 where
    pub config : Config
    pub depth : ℕ
    pub stable_windows : ℕ
    pub cooldown_windows : ℕ
    pub probe_from_depth : ℕ
    pub rejected_probe_from_depth : ℕ
    pub previous_evictions : ℕ
    pub previous_window_ms : D
    pub probe_reference_ms : D
    pub rejected_probe_reference_ms : D
    pub probing_up : Bool
    pub rejected_probe_blocked : Bool

  -- The bounds that the constructor of the controller settles on.
  normalize : Config → Config
  normalize c =
      let low = clamp F c.low_useful_ratio (decimal 0 0) (decimal 1 0) in
      let least = if c.min_depth == 0 then 1 else c.min_depth in
      record {
        min_depth = least;
        max_depth = if ltb c.max_depth least then least else c.max_depth;
        low_useful_ratio = low;
        high_useful_ratio = clamp F c.high_useful_ratio low (decimal 1 0);
      }

  pub make : Config → ℕ → Controller
  unfolding normalize
  make c initial_depth =
      let config = normalize c in
      let depth = clamp_u32 initial_depth config.min_depth config.max_depth in
      record {
        config = config;
        depth = depth;
        stable_windows = 0;
        cooldown_windows = 0;
        probe_from_depth = depth;
        rejected_probe_from_depth = 0;
        previous_evictions = 0;
        previous_window_ms = infinity;
        probe_reference_ms = decimal 0 0;
        rejected_probe_reference_ms = infinity;
        probing_up = false;
        rejected_probe_blocked = false;
      }

  -- What `observe` computes of a window before it decides.
  pub record Signals : Type 0 where
    pub high_usefulness : Bool
    pub needs_more_lookahead : Bool
    pub slower : Bool
    pub stable : Bool
    pub hard_pressure : Bool

  pub signals : Controller → Window → Signals
  signals c w =
      let have_usefulness = leb 2 w.consumed in
      let useful_ratio =
        if w.consumed == 0 then decimal 1 0 else div (of_u64 w.useful) (of_u64 w.consumed) in
      let low_usefulness = have_usefulness && lt useful_ratio c.config.low_useful_ratio in
      let high_usefulness = have_usefulness && le c.config.high_useful_ratio useful_ratio in
      let eviction_pressure =
        ltb c.previous_evictions w.evictions && (have_usefulness && not high_usefulness) in
      record {
        high_usefulness = high_usefulness;
        needs_more_lookahead = ltb 0 w.late;
        slower =
            is_finite c.previous_window_ms
            && lt (mul c.previous_window_ms (decimal 105 2)) w.average_item_ms;
        stable =
            is_finite c.previous_window_ms
            && le w.average_item_ms (mul c.previous_window_ms (decimal 101 2));
        hard_pressure = eviction_pressure || (not (w.budget_skips == 0) || low_usefulness);
      }

  -- The branch of a window that ends a probe.
  pub settle_probe : Controller → Window → Signals → Controller × PrefetchAdjustment
  settle_probe c w s =
      let rejected =
        s.hard_pressure || not (le w.average_item_ms (mul c.probe_reference_ms (decimal 1005 3))) in
      let back = ltb c.probe_from_depth c.depth in
      if rejected
      then (
        record c {
          depth = if back then c.probe_from_depth else c.depth;
          previous_window_ms = c.probe_reference_ms;
          rejected_probe_from_depth = c.probe_from_depth;
          rejected_probe_reference_ms = c.probe_reference_ms;
          rejected_probe_blocked = true;
          cooldown_windows = 2;
          probing_up = false;
          stable_windows = 0;
        },
        if back then down else unchanged,
      )
      else (
        record c {
          previous_window_ms = w.average_item_ms;
          cooldown_windows = 2;
          probing_up = false;
          stable_windows = 0;
        },
        unchanged,
      )

  -- The branch of a window under pressure.
  pub back_off : Controller → Window → Controller × PrefetchAdjustment
  back_off c w =
      let lower = ltb c.config.min_depth c.depth in
      (
        record c {
          depth = if lower then sub32 c.depth 1 else c.depth;
          previous_window_ms = w.average_item_ms;
          stable_windows = 0;
          cooldown_windows = 2;
        },
        if lower then down else unchanged,
      )

  -- The last branch up to the question of a probe: cooldown, stability, and the phase change that
  -- opens a rejected transition again.
  pub settle : Controller → Window → Signals → Controller
  settle c w s =
      let cooldown = if c.cooldown_windows == 0 then 0 else sub32 c.cooldown_windows 1 in
      let stable_windows =
        if s.stable && (s.high_usefulness && s.needs_more_lookahead)
        then add32 c.stable_windows 1
        else 0 in
      let changed =
        c.rejected_probe_blocked
        && (c.depth == c.rejected_probe_from_depth
            && (is_finite c.rejected_probe_reference_ms
                && lt (mul c.rejected_probe_reference_ms (decimal 105 2)) w.average_item_ms)) in
      record c {
        previous_window_ms = w.average_item_ms;
        rejected_probe_blocked = if changed then false else c.rejected_probe_blocked;
        cooldown_windows = if changed then max cooldown 2 else cooldown;
        stable_windows = if changed then 0 else stable_windows;
      }

  abbrev pub byte_headroom : Window → Bool
  byte_headroom w =
      (w.inflight_limit == u64_max)
      || (ltb 0 w.inflight_limit
          && ltb w.peak_inflight_bytes (w.inflight_limit - w.inflight_limit / 4))

  -- The condition of a probe, in the state that `settle` leaves.
  pub may_probe : Controller → Window → Signals → Bool
  may_probe c w s =
      leb 2 c.stable_windows
      && ((c.cooldown_windows == 0)
          && (s.high_usefulness
              && (s.needs_more_lookahead
                  && (byte_headroom w
                      && (not (c.rejected_probe_blocked && (c.depth == c.rejected_probe_from_depth))
                          && ltb c.depth c.config.max_depth)))))

  pub probe : Controller → Window → Controller
  probe c w = record c {
    probe_reference_ms = w.average_item_ms;
    probe_from_depth = c.depth;
    depth = add32 c.depth 1;
    probing_up = true;
    stable_windows = 0;
  }

  pub hold_or_probe : Controller → Window → Signals → Controller × PrefetchAdjustment
  hold_or_probe c w s =
      let d = settle c w s in if may_probe d w s then (probe d w, up) else (d, unchanged)

  pub adjust : Controller → Window → Signals → Controller × PrefetchAdjustment
  adjust c w s =
      if c.probing_up
      then settle_probe c w s
      else if s.hard_pressure || s.slower
      then back_off c w
      else hold_or_probe c w s

  -- A window whose latency is no finite non-negative number is refused, and changes nothing.
  pub observe : Controller → Window → Controller × Result PolicyError Decision
  observe c w =
      if not (is_finite w.average_item_ms) || lt w.average_item_ms (decimal 0 0)
      then (c, err bad_latency)
      else let (d, adjustment) = adjust c w (signals c w) in
        (
          record d { previous_evictions = w.evictions },
          ok (record { depth = d.depth; adjustment = adjustment }),
        )
