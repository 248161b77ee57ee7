-- ===== src/Runtime/Statistics.antt =====
-- src/runtime.cpp: the variables of `run_stream`, and how its statistics and the state of the
-- look-ahead change. What the checksum is computed from is apart from that state.
use mem_vanta.Prelude.{
  ℕ, max, min, Bool, ◌||◌, ◌&&◌, not, List, [], ltb, ◌==◌, if◌then◌else◌, add64, sub64, add32,
  u64_max,
}
use mem_vanta.Prelude.Dict.{emplace, erase_key}
use mem_vanta.Prelude.Float.{Double}
use mem_vanta.PrefetchPolicy.{PrefetchAdjustment, up, down, unchanged, Controller, Decision}
use mem_vanta.Runtime.{PrefetchStats}

pub record Sums : Type 0 where
  pub checksum : ℕ
  pub total : ℕ

-- The `window_` variables.
pub record Counters {ℓ} (D : Type ℓ) : Type ℓ where
  pub ms : D
  pub items : ℕ
  pub consumed : ℕ
  pub useful : ℕ
  pub late : ℕ
  pub budget_skips : ℕ
  pub peak_inflight : ℕ

-- The sum that stops at the largest word.
abbrev pub saturate : ℕ → ℕ → ℕ
saturate reserved bytes =
    if ltb (sub64 u64_max reserved) bytes then u64_max else add64 reserved bytes

-- Whether a slice does not fit the budget.
abbrev pub over_budget : ℕ → ℕ → ℕ → Bool
over_budget limit reserved bytes =
    not (limit == u64_max) && (ltb limit bytes || ltb (sub64 limit bytes) reserved)

module _ (F : Double) where
  open F use {D, add, div, of_u64, decimal}

  pub record Look : Type 0 where
    pub depth : ℕ
    pub controller : Controller F
    pub pf : PrefetchStats
    pub requested : List (ℕ × ℕ)
    pub late_pending : List (ℕ × ℕ)
    pub inflight_bytes : ℕ
    pub window : Counters D

  abbrev pub no_counters : Counters D
  no_counters = record {
    ms = decimal 0 0;
    items = 0;
    consumed = 0;
    useful = 0;
    late = 0;
    budget_skips = 0;
    peak_inflight = 0;
  }

  abbrev pub no_stats : PrefetchStats
  no_stats = record {
    requests = 0;
    useful = 0;
    unused = 0;
    late = 0;
    eligible = 0;
    skipped_budget = 0;
    bytes_requested = 0;
    bytes_useful = 0;
    bytes_unused = 0;
    max_inflight_bytes = 0;
    max_pending_prefetch_bytes = 0;
    max_prefetched_cache_bytes = 0;
    adjustments_up = 0;
    adjustments_down = 0;
    final_depth = 0;
    min_depth_seen = 0;
    max_depth_seen = 0;
    hot_set_budget_bytes = 0;
  }

  -- A slice that was asked for and is in the cache when its turn comes.
  pub count_useful : ℕ → Look → Look
  count_useful bytes l = record l {
    pf = record l.pf { useful = add64 l.pf.useful 1; bytes_useful = add64 l.pf.bytes_useful bytes };
    window = record l.window { useful = add64 l.window.useful 1 };
  }

  -- One that is not.
  pub count_late : ℕ → Look → Look
  count_late bytes l = record l {
    pf = record l.pf {
      unused = add64 l.pf.unused 1;
      late = add64 l.pf.late 1;
      bytes_unused = add64 l.pf.bytes_unused bytes;
    };
    window = record l.window { late = add64 l.window.late 1 };
  }

  -- The lines after either.
  pub forget_request : ℕ → ℕ → Look → Look
  forget_request i bytes l = record l {
    window = record l.window { consumed = add64 l.window.consumed 1 };
    inflight_bytes = sub64 l.inflight_bytes (min l.inflight_bytes bytes);
    requested = erase_key i l.requested;
  }

  pub keep_late : ℕ → ℕ → Bool → Look → Look
  keep_late id bytes waits l =
      if waits then record l { late_pending = emplace id bytes l.late_pending } else l

  pub peak_at : ℕ → Look → Look
  peak_at reserved l = record l {
    window = record l.window { peak_inflight = max l.window.peak_inflight reserved };
    pf = record l.pf { max_inflight_bytes = max l.pf.max_inflight_bytes reserved };
  }

  pub count_eligible : Look → Look
  count_eligible l = record l { pf = record l.pf { eligible = add64 l.pf.eligible 1 } }

  pub count_skip : Look → Look
  count_skip l = record l {
    pf = record l.pf { skipped_budget = add64 l.pf.skipped_budget 1 };
    window = record l.window { budget_skips = add64 l.window.budget_skips 1 };
  }

  pub count_request : ℕ → ℕ → Look → Look
  count_request id bytes l = record l {
    requested = emplace id bytes l.requested;
    inflight_bytes = add64 l.inflight_bytes bytes;
    pf = record l.pf {
      requests = add64 l.pf.requests 1;
      bytes_requested = add64 l.pf.bytes_requested bytes;
    };
  }

  pub count_adjustment : PrefetchAdjustment → PrefetchStats → PrefetchStats
  count_adjustment up pf = record pf { adjustments_up = add64 pf.adjustments_up 1 }
  count_adjustment down pf = record pf { adjustments_down = add64 pf.adjustments_down 1 }
  count_adjustment unchanged pf = pf

  -- The decision of the controller, and the next window.
  pub apply_decision : Controller F → Decision F → Look → Look
  unfolding count_adjustment
  apply_decision controller d l =
      let pf = count_adjustment d.adjustment l.pf in
      record l {
        depth = d.depth;
        controller = controller;
        window = no_counters;
        pf = record pf {
          min_depth_seen = min pf.min_depth_seen d.depth;
          max_depth_seen = max pf.max_depth_seen d.depth;
        };
      }

  pub count_item : D → Look → Look
  count_item ms l = record l {
    window = record l.window { ms = add l.window.ms ms; items = add32 l.window.items 1 };
  }

  pub count_unused : ℕ → Look → Look
  count_unused bytes l = record l {
    pf = record l.pf { unused = add64 l.pf.unused 1; bytes_unused = add64 l.pf.bytes_unused bytes };
  }

  abbrev pub clear : Look → Look
  clear l = record l { requested = []; inflight_bytes = 0 }
