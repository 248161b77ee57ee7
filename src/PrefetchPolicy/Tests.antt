-- ===== src/PrefetchPolicy/Tests.antt =====
-- The theorems on the controller at windows of thousandths of a millisecond.
use mem_vanta.Prelude.{◌≤◌, ◌<◌, ◌≡◌, refl, ◌≢◌, some, [], ◌∷◌, arith, ok, add32}
use mem_vanta.Prelude.Float.{milli}
use mem_vanta.PrefetchPolicy.{
  unchanged, up, Config, Window, Controller, make, observe, adjust, signals, hold_or_probe,
  may_probe, settle, probe, settle_probe,
}
use mem_vanta.PrefetchPolicy.Depth.{
  Reports, Inv, make-Inv, observe_all, observe-Reports, observe_all-bounds,
}
use mem_vanta.PrefetchPolicy.Pauses.{observe_after_change}

abbrev config : Config milli
config = record {
  min_depth = 1;
  max_depth = 8;
  low_useful_ratio = some 500;
  high_useful_ratio = some 900;
}

-- A useful window with a late item, and one with requests skipped for lack of budget.
abbrev late : Window milli
late = record {
  average_item_ms = some 2000;
  consumed = 10;
  useful = 10;
  late = 1;
  budget_skips = 0;
  evictions = 0;
  peak_inflight_bytes = 10;
  inflight_limit = 100;
}

abbrev skipped : Window milli
skipped = record late { budget_skips = 3 }

abbrev start : Controller milli
start = make milli config 2

observe_all-bounds_example :
    let c = observe_all milli start (late ∷ late ∷ late ∷ skipped ∷ []) in
    (0 < c.depth) × (c.config.min_depth ≤ c.depth) × (c.depth ≤ c.config.max_depth)
observe_all-bounds_example =
    observe_all-bounds milli config 2 (late ∷ late ∷ late ∷ skipped ∷ []) (omega arith)
      (omega arith)

start-Inv : Inv start
start-Inv = make-Inv milli config 2 (omega arith) (omega arith)

observe-Reports_example : Reports milli start (observe milli start skipped)
observe-Reports_example = observe-Reports milli start skipped start-Inv

-- A controller that has seen two stable windows.
abbrev ready : Controller milli
ready = record start { stable_windows = 1; previous_window_ms = some 2000 }

abbrev deeper : Controller milli
deeper = (observe milli ready late).0

abbrev settled : Controller milli
settled = (observe milli deeper late).0

observe-ready : observe milli ready late ≡ (deeper, ok (record { depth = 3; adjustment = up }))
unfolding observe make adjust signals hold_or_probe may_probe settle add32 probe
observe-ready = refl

observe-deeper :
    observe milli deeper late ≡ (settled, ok (record { depth = 3; adjustment = unchanged }))
unfolding observe make adjust signals hold_or_probe may_probe settle add32 probe settle_probe
observe-deeper = refl

up-ne-unchanged : up ≢ unchanged
up-ne-unchanged e = cc

observe_after_change_example : unchanged ≢ up
observe_after_change_example =
    observe_after_change milli ready deeper settled late late
      (record { depth = 3; adjustment = up }) (record { depth = 3; adjustment = unchanged })
      observe-ready up-ne-unchanged observe-deeper
