-- ===== src/Runtime/Stream.antt =====
-- src/runtime.cpp: the loops of `run_stream`. Maps from ids are association lists;
-- `std::unordered_map` promises no order of its entries.
use mem_vanta.Prelude.{
  ℕ, zero, suc, ◌+◌, Bool, true, false, ◌||◌, ◌&&◌, Option, none, some, List, [], ◌∷◌, Result, err,
  leb, ◌==◌, if◌then◌else◌, get_elem?, add64, add32, u64_max,
}
use mem_vanta.Prelude.Dict.{find, contains}
use mem_vanta.Prelude.Float.{Double}
use mem_vanta.TensorStore.{TensorStore, TensorSlice, count}
use mem_vanta.PrefetchPolicy.{PrefetchAdjustment, up, down, unchanged, Controller, Decision}
use mem_vanta.PrefetchPolicy
use mem_vanta.Runtime.{
  RunError, already_started, bad_window, RunConfig, RunStats, Runtime, inflight_limit,
}
use mem_vanta.Runtime.Hash.{hash, seed}
use mem_vanta.Runtime.Shared.{
  Run, pure, ◌>>=◌, ◌>>◌, lift, at, advise, cache_contains, pending, pending_bytes, evictions,
  request, load, stop, rethrow_if_failed, reads,
}
use mem_vanta.Runtime.Statistics.{
  Sums, Look, no_counters, no_stats, saturate, over_budget, count_useful, count_late,
  forget_request, keep_late, peak_at, count_eligible, count_skip, count_request, apply_decision,
  count_item, count_unused, clear,
}

module _ (F : Double) where
  open F use {D, div, of_u64, decimal}

  module _ (store : TensorStore) (mapped : ℕ → ℕ) (pace : ℕ → ℕ) (cfg : RunConfig F) where
    -- The loop over `late_pending`.
    unfoldable pub drop_arrived : List (ℕ × ℕ) → Run (List (ℕ × ℕ))
    drop_arrived [] = pure []
    drop_arrived ((id, bytes) ∷ m) = do
      waits ← pending store mapped pace id
      rest ← drop_arrived m
      pure (if waits then (id, bytes) ∷ rest else rest)

    unfoldable pub drop_late : Look F → Run (Look F)
    drop_late l =
        if cfg.copy_cache
        then (drop_arrived l.late_pending >>= λ m. pure (record l { late_pending = m }))
        else pure l

    -- Whether the copy of a slice has arrived.
    unfoldable pub ready : ℕ → Run Bool
    ready i = if cfg.copy_cache then cache_contains store mapped pace i else pure true

    -- The turn of a slice that was asked for `bytes`.
    unfoldable pub meet : ℕ → ℕ → Look F → Run (Look F)
    meet i bytes l = do
      there ← ready i
      met ←
          (if there
            then pure (count_useful F bytes l)
            else (pending store mapped pace i >>= λ waits.
                pure (keep_late F i bytes waits (count_late F bytes l))))
      pure (forget_request F i bytes met)

    unfoldable pub meet_request : ℕ → Look F → Run (Look F)
    meet_request i l = elim (find i l.requested) [ none ↦ pure l | some bytes ↦ meet i bytes l ]

    unfoldable pub reserved_bytes : Look F → Run ℕ
    reserved_bytes l =
        if cfg.copy_cache then pending_bytes store mapped pace else pure l.inflight_bytes

    -- Whether a slice that is not asked for needs no request.
    unfoldable pub on_its_way : ℕ → Look F → Run Bool
    on_its_way id l =
        if cfg.copy_cache
        then (cache_contains store mapped pace id >>= λ there.
            pure (there || contains id l.late_pending))
        else pure false

    unfoldable pub ask : ℕ → Run (Unit {0})
    ask id = if cfg.copy_cache then request store mapped pace id else advise store mapped pace id

    -- A slice ahead, by its size.
    unfoldable pub admit : ℕ → ℕ → Look F × ℕ → Run (Look F × ℕ)
    admit id bytes (l, reserved) =
        if over_budget (inflight_limit F cfg) reserved bytes
        then pure (count_skip F (count_eligible F l), reserved)
        else (ask id
            >> pure (
              peak_at F (saturate reserved bytes) (count_request F id bytes (count_eligible F l)),
              saturate reserved bytes,
            ))

    -- One round of the look-ahead.
    unfoldable pub consider : ℕ → Look F × ℕ → Run (Look F × ℕ)
    consider id (l, reserved) =
        if contains id l.requested
        then pure (l, reserved)
        else (on_its_way id l >>= λ known.
            if known
            then pure (l, reserved)
            else (at store mapped pace id >>= λ s. admit id s.bytes (l, reserved)))

    -- The look-ahead from distance `d`, on the number of rounds that are left.
    unfoldable pub look_ahead : ℕ → ℕ → ℕ → Look F × ℕ → Run (Look F × ℕ)
    look_ahead zero i d state = pure state
    look_ahead (suc n) i d state =
        if leb (count store) (add32 i d)
        then pure state
        else (consider (add32 i d) state >>= λ next. look_ahead n i (add32 d 1) next)

    -- A slice as the consumer reads it.
    unfoldable pub fetch : ℕ → TensorSlice → Run (ℕ → Option ℕ)
    fetch i s =
        if cfg.copy_cache
        then (load store mapped pace i s.bytes >>= λ buffer.
            (advise store mapped pace i >> pure (get_elem? buffer)))
        else (advise store mapped pace i >> pure λ j. some (mapped (s.offset + j)))

    unfoldable pub consume : ℕ → Sums → Run Sums
    consume i sums = do
      s ← at store mapped pace i
      u ← fetch i s
      checksum ← lift (λ e. e) (hash s.bytes u sums.checksum)
      if cfg.copy_cache then pure tt else advise store mapped pace i
      pure (record { checksum = checksum; total = add64 sums.total s.bytes })

    unfoldable pub observe : Look F → ℕ → Run (Look F)
    observe l evicted =
        let (controller, r) = PrefetchPolicy.observe F l.controller (record {
          average_item_ms = div l.window.ms (of_u64 l.window.items);
          consumed = l.window.consumed;
          useful = l.window.useful;
          late = l.window.late;
          budget_skips = l.window.budget_skips;
          evictions = evicted;
          peak_inflight_bytes = l.window.peak_inflight;
          inflight_limit = inflight_limit F cfg;
        }) in
        (lift bad_window r >>= λ d. pure (apply_decision F controller d l))

    -- The end of an item that took `ms`.
    unfoldable pub end_item : D → Look F → Run (Look F)
    end_item ms l =
        let timed = count_item F ms l in
        if cfg.adaptive_prefetch && leb cfg.adaptive_window timed.window.items
        then (evictions store mapped pace >>= λ evicted. observe timed evicted)
        else pure timed

    -- The look-ahead of one item, up to the load of its slice.
    unfoldable pub prepare : ℕ → Look F → Run (Look F)
    prepare i l = do
      waiting ← drop_late l
      met ← meet_request i waiting
      reserved ← reserved_bytes met
      ahead ← look_ahead met.depth i 1 (peak_at F reserved met, reserved)
      pure ahead.0

    -- What a pass asked for and did not come to.
    unfoldable pub drop_requested : List (ℕ × ℕ) → Look F → Run (Look F)
    drop_requested [] l = pure l
    drop_requested ((id, bytes) ∷ m) l = do
      waits ← (if cfg.copy_cache then pending store mapped pace id else pure false)
      drop_requested m (keep_late F id bytes waits (count_unused F bytes l))

    -- The variables before the first pass.
    unfoldable pub start_look : Look F
    start_look =
        let limit = inflight_limit F cfg in
        record {
          depth = cfg.prefetch_depth;
          controller =
              PrefetchPolicy.make F
                (record {
                  min_depth = cfg.adaptive_min_depth;
                  max_depth = cfg.adaptive_max_depth;
                  low_useful_ratio = cfg.adaptive_low_useful_ratio;
                  high_useful_ratio = cfg.adaptive_high_useful_ratio;
                })
                cfg.prefetch_depth;
          pf = record (no_stats F) {
            final_depth = cfg.prefetch_depth;
            min_depth_seen = cfg.prefetch_depth;
            max_depth_seen = cfg.prefetch_depth;
            hot_set_budget_bytes = if limit == u64_max then 0 else limit;
          };
          requested = [];
          late_pending = [];
          inflight_bytes = 0;
          window = no_counters F;
        }

    module _ (item_ms : ℕ → ℕ → D) where
      unfoldable pub item : ℕ → ℕ → Look F × Sums → Run (Look F × Sums)
      item p i (l, sums) = do
        ahead ← prepare i l
        after ← consume i sums
        ended ← end_item (item_ms p i) ahead
        pure (ended, after)

      -- The items from `i` on, of which `n` are left.
      unfoldable pub items : ℕ → ℕ → ℕ → Look F × Sums → Run (Look F × Sums)
      items zero p i state = pure state
      items (suc n) p i state = item p i state >>= λ next. items n p (suc i) next

      unfoldable pub pass : ℕ → Look F × Sums → Run (Look F × Sums)
      pass p (l, sums) = do
        done ← items (count store) p 0 (clear F l, sums)
        dropped ← drop_requested done.0.requested done.0
        pure (clear F dropped, done.1)

      -- The passes from `p` on, of which `n` are left.
      unfoldable pub passes : ℕ → ℕ → Look F × Sums → Run (Look F × Sums)
      passes zero p state = pure state
      passes (suc n) p state = pass p state >>= λ next. passes n (suc p) next

      -- From the first pass to the result; `seconds` and `rss_kb` are what the machine measures.
      unfoldable pub stream : D → ℕ → Run (RunStats F)
      stream seconds rss_kb = do
        done ← passes cfg.passes 0 (start_look, record { checksum = seed; total = 0 })
        stop store mapped pace
        rethrow_if_failed store mapped pace
        peak ← reads store mapped pace λ s. s.peak_pending_bytes
        prefetched ← reads store mapped pace λ s. s.cache.peak_prefetched_used
        stats ← reads store mapped pace λ s. s.cache.stats
        pure (record {
          seconds = seconds;
          gib_per_s = div (div (of_u64 done.1.total) (decimal 1073741824 0)) seconds;
          checksum = done.1.checksum;
          cache = stats;
          peak_rss_kb = rss_kb;
          prefetch = record done.0.pf {
            max_pending_prefetch_bytes = peak;
            max_prefetched_cache_bytes = prefetched;
            final_depth = done.0.depth;
          };
        })

  -- `run_stream`
  unfoldable pub run_stream :
      TensorStore
      → (ℕ → ℕ)
      → (ℕ → ℕ)
      → (ℕ → ℕ → D)
      → Runtime F
      → D
      → ℕ
      → Runtime F × Result RunError (RunStats F)
  run_stream store mapped pace item_ms rt seconds rss_kb =
      if rt.started
      then (rt, err already_started)
      else let (w, r) =
          stream store mapped pace rt.cfg item_ms seconds rss_kb
            (record { shared = rt.prefetcher; ticks = 0 }) in
        (record rt { prefetcher = w.shared; started = true }, r)
