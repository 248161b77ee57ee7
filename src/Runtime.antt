-- ===== src/Runtime.antt =====
-- include/memvanta/runtime.hpp and src/runtime.cpp: a run that streams every slice of a store, with
-- the prefetcher at work beside it. Runtime/Shared.antt has the calls of the shared objects,
-- Runtime/Stream.antt the loops. `double` is the parameter `F`.
pub mod Visits
pub mod Limits
pub mod Outcome
pub mod Budget
pub mod Sampling
pub mod Reference
pub mod LookAhead
pub mod Interleaving
pub mod Triples
pub mod Shared
pub mod Hash
pub mod Statistics
pub mod Stream
mod Tests
use mem_vanta.Prelude.{
  ℕ, ◌/◌, max, min, ◌≡◌, refl, Bool, true, false, ◌&&◌, List, Option, none, some, ltb, ◌==◌,
  if◌then◌else◌, u64_max,
}
use mem_vanta.Prelude.Float.{Double, clamp}
use mem_vanta.TensorCache.{CacheStats, CacheError}
use mem_vanta.TensorCache
use mem_vanta.TensorStore.{StoreError}
use mem_vanta.Prefetcher.{Prefetcher, RequestError}
use mem_vanta.Prefetcher
use mem_vanta.PrefetchPolicy.{PolicyError, clamp_u32}

-- `unreadable` stands for the undefined behaviour of a read past the end of a buffer.
pub data RunError : Type 0 where
  already_started unreadable : RunError
  cache_failed prefetch_failed : CacheError → RunError
  request_failed : RequestError → RunError
  bad_slice : StoreError → RunError
  bad_window : PolicyError → RunError

pub record PrefetchStats : Type 0 where
  pub requests : ℕ
  pub useful : ℕ
  pub unused : ℕ
  pub late : ℕ
  pub eligible : ℕ
  pub skipped_budget : ℕ
  pub bytes_requested : ℕ
  pub bytes_useful : ℕ
  pub bytes_unused : ℕ
  pub max_inflight_bytes : ℕ
  pub max_pending_prefetch_bytes : ℕ
  pub max_prefetched_cache_bytes : ℕ
  pub adjustments_up : ℕ
  pub adjustments_down : ℕ
  pub final_depth : ℕ
  pub min_depth_seen : ℕ
  pub max_depth_seen : ℕ
  pub hot_set_budget_bytes : ℕ

module _ (F : Double) where
  open F use {D, decimal}

  pub record RunConfig : Type 0 where
    pub cache_bytes : ℕ
    pub passes : ℕ
    pub prefetch_depth : ℕ
    pub copy_cache : Bool
    pub adaptive_prefetch : Bool
    pub adaptive_min_depth : ℕ
    pub adaptive_max_depth : ℕ
    pub adaptive_window : ℕ
    pub prefetch_budget_bytes : ℕ
    pub adaptive_low_useful_ratio : D
    pub adaptive_high_useful_ratio : D

  pub record RunStats : Type 0 where
    pub seconds : D
    pub gib_per_s : D
    pub checksum : ℕ
    pub cache : CacheStats
    pub peak_rss_kb : ℕ
    pub prefetch : PrefetchStats

  -- The cache is the prefetcher's.
  pub record Runtime : Type 0 where
    pub cfg : RunConfig
    pub prefetcher : Prefetcher
    pub started : Bool

  -- What the constructor makes of the two ratios and of the budget.
  pub normalize_budget : RunConfig → RunConfig
  normalize_budget c =
      let low = clamp F c.adaptive_low_useful_ratio (decimal 0 0) (decimal 1 0) in
      record c {
        prefetch_budget_bytes =
            if c.copy_cache && ltb c.cache_bytes c.prefetch_budget_bytes
            then c.cache_bytes
            else c.prefetch_budget_bytes;
        adaptive_low_useful_ratio = low;
        adaptive_high_useful_ratio = clamp F c.adaptive_high_useful_ratio low (decimal 1 0);
      }

  -- What it makes of the settings of the adaptive mode.
  pub normalize_adaptive : RunConfig → RunConfig
  normalize_adaptive c =
      let least = if c.adaptive_min_depth == 0 then 1 else c.adaptive_min_depth in
      let most = if ltb c.adaptive_max_depth least then least else c.adaptive_max_depth in
      record c {
        adaptive_min_depth = least;
        adaptive_max_depth = most;
        adaptive_window = if c.adaptive_window == 0 then 1 else c.adaptive_window;
        prefetch_depth = clamp_u32 c.prefetch_depth least most;
      }

  pub normalize : RunConfig → RunConfig
  unfolding normalize_budget normalize_adaptive
  normalize c =
      let d = normalize_budget c in if d.adaptive_prefetch then normalize_adaptive d else d

  -- Runtime(store, cfg)
  pub make : RunConfig → Runtime
  make c = record {
    cfg = normalize c;
    prefetcher = Prefetcher.init (TensorCache.init c.cache_bytes);
    started = false;
  }

  -- The budget of the look-ahead, in bytes.
  pub configured_budget : RunConfig → ℕ
  configured_budget c =
      if c.prefetch_budget_bytes == 0
      then if c.copy_cache then c.cache_bytes else u64_max
      else c.prefetch_budget_bytes

  pub inflight_limit : RunConfig → ℕ
  unfolding configured_budget
  inflight_limit c =
      let adaptive_cache_limit =
        if c.copy_cache then max 1 (c.cache_bytes / 2) else configured_budget c in
      if c.adaptive_prefetch
      then min (configured_budget c) adaptive_cache_limit
      else configured_budget c
