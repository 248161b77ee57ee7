-- ===== src/Runtime/Limits.antt =====
-- src/runtime.cpp: what the constructor makes of a configuration.
use mem_vanta.Prelude.{◌/◌, ◌≤◌, ◌<◌, max, ◌≡◌, refl, true, arith, if-cases, u64_mod}
use mem_vanta.Prelude.Float.{Double}
use mem_vanta.Runtime.{
  RunConfig, normalize, normalize_budget, normalize_adaptive, inflight_limit, configured_budget,
}

module _ (F : Double) where
  -- What the constructor leaves as it is, and the words that it keeps.
  pub record Normal (c d : RunConfig F) : Type 0 where
    pub passes : d.passes ≡ c.passes
    pub cache_bytes : d.cache_bytes ≡ c.cache_bytes
    pub copy_cache : d.copy_cache ≡ c.copy_cache
    pub adaptive : d.adaptive_prefetch ≡ c.adaptive_prefetch
    pub budget : d.prefetch_budget_bytes ≤ c.prefetch_budget_bytes
    pub budget_fits : c.copy_cache ≡ true → d.prefetch_budget_bytes ≤ c.cache_bytes

  normalize_budget-Normal : (c : RunConfig F) → Normal c (normalize_budget F c)
  unfolding normalize_budget
  normalize_budget-Normal c = record {
    passes = refl;
    cache_bytes = refl;
    copy_cache = refl;
    adaptive = refl;
    budget = ground arith;
    budget_fits = λ h. ground arith;
  }

  pub normalize-Normal : (c : RunConfig F) → Normal c (normalize F c)
  unfolding normalize normalize_adaptive
  normalize-Normal c =
      if-cases (Normal c) (normalize_budget F c).adaptive_prefetch _ _
        (λ adapts.
          let v = normalize_budget-Normal c in
          record {
            passes = v.passes;
            cache_bytes = v.cache_bytes;
            copy_cache = v.copy_cache;
            adaptive = v.adaptive;
            budget = v.budget;
            budget_fits = v.budget_fits;
          })
        λ fixed. normalize_budget-Normal c

  pub inflight_limit-lt :
      (c : RunConfig F)
      → c.cache_bytes < u64_mod
      → c.prefetch_budget_bytes < u64_mod
      → inflight_limit F c < u64_mod
  unfolding inflight_limit configured_budget
  inflight_limit-lt c h k = ground arith

  -- The look-ahead of a runtime with a cache, as its constructor configures it, may reserve no
  -- more bytes than the cache holds, and in adaptive mode no more than half of them, or one.
  pub inflight_limit-normalize :
      (c : RunConfig F)
      → c.copy_cache ≡ true
      → (inflight_limit F (normalize F c) ≤ c.cache_bytes)
        × (c.adaptive_prefetch ≡ true
            → inflight_limit F (normalize F c) ≤ max 1 (c.cache_bytes / 2))
  unfolding inflight_limit configured_budget
  inflight_limit-normalize c copies =
      let v = normalize-Normal c in
      (
        ground (arith, v.copy_cache, v.cache_bytes, v.budget_fits copies),
        λ adapts. ground (arith, v.copy_cache, v.cache_bytes, v.adaptive),
      )
