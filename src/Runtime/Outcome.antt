-- ===== src/Runtime/Outcome.antt =====
-- src/runtime.cpp: what `run_stream` returns, from a fresh runtime.
use mem_vanta.Prelude.{
  ℕ, ◌*◌, ◌%◌, ◌^◌, u32_mod, ◌≤◌, ◌<◌, ◌≡◌, ap, ◌∙◌, true, Result, ok, err, arith, u64_mod, subst,
}
use mem_vanta.Prelude.Float.{Double}
use mem_vanta.TensorCache
use mem_vanta.TensorStore.{TensorStore}
use mem_vanta.TensorStore
use mem_vanta.TensorStore.Slices.{IsStore}
use mem_vanta.Prefetcher
use mem_vanta.Prefetcher.{Prefetcher}
use mem_vanta.Runtime.{RunConfig, RunStats, RunError, make, normalize, inflight_limit}
use mem_vanta.Runtime.Hash.{seed}
use mem_vanta.Runtime.Shared.{World, reads}
use mem_vanta.Runtime.Triples.{Ends, Triple, is_defined, pure-Triple, bind-Triple, given-Triple}
use mem_vanta.Runtime.Budget.{Good-peak, init-Good, stop-Good, rethrow_if_failed-Good}
use mem_vanta.Runtime.Statistics.{Sums}
use mem_vanta.Runtime.Stream.{stream, run_stream}
use mem_vanta.Runtime.LookAhead.{Ready, reads-Ready, reads-Keeps}
use mem_vanta.Runtime.Sampling.{passes-Sampled}
use mem_vanta.Runtime.Reference.{visit_passes}
use mem_vanta.Runtime.Visits.{make-IsStore, visit_passes-total}
use mem_vanta.Runtime.Limits.{normalize-Normal, inflight_limit-lt}
use mem_vanta.TensorStore.Chunks.{Tiles, div_ceil}

-- What the statistics of a run over a file say: the checksum is that of every 4096th byte of each
-- slice, in order, as often as there are passes, the speed is that of the file's size times the
-- passes, and the prefetcher had never more pending than the budget.
pub record Reports (F : Double) (store : TensorStore) (mapped : ℕ → ℕ) (size passes limit : ℕ)
    (stats : RunStats F) : Type 0 where
  pub checksum :
      stats.checksum
      ≡ (visit_passes mapped passes (record { checksum = seed; total = 0 }) store.slices).checksum
  pub speed :
      stats.gib_per_s
      ≡ F.div (F.div (F.of_u64 ((passes * size) % u64_mod)) (F.decimal 1073741824 0)) stats.seconds
  pub pending : stats.prefetch.max_pending_prefetch_bytes ≤ limit

-- A run throws for no undefined behaviour, or reports this.
abbrev pub IsOutcome :
    (F : Double) → TensorStore → (ℕ → ℕ) → ℕ → ℕ → ℕ → Result RunError (RunStats F) → Type 0
IsOutcome F store mapped size passes limit (ok stats) =
    Reports F store mapped size passes limit stats
IsOutcome F store mapped size passes limit (err e) = is_defined e ≡ true

module _ (F : Double) (store : TensorStore) (mapped : ℕ → ℕ) (pace : ℕ → ℕ) (item_ms : ℕ → ℕ → F.D)
    (seconds : F.D) (rss_kb : ℕ) (size chunk : ℕ) (v : IsStore store)
    (tiles : Tiles chunk size 0 store.slices) where
  module _ (cap : ℕ) (word : cap < u64_mod) (cfg : RunConfig F)
      (limit_word : inflight_limit F cfg < u64_mod) where
    stream-Reports :
        Triple
          (Ready F store mapped cap word pace cfg)
          (stream F store mapped pace cfg item_ms seconds rss_kb)
          (λ stats s. Reports F store mapped size cfg.passes (inflight_limit F cfg) stats)
    unfolding stream
    stream-Reports =
        bind-Triple
          (passes-Sampled F store mapped cap word pace cfg limit_word v item_ms cfg.passes 0 _)
          λ done. given-Triple λ same.
            bind-Triple (stop-Good store mapped cap word (inflight_limit F cfg) cfg.copy_cache pace)
              λ stopped.
                bind-Triple
                  (rethrow_if_failed-Good store mapped cap word (inflight_limit F cfg)
                    cfg.copy_cache pace)
                  λ sound. bind-Triple peak_read λ peak. given-Triple λ capped.
                    bind-Triple (reads-Keeps F store mapped cap word pace cfg _) λ prefetched.
                      bind-Triple (reads-Keeps F store mapped cap word pace cfg _) λ stats.
                        pure-Triple _ λ s h. record {
                          checksum = ap (λ (s : Sums). s.checksum) same;
                          speed =
                              ap (λ n. F.div (F.div (F.of_u64 n) (F.decimal 1073741824 0)) seconds)
                                (reported cfg.passes done.1 same);
                          pending = capped;
                        }
      where
        reported :
            (n : ℕ) (sums : Sums)
            → sums ≡ visit_passes mapped n (record { checksum = seed; total = 0 }) store.slices
            → sums.total ≡ (n * size) % u64_mod
        reported n sums same =
            let counted =
              visit_passes-total mapped chunk size n store.slices
                (record { checksum = seed; total = 0 }) tiles (omega arith) in
            ap (λ (s : Sums). s.total) same ∙ omega (arith, counted)

        peak_read :
            Triple
              (Ready F store mapped cap word pace cfg)
              (reads store mapped pace λ s. s.peak_pending_bytes)
              (λ peak s. Ready F store mapped cap word pace cfg s × (peak ≤ inflight_limit F cfg))
        peak_read =
            reads-Ready F store mapped cap word pace cfg (λ s. s.peak_pending_bytes)
              λ s h. (h, Good-peak store mapped cap word (inflight_limit F cfg) cfg.copy_cache s h)

ended :
    (F : Double) (store : TensorStore) (mapped : ℕ → ℕ) (size passes limit : ℕ) (s : Prefetcher)
    (r : Result RunError (RunStats F))
    → Ends (λ stats s. Reports F store mapped size passes limit stats) s r
    → IsOutcome F store mapped size passes limit r
ended F store mapped size passes limit s (ok stats) h = h
ended F store mapped size passes limit s (err e) h = h

-- On a fresh runtime, over the store made of a file of at most 2 ^ 63 bytes in fewer than 2 ^ 32
-- chunks, with 64-bit words for the cache size and the budget, `run_stream` either throws, but not
-- for undefined behaviour and not for a slice that is not there, or returns the checksum of every
-- 4096th byte of each slice in order, as often as there are passes, a speed for the size times the
-- passes modulo 2 ^ 64, and a peak of pending prefetched bytes within the look-ahead budget: for
-- every number of sections that the worker runs before each of the consumer's, every clock and
-- every configuration.
pub run_stream-IsOutcome :
    (F : Double) (store : TensorStore) (mapped pace : ℕ → ℕ) (item_ms : ℕ → ℕ → F.D) (seconds : F.D)
    (rss_kb size chunk : ℕ) (c : RunConfig F)
    → size ≤ 2 ^ 63
    → div_ceil size chunk < u32_mod
    → TensorStore.make size chunk ≡ ok store
    → c.cache_bytes < u64_mod
    → c.prefetch_budget_bytes < u64_mod
    → IsOutcome F store mapped size c.passes
        (inflight_limit F (normalize F c))
        (run_stream F store mapped pace item_ms (make F c) seconds rss_kb).1
unfolding run_stream make
run_stream-IsOutcome F store mapped pace item_ms seconds rss_kb size chunk c small few made word
      budget_word =
    let v = normalize-Normal F c in
    let (is_store, tiles) = make-IsStore size chunk store small few made in
    let limit_word =
      inflight_limit-lt F (normalize F c) (omega (arith, v.cache_bytes, word))
        (omega (arith, v.budget, budget_word)) in
    let start =
      init-Good store mapped c.cache_bytes word (inflight_limit F (normalize F c))
        (normalize F c).copy_cache in
    let world : World = record {
      shared = Prefetcher.init (TensorCache.init c.cache_bytes);
      ticks = 0;
    } in
    let (after, r) = stream F store mapped pace (normalize F c) item_ms seconds rss_kb world in
    let limit = inflight_limit F (normalize F c) in
    subst (λ n. IsOutcome F store mapped size n limit r) v.passes
      (ended F store mapped size (normalize F c).passes limit after.shared r (
        (stream-Reports F store mapped pace item_ms seconds rss_kb size chunk is_store tiles
            c.cache_bytes word (normalize F c) limit_word).apply
          world start))
