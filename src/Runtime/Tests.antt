-- ===== src/Runtime/Tests.antt =====
-- The theorems on a run over a file of 9000 bytes in two chunks, with a cache for both, a
-- worker that runs three sections before each of the consumer's, and numbers in thousandths.
use mem_vanta.Prelude.{
  sub64, add64, add32, ℕ, ◌%◌, ◌/◌, ◌≤◌, max, ◌≡◌, refl, Result, true, some, [], ◌∷◌, arith, ok,
}
use mem_vanta.Prelude.Float.{milli}
use mem_vanta.TensorStore.{TensorStore, chunk_loop}
use mem_vanta.TensorStore
use mem_vanta.Runtime.{RunError, RunConfig, RunStats, inflight_limit, normalize, make}
use mem_vanta.Runtime.Stream.{run_stream}
use mem_vanta.Runtime.Outcome.{IsOutcome, run_stream-IsOutcome}
use mem_vanta.Runtime.Limits.{inflight_limit-normalize}

abbrev store : TensorStore
store = record {
  file_size = 9000;
  chunk_bytes = 5000;
  slices =
      record { id = 0; offset = 0; bytes = 5000 }
      ∷ record { id = 1; offset = 5000; bytes = 4000 }
      ∷ [];
}

abbrev byte_at : ℕ → ℕ
byte_at j = j % 251

abbrev config : RunConfig milli
config = record {
  cache_bytes = 20000;
  passes = 2;
  prefetch_depth = 2;
  copy_cache = true;
  adaptive_prefetch = true;
  adaptive_min_depth = 1;
  adaptive_max_depth = 4;
  adaptive_window = 1;
  prefetch_budget_bytes = 0;
  adaptive_low_useful_ratio = some 600;
  adaptive_high_useful_ratio = some 900;
}

store_made : TensorStore.make 9000 5000 ≡ ok store
unfolding TensorStore.make chunk_loop sub64 add64 add32
store_made = refl

run_stream-IsOutcome_example :
    IsOutcome milli store byte_at 9000 2
      (inflight_limit milli (normalize milli config))
      (run_stream milli store byte_at (λ n. 3) (λ p i. some 5) (make milli config) (some 1000) 7).1
run_stream-IsOutcome_example =
    run_stream-IsOutcome milli store byte_at (λ n. 3) (λ p i. some 5) (some 1000) 7 9000 5000 config
      (omega arith) (omega arith) store_made (omega arith) (omega arith)

inflight_limit-normalize_example :
    (inflight_limit milli (normalize milli config) ≤ 20000)
    × (true ≡ true → inflight_limit milli (normalize milli config) ≤ max 1 (20000 / 2))
inflight_limit-normalize_example = inflight_limit-normalize milli config refl

abbrev outcome : Result RunError (RunStats milli)
outcome =
    (run_stream milli store byte_at (λ n. 3) (λ p i. some 5) (make milli config) (some 1000) 7).1
