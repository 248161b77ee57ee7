-- ===== src/WorkerPool/Ranges.antt =====
-- The ranges that the threads are given are the loop, cut into pieces: every index stands in one
-- range, once, and in order.
use native.Mathlib.Nat.{lt-mul-div-succ, div-mul-le_self, div-le_self}
use mem_vanta.Prelude.{
  ℕ, zero, suc, ◌+◌, ◌-◌, ◌*◌, ◌/◌, ◌≤◌, ◌<◌, min, max, ◌≡◌, refl, sym, ap, ◌∙◌, List, [], ◌∷◌,
  ◌++◌, arith, ltb, ◌==◌, if-cases, ltb→lt, ltb→le, table, u64_mod, u32_mod, mul64_lem, add64_lem,
  sub64_lem, sub64-lt, sub64, add64, append-nil,
}
use mem_vanta.WorkerPool.{
  step_of, start_of, end_of, ranges_from, pool_size, parallel_for_ranges, row_threads,
  parallel_rows_ranges,
}

abbrev identity : ℕ → ℕ
identity i = i

-- The indices `a`, …, `b - 1` of a range, and those of a list of ranges in turn.
abbrev pub indices : ℕ → ℕ → List ℕ
indices a b = table identity a (b - a)

abbrev pub all_indices : List (ℕ × ℕ) → List ℕ
all_indices [] = []
all_indices ((a, b) ∷ rs) = indices a b ++ all_indices rs

table-add {ℓ} :
    {A : Type ℓ} (f : ℕ → A) (i p q : ℕ) → table f i (p + q) ≡ table f i p ++ table f (i + p) q
table-add f i zero q =
    let e : 0 + q ≡ q = omega arith in let e' : i + 0 ≡ i = omega arith in rw (e, e')
table-add f i (suc p) q =
    let e : suc p + q ≡ suc (p + q) = omega arith in
    let e' : i + suc p ≡ suc i + p = omega arith in
    rw (e, e') (ap (◌∷◌ (f i)) (table-add f (suc i) p q))

indices-append : (a b c : ℕ) → a ≤ b → b ≤ c → indices a b ++ indices b c ≡ indices a c
indices-append a b c h k =
    let e : c - a ≡ b - a + (c - b) = omega arith in
    let e' : a + (b - a) ≡ b = omega arith in
    rw e (
      sym (
        table-add identity a (b - a) (c - b)
        ∙ ap (λ (i : ℕ). indices a b ++ table identity i (c - b)) e'))

indices_nil : (a b : ℕ) → b ≤ a → indices a b ≡ []
indices_nil a b h = let e : b - a ≡ 0 = omega arith in rw e

pub step_of-lt : (n threads : ℕ) → step_of n threads < u64_mod
unfolding step_of
step_of-lt n threads =
    omega (arith, sub64-lt (add64 n threads) 1, div-le_self (sub64 (add64 n threads) 1) threads)

module _ (n threads : ℕ) (positive : 0 < threads) (word : n + threads < u64_mod) where
  step_eq : step_of n threads ≡ (n + threads - 1) / threads
  unfolding step_of
  step_eq = rw (add64_lem n threads word, sub64_lem (n + threads) 1 word (omega arith)) refl

  step_covers : n ≤ threads * step_of n threads
  step_covers = rw step_eq (omega (arith, lt-mul-div-succ (n + threads - 1) {b = threads} positive))

  step_below : step_of n threads * threads < n + threads
  step_below = rw step_eq (omega (arith, div-mul-le_self (n + threads - 1) threads))

  product_below : (tid : ℕ) → tid ≤ threads → tid * step_of n threads < n + threads
  product_below tid h = grind (arith, step_below)

  start_eq : (tid : ℕ) → tid ≤ threads → start_of n threads tid ≡ tid * step_of n threads
  unfolding start_of
  start_eq tid h = mul64_lem tid (step_of n threads) (omega (arith, product_below tid h))

  end_eq : (tid : ℕ) → tid < threads → end_of n threads tid ≡ min n (suc tid * step_of n threads)
  unfolding end_of
  end_eq tid h =
      let next : tid * step_of n threads + step_of n threads ≡ suc tid * step_of n threads =
        omega arith in
      rw (
        start_eq tid (omega arith),
        add64_lem (tid * step_of n threads) (step_of n threads)
            (omega (arith, product_below (suc tid) h)),
        next,
      )

  ranges_from-indices :
      (tid count : ℕ)
      → tid + count ≡ threads
      → all_indices (ranges_from n threads tid count) ≡ indices (min n (tid * step_of n threads)) n
  unfolding ranges_from
  ranges_from-indices tid zero h =
      let e : min n (tid * step_of n threads) ≡ n = last in
      rw e (sym (indices_nil n n (omega arith)))
    where
      last : min n (tid * step_of n threads) ≡ n
      last = let e : tid ≡ threads = omega arith in rw e (omega (arith, step_covers))
  ranges_from-indices tid (suc count) h =
      rw (start_eq tid (omega arith), end_eq tid (omega arith))
        (let s = step_of n threads in
          let rest = ranges_from-indices (suc tid) count (omega arith) in
          let cuts = λ (rs : List (ℕ × ℕ)). all_indices rs ≡ indices (min n (tid * s)) n in
          if-cases cuts (ltb (tid * s) (min n (suc tid * s))) _ _
            (λ go. rw rest (filled tid s (ltb→lt _ _ go)))
            (λ stop. rest ∙ skipped tid s (ltb→le _ _ stop)))
    where
      filled :
          (tid s : ℕ)
          → tid * s < min n (suc tid * s)
          → indices (tid * s) (min n (suc tid * s)) ++ indices (min n (suc tid * s)) n
            ≡ indices (min n (tid * s)) n
      filled tid s go =
          let e : min n (tid * s) ≡ tid * s = omega arith in
          rw e (indices-append (tid * s) (min n (suc tid * s)) n (omega arith) (omega arith))

      skipped :
          (tid s : ℕ)
          → min n (suc tid * s) ≤ tid * s
          → indices (min n (suc tid * s)) n ≡ indices (min n (tid * s)) n
      skipped tid s stop = let e : min n (suc tid * s) ≡ min n (tid * s) = omega arith in rw e

  pub ranges_from_zero : all_indices (ranges_from n threads 0 threads) ≡ indices 0 n
  ranges_from_zero =
      let e : min n (0 * step_of n threads) ≡ 0 = omega arith in
      ranges_from-indices 0 threads (omega arith) ∙ ap (λ (i : ℕ). indices i n) e

-- The ranges that `parallel_for` calls its function on go through 0, …, n - 1 in order, each index
-- once, for every 32-bit number of threads that the pool is made with and n + 2 ^ 32 below 2 ^ 64.
pub parallel_for-indices :
    (threads n : ℕ)
    → threads < u32_mod
    → n + u32_mod < u64_mod
    → all_indices (parallel_for_ranges (pool_size threads) n) ≡ indices 0 n
unfolding parallel_for_ranges pool_size
parallel_for-indices threads n h k =
    if-cases P (n == 0) _ _ (λ none. sym (indices_nil 0 n (ground arith)))
      λ _.
        if-cases P (ltb 1 (max 1 threads)) _ _
          (λ _. ranges_from_zero n (max 1 threads) (omega arith) (omega arith))
          (λ _. append-nil (indices 0 n))
  where
    P : List (ℕ × ℕ) → Type 0
    P rs = all_indices rs ≡ indices 0 n

-- The ranges that `parallel_rows` calls its function on go through 0, …, rows - 1 in order, each
-- row once, for every 32-bit number of threads and rows + 2 ^ 32 below 2 ^ 64.
pub parallel_rows-indices :
    (rows threads : ℕ)
    → threads < u32_mod
    → rows + u32_mod < u64_mod
    → all_indices (parallel_rows_ranges rows threads) ≡ indices 0 rows
unfolding parallel_rows_ranges row_threads
parallel_rows-indices rows threads h k =
    if-cases P (rows == 0) _ _ (λ none. sym (indices_nil 0 rows (ground arith)))
      λ some.
        if-cases P (row_threads rows threads == 1) _ _ (λ _. append-nil (indices 0 rows))
          (λ _. ranges_from_zero rows (row_threads rows threads) (ground arith) (ground arith))
  where
    P : List (ℕ × ℕ) → Type 0
    P rs = all_indices rs ≡ indices 0 rows
