-- ===== src/Quant/Rows.antt =====
-- Rows of blocks: what a quantized row stands for, and the products by rows.
use mem_vanta.Prelude.{
  ℕ, zero, suc, ◌+◌, ◌-◌, ◌*◌, ◌/◌, ◌%◌, ◌<◌, ◌≡◌, refl, sym, ap, ◌∙◌, List, [], ◌∷◌, ◌++◌, map,
  arith, if◌then◌else◌, get_or, table, ok, Bool-cases, inl, inr, u32_mod, u64_mod,
}
use mem_vanta.Prelude.Int.{ℤ, pos, negsuc}
use mem_vanta.Prelude.Float.{Single, dot}
use mem_vanta.WorkerPool.{parallel_rows_ranges}
use mem_vanta.WorkerPool.Ranges.{indices, all_indices, parallel_rows-indices}
use mem_vanta.Quant.{
  unpack, BlockQ80, BlockQ40, block_scale, level, block_q4_0, quantize_q4_0, block_sum, dot_q8_0,
  dot_q4_0, fill_rows, matvec_q8_0, matvec_q4_0,
}
use mem_vanta.Quant.Packing.{clamp-IsLevel, unpack-pack, unpack_zero}

get_or-table :
    {A : Type 0} (f : ℕ → A) (i n k : ℕ) (d : A) → k < n → get_or (table f i n) k d ≡ f (i + k)
get_or-table f i zero k d h = absurd (omega arith)
get_or-table f i (suc n) zero d h = ap f (omega arith)
get_or-table f i (suc n) (suc k) d h =
    get_or-table f (suc i) n k d (omega arith) ∙ ap f (omega arith)

module _ (S : Single) where
  open S use {F, nought, one, add, mul, div, eq, of_int, nearbyint}

  block_sum-ext :
      (nb : ℕ) (s t d e : ℕ → F)
      → ((b : ℕ) → b < nb → s b ≡ t b)
      → ((b : ℕ) → b < nb → d b ≡ e b)
      → block_sum S nb s d ≡ block_sum S nb t e
  unfolding block_sum
  block_sum-ext zero s t d e h k = refl
  block_sum-ext (suc nb) s t d e h k =
      ap (λ z. add z (mul (s nb) (d nb)))
        (block_sum-ext nb s t d e (λ b lt. h b (omega arith)) (λ b lt. k b (omega arith)))
      ∙ ap (λ z. add (block_sum S nb t e) (mul z (d nb))) (h nb (omega arith))
      ∙ ap (λ z. add (block_sum S nb t e) (mul (t nb) z)) (k nb (omega arith))

  terms-ext : (n : ℕ) (f g x : ℕ → F) → ((k : ℕ) → k < n → f k ≡ g k) → dot S n f x ≡ dot S n g x
  unfolding dot
  terms-ext zero f g x h = refl
  terms-ext (suc n) f g x h =
      ap (λ z. add z (mul (f n) (x n))) (terms-ext n f g x (λ k lt. h k (omega arith)))
      ∙ ap (λ z. add (dot S n g x) (mul z (x n))) (h n (omega arith))

  -- The number that stands for one of 32: the least one if the scale is 0.
  abbrev pub stands_for : (ℕ → F) → ℕ → ℤ
  stands_for p k =
      if eq (block_scale S 7 p) nought
      then negsuc 7
      else level S (block_scale S 7 p) (negsuc 7) (pos 7) p k

  block_q4_0-unpack : (p : ℕ → F) (k : ℕ) → k < 32 → unpack (block_q4_0 S p).qs k ≡ stands_for p k
  unfolding block_q4_0 level
  block_q4_0-unpack p k h = elim (Bool-cases (eq (block_scale S 7 p) nought)) [
    | inl none ↦ rw (block_q4_0, none) (unpack_zero k)
    | inr some ↦
        rw (block_q4_0, some)
          (unpack-pack (level S (block_scale S 7 p) (negsuc 7) (pos 7) p) k
            (λ i. clamp-IsLevel (nearbyint (mul (p i) (div one (block_scale S 7 p))))) h)
  ]

  -- The dot product of what the blocks of a row stand for.
  abbrev pub reference_dot : (ℕ → F) → (ℕ → F) → ℕ → F
  reference_dot src x n =
      let block = λ (b i : ℕ). src (b * 32 + i) in
      block_sum S (n / 32)
        (λ b. dot S 32 (λ k. of_int (stands_for (block b) k)) (λ k. x (b * 32 + k)))
        (λ b. block_scale S 7 (block b))

  -- A list of blocks as a pointer to them.
  abbrev pub at_blocks : List (BlockQ40 S) → ℕ → BlockQ40 S
  at_blocks blocks b = get_or blocks b (record { d = nought; qs = λ j. 0 })

  -- If the length is a multiple of 32, quantize_q4_0 returns blocks, and dot_q4_0 of them is the
  -- dot product of the levels of the numbers, rounded and clamped, block by block with its scale;
  -- a block whose scale is 0 stands for the least level.
  pub quantize_q4_0-dot_q4_0 :
      (src x : ℕ → F) (n : ℕ)
      → n % 32 ≡ 0
      → (blocks : List (BlockQ40 S)) × (quantize_q4_0 S src n ≡ ok blocks)
        × (dot_q4_0 S (at_blocks blocks) x n ≡ reference_dot src x n)
  unfolding quantize_q4_0 dot_q4_0 block_q4_0
  quantize_q4_0-dot_q4_0 src x n h =
      let block = λ (b i : ℕ). src (b * 32 + i) in
      let blocks = table (λ (b : ℕ). block_q4_0 S (block b)) 0 (n / 32) in
      (
        blocks,
        rw h refl,
        block_sum-ext (n / 32) _ _ _ _
            (λ b lt. terms-ext 32 _ _ _ (λ k u.
              ap (λ (z : BlockQ40 S). of_int (unpack z.qs k)) (found b lt)
              ∙ ap of_int (block_q4_0-unpack (block b) k u)))
            (λ b lt. ap (λ (z : BlockQ40 S). z.d) (found b lt)),
      )
    where
      found :
          (b : ℕ)
          → b < n / 32
          → at_blocks (table (λ (b : ℕ). block_q4_0 S (λ i. src (b * 32 + i))) 0 (n / 32)) b
            ≡ block_q4_0 S (λ i. src (b * 32 + i))
      found b lt =
          get_or-table (λ (b : ℕ). block_q4_0 S (λ i. src (b * 32 + i))) 0 (n / 32) b _ lt
          ∙ ap (λ (m : ℕ). block_q4_0 S (λ i. src (m * 32 + i))) (omega arith)

  map-table : (y : ℕ → F) (a n : ℕ) → map y (table (λ (i : ℕ). i) a n) ≡ table y a n
  map-table y a zero = refl
  map-table y a (suc n) = ap (◌∷◌ (y a)) (map-table y (suc a) n)

  map-append : (y : ℕ → F) (is js : List ℕ) → map y (is ++ js) ≡ map y is ++ map y js
  map-append y [] js = refl
  map-append y (i ∷ is) js = ap (◌∷◌ (y i)) (map-append y is js)

  fill_rows-indices : (y : ℕ → F) (rs : List (ℕ × ℕ)) → fill_rows S y rs ≡ map y (all_indices rs)
  fill_rows-indices y [] = refl
  fill_rows-indices y ((a, b) ∷ rs) =
      ap (λ (zs : List F). table y a (b - a) ++ zs) (fill_rows-indices y rs)
      ∙ ap (λ (zs : List F). zs ++ map y (all_indices rs)) (sym (map-table y a (b - a)))
      ∙ sym (map-append y (indices a b) (all_indices rs))

  fill_rows-table :
      (y : ℕ → F) (rows threads : ℕ)
      → threads < u32_mod
      → rows + u32_mod < u64_mod
      → fill_rows S y (parallel_rows_ranges rows threads) ≡ table y 0 rows
  fill_rows-table y rows threads h k =
      fill_rows-indices y (parallel_rows_ranges rows threads)
      ∙ ap (map y) (parallel_rows-indices rows threads h k)
      ∙ map-table y 0 (rows - 0)
      ∙ ap (table y 0) (omega arith)

  -- If the columns are a multiple of 32, the number of threads is a 32-bit word and rows + 2 ^ 32
  -- is below 2 ^ 64, both products of a matrix and a vector have the dot product of each row in
  -- its place, whatever the number of threads.
  pub matvec-table :
      (a : ℕ → BlockQ80 S) (a' : ℕ → BlockQ40 S) (x : ℕ → F) (rows cols threads : ℕ)
      → cols % 32 ≡ 0
      → threads < u32_mod
      → rows + u32_mod < u64_mod
      → (matvec_q8_0 S a x rows cols threads
          ≡ ok (table (λ r. dot_q8_0 S (λ b. a (r * (cols / 32) + b)) x cols) 0 rows))
        × (matvec_q4_0 S a' x rows cols threads
            ≡ ok (table (λ r. dot_q4_0 S (λ b. a' (r * (cols / 32) + b)) x cols) 0 rows))
  unfolding matvec_q8_0 matvec_q4_0
  matvec-table a a' x rows cols threads whole h k = (
    rw (matvec_q8_0, whole) (ap ok (fill_rows-table _ rows threads h k)),
    rw (matvec_q4_0, whole) (ap ok (fill_rows-table _ rows threads h k)),
  )
