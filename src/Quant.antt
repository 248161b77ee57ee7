-- ===== src/Quant.antt =====
-- src/quant.cpp and the blocks of include/memvanta/quant.hpp, with the loops of a build without
-- vector instructions. A pointer is the function from positions to values.
pub mod Packing
pub mod Rows
mod Tests
use Prim.Native.Nat.{bit_and, bit_or}
use mem_vanta.Prelude.{
  ℕ, zero, suc, ◌+◌, ◌-◌, ◌*◌, ◌/◌, ◌%◌, Bool, List, [], ◌∷◌, ◌++◌, not, ltb, ◌==◌, if◌then◌else◌,
  table, Result, ok, err,
}
use mem_vanta.Prelude.Int.{ℤ, pos, negsuc, ltb_ℤ}
use mem_vanta.Prelude.Float.{Single, amax, dot}
use mem_vanta.WorkerPool.{parallel_rows_ranges}

pub data QuantError : Type 0 where
  length_not_blocks cols_not_blocks : QuantError

-- std::clamp
abbrev pub clamp : ℤ → ℤ → ℤ → ℤ
clamp z lo hi = if ltb_ℤ z lo then lo else if ltb_ℤ hi z then hi else z

-- `static_cast<std::uint8_t>(q + 8)`
unfoldable pub to_nibble : ℤ → ℕ
to_nibble (pos n) = (n + 8) % 256
to_nibble (negsuc n) = (255 - n % 256 + 8) % 256

-- `nibble - 8`
unfoldable pub of_nibble : ℕ → ℤ
of_nibble n = if ltb n 8 then negsuc (7 - n) else pos (n - 8)

abbrev pub set : {A : Type 0} → ℕ → A → (ℕ → A) → ℕ → A
set i a f j = if j == i then a else f j

-- A round of the loop that packs: the low half of a byte is set, and the high half is added.
unfoldable pub put_nibble : ℕ → ℕ → (ℕ → ℕ) → ℕ → ℕ
put_nibble i nib qs =
    if bit_and i 1 == 0
    then set (i / 2) nib qs
    else set (i / 2) (bit_or (qs (i / 2)) (nib * 16 % 256)) qs

-- The first `n` rounds, from bytes that are 0.
unfoldable pub pack : ℕ → (ℕ → ℤ) → ℕ → ℕ
unfolding put_nibble to_nibble
pack zero q = λ j. 0
pack (suc n) q = put_nibble n (to_nibble (q n)) (pack n q)

-- `((k & 1u) ? (packed >> 4) : (packed & 0x0F)) - 8`
unfoldable pub unpack : (ℕ → ℕ) → ℕ → ℤ
unfolding of_nibble
unpack qs k =
    let packed = qs (k / 2) in
    of_nibble (if bit_and k 1 == 0 then bit_and packed 0x0f else packed / 16)

module _ (S : Single) where
  open S use {F, nought, one, add, mul, div, eq, of_int, nearbyint}

  pub record BlockQ80 : Type 0 where
    pub d : F
    pub qs : ℕ → ℤ

  pub record BlockQ40 : Type 0 where
    pub d : F
    pub qs : ℕ → ℕ

  -- The scale of a block of 32 numbers.
  abbrev pub block_scale : ℕ → (ℕ → F) → F
  block_scale most p =
      if eq (amax S 32 p) nought then nought else div (amax S 32 p) (of_int (pos most))

  -- A number of a block, as it is stored.
  unfoldable pub level : F → ℤ → ℤ → (ℕ → F) → ℕ → ℤ
  level d lo hi p i = clamp (nearbyint (mul (p i) (div one d))) lo hi

  unfoldable pub block_q8_0 : (ℕ → F) → BlockQ80
  unfolding level
  block_q8_0 p =
      let d = block_scale 127 p in
      record { d = d; qs = if eq d nought then (λ i. pos 0) else level d (negsuc 126) (pos 127) p }

  unfoldable pub block_q4_0 : (ℕ → F) → BlockQ40
  unfolding level pack
  block_q4_0 p =
      let d = block_scale 7 p in
      record {
        d = d;
        qs = if eq d nought then (λ j. 0) else pack 32 (level d (negsuc 7) (pos 7) p);
      }

  unfoldable pub quantize_q8_0 : (ℕ → F) → ℕ → Result QuantError (List BlockQ80)
  unfolding block_q8_0
  quantize_q8_0 src n =
      if not (n % 32 == 0)
      then err length_not_blocks
      else ok (table (λ b. block_q8_0 (λ i. src (b * 32 + i))) 0 (n / 32))

  unfoldable pub quantize_q4_0 : (ℕ → F) → ℕ → Result QuantError (List BlockQ40)
  unfolding block_q4_0
  quantize_q4_0 src n =
      if not (n % 32 == 0)
      then err length_not_blocks
      else ok (table (λ b. block_q4_0 (λ i. src (b * 32 + i))) 0 (n / 32))

  -- The loop over the blocks, with the sum of each and its scale.
  unfoldable pub block_sum : ℕ → (ℕ → F) → (ℕ → F) → F
  block_sum zero s d = nought
  block_sum (suc nb) s d = add (block_sum nb s d) (mul (s nb) (d nb))

  unfoldable pub dot_q8_0 : (ℕ → BlockQ80) → (ℕ → F) → ℕ → F
  unfolding block_sum
  dot_q8_0 a x n =
      block_sum (n / 32) (λ b. dot S 32 (λ k. of_int ((a b).qs k)) (λ k. x (b * 32 + k)))
        (λ b. (a b).d)

  unfoldable pub dot_q4_0 : (ℕ → BlockQ40) → (ℕ → F) → ℕ → F
  unfolding block_sum unpack
  dot_q4_0 a x n =
      block_sum (n / 32) (λ b. dot S 32 (λ k. of_int (unpack (a b).qs k)) (λ k. x (b * 32 + k)))
        (λ b. (a b).d)

  -- The loop of a thread over its rows, and the calls of all threads.
  abbrev pub fill_rows : (ℕ → F) → List (ℕ × ℕ) → List F
  fill_rows y [] = []
  fill_rows y ((a, b) ∷ rs) = table y a (b - a) ++ fill_rows y rs

  unfoldable pub matvec_q8_0 : (ℕ → BlockQ80) → (ℕ → F) → ℕ → ℕ → ℕ → Result QuantError (List F)
  unfolding dot_q8_0
  matvec_q8_0 a x rows cols threads =
      if not (cols % 32 == 0)
      then err cols_not_blocks
      else ok (
          fill_rows (λ r. dot_q8_0 (λ b. a (r * (cols / 32) + b)) x cols)
            (parallel_rows_ranges rows threads))

  unfoldable pub matvec_q4_0 : (ℕ → BlockQ40) → (ℕ → F) → ℕ → ℕ → ℕ → Result QuantError (List F)
  unfolding dot_q4_0
  matvec_q4_0 a x rows cols threads =
      if not (cols % 32 == 0)
      then err cols_not_blocks
      else ok (
          fill_rows (λ r. dot_q4_0 (λ b. a (r * (cols / 32) + b)) x cols)
            (parallel_rows_ranges rows threads))
