-- ===== src/Quant/Tests.antt =====
-- A row of 32 numbers, and products of two rows by three threads.
use mem_vanta.Prelude.{ℕ, ◌+◌, ◌*◌, ◌/◌, ◌%◌, ◌≡◌, refl, List, arith, table, ok, err}
use mem_vanta.Prelude.Int.{ℤ, pos}
use mem_vanta.Prelude.Float.{numbers}
use mem_vanta.Quant.{
  BlockQ80, BlockQ40, block_q8_0, block_q4_0, quantize_q4_0, quantize_q8_0, length_not_blocks, pack,
  unpack, dot_q8_0, dot_q4_0, matvec_q8_0, matvec_q4_0,
}
use mem_vanta.Quant.Rows.{reference_dot, at_blocks, quantize_q4_0-dot_q4_0, matvec-table}

abbrev row : ℕ → ℕ
row i = i % 8

abbrev ones : ℕ → ℕ
ones i = 1

quantize_q4_0-dot_q4_0_example :
    (blocks : List (BlockQ40 numbers)) × (quantize_q4_0 numbers row 32 ≡ ok blocks)
    × (dot_q4_0 numbers (at_blocks numbers blocks) ones 32 ≡ reference_dot numbers row ones 32)
quantize_q4_0-dot_q4_0_example = quantize_q4_0-dot_q4_0 numbers row ones 32 refl

abbrev bytes : ℕ → BlockQ80 numbers
bytes b = block_q8_0 numbers row

abbrev halves : ℕ → BlockQ40 numbers
halves b = block_q4_0 numbers row

matvec-table_example :
    (matvec_q8_0 numbers bytes ones 2 32 3
      ≡ ok (table (λ r. dot_q8_0 numbers (λ b. bytes (r * (32 / 32) + b)) ones 32) 0 2))
    × (matvec_q4_0 numbers halves ones 2 32 3
        ≡ ok (table (λ r. dot_q4_0 numbers (λ b. halves (r * (32 / 32) + b)) ones 32) 0 2))
matvec-table_example =
    matvec-table numbers bytes halves ones 2 32 3 refl (omega arith) (omega arith)

abbrev ramp : ℕ → ℤ
ramp i = pos (i % 8)

ramp_test : (pack 32 ramp 1 ≡ 0xba) × (unpack (pack 32 ramp) 9 ≡ pos 1)
unfolding pack unpack
ramp_test = (refl, refl)

odd_length_test : quantize_q8_0 numbers row 33 ≡ err length_not_blocks
unfolding quantize_q8_0
odd_length_test = refl
