-- ===== src/Gguf/Sizes.antt =====
-- The sizes of tensors: `checked_mul`, `quant_row_block`, `GgufTensor::elements`,
-- `ggml_tensor_nbytes`.
use mem_vanta.Prelude.{
  ℕ, ◌/◌, ◌%◌, ◌&&◌, not, List, [], ◌∷◌, Result, ok, err, ltb, ◌==◌, if◌then◌else◌, mul64, u64_max,
}
use mem_vanta.Gguf.Types.{
  GgmlType, f32, f16, q4_0, q4_1, q5_0, q5_1, q8_0, q2_k, q3_k, q4_k, q5_k, q6_k, i8, i16, i32, i64,
  f64, bf16, GgufError, overflow, zero_dimension, element_overflow, not_block_aligned,
  unsupported_type,
}

unfoldable pub checked_mul : ℕ → ℕ → Result GgufError ℕ
unfolding mul64
checked_mul a b = if not (a == 0) && ltb (u64_max / a) b then err overflow else ok (mul64 a b)

unfoldable pub quant_row_block : GgmlType → ℕ
quant_row_block q4_0 = 32
quant_row_block q4_1 = 32
quant_row_block q5_0 = 32
quant_row_block q5_1 = 32
quant_row_block q8_0 = 32
quant_row_block q2_k = 256
quant_row_block q3_k = 256
quant_row_block q4_k = 256
quant_row_block q5_k = 256
quant_row_block q6_k = 256
quant_row_block t = 1

-- The loop of `GgufTensor::elements`, with the product so far.
unfoldable pub elements_from : ℕ → List ℕ → Result GgufError ℕ
elements_from n [] = ok n
elements_from n (d ∷ ds) =
    let rest = elements_from (mul64 n d) ds in
    if d == 0
    then err zero_dimension
    else if ltb (u64_max / d) n
    then err element_overflow
    else rest

unfoldable pub elements : List ℕ → Result GgufError ℕ
unfolding elements_from
elements dims = elements_from 1 dims

-- The local function `blocks` of `ggml_tensor_nbytes`.
unfoldable pub blocks : ℕ → ℕ → ℕ → Result GgufError ℕ
unfolding checked_mul
blocks n qk bs = if n % qk == 0 then checked_mul (n / qk) bs else err not_block_aligned

unfoldable pub ggml_tensor_nbytes : GgmlType → ℕ → Result GgufError ℕ
unfolding blocks
ggml_tensor_nbytes f32 n = checked_mul n 4
ggml_tensor_nbytes f16 n = checked_mul n 2
ggml_tensor_nbytes q4_0 n = blocks n 32 18
ggml_tensor_nbytes q4_1 n = blocks n 32 20
ggml_tensor_nbytes q5_0 n = blocks n 32 22
ggml_tensor_nbytes q5_1 n = blocks n 32 24
ggml_tensor_nbytes q8_0 n = blocks n 32 34
ggml_tensor_nbytes i8 n = ok n
ggml_tensor_nbytes i16 n = checked_mul n 2
ggml_tensor_nbytes i32 n = checked_mul n 4
ggml_tensor_nbytes i64 n = checked_mul n 8
ggml_tensor_nbytes f64 n = checked_mul n 8
ggml_tensor_nbytes bf16 n = checked_mul n 2
ggml_tensor_nbytes q2_k n = blocks n 256 84
ggml_tensor_nbytes q3_k n = blocks n 256 110
ggml_tensor_nbytes q4_k n = blocks n 256 144
ggml_tensor_nbytes q5_k n = blocks n 256 176
ggml_tensor_nbytes q6_k n = blocks n 256 210
ggml_tensor_nbytes t n = err unsupported_type
