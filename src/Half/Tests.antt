-- ===== src/Half/Tests.antt =====
-- 1 + 1 / 1024 and back, and a subnormal number with its sign.
use mem_vanta.Prelude.{◌*◌, ◌/◌, ◌^◌, ◌≡◌, refl, true, arith, ◌⊎◌}
use mem_vanta.Half.{fp16_to_fp32, fp32_to_fp16}
use mem_vanta.Half.Table.{is_nan, half_size, float_size}
use mem_vanta.Half.RoundTrip.{fp32_to_fp16-fp16_to_fp32, float_size-fp16_to_fp32}

fp32_to_fp16-fp16_to_fp32_example :
    (fp32_to_fp16 (fp16_to_fp32 0x3c01) ≡ 0x3c01)
    ⊎ ((is_nan 0x3c01 ≡ true)
        × (is_nan (fp32_to_fp16 (fp16_to_fp32 0x3c01)) ≡ true)
        × (fp32_to_fp16 (fp16_to_fp32 0x3c01) / 32768 ≡ 0x3c01 / 32768))
fp32_to_fp16-fp16_to_fp32_example = fp32_to_fp16-fp16_to_fp32 0x3c01 (omega arith)

float_size-fp16_to_fp32_example :
    (float_size (fp16_to_fp32 0x8001) ≡ half_size 0x8001 * 2 ^ 125)
    × (fp16_to_fp32 0x8001 / 2147483648 ≡ 0x8001 / 32768)
float_size-fp16_to_fp32_example = float_size-fp16_to_fp32 0x8001 (omega arith) refl

-- 65520 lies half-way to infinity, and 2 ^ -25 half-way to zero.
rounding_test : (fp32_to_fp16 0x477ff000 ≡ 0x7c00) × (fp32_to_fp16 0x33000000 ≡ 0)
unfolding fp32_to_fp16
rounding_test = (refl, refl)
