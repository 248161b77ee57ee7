-- ===== src/Half.antt =====
-- `fp16_to_fp32` of src/gguf.cpp and `fp32_to_fp16` of src/gguf_kernels.cpp. A number of the types
-- `float` and of half precision is its bit pattern.
mod Table
pub mod RoundTrip
mod Tests
use Prim.Native.Nat.{bit_and, bit_or}
use mem_vanta.Prelude.{
  ℕ, zero, suc, ◌+◌, ◌-◌, ◌*◌, ◌/◌, ◌%◌, ◌^◌, Bool, not, ◌&&◌, ◌||◌, ltb, leb, ◌==◌, if◌then◌else◌,
  sub32,
}
use mem_vanta.Prelude.Int.{ℤ, pos, negsuc}

-- `x << k` and `x >> k` of a word of 32 bits
abbrev pub shl : ℕ → ℕ → ℕ
shl x k = x * 2 ^ k % 4294967296

abbrev pub shr : ℕ → ℕ → ℕ
shr x k = x / 2 ^ k

-- The loop that finds the leading bit of a subnormal number, on fuel: the bit is one of ten.
unfoldable pub normalize : ℕ → ℕ → ℕ → ℕ × ℕ
normalize zero ff ee = (ff, ee)
normalize (suc fuel) ff ee =
    let next = normalize fuel (shl ff 1) (sub32 ee 1) in
    if bit_and ff 0x400 == 0 then next else (ff, ee)

unfoldable pub fp16_to_fp32 : ℕ → ℕ
unfolding normalize
fp16_to_fp32 h =
    let s = bit_and (shr h 15) 1 in
    let e = bit_and (shr h 10) 0x1f in
    let f = bit_and h 0x3ff in
    let (ff, ee) = normalize 10 f 113 in
    if e == 0
    then if f == 0
      then shl s 31
      else bit_or (bit_or (shl s 31) (shl ee 23)) (shl (bit_and ff 0x3ff) 13)
    else if e == 31
    then bit_or (bit_or (shl s 31) 0x7f800000) (shl f 13)
    else bit_or (bit_or (shl s 31) (shl (e + 112) 23)) (shl f 13)

-- To the nearest of what is left of a number without its last bits, and to the even one of two.
abbrev rounds_up : ℕ → ℕ → ℕ → Bool
rounds_up rounded remainder halfway =
    ltb halfway remainder || ((remainder == halfway) && (bit_and rounded 1 == 1))

abbrev round : ℕ → ℕ → ℕ → ℕ
round rounded remainder halfway =
    if rounds_up rounded remainder halfway then suc rounded else rounded

-- The results that are subnormal.
abbrev subnormal : ℕ → ℕ → ℕ → ℕ
subnormal sign mant shift =
    let m = bit_or mant 0x800000 in
    bit_or sign (round (shr m shift) (bit_and m (shl 1 shift - 1)) (shl 1 (shift - 1))) % 65536

abbrev fields : ℕ → ℕ → ℕ → ℕ
fields sign exp rounded = bit_or (bit_or sign (shl exp 10)) rounded % 65536

-- A rounded significand that has grown by a bit is that of the next exponent.
abbrev carry : ℕ → ℕ → ℕ → ℕ
carry sign exp rounded =
    if rounded == 0x400
    then if leb 31 (suc exp) then bit_or sign 0x7c00 % 65536 else fields sign (suc exp) 0
    else fields sign exp rounded

-- The results with an exponent of their own.
abbrev normal : ℕ → ℕ → ℕ → ℕ
normal sign mant exp =
    let rounded = shr mant 13 in
    if rounds_up rounded (bit_and mant 0x1fff) 0x1000
    then carry sign exp (suc rounded)
    else fields sign exp rounded

-- `int exp` is a signed number.
abbrev exponent : ℕ → ℤ
exponent raw_exp = if ltb raw_exp 112 then negsuc (111 - raw_exp) else pos (raw_exp - 112)

abbrev by_exponent : ℕ → ℕ → ℤ → ℕ
by_exponent sign mant (negsuc n) =
    if ltb 10 (suc n) then sign % 65536 else subnormal sign mant (14 + suc n)
by_exponent sign mant (pos n) =
    if leb 31 n
    then bit_or sign 0x7c00 % 65536
    else if n == 0
    then subnormal sign mant 14
    else normal sign mant n

unfoldable pub fp32_to_fp16 : ℕ → ℕ
fp32_to_fp16 x =
    let sign = bit_and (shr x 16) 0x8000 in
    let raw_exp = bit_and (shr x 23) 0xff in
    let mant = bit_and x 0x7fffff in
    if raw_exp == 0xff
    then if mant == 0
      then bit_or sign 0x7c00 % 65536
      else bit_or (bit_or sign 0x7c00) (bit_and (bit_or (shr mant 13) 0x0200) 0x03ff) % 65536
    else by_exponent sign mant (exponent raw_exp)
