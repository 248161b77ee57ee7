-- ===== src/CheckedMath.antt =====
-- include/memvanta/checked_math.hpp: sums and products of sizes that throw where they would wrap
-- around. The only exception is `std::runtime_error` with the caller's text.
use native.Mathlib.Nat.{lt-mul-div-succ, mul-div-le}
use mem_vanta.Prelude.{
  ℕ, zero, suc, ◌+◌, ◌*◌, ◌/◌, ◌≤◌, ◌<◌, ◌≡◌, refl, ◌⊎◌, inl, inr, true, false, not, ◌&&◌, arith,
  Result, ok, err, ltb, ◌==◌, if◌then◌else◌, Bool-cases, add64, sub64, mul64, add64_lem, sub64_lem,
  mul64_lem, u64_max, u64_mod,
}

pub data SizeError : Type 0 where
  size_overflow : SizeError

pub checked_add_size : ℕ → ℕ → Result SizeError ℕ
checked_add_size a b = if ltb (sub64 u64_max a) b then err size_overflow else ok (add64 a b)

pub checked_mul_size : ℕ → ℕ → Result SizeError ℕ
checked_mul_size a b =
    if not (a == 0) && ltb (u64_max / a) b then err size_overflow else ok (mul64 a b)

pub checked_bytes_for_floats : ℕ → Result SizeError ℕ
checked_bytes_for_floats count = checked_mul_size count 4

pub checked_bytes_for_u16 : ℕ → Result SizeError ℕ
checked_bytes_for_u16 count = checked_mul_size count 2

-- A result that is exact: the number, if that is a word, and the exception otherwise.
abbrev pub IsExact : ℕ → Result SizeError ℕ → Type 0
IsExact n r = ((n < u64_mod) × (r ≡ ok n)) ⊎ ((u64_mod ≤ n) × (r ≡ err size_overflow))

-- For a 64-bit word `a`, `checked_add_size` returns the sum if that is a 64-bit word, and throws
-- otherwise.
pub checked_add_size_lem : (a b : ℕ) → a < u64_mod → IsExact (a + b) (checked_add_size a b)
unfolding checked_add_size
checked_add_size_lem a b w =
    let top = sub64_lem u64_max a (omega arith) (omega (arith, w)) in
    elim (Bool-cases (ltb (sub64 u64_max a) b)) [
      | inl wraps ↦ inr (ground (arith, top), rw wraps refl)
      | inr fits ↦
          let below : a + b < u64_mod = ground (arith, top) in
          inl (below, rw (fits, add64_lem a b below) refl)
    ]

times_mono : (a b c : ℕ) → b ≤ c → a * b ≤ a * c
times_mono a b c h = grind arith

mul_wraps : (a b : ℕ) → (not (a == 0) && ltb (u64_max / a) b) ≡ true → u64_mod ≤ a * b
mul_wraps zero b h = ground arith
mul_wraps (suc a) b h =
    let above : u64_max / suc a + 1 ≤ b = ground arith in
    omega (
      arith,
      lt-mul-div-succ u64_max {b = suc a} (omega arith),
      times_mono (suc a) (u64_max / suc a + 1) b above,
    )

mul_fits : (a b : ℕ) → (not (a == 0) && ltb (u64_max / a) b) ≡ false → a * b < u64_mod
mul_fits zero b h = omega arith
mul_fits (suc a) b h =
    let below : b ≤ u64_max / suc a = ground arith in
    omega (arith, mul-div-le u64_max (suc a), times_mono (suc a) b (u64_max / suc a) below)

-- `checked_mul_size` returns the product if that is a 64-bit word, and throws otherwise.
pub checked_mul_size_lem : (a b : ℕ) → IsExact (a * b) (checked_mul_size a b)
unfolding checked_mul_size
checked_mul_size_lem a b = elim (Bool-cases (not (a == 0) && ltb (u64_max / a) b)) [
  | inl wraps ↦ inr (mul_wraps a b wraps, rw wraps refl)
  | inr fits ↦ let below = mul_fits a b fits in inl (below, rw (fits, mul64_lem a b below) refl)
]

-- `checked_bytes_for_floats` and `checked_bytes_for_u16` return four and two bytes for each
-- element if that is a 64-bit word, and throw otherwise.
pub checked_bytes_lem :
    (count : ℕ)
    → IsExact (count * 4) (checked_bytes_for_floats count)
      × IsExact (count * 2) (checked_bytes_for_u16 count)
unfolding checked_bytes_for_floats checked_bytes_for_u16
checked_bytes_lem count = (checked_mul_size_lem count 4, checked_mul_size_lem count 2)
