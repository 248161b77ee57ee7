-- ===== src/Half/Table.antt =====
-- A test of all 65536 numbers of half precision, by evaluation.
use Prim.Native.Nat.{bit_and}
use mem_vanta.Prelude.{
  ℕ, zero, suc, ◌+◌, ◌-◌, ◌*◌, ◌/◌, ◌%◌, ◌^◌, ◌<◌, ◌≡◌, refl, sym, subst, Bool-cases, Bool, true,
  not, ◌&&◌, ◌||◌, arith, ltb, ◌==◌, sub32, if◌then◌else◌, ◌⊎◌, inl, inr,
}
use mem_vanta.Half.{normalize, fp16_to_fp32, fp32_to_fp16}

abbrev pub is_nan : ℕ → Bool
is_nan h = (bit_and h 0x7c00 == 0x7c00) && not (bit_and h 0x03ff == 0)

abbrev pub is_finite : ℕ → Bool
is_finite h = not (bit_and h 0x7c00 == 0x7c00)

-- The size of a finite number of half precision, in units of 2 ^ -24, and of a `float`, in units of
-- 2 ^ -149: the definition of the formats.
abbrev pub half_size : ℕ → ℕ
half_size h =
    let e = h / 1024 % 32 in let f = h % 1024 in if e == 0 then f else (1024 + f) * 2 ^ (e - 1)

abbrev pub float_size : ℕ → ℕ
float_size x =
    let e = x / 8388608 % 256 in
    let f = x % 8388608 in if e == 0 then f else (8388608 + f) * 2 ^ (e - 1)

-- The results for a number: `x` is the `float` and `r` is the way back.
abbrev same : ℕ → ℕ → ℕ → Bool
same h x r =
    ((r == h) || (is_nan h && (is_nan r && (r / 32768 == h / 32768))))
    && ((x / 2147483648 == h / 32768)
        && (not (is_finite h) || (float_size x == half_size h * 2 ^ 125)))

unfoldable pub survives : ℕ → Bool
survives h = same h (fp16_to_fp32 h) (fp32_to_fp16 (fp16_to_fp32 h))

lt_or_eq : (k n : ℕ) → k < suc n → (k < n) ⊎ (k ≡ n)
lt_or_eq k n h = elim (Bool-cases (ltb k n)) [
  | inl b ↦ inl (ground arith)
  | inr b ↦ inr (ground arith)
]

-- A test at the `n` numbers below `a + n`, and at the numbers of `b` blocks of 256.
check : (ℕ → Bool) → ℕ → ℕ → Bool
check p a zero = true
check p a (suc n) = p (a + n) && check p a n

check_blocks : (ℕ → Bool) → ℕ → Bool
check_blocks p zero = true
check_blocks p (suc b) = check p (b * 256) 256 && check_blocks p b

table_lem : check_blocks survives 256 ≡ true
unfolding survives check check_blocks normalize fp16_to_fp32 fp32_to_fp16 sub32
table_lem = refl

check_at : (p : ℕ → Bool) (a n k : ℕ) → check p a n ≡ true → k < n → p (a + k) ≡ true
unfolding check
check_at p a zero k h lt = absurd (omega arith)
check_at p a (suc n) k h lt = elim (lt_or_eq k n lt) [
  | inl below ↦ check_at p a n k (ground arith) below
  | inr e ↦ subst (λ j. p (a + j) ≡ true) (sym e) (ground arith)
]

check_blocks_at :
    (p : ℕ → Bool) (b c k : ℕ) → check_blocks p b ≡ true → c < b → k < 256 → p (c * 256 + k) ≡ true
unfolding check_blocks
check_blocks_at p zero c k h lt u = absurd (omega arith)
check_blocks_at p (suc b) c k h lt u = elim (lt_or_eq c b lt) [
  | inl below ↦ check_blocks_at p b c k (ground arith) below u
  | inr e ↦
      subst (λ j. p (j * 256 + k) ≡ true) (sym e) (check_at p (b * 256) 256 k (ground arith) u)
]

-- The test at any number of half precision.
pub survives_lem : (h : ℕ) → h < 65536 → survives h ≡ true
survives_lem h lt =
    subst (λ j. survives j ≡ true) (omega arith)
      (check_blocks_at survives 256 (h / 256) (h % 256) table_lem (omega arith) (omega arith))
