-- ===== src/Prelude/Float.antt =====
-- `double` is not implemented by the program: its operations are a parameter. `decimal m k` is the
-- literal m / 10 ^ k.
use mem_vanta.Prelude.Int.{ℤ, pos, pos_part}
use Prim.Native.Nat.{ℕ, zero, suc, ◌+◌, ◌*◌, ◌/◌, ◌^◌}
use mathlib.Core.Bool.{Bool, true, false}
use mathlib.Core.Option.{Option, none, some}
use mem_vanta.Prelude.Tests.{ltb, ◌==◌, leb, if◌then◌else◌}

pub record Double : Type 1 where
  pub D : Type 0
  pub lt : D → D → Bool
  pub le : D → D → Bool
  pub add : D → D → D
  pub mul : D → D → D
  pub div : D → D → D
  pub of_u64 : ℕ → D
  pub decimal : ℕ → ℕ → D
  pub infinity : D
  pub is_finite : D → Bool

module _ (F : Double) where
  open F use {D, lt}

  -- std::clamp
  abbrev pub clamp : D → D → D → D
  clamp x lo hi = if lt x lo then lo else if lt hi x then hi else x

-- `float`, with its bit patterns and its roundings to integers.
pub record Single : Type 1 where
  pub F : Type 0
  pub nought : F
  pub one : F
  pub add : F → F → F
  pub mul : F → F → F
  pub div : F → F → F
  pub abs : F → F
  pub lt : F → F → Bool
  pub eq : F → F → Bool
  pub of_int : ℤ → F
  pub nearbyint : F → ℤ
  pub lround : F → ℤ
  pub to_bits : F → ℕ
  pub of_bits : ℕ → F

module _ (S : Single) where
  open S use {F, nought, add, mul, abs, lt}

  -- std::max
  abbrev pub max_f : F → F → F
  max_f a b = if lt a b then b else a

  unfoldable pub amax : ℕ → (ℕ → F) → F
  amax zero k = nought
  amax (suc n) k = max_f (amax n k) (abs (k n))

  -- A sum of products, from the left.
  unfoldable pub dot : ℕ → (ℕ → F) → (ℕ → F) → F
  dot zero q k = nought
  dot (suc n) q k = add (dot n q k) (mul (q n) (k n))

-- Thousandths, and an infinity: numbers to run examples with.
abbrev lt_milli : Option ℕ → Option ℕ → Bool
lt_milli none b = false
lt_milli (some a) none = true
lt_milli (some a) (some b) = ltb a b

abbrev le_milli : Option ℕ → Option ℕ → Bool
le_milli a none = true
le_milli none (some b) = false
le_milli (some a) (some b) = leb a b

abbrev lift_milli : (ℕ → ℕ → ℕ) → Option ℕ → Option ℕ → Option ℕ
lift_milli f (some a) (some b) = some (f a b)
lift_milli f a b = none

abbrev is_some : Option ℕ → Bool
is_some none = false
is_some (some _) = true

abbrev pub milli : Double
milli = record {
  D = Option ℕ;
  lt = lt_milli;
  le = le_milli;
  add = lift_milli (λ a b. a + b);
  mul = lift_milli (λ a b. a * b / 1000);
  div = lift_milli (λ a b. a * 1000 / b);
  of_u64 = λ n. some (n * 1000);
  decimal = λ m k. some (m * 1000 / 10 ^ k);
  infinity = none;
  is_finite = is_some;
}

-- Numbers without sign and fraction, to run examples with.
abbrev pub numbers : Single
numbers = record {
  F = ℕ;
  nought = 0;
  one = 1;
  add = λ a b. a + b;
  mul = λ a b. a * b;
  div = λ a b. a / b;
  abs = λ a. a;
  lt = ltb;
  eq = ◌==◌;
  of_int = pos_part;
  nearbyint = pos;
  lround = pos;
  to_bits = λ a. a;
  of_bits = λ a. a;
}
