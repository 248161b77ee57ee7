-- ===== src/Quant/Packing.antt =====
-- What is packed into a block is read back.
use Prim.Native.Nat.{bit_and, bit_or}
use mem_vanta.Prelude.{
  ℕ, zero, suc, ◌+◌, ◌-◌, ◌*◌, ◌/◌, ◌%◌, ◌≤◌, ◌<◌, ◌≡◌, refl, sym, ap, ◌∙◌, subst, Bool, true,
  false, ◌&&◌, arith, ltb, ◌==◌, ==_iff, if◌then◌else◌, Bool-cases, inl, inr, if-cases,
}
use mem_vanta.Prelude.Int.{ℤ, pos, negsuc, ltb_ℤ}
use mem_vanta.Quant.{clamp, to_nibble, of_nibble, set, put_nibble, pack, unpack}

-- The numbers that a half of a byte can stand for.
pub record IsLevel (z : ℤ) : Type 0 where
  pub small : to_nibble z < 16
  pub back : of_nibble (to_nibble z) ≡ z

level_lem : (z : ℤ) → ltb_ℤ z (negsuc 7) ≡ false → ltb_ℤ (pos 7) z ≡ false → IsLevel z
unfolding to_nibble of_nibble
level_lem (pos n) h k = record { small = ground arith; back = level_pos n (ground arith) }
  where
    level_pos : (n : ℕ) → n < 8 → of_nibble (to_nibble (pos n)) ≡ pos n
    level_pos n h =
        let e : (n + 8) % 256 ≡ n + 8 = omega arith in
        let high : ltb (n + 8) 8 ≡ false = ground arith in
        rw (to_nibble, e, of_nibble, high) (ap pos (omega arith))
level_lem (negsuc n) h k = record { small = ground arith; back = level_neg n (ground arith) }
  where
    level_neg : (n : ℕ) → n < 8 → of_nibble (to_nibble (negsuc n)) ≡ negsuc n
    level_neg n h =
        let e : (255 - n % 256 + 8) % 256 ≡ 7 - n = omega arith in
        let low : ltb (7 - n) 8 ≡ true = ground arith in
        rw (to_nibble, e, of_nibble, low) (ap negsuc (omega arith))

pub clamp-IsLevel : (z : ℤ) → IsLevel (clamp z (negsuc 7) (pos 7))
clamp-IsLevel z =
    if-cases IsLevel (ltb_ℤ z (negsuc 7)) _ _ (λ _. level_lem (negsuc 7) refl refl)
      λ h.
        if-cases IsLevel (ltb_ℤ (pos 7) z) _ _ (λ _. level_lem (pos 7) refl refl)
          λ k. level_lem z h k

-- Two functions compared at the numbers below another.
agree : (ℕ → ℕ) → (ℕ → ℕ) → ℕ → Bool
agree f g zero = true
agree f g (suc n) = (f n == g n) && agree f g n

agree_at : (f g : ℕ → ℕ) (n k : ℕ) → agree f g n ≡ true → k < n → f k ≡ g k
unfolding agree
agree_at f g zero k h lt = absurd (omega arith)
agree_at f g (suc n) k h lt = elim (Bool-cases (k == n)) [
  | inl e ↦
      let here : (f n == g n) ≡ true = ground arith in
      subst (λ j. f j ≡ g j) (sym ((==_iff k n).0 e)) ((==_iff _ _).0 here)
  | inr ne ↦ agree_at f g n k (ground arith) (ground arith)
]

parity : (i : ℕ) → i < 32 → bit_and i 1 ≡ i % 2
unfolding agree
parity i h = agree_at (λ i. bit_and i 1) (λ i. i % 2) 32 i refl h

-- A byte of two halves, by their values in one number.
abbrev byte : ℕ → ℕ → ℕ
byte a b = bit_or a (b * 16 % 256)

low_half : (a b : ℕ) → a < 16 → b < 16 → bit_and (byte a b) 0x0f ≡ a
unfolding agree
low_half a b h k =
    subst (λ x. bit_and (byte x b) 0x0f ≡ x) low
      (subst (λ y. bit_and (byte ((a + 16 * b) % 16) y) 0x0f ≡ (a + 16 * b) % 16) high
        (agree_at (λ p. bit_and (byte (p % 16) (p / 16)) 0x0f) (λ p. p % 16) 256 (a + 16 * b) refl
          (omega arith)))
  where
    low : (a + 16 * b) % 16 ≡ a
    low = omega arith

    high : (a + 16 * b) / 16 ≡ b
    high = omega arith

high_half : (a b : ℕ) → a < 16 → b < 16 → byte a b / 16 ≡ b
unfolding agree
high_half a b h k =
    subst (λ x. byte x b / 16 ≡ b) low
      (subst (λ y. byte ((a + 16 * b) % 16) y / 16 ≡ y) high
        (agree_at (λ p. byte (p % 16) (p / 16) / 16) (λ p. p / 16) 256 (a + 16 * b) refl
          (omega arith)))
  where
    low : (a + 16 * b) % 16 ≡ a
    low = omega arith

    high : (a + 16 * b) / 16 ≡ b
    high = omega arith

-- A byte of which one half was written, or both.
pack_half : (n j : ℕ) (q : ℕ → ℤ) → n ≤ 32 → n ≡ 2 * j + 1 → pack n q j ≡ to_nibble (q (2 * j))
unfolding pack put_nibble
pack_half zero j q h e = absurd (omega arith)
pack_half (suc n) j q h e =
    let even : (bit_and n 1 == 0) ≡ true = ground (arith, parity n (omega arith)) in
    let here : (j == n / 2) ≡ true = ground arith in
    rw (pack, put_nibble, even, here) (ap (λ i. to_nibble (q i)) (omega arith))

pack_both :
    (n j : ℕ) (q : ℕ → ℤ)
    → n ≤ 32
    → 2 * j + 1 < n
    → pack n q j ≡ byte (to_nibble (q (2 * j))) (to_nibble (q (2 * j + 1)))
unfolding pack put_nibble
pack_both zero j q h lt = absurd (omega arith)
pack_both (suc n) j q h lt = elim (Bool-cases (n == 2 * j + 1)) [
  | inl e ↦
      let n≡ : n ≡ 2 * j + 1 = (==_iff _ _).0 e in
      let odd : (bit_and n 1 == 0) ≡ false = ground (arith, parity n (omega arith)) in
      let here : (j == n / 2) ≡ true = ground arith in
      let half : n / 2 ≡ j = omega arith in
      rw (pack, put_nibble, odd, here, half, pack_half n j q (omega arith) n≡, n≡) refl
  | inr ne ↦ other (bit_and n 1 == 0) (ground arith) (pack_both n j q (omega arith) (ground arith))
]
  where
    other :
        (even : Bool)
        → (j == n / 2) ≡ false
        → pack n q j ≡ byte (to_nibble (q (2 * j))) (to_nibble (q (2 * j + 1)))
        → (if even
              then set (n / 2) (to_nibble (q n)) (pack n q)
              else set (n / 2) (bit_or (pack n q (n / 2)) (to_nibble (q n) * 16 % 256)) (pack n q))
            j
          ≡ byte (to_nibble (q (2 * j))) (to_nibble (q (2 * j + 1)))
    other true away same = rw away same
    other false away same = rw away same

-- Each of the numbers that were packed is read back.
pub unpack-pack :
    (q : ℕ → ℤ) (k : ℕ) → ((i : ℕ) → IsLevel (q i)) → k < 32 → unpack (pack 32 q) k ≡ q k
unfolding unpack
unpack-pack q k level h =
    let j = k / 2 in
    let a = to_nibble (q (2 * j)) in
    let b = to_nibble (q (2 * j + 1)) in
    let bytes = pack_both 32 j q (omega arith) (omega arith) in
    elim (Bool-cases (bit_and k 1 == 0)) [
      | inl even ↦
          let e : 2 * j ≡ k = ground (arith, parity k h) in
          rw (unpack, bytes, even, low_half a b (level (2 * j)).small (level (2 * j + 1)).small)
            ((level (2 * j)).back ∙ ap q e)
      | inr odd ↦
          let e : 2 * j + 1 ≡ k = ground (arith, parity k h) in
          rw (unpack, bytes, odd, high_half a b (level (2 * j)).small (level (2 * j + 1)).small)
            ((level (2 * j + 1)).back ∙ ap q e)
    ]

-- What a block without a scale is read as.
pub unpack_zero : (k : ℕ) → unpack (λ j. 0) k ≡ negsuc 7
unfolding unpack of_nibble
unpack_zero k = elim (Bool-cases (bit_and k 1 == 0)) [
  | inl even ↦ rw (unpack, even) refl
  | inr odd ↦ rw (unpack, odd) refl
]
