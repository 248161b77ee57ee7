-- ===== src/Half/RoundTrip.antt =====
-- What `fp16_to_fp32` keeps of a number of half precision, and the way back.
use mem_vanta.Prelude.{
  ℕ, ◌*◌, ◌/◌, ◌^◌, ◌<◌, ◌≡◌, refl, Bool, true, false, not, ◌&&◌, ◌||◌, ◌⊎◌, inl, inr, ==_iff,
}
use mem_vanta.Half.{fp16_to_fp32, fp32_to_fp16}
use mem_vanta.Half.Table.{is_nan, is_finite, half_size, float_size, survives, survives_lem}

and_left : (a b : Bool) → (a && b) ≡ true → a ≡ true
and_left true b h = refl
and_left false b h = cc

and_right : (a b : Bool) → (a && b) ≡ true → b ≡ true
and_right true b h = h
and_right false b h = cc

or_right : (a b : Bool) → a ≡ true → (not a || b) ≡ true → b ≡ true
or_right true b f h = h
or_right false b f h = cc

or_cases : (a b : Bool) → (a || b) ≡ true → (a ≡ true) ⊎ (b ≡ true)
or_cases true b h = inl refl
or_cases false b h = inr h

-- For every number of half precision, fp32_to_fp16 undoes fp16_to_fp32, except that a NaN may
-- become another NaN of the same sign.
pub fp32_to_fp16-fp16_to_fp32 :
    (h : ℕ)
    → h < 65536
    → (fp32_to_fp16 (fp16_to_fp32 h) ≡ h)
      ⊎ ((is_nan h ≡ true)
          × (is_nan (fp32_to_fp16 (fp16_to_fp32 h)) ≡ true)
          × (fp32_to_fp16 (fp16_to_fp32 h) / 32768 ≡ h / 32768))
unfolding survives
fp32_to_fp16-fp16_to_fp32 h lt = elim (or_cases _ _ (and_left _ _ (survives_lem h lt))) [
  | inl same ↦ inl ((==_iff _ _).0 same)
  | inr nan ↦
      let rest = and_right _ _ nan in
      inr (and_left _ _ nan, and_left _ _ rest, (==_iff _ _).0 (and_right _ _ rest))
]

-- For every finite number of half precision, the number that fp16_to_fp32 returns has the same
-- size and the same sign by the definition of the two formats.
pub float_size-fp16_to_fp32 :
    (h : ℕ)
    → h < 65536
    → is_finite h ≡ true
    → (float_size (fp16_to_fp32 h) ≡ half_size h * 2 ^ 125)
      × (fp16_to_fp32 h / 2147483648 ≡ h / 32768)
unfolding survives
float_size-fp16_to_fp32 h lt f =
    let same = and_right _ _ (survives_lem h lt) in
    ((==_iff _ _).0 (or_right _ _ f (and_right _ _ same)), (==_iff _ _).0 (and_left _ _ same))
