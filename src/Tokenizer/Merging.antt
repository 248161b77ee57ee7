-- ===== src/Tokenizer/Merging.antt =====
-- The merges of a byte-pair encoding: they keep the bytes that the symbols stand for, and they end.
use mem_vanta.Prelude.{
  ℕ, zero, suc, ◌≤◌, ◌<◌, ◌≡◌, refl, sym, ap, ◌∙◌, subst, none, List, [], ◌∷◌, ◌++◌, map, arith,
  length, length-append, All, append_assoc, Option-cases, inl, inr, u64_max,
}
use mathlib.Core.List.{flatten}
use mem_vanta.Gguf.Types.{Bytes}
use mem_vanta.Tokenizer.Utf8.{utf8_from}
use mem_vanta.Tokenizer.ByteMap.{gpt2_encode_bytes}
use mem_vanta.Tokenizer.ByteRoundTrip.{
  atom, atom-is_unit, is_unit→IsUnit, IsUnit, take-append, drop-append, atom-nonempty,
}
use mem_vanta.Tokenizer.Bpe.{Index, units, best_pair, merge_at, merge_loop}

pub gpt2_encode_bytes-append :
    (s u : Bytes) → gpt2_encode_bytes (s ++ u) ≡ gpt2_encode_bytes s ++ gpt2_encode_bytes u
unfolding gpt2_encode_bytes
gpt2_encode_bytes-append [] u = refl
gpt2_encode_bytes-append (b ∷ s) u =
    ap (λ rest. atom b ++ rest) (gpt2_encode_bytes-append s u)
    ∙ sym (append_assoc (atom b) (gpt2_encode_bytes s) (gpt2_encode_bytes u))

units-unit :
    (fuel : ℕ) (x rest : Bytes) → IsUnit x → units (suc fuel) (x ++ rest) ≡ x ∷ units fuel rest
units-unit fuel x rest u =
    subst (λ y. units (suc fuel) (y ++ rest) ≡ y ∷ units fuel rest) (sym u.split)
      (split_first u.first u.others (u.reads rest ∙ ap length u.split))
  where
    split_first :
        (c : ℕ) (others : Bytes)
        → (utf8_from c (others ++ rest)).0 ≡ length (c ∷ others)
        → units (suc fuel) (c ∷ others ++ rest) ≡ (c ∷ others) ∷ units fuel rest
    split_first c others reads =
        unfold units in
        rw (reads, take-append (c ∷ others) rest, drop-append (c ∷ others) rest) refl

-- The characters of an encoded string are those of its bytes.
pub units-gpt2_encode_bytes :
    (s : Bytes) (fuel : ℕ)
    → All (λ b. b < 256) s
    → length (gpt2_encode_bytes s) ≤ fuel
    → units fuel (gpt2_encode_bytes s) ≡ map atom s
unfolding gpt2_encode_bytes
units-gpt2_encode_bytes [] zero h k = unfold units in refl
units-gpt2_encode_bytes [] (suc fuel) h k = unfold units in refl
units-gpt2_encode_bytes (b ∷ s) zero h k =
    absurd (omega (arith, atom-nonempty b h.0, length-append (atom b) (gpt2_encode_bytes s)))
units-gpt2_encode_bytes (b ∷ s) (suc fuel) h k =
    units-unit fuel (atom b) (gpt2_encode_bytes s) (is_unit→IsUnit (atom b) (atom-is_unit b h.0))
    ∙ ap (◌∷◌ (atom b)) (
        units-gpt2_encode_bytes s fuel h.1
          (omega (arith, k, atom-nonempty b h.0, length-append (atom b) (gpt2_encode_bytes s))))

-- Merging symbols merges the strings that they encode.
merge_at-encode :
    (i : ℕ) (xs : List Bytes)
    → merge_at i (map gpt2_encode_bytes xs) ≡ map gpt2_encode_bytes (merge_at i xs)
unfolding merge_at
merge_at-encode i [] = refl
merge_at-encode zero (x ∷ []) = refl
merge_at-encode (suc i) (x ∷ []) = refl
merge_at-encode zero (x ∷ y ∷ xs) =
    ap (λ z. z ∷ map gpt2_encode_bytes xs) (sym (gpt2_encode_bytes-append x y))
merge_at-encode (suc i) (x ∷ y ∷ xs) = ap (◌∷◌ (gpt2_encode_bytes x)) (merge_at-encode i (y ∷ xs))

flatten-merge_at : (i : ℕ) (xs : List Bytes) → flatten (merge_at i xs) ≡ flatten xs
unfolding merge_at flatten
flatten-merge_at i [] = refl
flatten-merge_at zero (x ∷ []) = refl
flatten-merge_at (suc i) (x ∷ []) = refl
flatten-merge_at zero (x ∷ y ∷ xs) = append_assoc x y (flatten xs)
flatten-merge_at (suc i) (x ∷ y ∷ xs) = ap (λ rest. x ++ rest) (flatten-merge_at i (y ∷ xs))

pub merge_loop-encode :
    (ranks : Index) (fuel : ℕ) (xs : List Bytes)
    → (ys : List Bytes) × (merge_loop ranks fuel (map gpt2_encode_bytes xs)
        ≡ map gpt2_encode_bytes ys)
      × (flatten ys ≡ flatten xs)
unfolding merge_loop
merge_loop-encode ranks zero xs = (xs, refl, refl)
merge_loop-encode ranks (suc fuel) xs =
    elim (Option-cases (best_pair ranks 0 u64_max none (map gpt2_encode_bytes xs))) [
      | inl e ↦ (xs, rw (merge_loop, e) refl, refl)
      | inr (i, e) ↦
          let (ys, merged, same) = merge_loop-encode ranks fuel (merge_at i xs) in
          (
            ys,
            rw (merge_loop, e) (ap (merge_loop ranks fuel) (merge_at-encode i xs) ∙ merged),
            same ∙ flatten-merge_at i xs,
          )
    ]
