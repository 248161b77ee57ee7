-- ===== src/Tokenizer/Text.antt =====
-- `pretokenize_gpt2`: the pieces of a text that the byte-pair encoding is applied to.
use mem_vanta.Prelude.{
  ℕ, zero, suc, ◌+◌, ◌-◌, ◌≤◌, ◌<◌, ◌≡◌, refl, ap, ◌∙◌, Bool, true, false, not, ◌&&◌, List, [], ◌∷◌,
  ◌++◌, arith, ◌==◌, if◌then◌else◌, length, take, drop, if-cases,
}
use mathlib.Core.List.{flatten}
use mem_vanta.Gguf.Types.{Bytes}
use mem_vanta.Tokenizer.Utf8.{utf8_from, utf8_from_bounds, utf8_at, u_space, u_digit, u_letter}

-- `text.compare(at, z, c) == 0`, where `z` is the size of `c` and the text is that long.
unfoldable pub starts_with : Bytes → Bytes → Bool
starts_with [] s = true
starts_with (x ∷ xs) [] = false
starts_with (x ∷ xs) (y ∷ ys) = (x == y) && starts_with xs ys

abbrev contractions : List Bytes
contractions =
    (b'\'' ∷ b's' ∷ [])
    ∷ (b'\'' ∷ b't' ∷ [])
    ∷ (b'\'' ∷ b'r' ∷ b'e' ∷ [])
    ∷ (b'\'' ∷ b'v' ∷ b'e' ∷ [])
    ∷ (b'\'' ∷ b'm' ∷ [])
    ∷ (b'\'' ∷ b'l' ∷ b'l' ∷ [])
    ∷ (b'\'' ∷ b'd' ∷ [])
    ∷ []

-- The size of the first of some strings that a text starts with, or 0.
unfoldable pub first_match : List Bytes → Bytes → ℕ
unfolding starts_with
first_match [] s = 0
first_match (c ∷ cs) s = if starts_with c s then length c else first_match cs s

unfoldable pub contraction : Bytes → ℕ
unfolding first_match
contraction s = first_match contractions s

pub data Kind : Type 0 where
  letter digit punctuation : Kind

unfoldable pub kind_of : ℕ → Kind
unfolding u_digit u_letter
kind_of cp = if u_digit cp then digit else if u_letter cp then letter else punctuation

abbrev same_kind : Kind → Kind → Bool
same_kind letter letter = true
same_kind digit digit = true
same_kind punctuation punctuation = true
same_kind _ _ = false

-- Whether a run of a kind goes on with a character.
abbrev goes_on : Kind → ℕ → Bool
goes_on k cp = not (u_space cp) && same_kind (kind_of cp) k

-- The bytes of a run, on fuel. Only the run that starts no word after a space ends at a contraction.
unfoldable pub run : Bool → Kind → ℕ → Bytes → ℕ
unfolding u_space kind_of contraction
run splits k zero s = 0
run splits k (suc fuel) [] = 0
run splits k (suc fuel) (c ∷ s) =
    let (n, cp) = utf8_from c s in
    let rest = run splits k fuel (drop n (c ∷ s)) in
    if splits && not (contraction (c ∷ s) == 0) then 0 else if goes_on k cp then n + rest else 0

unfoldable pub space_run : ℕ → Bytes → ℕ
unfolding u_space
space_run zero s = 0
space_run (suc fuel) [] = 0
space_run (suc fuel) (c ∷ s) =
    let (n, cp) = utf8_from c s in
    let rest = space_run fuel (drop n (c ∷ s)) in if u_space cp then n + rest else 0

abbrev is_nil : Bytes → Bool
is_nil [] = true
is_nil (c ∷ s) = false

-- The size of the piece at the front of a text that is not empty.
unfoldable pub piece_size : ℕ → Bytes → ℕ
unfolding contraction run space_run
piece_size c s =
    let text = c ∷ s in
    let fuel = length text in
    let (n, cp) = utf8_from c s in
    let next = (utf8_at s).1 in
    if not (contraction text == 0)
    then contraction text
    else if u_space cp
    then if (cp == 0x20) && (not (is_nil s) && not (u_space next))
      then 1 + run false (kind_of next) fuel s
      else n + space_run fuel (drop n text)
    else n + run true (kind_of cp) fuel (drop n text)

-- The loop over the text, on fuel: each piece has a byte at least.
unfoldable pub pieces : ℕ → Bytes → List Bytes
unfolding piece_size
pieces zero s = []
pieces (suc fuel) [] = []
pieces (suc fuel) (c ∷ s) =
    take (piece_size c s) (c ∷ s) ∷ pieces fuel (drop (piece_size c s) (c ∷ s))

unfoldable pub pretokenize_gpt2 : Bytes → List Bytes
unfolding pieces
pretokenize_gpt2 s = pieces (length s) s

pub take-append-drop : (n : ℕ) (s : Bytes) → take n s ++ drop n s ≡ s
take-append-drop zero s = refl
take-append-drop (suc n) [] = refl
take-append-drop (suc n) (c ∷ s) = ap (◌∷◌ c) (take-append-drop n s)

pub length-drop : (n : ℕ) (s : Bytes) → length (drop n s) ≡ length s - n
length-drop zero s = omega arith
length-drop (suc n) [] = omega arith
length-drop (suc n) (c ∷ s) = omega (arith, length-drop n s)

-- A piece has a byte at least.
piece_size_pos : (c : ℕ) (s : Bytes) → 0 < piece_size c s
unfolding piece_size
piece_size_pos c s =
    let unit = (utf8_from_bounds c s).0 in
    if-cases P (not (contraction (c ∷ s) == 0)) _ _ (λ h. ground arith)
      λ _.
        if-cases P (u_space (utf8_from c s).1) _ _
          (λ _.
            if-cases P
              ((utf8_from c s).1 == 0x20 && (not (is_nil s) && not (u_space (utf8_at s).1))) _ _
              (λ _. omega arith) (λ _. omega arith))
          (λ _. omega arith)
  where
    P : ℕ → Type 0
    P n = 0 < n

flatten-pieces : (fuel : ℕ) (s : Bytes) → length s ≤ fuel → flatten (pieces fuel s) ≡ s
unfolding pieces flatten
flatten-pieces zero [] h = refl
flatten-pieces zero (c ∷ s) h = absurd (omega arith)
flatten-pieces (suc fuel) [] h = refl
flatten-pieces (suc fuel) (c ∷ s) h =
    let n = piece_size c s in
    ap (λ rest. take n (c ∷ s) ++ rest)
      (flatten-pieces fuel (drop n (c ∷ s))
        (omega (arith, piece_size_pos c s, length-drop n (c ∷ s))))
    ∙ take-append-drop n (c ∷ s)

-- The pieces that a text is cut into, one after the other, are the text.
pub flatten-pretokenize_gpt2 : (s : Bytes) → flatten (pretokenize_gpt2 s) ≡ s
unfolding pretokenize_gpt2
flatten-pretokenize_gpt2 s = flatten-pieces (length s) s (omega arith)
