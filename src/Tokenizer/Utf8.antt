-- ===== src/Tokenizer/Utf8.antt =====
-- `utf8_at` and the character classes `u_space`, `u_digit`, `u_letter`.
use Prim.Native.Nat.{bit_and, bit_or}
use mem_vanta.Prelude.{
  ℕ, suc, ◌*◌, ◌≤◌, ◌<◌, Bool, false, not, ◌||◌, ◌&&◌, Option, none, some, [], ◌∷◌, arith, ltb, leb,
  ◌==◌, if◌then◌else◌, length, get_elem?,
}
use mem_vanta.Gguf.Types.{Bytes}

-- `(s[i] & 0xc0) == 0x80` inside the string.
abbrev is_continuation : Option ℕ → Bool
is_continuation none = false
is_continuation (some b) = bit_and b 0xc0 == 0x80

abbrev cont : Bytes → ℕ → Bool
cont s i = is_continuation (get_elem? s i)

abbrev low_six : Option ℕ → ℕ
low_six none = 0
low_six (some b) = bit_and b 0x3f

abbrev six_at : Bytes → ℕ → ℕ
six_at s i = low_six (get_elem? s i)

-- The unit of a first byte and what follows it: its length and its code point. A shift to the left
-- is a product.
unfoldable pub utf8_from : ℕ → Bytes → ℕ × ℕ
utf8_from c s =
    if ltb c 0x80
    then (1, c)
    else if (bit_and c 0xe0 == 0xc0) && cont s 0
    then (2, bit_or (bit_and c 0x1f * 64) (six_at s 0))
    else if (bit_and c 0xf0 == 0xe0) && (cont s 0 && cont s 1)
    then (3, bit_or (bit_or (bit_and c 0x0f * 4096) (six_at s 0 * 64)) (six_at s 1))
    else if (bit_and c 0xf8 == 0xf0) && (cont s 0 && (cont s 1 && cont s 2))
    then (
      4,
      bit_or (bit_or (bit_or (bit_and c 0x07 * 262144) (six_at s 0 * 4096)) (six_at s 1 * 64))
          (six_at s 2),
    )
    else (1, c)

-- `utf8_at`; no caller asks at the end of the string, which the C++ reads as a zero byte.
unfoldable pub utf8_at : Bytes → ℕ × ℕ
unfolding utf8_from
utf8_at [] = (1, 0)
utf8_at (c ∷ s) = utf8_from c s

unfoldable pub u_space : ℕ → Bool
u_space cp =
    (cp == 0x20)
    || ((cp == 0x09)
        || ((cp == 0x0a)
            || ((cp == 0x0d)
                || ((cp == 0x0b)
                    || ((cp == 0x0c)
                        || ((cp == 0x85)
                            || ((cp == 0xa0)
                                || ((cp == 0x1680)
                                    || ((leb 0x2000 cp && leb cp 0x200a)
                                        || ((cp == 0x2028)
                                            || ((cp == 0x2029)
                                                || ((cp == 0x202f)
                                                    || ((cp == 0x205f)
                                                        || (cp == 0x3000))))))))))))))

unfoldable pub u_digit : ℕ → Bool
u_digit cp = leb b'0' cp && leb cp b'9'

unfoldable pub u_letter : ℕ → Bool
unfolding u_space
u_letter cp =
    if ltb cp 128
    then (leb b'A' cp && leb cp b'Z') || (leb b'a' cp && leb cp b'z')
    else not (u_space cp)

-- A unit has at least one byte, and lies in the string.
pub utf8_from_bounds :
    (c : ℕ) (s : Bytes) → (0 < (utf8_from c s).0) × ((utf8_from c s).0 ≤ suc (length s))
unfolding utf8_from
utf8_from_bounds c [] = ground arith
utf8_from_bounds c (a ∷ []) = ground arith
utf8_from_bounds c (a ∷ b ∷ []) = ground arith
utf8_from_bounds c (a ∷ b ∷ d ∷ s) = ground arith
