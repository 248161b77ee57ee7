-- ===== src/Tokenizer/ByteMap.antt =====
-- `make_byte_unicode`, `gpt2_encode_bytes` and `gpt2_decode_bytes`: the printable characters that
-- stand for bytes in a vocabulary.
use Prim.Native.Nat.{bit_and, bit_or}
use mem_vanta.Prelude.{
  ℕ, zero, suc, ◌+◌, ◌/◌, Option, none, some, List, [], ◌∷◌, ◌++◌, leb, if◌then◌else◌, length,
  get_or, take, drop, elem, replicate,
}
use mem_vanta.Gguf.Types.{Bytes}
use mem_vanta.Gguf.Tensors.{lookup}
use mem_vanta.Tokenizer.Utf8.{utf8_from}

-- `for (int i = a; …; ++i) bs.push_back(i)`, n rounds.
abbrev count_up : ℕ → ℕ → List ℕ
count_up a zero = []
count_up a (suc n) = a ∷ count_up (suc a) n

-- The bytes that stand for themselves: 33 to 126, 161 to 172, 174 to 255.
abbrev printable : List ℕ
printable = count_up 33 94 ++ (count_up 161 12 ++ count_up 174 82)

-- The loop over all bytes, from `b` on, with `n` characters given out: the pairs of `bs` and `cs`.
-- What the loop itself adds to `bs` are smaller bytes, so its search is one in `printable`.
unfoldable pub add_others : ℕ → ℕ → ℕ → List (ℕ × ℕ)
add_others zero b n = []
add_others (suc rounds) b n =
    let rest = add_others rounds (suc b) n in
    let rest' = add_others rounds (suc b) (suc n) in
    if elem b printable then rest else (b, 256 + n) ∷ rest'

abbrev itself : ℕ → ℕ × ℕ
itself b = (b, b)

abbrev pairs : List ℕ → List (ℕ × ℕ)
pairs [] = []
pairs (b ∷ bs) = itself b ∷ pairs bs

unfoldable pub byte_codes : List (ℕ × ℕ)
unfolding add_others
byte_codes = pairs printable ++ add_others 256 0 0

-- The local function `utf8`; a shift to the right is a quotient.
unfoldable pub utf8 : ℕ → Bytes
utf8 cp =
    if leb cp 0x7f
    then cp ∷ []
    else if leb cp 0x7ff
    then bit_or 0xc0 (cp / 64) ∷ bit_or 0x80 (bit_and cp 63) ∷ []
    else bit_or 0xe0 (cp / 4096)
      ∷ bit_or 0x80 (bit_and (cp / 64) 63)
      ∷ bit_or 0x80 (bit_and cp 63)
      ∷ []

abbrev set_at : List Bytes → ℕ → Bytes → List Bytes
set_at [] i v = []
set_at (x ∷ xs) zero v = v ∷ xs
set_at (x ∷ xs) (suc i) v = x ∷ set_at xs i v

-- `out[bs[i]] = utf8(cs[i])`
unfoldable pub fill : List (ℕ × ℕ) → List Bytes → List Bytes
unfolding utf8
fill [] out = out
fill ((b, cp) ∷ ps) out = fill ps (set_at out b (utf8 cp))

unfoldable pub make_byte_unicode : List Bytes
unfolding fill byte_codes
make_byte_unicode = fill byte_codes (replicate 256 [])

-- `r[mm[i]] = i`, from the index `i` on.
unfoldable pub reverse_map : ℕ → List Bytes → List (Bytes × ℕ) → List (Bytes × ℕ)
reverse_map i [] r = r
reverse_map i (x ∷ xs) r = reverse_map (suc i) xs ((x, i) ∷ r)

unfoldable pub gpt2_encode_bytes : Bytes → Bytes
gpt2_encode_bytes [] = []
gpt2_encode_bytes (c ∷ s) = get_or make_byte_unicode c [] ++ gpt2_encode_bytes s

-- A character that stands for a byte, or itself.
abbrev pub byte_or : Option ℕ → Bytes → Bytes
byte_or none ch = ch
byte_or (some b) ch = b ∷ []

-- The loop of `gpt2_decode_bytes`, on fuel: each round takes a byte at least.
unfoldable pub decode_loop : List (Bytes × ℕ) → ℕ → Bytes → Bytes
decode_loop rev zero s = []
decode_loop rev (suc fuel) [] = []
decode_loop rev (suc fuel) (c ∷ s) =
    let n = (utf8_from c s).0 in
    byte_or (lookup (take n (c ∷ s)) rev) (take n (c ∷ s)) ++ decode_loop rev fuel (drop n (c ∷ s))

unfoldable pub gpt2_decode_bytes : Bytes → Bytes
unfolding decode_loop
gpt2_decode_bytes s = decode_loop (reverse_map 0 make_byte_unicode []) (length s) s
