-- ===== src/Tokenizer/Decode.antt =====
-- `decode_piece` and `decode`. `std::stoi` in base 16 is a parameter, with `none` for an exception.
use mem_vanta.Prelude.{
  ℕ, zero, suc, ◌-◌, ◌%◌, Bool, false, ◌||◌, ◌&&◌, Option, none, some, List, [], ◌∷◌, ◌++◌, ◌==◌,
  if◌then◌else◌, length, get_elem?, take, drop,
}
use mem_vanta.Prelude.Int.{ℤ, pos, negsuc}
use mem_vanta.Gguf.Types.{Bytes, bytes_eq}
use mem_vanta.Tokenizer.ByteMap.{gpt2_decode_bytes}
use mem_vanta.Tokenizer.Text.{starts_with}
use mem_vanta.Tokenizer.Encode.{GgufTokenizer}

-- `replace_all(s, a, b)` of a string `a` that is not empty, on fuel.
unfoldable pub replace_loop : Bytes → Bytes → ℕ → Bytes → Bytes
unfolding starts_with
replace_loop a b zero s = []
replace_loop a b (suc fuel) [] = []
replace_loop a b (suc fuel) (c ∷ s) =
    let found = replace_loop a b fuel (drop (length a) (c ∷ s)) in
    let passed = replace_loop a b fuel s in if starts_with a (c ∷ s) then b ++ found else c ∷ passed

unfoldable pub replace_all : Bytes → Bytes → Bytes → Bytes
unfolding replace_loop
replace_all s a b = replace_loop a b (length s) s

-- U+2581, which stands for a space.
abbrev pub marker : Bytes
marker = 0xe2 ∷ 0x96 ∷ 0x81 ∷ []

abbrev pub llama : Bytes
llama = b'l' ∷ b'l' ∷ b'a' ∷ b'm' ∷ b'a' ∷ []

abbrev pub replit : Bytes
replit = b'r' ∷ b'e' ∷ b'p' ∷ b'l' ∷ b'i' ∷ b't' ∷ []

unfoldable pub is_sentencepiece : {D : Type 0} → GgufTokenizer D → Bool
unfolding bytes_eq
is_sentencepiece t = bytes_eq t.model llama || bytes_eq t.model replit

abbrev pub has_type : Option ℤ → ℕ → Bool
has_type (some (pos n)) k = n == k
has_type _ k = false

-- "<0x"
abbrev pub hex_prefix : Bytes
hex_prefix = b'<' ∷ b'0' ∷ b'x' ∷ []

-- `static_cast<char>` of an `int`
abbrev char_of : ℤ → ℕ
char_of (pos n) = n % 256
char_of (negsuc n) = 255 - n % 256

abbrev char_or_nothing : Option ℤ → Bytes
char_or_nothing none = []
char_or_nothing (some z) = char_of z ∷ []

module _ (stoi16 : Bytes → Option ℤ) {D : Type 0} (t : GgufTokenizer D) where
  unfoldable pub decode_sentencepiece : ℕ → Bytes → Bytes
  unfolding replace_all starts_with
  decode_sentencepiece id s =
      let kind = get_elem? t.token_types id in
      if has_type kind 6 && ((length s == 6) && starts_with hex_prefix s)
      then char_or_nothing (stoi16 (take 2 (drop 3 s)))
      else if has_type kind 3
      then s
      else replace_all s marker (b' ' ∷ [])

  unfoldable pub decode_piece : ℕ → Bytes
  unfolding decode_sentencepiece is_sentencepiece
  decode_piece id = elim (get_elem? t.tokens id) [
    | none ↦ []
    | some s ↦ if is_sentencepiece t then decode_sentencepiece id s else gpt2_decode_bytes s
  ]

  unfoldable pub decode_pieces : List ℕ → Bytes
  unfolding decode_piece
  decode_pieces [] = []
  decode_pieces (id ∷ ids) = decode_piece id ++ decode_pieces ids

  abbrev drop_space : Bytes → Bytes
  drop_space [] = []
  drop_space (c ∷ s) = if c == b' ' then s else c ∷ s

  unfoldable pub decode : List ℕ → Bytes
  unfolding decode_pieces is_sentencepiece
  decode ids =
      if is_sentencepiece t && t.add_space_prefix
      then drop_space (decode_pieces ids)
      else decode_pieces ids
