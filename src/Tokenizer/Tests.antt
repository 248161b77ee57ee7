-- ===== src/Tokenizer/Tests.antt =====
-- A vocabulary of the characters of all bytes, one merge and one special token, and what the
-- tokenizer does with it.
use mem_vanta.Prelude.{
  ℕ, ◌<◌, ◌≡◌, refl, true, false, Option, none, List, [], ◌∷◌, ◌++◌, arith, All, ok, replicate,
}
use mem_vanta.Prelude.Int.{ℤ, pos}
use mem_vanta.Gguf.Types.{Bytes, bytes_eq, array, texts, ints}
use mem_vanta.Gguf.File.{GgufFile, get_string, get_string_array, get_int_array}
use mem_vanta.Tokenizer.Utf8.{utf8_from, utf8_at}
use mem_vanta.Tokenizer.Keys.{tokens_key, types_key, merges_key}
use mem_vanta.Tokenizer.Load.{make, tokenizer_of, special_tokens, resize, has_all}
use mem_vanta.Tokenizer.Encode.{GgufTokenizer, encode_gpt2}
use mem_vanta.Tokenizer.Decode.{is_sentencepiece, decode}
use mem_vanta.Tokenizer.Loaded.{AddsNothing, make-encode_gpt2-decode}
use mem_vanta.Gguf.Tensors.{lookup, has_key}
use mem_vanta.Tokenizer.ByteMap.{
  make_byte_unicode, reverse_map, gpt2_encode_bytes, gpt2_decode_bytes,
}
use mem_vanta.Tokenizer.ByteRoundTrip.{gpt2_decode_bytes-gpt2_encode_bytes}
use mem_vanta.Tokenizer.Text.{pretokenize_gpt2}
use mem_vanta.Tokenizer.Bpe.{Index, merge_loop}
use mem_vanta.Tokenizer.MergeEnd.{Merges, merge_loop-Merges}

abbrev hello : Bytes
hello = b'H' ∷ b'i' ∷ b' ' ∷ 0xc3 ∷ 0xa9 ∷ b' ' ∷ b' ' ∷ b'1' ∷ b'\'' ∷ b's' ∷ []

hello_bytes : All (λ b. b < 256) hello
hello_bytes = (
  omega arith,
  (
    omega arith,
    (
      omega arith,
      (
        omega arith,
        (
          omega arith,
          (omega arith, (omega arith, (omega arith, (omega arith, (omega arith, tt))))),
        ),
      ),
    ),
  ),
)

gpt2_decode_bytes-gpt2_encode_bytes_example : gpt2_decode_bytes (gpt2_encode_bytes hello) ≡ hello
gpt2_decode_bytes-gpt2_encode_bytes_example = gpt2_decode_bytes-gpt2_encode_bytes hello hello_bytes

-- "Hi", " é", two spaces, "1" and "'s"
hello_pieces :
    pretokenize_gpt2 hello
    ≡ (b'H' ∷ b'i' ∷ [])
      ∷ (b' ' ∷ 0xc3 ∷ 0xa9 ∷ [])
      ∷ (b' ' ∷ b' ' ∷ [])
      ∷ (b'1' ∷ [])
      ∷ (b'\'' ∷ b's' ∷ [])
      ∷ []
unfolding pretokenize_gpt2 utf8_from utf8_at
hello_pieces = refl

abbrev ranks : Index
ranks = (b'a' ∷ 0x1f ∷ b'b' ∷ [], 0) ∷ (b'b' ∷ 0x1f ∷ b'c' ∷ [], 1) ∷ []

abbrev letters : List Bytes
letters = (b'a' ∷ []) ∷ (b'b' ∷ []) ∷ (b'c' ∷ []) ∷ (b'b' ∷ []) ∷ []

merge_loop_test : merge_loop ranks 4 letters ≡ (b'a' ∷ b'b' ∷ []) ∷ (b'c' ∷ []) ∷ (b'b' ∷ []) ∷ []
unfolding merge_loop lookup bytes_eq
merge_loop_test = refl

merge_loop-Merges_example : Merges ranks letters (merge_loop ranks 4 letters)
merge_loop-Merges_example = merge_loop-Merges ranks 4 letters (omega arith)

-- A file with the characters of all bytes, "Hi", one merge and the special token "<s>".
abbrev vocabulary : List Bytes
vocabulary = make_byte_unicode ++ (b'H' ∷ b'i' ∷ []) ∷ (b'<' ∷ b's' ∷ b'>' ∷ []) ∷ []

abbrev file : GgufFile ℕ
file = record {
  version = 3;
  data_offset = 0;
  metadata =
      (tokens_key, record { kind = array; payload = texts vocabulary })
      ∷ (types_key, record { kind = array; payload = ints (replicate 257 (pos 1) ++ pos 3 ∷ []) })
      ∷ (merges_key, record { kind = array; payload = texts ((b'H' ∷ b' ' ∷ b'i' ∷ []) ∷ []) })
      ∷ [];
  tensors = [];
  tensor_index = [];
}

abbrev no_number : Bytes → Option ℤ
no_number s = none

abbrev unsorted : List (Bytes × ℕ) → List (Bytes × ℕ)
unsorted ps = ps

unsorted-AddsNothing : AddsNothing unsorted
unsorted-AddsNothing P ps h = h

abbrev made : GgufTokenizer ℕ
made = tokenizer_of no_number unsorted 0 file vocabulary

file_is_made : make no_number unsorted 0 file ≡ ok made
unfolding make get_string_array lookup bytes_eq
file_is_made = refl

made_gpt2 : is_sentencepiece made ≡ false
unfolding is_sentencepiece tokenizer_of get_string lookup bytes_eq
made_gpt2 = refl

made_complete : made.byte_bpe_complete ≡ true
unfolding tokenizer_of has_all has_key reverse_map make_byte_unicode lookup bytes_eq
made_complete = refl

made_specials : All (λ p. gpt2_decode_bytes p.0 ≡ p.0) made.specials
unfolding tokenizer_of special_tokens resize get_int_array make_byte_unicode lookup bytes_eq
    gpt2_decode_bytes utf8_from reverse_map
made_specials = (refl, tt)

make-encode_gpt2-decode_example :
    (ids : List ℕ) × (encode_gpt2 made hello ≡ ok ids) × (decode no_number made ids ≡ hello)
make-encode_gpt2-decode_example =
    make-encode_gpt2-decode no_number unsorted unsorted-AddsNothing 0 file made hello file_is_made
      made_gpt2 made_complete made_specials hello_bytes
