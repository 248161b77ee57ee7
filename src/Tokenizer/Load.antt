-- ===== src/Tokenizer/Load.antt =====
-- The constructor of `GgufTokenizer`. Parameters are `std::stoi` in base 16 with `none` for an
-- exception, `std::sort` by falling size, and 0.0.
use mem_vanta.Prelude.{
  ℕ, zero, suc, Bool, true, ◌||◌, ◌&&◌, Option, none, some, List, [], ◌∷◌, ◌++◌, ltb, leb, ◌==◌,
  if◌then◌else◌, length, take, drop, replicate, Result, ok, err,
}
use mem_vanta.Prelude.Int.{ℤ, pos, negsuc}
use mem_vanta.Gguf.Types.{Bytes, bytes_eq}
use mem_vanta.Gguf.Tensors.{has_key}
use mem_vanta.Gguf.File.{
  GgufFile, get_u64, get_bool, get_string, get_string_array, get_float_array, get_int_array,
}
use mem_vanta.Tokenizer.ByteMap.{make_byte_unicode, reverse_map}
use mem_vanta.Tokenizer.Text.{starts_with}
use mem_vanta.Tokenizer.Bpe.{TokenError, tokens_missing, Index}
use mem_vanta.Tokenizer.Encode.{GgufTokenizer}
use mem_vanta.Tokenizer.Decode.{llama, replit, hex_prefix, has_type}
use mem_vanta.Tokenizer.Keys.{
  tokens_key, model_key, pre_key, prefix_key, bos_key, eos_key, unk_key, scores_key, types_key,
  merges_key, gpt2, default,
}

abbrev int_max : ℕ
int_max = 2147483647

abbrev or_else {ℓ} : {A : Type ℓ} → Option A → A → A
or_else none d = d
or_else (some a) d = a

-- An id that is no `int` is -1, which is `none`.
abbrev id_of : Option ℕ → Option ℕ
id_of none = none
id_of (some v) = if ltb int_max v then none else some v

unfoldable pub optional_token_id : {D : Type 0} → GgufFile D → Bytes → Option ℕ
optional_token_id f key = id_of (get_u64 f key)

-- `std::vector::resize`
unfoldable pub resize {ℓ} : {A : Type ℓ} → List A → ℕ → A → List A
resize xs zero d = []
resize [] (suc n) d = d ∷ resize [] n d
resize (x ∷ xs) (suc n) d = x ∷ resize xs n d

-- `greedy_` before it is sorted: each token and its id.
unfoldable pub with_ids : ℕ → List Bytes → List (Bytes × ℕ)
with_ids i [] = []
with_ids i (t ∷ ts) = (t, i) ∷ with_ids (suc i) ts

-- `specials_` before it is sorted: the tokens of the types 3 and 4.
unfoldable pub special_tokens : ℕ → List Bytes → List ℤ → List (Bytes × ℕ)
special_tokens i [] types = []
special_tokens i (t ∷ ts) [] = []
special_tokens i (t ∷ ts) (z ∷ types) =
    let rest = special_tokens (suc i) ts types in
    if has_type (some z) 3 || has_type (some z) 4 then (t, i) ∷ rest else rest

-- "<0xNN>" of type 6
abbrev is_byte_token : Bytes → ℤ → Bool
is_byte_token t z =
    has_type (some z) 6
    && ((length t == 6) && (starts_with hex_prefix t && starts_with (b'>' ∷ []) (drop 5 t)))

-- What is read as a byte has an entry in `byte_token_id_`.
abbrev byte_entry : Option ℤ → ℕ → List (ℕ × ℕ) → List (ℕ × ℕ)
byte_entry none i r = r
byte_entry (some (negsuc _)) i r = r
byte_entry (some (pos b)) i r = if leb b 255 then (b, i) ∷ r else r

unfoldable pub byte_tokens :
    (Bytes → Option ℤ) → ℕ → List Bytes → List ℤ → List (ℕ × ℕ) → List (ℕ × ℕ)
unfolding starts_with
byte_tokens stoi16 i [] types r = r
byte_tokens stoi16 i (t ∷ ts) [] r = r
byte_tokens stoi16 i (t ∷ ts) (z ∷ types) r =
    byte_tokens stoi16 (suc i) ts types
      (if is_byte_token t z then byte_entry (stoi16 (take 2 (drop 3 t))) i r else r)

-- Whether the vocabulary has the character of each byte.
unfoldable pub has_all : Index → List Bytes → Bool
has_all index [] = true
has_all index (x ∷ xs) = has_key x index && has_all index xs

-- The two parts of a merge, around its first space.
unfoldable pub split_merge : Bytes → Option (Bytes × Bytes)
split_merge [] = none
split_merge (c ∷ s) =
    if c == b' '
    then some ([], s)
    else elim (split_merge s) [ none ↦ none | some p ↦ some (c ∷ p.0, p.1) ]

-- `merge_rank_` from the index `i` on.
unfoldable pub merge_ranks : ℕ → List Bytes → Index → Index
unfolding split_merge
merge_ranks i [] r = r
merge_ranks i (z ∷ zs) r =
    merge_ranks (suc i) zs (elim (split_merge z) [ none ↦ r | some p ↦ (p.0 ++ 0x1f ∷ p.1, i) ∷ r ])

abbrev uses_prefix : Bytes → Bool
uses_prefix model = bytes_eq model llama || bytes_eq model replit

module _ (stoi16 : Bytes → Option ℤ) (sort : List (Bytes × ℕ) → List (Bytes × ℕ)) {D : Type 0}
    (zero_score : D) where
  unfoldable pub tokenizer_of : GgufFile D → List Bytes → GgufTokenizer D
  unfolding optional_token_id resize with_ids special_tokens byte_tokens has_all merge_ranks
  tokenizer_of f tokens =
      let n = length tokens in
      let model = or_else (get_string f model_key) gpt2 in
      let types = resize (or_else (get_int_array f types_key) (replicate n (pos 1))) n (pos 1) in
      let token_to_id = reverse_map 0 tokens [] in
      record {
        tokens = tokens;
        scores =
            resize (or_else (get_float_array f scores_key) (replicate n zero_score)) n zero_score;
        token_types = types;
        bos = optional_token_id f bos_key;
        eos = optional_token_id f eos_key;
        unk = optional_token_id f unk_key;
        add_space_prefix = or_else (get_bool f prefix_key) (uses_prefix model);
        byte_bpe_complete = has_all token_to_id make_byte_unicode;
        model = model;
        pre = or_else (get_string f pre_key) default;
        greedy = sort (with_ids 0 tokens);
        specials = sort (special_tokens 0 tokens types);
        token_to_id = token_to_id;
        merge_rank = merge_ranks 0 (or_else (get_string_array f merges_key) []) [];
        byte_token_id = byte_tokens stoi16 0 tokens types [];
      }

  unfoldable pub make : GgufFile D → Result TokenError (GgufTokenizer D)
  unfolding tokenizer_of
  make f = elim (get_string_array f tokens_key) [
    | none ↦ err tokens_missing
    | some tokens ↦ ok (tokenizer_of f tokens)
  ]
