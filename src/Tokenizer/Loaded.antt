-- ===== src/Tokenizer/Loaded.antt =====
-- What the constructor of `GgufTokenizer` makes has what the round trip of a text needs.
use mem_vanta.Prelude.{
  ℕ, zero, suc, ◌+◌, ◌<◌, ◌≡◌, refl, sym, subst, true, false, ◌||◌, Option, some, List, [], ◌∷◌,
  arith, length, All, get_elem?, get_or, Option-cases, inl, inr, ok, if-cases, ok-injective,
}
use mathlib.Core.Option.{some-injective}
use mem_vanta.Prelude.Int.{ℤ}
use mem_vanta.Gguf.Types.{Bytes, bytes_eq}
use mem_vanta.Gguf.Tensors.{lookup, has_key}
use mem_vanta.Gguf.Index.{bytes_eq→eq}
use mem_vanta.Gguf.File.{GgufFile, get_string_array}
use mem_vanta.Tokenizer.ByteMap.{make_byte_unicode, reverse_map, gpt2_decode_bytes}
use mem_vanta.Tokenizer.ByteRoundTrip.{atom, size_lem}
use mem_vanta.Tokenizer.Bpe.{Index}
use mem_vanta.Tokenizer.Encode.{GgufTokenizer, encode_gpt2}
use mem_vanta.Tokenizer.Decode.{is_sentencepiece, has_type, decode}
use mem_vanta.Tokenizer.Keys.{tokens_key}
use mem_vanta.Tokenizer.Load.{special_tokens, has_all, tokenizer_of, make}
use mem_vanta.Tokenizer.Vocabulary.{AllBytes, IsComplete}
use mem_vanta.Tokenizer.RoundTrip.{decode-encode_gpt2}

-- Whether some strings stand in a list from an index on.
StandsAt : List Bytes → ℕ → List Bytes → Type 0
StandsAt all i xs = (k : ℕ) (x : Bytes) → get_elem? xs k ≡ some x → get_elem? all (i + k) ≡ some x

StandsAt-tail :
    (all : List Bytes) (i : ℕ) (x : Bytes) (xs : List Bytes)
    → StandsAt all i (x ∷ xs)
    → StandsAt all (suc i) xs
unfolding StandsAt
StandsAt-tail all i x xs h k y e =
    subst (λ n. get_elem? all n ≡ some y) (omega arith) (h (suc k) y e)

StandsAt-head :
    (all : List Bytes) (i : ℕ) (x : Bytes) (xs : List Bytes)
    → StandsAt all i (x ∷ xs)
    → get_elem? all i ≡ some x
unfolding StandsAt
StandsAt-head all i x xs h = subst (λ n. get_elem? all n ≡ some x) (omega arith) (h 0 x refl)

StandsAt-all : (xs : List Bytes) → StandsAt xs 0 xs
unfolding StandsAt
StandsAt-all xs k x e = subst (λ n. get_elem? xs n ≡ some x) (omega arith) e

-- An index into a list of strings.
Indexes : List Bytes → Index → Type 0
Indexes all r = (s : Bytes) (id : ℕ) → lookup s r ≡ some id → get_elem? all id ≡ some s

Indexes-none : (all : List Bytes) → Indexes all []
unfolding Indexes lookup
Indexes-none all s id e = cc

reverse_map-Indexes :
    (all : List Bytes) (i : ℕ) (xs : List Bytes) (r : Index)
    → StandsAt all i xs
    → Indexes all r
    → Indexes all (reverse_map i xs r)
unfolding reverse_map Indexes lookup
reverse_map-Indexes all i [] r h k = k
reverse_map-Indexes all i (x ∷ xs) r h k =
    reverse_map-Indexes all (suc i) xs ((x, i) ∷ r) (StandsAt-tail all i x xs h) added
  where
    added : Indexes all ((x, i) ∷ r)
    added s id =
        if-cases (λ o. o ≡ some id → get_elem? all id ≡ some s) (bytes_eq s x) (some i) (lookup s r)
          (λ m e. rw (sym (some-injective _ _ e), bytes_eq→eq s x m) (StandsAt-head all i x xs h))
          λ _. k s id

has_key-some : (s : Bytes) (r : Index) → has_key s r ≡ true → (id : ℕ) × (lookup s r ≡ some id)
unfolding has_key
has_key-some s r h = elim (Option-cases (lookup s r)) [ inr found ↦ found | inl e ↦ absurd (cc) ]

has_all-has_key :
    (r : Index) (xs : List Bytes) (k : ℕ)
    → has_all r xs ≡ true
    → k < length xs
    → has_key (get_or xs k []) r ≡ true
unfolding has_all
has_all-has_key r [] k h lt = absurd (omega arith)
has_all-has_key r (x ∷ xs) zero h lt = ground arith
has_all-has_key r (x ∷ xs) (suc k) h lt =
    let rest : has_all r xs ≡ true = ground arith in has_all-has_key r xs k rest (omega arith)

special_tokens-All :
    (all : List Bytes) (i : ℕ) (xs : List Bytes) (types : List ℤ)
    → StandsAt all i xs
    → All (λ p. get_elem? all p.1 ≡ some p.0) (special_tokens i xs types)
unfolding special_tokens
special_tokens-All all i [] types h = tt
special_tokens-All all i (x ∷ xs) [] h = tt
special_tokens-All all i (x ∷ xs) (z ∷ types) h =
    let rest = special_tokens-All all (suc i) xs types (StandsAt-tail all i x xs h) in
    if-cases (All (λ p. get_elem? all p.1 ≡ some p.0)) (has_type (some z) 3 || has_type (some z) 4)
      ((x, i) ∷ special_tokens (suc i) xs types) (special_tokens (suc i) xs types)
      (λ _. (StandsAt-head all i x xs h, rest)) λ _. rest

All-zip :
    (P Q : Bytes × ℕ → Type 0) (ps : List (Bytes × ℕ))
    → All P ps
    → All Q ps
    → All (λ p. P p × Q p) ps
All-zip P Q [] h k = tt
All-zip P Q (p ∷ ps) h k = ((h.0, k.0), All-zip P Q ps h.1 k.1)

-- What a sort does at least: all that is in its result was there before.
abbrev pub AddsNothing : (List (Bytes × ℕ) → List (Bytes × ℕ)) → Type 1
AddsNothing sort = (P : Bytes × ℕ → Type 0) (ps : List (Bytes × ℕ)) → All P ps → All P (sort ps)

module _ (stoi16 : Bytes → Option ℤ) (sort : List (Bytes × ℕ) → List (Bytes × ℕ))
    (adds_nothing : AddsNothing sort) {D : Type 0} (zero_score : D) (f : GgufFile D) where
  tokenizer_of-IsComplete :
      (tokens : List Bytes)
      → is_sentencepiece (tokenizer_of stoi16 sort zero_score f tokens) ≡ false
      → has_all (reverse_map 0 tokens []) make_byte_unicode ≡ true
      → All
          (λ p. gpt2_decode_bytes p.0 ≡ p.0)
          (tokenizer_of stoi16 sort zero_score f tokens).specials
      → IsComplete (tokenizer_of stoi16 sort zero_score f tokens)
  unfolding tokenizer_of
  tokenizer_of-IsComplete tokens g c a =
      let all = StandsAt-all tokens in
      record {
        gpt2 = g;
        indexed =
            unfold Indexes in reverse_map-Indexes tokens 0 tokens [] all (Indexes-none tokens);
        complete = λ b h.
            has_key-some (atom b) _
              (has_all-has_key _ make_byte_unicode b c (omega (arith, size_lem)));
        flag = c;
        specials = All-zip _ _ _ (adds_nothing _ _ (special_tokens-All tokens 0 tokens _ all)) a;
      }

  make-IsComplete :
      (t : GgufTokenizer D)
      → make stoi16 sort zero_score f ≡ ok t
      → is_sentencepiece t ≡ false
      → t.byte_bpe_complete ≡ true
      → All (λ p. gpt2_decode_bytes p.0 ≡ p.0) t.specials
      → IsComplete t
  unfolding make
  make-IsComplete t = elim (Option-cases (get_string_array f tokens_key)) [
    | inl e ↦ rw (make, e) (λ h. absurd (cc))
    | inr (tokens, e) ↦ rw (make, e) (λ h. subst Claim (ok-injective h) (of_tokens tokens))
  ]
    where
      Claim : GgufTokenizer D → Type 0
      Claim u =
          is_sentencepiece u ≡ false
          → u.byte_bpe_complete ≡ true
          → All (λ p. gpt2_decode_bytes p.0 ≡ p.0) u.specials
          → IsComplete u

      of_tokens : (tokens : List Bytes) → Claim (tokenizer_of stoi16 sort zero_score f tokens)
      of_tokens tokens g c a = tokenizer_of-IsComplete tokens g c a

  -- If the constructor of the tokenizer accepts a file whose model is not a SentencePiece one and
  -- whose vocabulary has the character of each byte, the sort adds nothing, and the special tokens
  -- stand for their own text, then every text of bytes is encoded without an exception, and
  -- decoding its ids gives the text back, whatever the merges are.
  pub make-encode_gpt2-decode :
      (t : GgufTokenizer D) (s : Bytes)
      → make stoi16 sort zero_score f ≡ ok t
      → is_sentencepiece t ≡ false
      → t.byte_bpe_complete ≡ true
      → All (λ p. gpt2_decode_bytes p.0 ≡ p.0) t.specials
      → AllBytes s
      → (ids : List ℕ) × (encode_gpt2 t s ≡ ok ids) × (decode stoi16 t ids ≡ s)
  make-encode_gpt2-decode t s e g c a h =
      decode-encode_gpt2 stoi16 t (make-IsComplete t e g c a) s h
