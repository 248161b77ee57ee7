-- ===== src/Tokenizer/Vocabulary.antt =====
-- Vocabularies that have a token for each byte, and the symbols of a piece of text.
use mem_vanta.Prelude.{
  ℕ, ◌<◌, ◌≡◌, refl, sym, ap, ◌∙◌, true, false, Option, some, List, [], ◌∷◌, ◌++◌, map, arith,
  length, All, get_elem?, append_assoc, append-nil, Option-cases, inl, inr, Result, ok, ◌>>=◌,
}
use mathlib.Core.List.{flatten}
use mem_vanta.Prelude.Int.{ℤ}
use mem_vanta.Gguf.Types.{Bytes}
use mem_vanta.Gguf.Tensors.{lookup}
use mem_vanta.Tokenizer.ByteMap.{gpt2_encode_bytes, gpt2_decode_bytes}
use mem_vanta.Tokenizer.ByteRoundTrip.{atom, gpt2_decode_bytes-gpt2_encode_bytes}
use mem_vanta.Tokenizer.Bpe.{TokenError, atom_ids, symbol_ids, all_symbol_ids}
use mem_vanta.Tokenizer.Merging.{units-gpt2_encode_bytes}
use mem_vanta.Tokenizer.Encode.{GgufTokenizer, prepend}
use mem_vanta.Tokenizer.Decode.{is_sentencepiece, decode_piece, decode_pieces}

abbrev pub AllBytes : Bytes → Type 0
AllBytes s = All (λ b. b < 256) s

-- A vocabulary for text of the GPT-2 kind: the index finds tokens by their strings and knows each
-- byte's character, and the special tokens stand for their own text.
pub record IsComplete {D : Type 0} (t : GgufTokenizer D) : Type 0 where
  pub gpt2 : is_sentencepiece t ≡ false
  pub indexed :
      (s : Bytes) (id : ℕ) → lookup s t.token_to_id ≡ some id → get_elem? t.tokens id ≡ some s
  pub complete : (b : ℕ) → b < 256 → (id : ℕ) × (lookup (atom b) t.token_to_id ≡ some id)
  pub flag : t.byte_bpe_complete ≡ true
  pub specials :
      All (λ p. (get_elem? t.tokens p.1 ≡ some p.0) × (gpt2_decode_bytes p.0 ≡ p.0)) t.specials

pub atom-encode : (b : ℕ) → gpt2_encode_bytes (b ∷ []) ≡ atom b
unfolding gpt2_encode_bytes
atom-encode b = append-nil (atom b)

module _ (stoi16 : Bytes → Option ℤ) {D : Type 0} (t : GgufTokenizer D) (v : IsComplete t) where
  pub decode_piece-token :
      (id : ℕ) (s : Bytes)
      → get_elem? t.tokens id ≡ some s
      → decode_piece stoi16 t id ≡ gpt2_decode_bytes s
  unfolding decode_piece gpt2_decode_bytes
  decode_piece-token id s e = rw (decode_piece, e, v.gpt2) refl

  decode_pieces-append :
      (xs ys : List ℕ)
      → decode_pieces stoi16 t (xs ++ ys) ≡ decode_pieces stoi16 t xs ++ decode_pieces stoi16 t ys
  unfolding decode_pieces
  decode_pieces-append [] ys = refl
  decode_pieces-append (x ∷ xs) ys =
      ap (λ rest. decode_piece stoi16 t x ++ rest) (decode_pieces-append xs ys)
      ∙ sym (
          append_assoc (decode_piece stoi16 t x) (decode_pieces stoi16 t xs)
            (decode_pieces stoi16 t ys))

  -- An encoding that succeeds, and decodes to a text.
  unfoldable pub Encodes : Result TokenError (List ℕ) → Bytes → Type 0
  Encodes r s = (ids : List ℕ) × (r ≡ ok ids) × (decode_pieces stoi16 t ids ≡ s)

  pub Encodes-bind :
      (r k : Result TokenError (List ℕ)) (s u : Bytes)
      → Encodes r s
      → Encodes k u
      → Encodes (do xs ← r; ys ← k; ok (xs ++ ys)) (s ++ u)
  unfolding Encodes
  Encodes-bind r k s u (xs, e, d) (ys, e', d') =
      (xs ++ ys, rw (e, e') refl, decode_pieces-append xs ys ∙ rw (d, d') refl)

  pub Encodes-prepend :
      (r : Result TokenError (List ℕ)) (u : Bytes) (id : ℕ) (s : Bytes)
      → decode_piece stoi16 t id ≡ s
      → Encodes r u
      → Encodes (prepend id r) (s ++ u)
  unfolding Encodes decode_pieces
  Encodes-prepend r u id s e (ids, e', d) = (id ∷ ids, rw e' refl, rw (e, d) refl)

  decode_found :
      (s : Bytes) (id : ℕ)
      → AllBytes s
      → lookup (gpt2_encode_bytes s) t.token_to_id ≡ some id
      → decode_piece stoi16 t id ≡ s
  decode_found s id h e =
      decode_piece-token id (gpt2_encode_bytes s) (v.indexed _ id e)
      ∙ gpt2_decode_bytes-gpt2_encode_bytes s h

  atom_ids-Encodes :
      (s : Bytes) → AllBytes s → Encodes (atom_ids t.token_to_id t.unk (map atom s)) s
  unfolding atom_ids Encodes decode_pieces
  atom_ids-Encodes [] h = ([], refl, refl)
  atom_ids-Encodes (b ∷ s) h =
      let (id, e) = v.complete b h.0 in
      let (ids, e', d) = atom_ids-Encodes s h.1 in
      let piece = decode_found (b ∷ []) id (h.0, tt) (rw (atom-encode b) e) in
      (id ∷ ids, rw (e, e') refl, rw (piece, d) refl)

  symbol_ids-Encodes :
      (s : Bytes) → AllBytes s → Encodes (symbol_ids t.token_to_id t.unk (gpt2_encode_bytes s)) s
  unfolding symbol_ids Encodes
  symbol_ids-Encodes s h = elim (Option-cases (lookup (gpt2_encode_bytes s) t.token_to_id)) [
    | inr (id, e) ↦
        rw (symbol_ids, e)
          (unfold Encodes decode_pieces in (id ∷ [], refl, append-nil _ ∙ decode_found s id h e))
    | inl e ↦
        rw (symbol_ids, e, units-gpt2_encode_bytes s (length (gpt2_encode_bytes s)) h (omega arith))
          (atom_ids-Encodes s h)
  ]

  pub all_symbol_ids-Encodes :
      (xs : List Bytes)
      → All AllBytes xs
      → Encodes (all_symbol_ids t.token_to_id t.unk (map gpt2_encode_bytes xs)) (flatten xs)
  unfolding all_symbol_ids flatten
  all_symbol_ids-Encodes [] h = unfold Encodes decode_pieces in ([], refl, refl)
  all_symbol_ids-Encodes (x ∷ xs) h =
      Encodes-bind _ _ _ _ (symbol_ids-Encodes x h.0) (all_symbol_ids-Encodes xs h.1)
