-- ===== src/Tokenizer/RoundTrip.antt =====
-- With a vocabulary that has a token for each byte, decoding undoes `encode_gpt2`.
use mem_vanta.Prelude.{
  ℕ, zero, suc, ◌+◌, ◌≤◌, ◌<◌, ◌≡◌, refl, sym, ap, ◌∙◌, subst, true, false, not, ◌&&◌, Option, some,
  List, [], ◌∷◌, ◌++◌, map, arith, if◌then◌else◌, length, take, drop, All, Option-cases, inl, inr,
  ok, if-cases, ==_iff, ◌==◌,
}
use mathlib.Core.List.{flatten}
use mathlib.Core.Option.{some-injective}
use mem_vanta.Prelude.Int.{ℤ}
use mem_vanta.Gguf.Types.{Bytes}
use mem_vanta.Tokenizer.ByteMap.{gpt2_encode_bytes}
use mem_vanta.Tokenizer.ByteRoundTrip.{atom}
use mem_vanta.Tokenizer.Text.{
  starts_with, pretokenize_gpt2, flatten-pretokenize_gpt2, take-append-drop, length-drop,
}
use mem_vanta.Tokenizer.Bpe.{Index, units, merge_loop, is_empty, symbols, all_symbol_ids, bpe_one}
use mem_vanta.Tokenizer.Merging.{units-gpt2_encode_bytes, merge_loop-encode}
use mem_vanta.Tokenizer.Encode.{
  GgufTokenizer, matches, special_at, plain_run, encode_pieces, encode_plain, encode_greedy,
  encode_loop, encode_gpt2, prepend,
}
use mem_vanta.Tokenizer.Decode.{decode_pieces, decode}
use mem_vanta.Tokenizer.Vocabulary.{
  AllBytes, IsComplete, Encodes, Encodes-bind, Encodes-prepend, all_symbol_ids-Encodes,
  decode_piece-token, atom-encode,
}

AllBytes-append : (s u : Bytes) → AllBytes s → AllBytes u → AllBytes (s ++ u)
AllBytes-append [] u h k = k
AllBytes-append (b ∷ s) u h k = (h.0, AllBytes-append s u h.1 k)

AllBytes-split : (s u : Bytes) → AllBytes (s ++ u) → AllBytes s × AllBytes u
AllBytes-split [] u h = (tt, h)
AllBytes-split (b ∷ s) u h = let (l, r) = AllBytes-split s u h.1 in ((h.0, l), r)

AllBytes-flatten : (xs : List Bytes) → AllBytes (flatten xs) → All AllBytes xs
unfolding flatten
AllBytes-flatten [] h = tt
AllBytes-flatten (x ∷ xs) h =
    let (l, r) = AllBytes-split x (flatten xs) h in (l, AllBytes-flatten xs r)

-- The bytes of a string, each a string.
abbrev singles : Bytes → List Bytes
singles [] = []
singles (b ∷ s) = (b ∷ []) ∷ singles s

flatten-singles : (s : Bytes) → flatten (singles s) ≡ s
unfolding flatten
flatten-singles [] = refl
flatten-singles (b ∷ s) = ap (◌∷◌ b) (flatten-singles s)

map-singles : (s : Bytes) → map gpt2_encode_bytes (singles s) ≡ map atom s
map-singles [] = refl
map-singles (b ∷ s) = rw (atom-encode b, map-singles s) refl

symbols-encode :
    (ranks : Index) (s : Bytes)
    → AllBytes s
    → (ys : List Bytes) × (symbols ranks s ≡ map gpt2_encode_bytes ys) × (flatten ys ≡ s)
unfolding symbols
symbols-encode ranks s h =
    let e =
      units-gpt2_encode_bytes s (length (gpt2_encode_bytes s)) h (omega arith)
      ∙ sym (map-singles s) in
    if-cases P (is_empty ranks) (units (length (gpt2_encode_bytes s)) (gpt2_encode_bytes s))
      (merge_loop ranks (length (units (length (gpt2_encode_bytes s)) (gpt2_encode_bytes s)))
        (units (length (gpt2_encode_bytes s)) (gpt2_encode_bytes s)))
      (λ _. (singles s, e, flatten-singles s))
      λ _. rw e (
        let (ys, merged, same) =
          merge_loop-encode ranks (length (map gpt2_encode_bytes (singles s))) (singles s) in
        (ys, merged, same ∙ flatten-singles s))
  where
    P : List Bytes → Type 0
    P zs = (ys : List Bytes) × (zs ≡ map gpt2_encode_bytes ys) × (flatten ys ≡ s)

starts_with-take : (t s : Bytes) → starts_with t s ≡ true → take (length t) s ≡ t
unfolding starts_with
starts_with-take [] s h = refl
starts_with-take (x ∷ t) [] h = cc
starts_with-take (x ∷ t) (y ∷ s) h =
    let same : (x == y) ≡ true = ground arith in
    let rest : starts_with t s ≡ true = ground arith in
    rw ((==_iff x y).0 same, starts_with-take t s rest) refl

AllBytes-take-drop : (n : ℕ) (s : Bytes) → AllBytes s → AllBytes (take n s) × AllBytes (drop n s)
AllBytes-take-drop n s h = AllBytes-split (take n s) (drop n s) (rw (take-append-drop n s) h)

-- What is found is a special token, which the text starts with.
special_at-some :
    (P : Bytes × ℕ → Type 0) (ps : List (Bytes × ℕ)) (s : Bytes) (p : Bytes × ℕ)
    → All P ps
    → special_at ps s ≡ some p
    → P p × (matches p.0 s ≡ true)
unfolding special_at
special_at-some P [] s p h = λ e. cc
special_at-some P (q ∷ ps) s p h =
    if-cases Found (matches q.0 s) (some q) (special_at ps s)
      (λ m e.
        let same = some-injective _ _ e in
        (subst P same h.0, subst (λ x. matches x.0 s ≡ true) same m))
      λ _. special_at-some P ps s p h.1
  where
    Found : Option (Bytes × ℕ) → Type 0
    Found o = o ≡ some p → P p × (matches p.0 s ≡ true)

is_empty-false : (t : Bytes) → is_empty t ≡ false → 0 < length t
is_empty-false [] h = cc
is_empty-false (c ∷ t) h = omega arith

-- A text starts with what matches, a byte at least.
matches-true : (t s : Bytes) → matches t s ≡ true → (0 < length t) × (take (length t) s ≡ t)
unfolding matches
matches-true t s h =
    let whole : is_empty t ≡ false = ground arith in
    let starts : starts_with t s ≡ true = ground arith in
    (is_empty-false t whole, starts_with-take t s starts)

module _ (stoi16 : Bytes → Option ℤ) {D : Type 0} (t : GgufTokenizer D) (v : IsComplete t) where
  bpe_one-Encodes :
      (s : Bytes) → AllBytes s → Encodes stoi16 t v (bpe_one t.merge_rank t.token_to_id t.unk s) s
  unfolding bpe_one
  bpe_one-Encodes s h =
      let (ys, e, same) = symbols-encode t.merge_rank s h in
      rw (e) (
        subst (Encodes stoi16 t v (all_symbol_ids t.token_to_id t.unk (map gpt2_encode_bytes ys)))
          same (all_symbol_ids-Encodes stoi16 t v ys (AllBytes-flatten ys (rw same h))))

  encode_pieces-Encodes :
      (xs : List Bytes)
      → All AllBytes xs
      → Encodes stoi16 t v (encode_pieces t.merge_rank t.token_to_id t.unk xs) (flatten xs)
  unfolding encode_pieces flatten
  encode_pieces-Encodes [] h = unfold Encodes decode_pieces in ([], refl, refl)
  encode_pieces-Encodes (x ∷ xs) h =
      Encodes-bind stoi16 t v _ _ _ _ (bpe_one-Encodes x h.0) (encode_pieces-Encodes xs h.1)

  encode_plain-Encodes :
      (n : ℕ) (s : Bytes) → AllBytes s → Encodes stoi16 t v (encode_plain t n s) (take n s)
  unfolding encode_plain
  encode_plain-Encodes n s h =
      let same = flatten-pretokenize_gpt2 (take n s) in
      subst (Encodes stoi16 t v (encode_plain t n s)) same (
        encode_pieces-Encodes (pretokenize_gpt2 (take n s))
          (AllBytes-flatten _ (rw same (AllBytes-take-drop n s h).0)))

  encode_loop-Encodes :
      (fuel : ℕ) (s : Bytes)
      → AllBytes s
      → length s ≤ fuel
      → Encodes stoi16 t v (encode_loop t fuel s) s
  unfolding encode_loop
  encode_loop-Encodes zero [] h k = unfold Encodes decode_pieces in ([], refl, refl)
  encode_loop-Encodes zero (c ∷ s) h k = absurd (omega arith)
  encode_loop-Encodes (suc fuel) [] h k = unfold Encodes decode_pieces in ([], refl, refl)
  encode_loop-Encodes (suc fuel) (c ∷ s) h k = elim (Option-cases (special_at t.specials (c ∷ s))) [
    | inr (p, e) ↦
        let (at, m) = special_at-some _ t.specials (c ∷ s) p v.specials e in
        let (some_byte, start) = matches-true p.0 (c ∷ s) m in
        let rest =
          encode_loop-Encodes fuel (drop (length p.0) (c ∷ s))
            (AllBytes-take-drop (length p.0) (c ∷ s) h).1
            (omega (arith, length-drop (length p.0) (c ∷ s))) in
        let piece = decode_piece-token stoi16 t v p.1 p.0 at.0 ∙ at.1 ∙ sym start in
        rw (encode_loop, e)
          (subst (Encodes stoi16 t v (prepend p.1 (encode_loop t fuel (drop (length p.0) (c ∷ s)))))
            (take-append-drop (length p.0) (c ∷ s))
            (Encodes-prepend stoi16 t v _ _ p.1 (take (length p.0) (c ∷ s)) piece rest))
    | inl e ↦
        let n = 1 + plain_run t.specials s in
        let rest =
          encode_loop-Encodes fuel (drop n (c ∷ s)) (AllBytes-take-drop n (c ∷ s) h).1
            (omega (arith, length-drop n (c ∷ s))) in
        rw (encode_loop, e)
          (subst (Encodes stoi16 t v _) (take-append-drop n (c ∷ s))
            (Encodes-bind stoi16 t v _ _ _ _ (encode_plain-Encodes n (c ∷ s) h) rest))
  ]

  pub decode-encode_gpt2 :
      (text : Bytes)
      → AllBytes text
      → (ids : List ℕ) × (encode_gpt2 t text ≡ ok ids) × (decode stoi16 t ids ≡ text)
  unfolding encode_gpt2 decode Encodes
  decode-encode_gpt2 text h =
      let (ids, e, d) = encode_loop-Encodes (length text) text h (omega arith) in
      (
        ids,
        subst
            (λ c.
              (if not c && is_empty t.merge_rank
                then encode_greedy t.greedy t.unk (length text) text
                else encode_loop t (length text) text)
              ≡ ok ids)
            (sym v.flag) e,
        rw (v.gpt2) d,
      )
