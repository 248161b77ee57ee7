-- ===== src/Tokenizer/Encode.antt =====
-- The state of `GgufTokenizer`, and `encode_gpt2`. An id of -1 is `none`; an `int` that an index is
-- cast to is the index.
use mem_vanta.Prelude.{
  ℕ, zero, suc, ◌+◌, Bool, true, false, not, ◌&&◌, Option, none, some, List, [], ◌∷◌, ◌++◌, ltb,
  if◌then◌else◌, length, take, drop, Result, ok, err, ◌>>=◌,
}
use mem_vanta.Prelude.Int.{ℤ}
use mem_vanta.Gguf.Types.{Bytes}
use mem_vanta.Tokenizer.Text.{starts_with, pretokenize_gpt2}
use mem_vanta.Tokenizer.Bpe.{TokenError, no_token, Index, bpe_one, is_empty}

pub record GgufTokenizer (D : Type 0) : Type 0 where
  pub tokens : List Bytes
  pub scores : List D
  pub token_types : List ℤ
  pub bos : Option ℕ
  pub eos : Option ℕ
  pub unk : Option ℕ
  pub add_space_prefix : Bool
  pub byte_bpe_complete : Bool
  pub model : Bytes
  pub pre : Bytes
  pub greedy : List (Bytes × ℕ)
  pub specials : List (Bytes × ℕ)
  pub token_to_id : Index
  pub merge_rank : Index
  pub byte_token_id : List (ℕ × ℕ)

-- Whether a text starts with a token that is not empty.
unfoldable pub matches : Bytes → Bytes → Bool
unfolding starts_with
matches t s = not (is_empty t) && starts_with t s

-- The loop over `greedy_`: the id and the size of the longest token so far that the text starts with.
unfoldable pub longest : List (Bytes × ℕ) → Option ℕ → ℕ → Bytes → Option ℕ × ℕ
unfolding matches
longest [] best size s = (best, size)
longest ((t, id) ∷ ts) best size s =
    let taken = longest ts (some id) (length t) s in
    let left = longest ts best size s in if matches t s && ltb size (length t) then taken else left

abbrev pub prepend : ℕ → Result TokenError (List ℕ) → Result TokenError (List ℕ)
prepend id (ok ids) = ok (id ∷ ids)
prepend id (err e) = err e

-- The loop of a vocabulary without byte-pair encoding, on fuel.
unfoldable pub encode_greedy : List (Bytes × ℕ) → Option ℕ → ℕ → Bytes → Result TokenError (List ℕ)
unfolding longest
encode_greedy greedy unk zero s = ok []
encode_greedy greedy unk (suc fuel) [] = ok []
encode_greedy greedy unk (suc fuel) (c ∷ s) =
    let found = longest greedy none 0 (c ∷ s) in
    elim found.0 [
      | some id ↦ prepend id (encode_greedy greedy unk fuel (drop found.1 (c ∷ s)))
      | none ↦ elim unk [
        | some u ↦ prepend u (encode_greedy greedy unk fuel s)
        | none ↦ err no_token
      ]
    ]

-- The first special token that a text starts with.
unfoldable pub special_at : List (Bytes × ℕ) → Bytes → Option (Bytes × ℕ)
unfolding matches
special_at [] s = none
special_at (p ∷ ps) s = if matches p.0 s then some p else special_at ps s

abbrev is_special : Option (Bytes × ℕ) → Bool
is_special none = false
is_special (some _) = true

-- How far a text goes before a special token starts.
unfoldable pub plain_run : List (Bytes × ℕ) → Bytes → ℕ
unfolding special_at
plain_run specials [] = 0
plain_run specials (c ∷ s) =
    if is_special (special_at specials (c ∷ s)) then 0 else suc (plain_run specials s)

-- The ids of some pieces, in turn.
unfoldable pub encode_pieces : Index → Index → Option ℕ → List Bytes → Result TokenError (List ℕ)
unfolding bpe_one
encode_pieces ranks token_to_id unk [] = ok []
encode_pieces ranks token_to_id unk (x ∷ xs) = do
  ids ← bpe_one ranks token_to_id unk x
  rest ← encode_pieces ranks token_to_id unk xs
  ok (ids ++ rest)

module _ {D : Type 0} (t : GgufTokenizer D) where
  -- The plain text in front of the next special token, of `n` bytes at least one.
  unfoldable pub encode_plain : ℕ → Bytes → Result TokenError (List ℕ)
  unfolding encode_pieces
  encode_plain n s = encode_pieces t.merge_rank t.token_to_id t.unk (pretokenize_gpt2 (take n s))

  -- The loop over the text, on fuel: each round takes a byte at least.
  unfoldable pub encode_loop : ℕ → Bytes → Result TokenError (List ℕ)
  unfolding special_at plain_run encode_plain
  encode_loop zero s = ok []
  encode_loop (suc fuel) [] = ok []
  encode_loop (suc fuel) (c ∷ s) = elim (special_at t.specials (c ∷ s)) [
    | some p ↦ prepend p.1 (encode_loop fuel (drop (length p.0) (c ∷ s)))
    | none ↦ do
      ids ← encode_plain (1 + plain_run t.specials s) (c ∷ s)
      rest ← encode_loop fuel (drop (1 + plain_run t.specials s) (c ∷ s))
      ok (ids ++ rest)
  ]

  unfoldable pub encode_gpt2 : Bytes → Result TokenError (List ℕ)
  unfolding encode_greedy encode_loop
  encode_gpt2 text =
      if not t.byte_bpe_complete && is_empty t.merge_rank
      then encode_greedy t.greedy t.unk (length text) text
      else encode_loop (length text) text
