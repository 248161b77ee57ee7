-- ===== src/Tokenizer/Bpe.antt =====
-- The local function `bpe_one` of `encode_gpt2`: a piece as characters, merged by rank, and the
-- ids of what is left.
use mem_vanta.Prelude.{
  ℕ, zero, suc, Bool, true, false, Option, none, some, List, [], ◌∷◌, ◌++◌, ltb, if◌then◌else◌,
  length, take, drop, Result, ok, err, ◌>>=◌, u64_max,
}
use mem_vanta.Gguf.Types.{Bytes}
use mem_vanta.Gguf.Tensors.{lookup}
use mem_vanta.Tokenizer.Utf8.{utf8_from}
use mem_vanta.Tokenizer.ByteMap.{gpt2_encode_bytes}

pub data TokenError : Type 0 where
  no_token byte_token_absent tokens_missing byte_fallback_missing : TokenError

-- The maps from strings.
abbrev pub Index : Type 0
Index = List (Bytes × ℕ)

-- The characters of a string, on fuel: each has a byte at least.
unfoldable pub units : ℕ → Bytes → List Bytes
units zero s = []
units (suc fuel) [] = []
units (suc fuel) (c ∷ s) = let n = (utf8_from c s).0 in take n (c ∷ s) ∷ units fuel (drop n (c ∷ s))

-- The rank of a pair: its key has the byte 0x1f between the two.
unfoldable pub rank_of : Index → Bytes → Bytes → Option ℕ
rank_of ranks x y = lookup (x ++ 0x1f ∷ y) ranks

-- The search for the pair of the least rank, the first of them, from the index `i` on; `rank` and
-- `found` are what was found before.
unfoldable pub best_pair : Index → ℕ → ℕ → Option ℕ → List Bytes → Option ℕ
unfolding rank_of
best_pair ranks i rank found [] = found
best_pair ranks i rank found (x ∷ []) = found
best_pair ranks i rank found (x ∷ y ∷ syms) =
    let same = best_pair ranks (suc i) rank found (y ∷ syms) in
    let better = λ (r : ℕ). best_pair ranks (suc i) r (some i) (y ∷ syms) in
    elim (rank_of ranks x y) [ none ↦ same | some r ↦ if ltb r rank then better r else same ]

-- `syms[i] += syms[i + 1]`, and the second of the two is erased.
unfoldable pub merge_at : ℕ → List Bytes → List Bytes
merge_at i [] = []
merge_at i (x ∷ []) = x ∷ []
merge_at zero (x ∷ y ∷ syms) = (x ++ y) ∷ syms
merge_at (suc i) (x ∷ y ∷ syms) = x ∷ merge_at i (y ∷ syms)

-- The loop over the merges, on fuel: each round drops a symbol.
unfoldable pub merge_loop : Index → ℕ → List Bytes → List Bytes
unfolding best_pair merge_at
merge_loop ranks zero syms = syms
merge_loop ranks (suc fuel) syms = elim (best_pair ranks 0 u64_max none syms) [
  | none ↦ syms
  | some i ↦ merge_loop ranks fuel (merge_at i syms)
]

abbrev pub is_empty {ℓ} : {A : Type ℓ} → List A → Bool
is_empty [] = true
is_empty (x ∷ xs) = false

-- The symbols of a piece.
unfoldable pub symbols : Index → Bytes → List Bytes
unfolding units merge_loop
symbols ranks raw =
    let s = gpt2_encode_bytes raw in
    let syms = units (length s) s in
    if is_empty ranks then syms else merge_loop ranks (length syms) syms

abbrev pub id_or_unk : Option ℕ → Option ℕ → Result TokenError ℕ
id_or_unk (some id) unk = ok id
id_or_unk none (some u) = ok u
id_or_unk none none = err byte_token_absent

-- The ids of characters, one by one.
unfoldable pub atom_ids : Index → Option ℕ → List Bytes → Result TokenError (List ℕ)
atom_ids token_to_id unk [] = ok []
atom_ids token_to_id unk (atom ∷ rest) = do
  id ← id_or_unk (lookup atom token_to_id) unk
  ids ← atom_ids token_to_id unk rest
  ok (id ∷ ids)

-- The ids of a symbol: its own, or those of its characters.
unfoldable pub symbol_ids : Index → Option ℕ → Bytes → Result TokenError (List ℕ)
unfolding atom_ids units
symbol_ids token_to_id unk z = elim (lookup z token_to_id) [
  | some id ↦ ok (id ∷ [])
  | none ↦ atom_ids token_to_id unk (units (length z) z)
]

unfoldable pub all_symbol_ids : Index → Option ℕ → List Bytes → Result TokenError (List ℕ)
unfolding symbol_ids
all_symbol_ids token_to_id unk [] = ok []
all_symbol_ids token_to_id unk (z ∷ zs) = do
  ids ← symbol_ids token_to_id unk z
  rest ← all_symbol_ids token_to_id unk zs
  ok (ids ++ rest)

unfoldable pub bpe_one : Index → Index → Option ℕ → Bytes → Result TokenError (List ℕ)
unfolding symbols all_symbol_ids
bpe_one ranks token_to_id unk raw = all_symbol_ids token_to_id unk (symbols ranks raw)
