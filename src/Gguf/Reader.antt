-- ===== src/Gguf/Reader.antt =====
-- The class `Reader` of src/gguf.cpp: a bounds-checked cursor over the mapped file, with a budget
-- for what it allocates. A parser is a function of the cursor; an exception ends it.
use mem_vanta.Prelude.{
  ℕ, zero, suc, ◌+◌, ◌*◌, ◌||◌, Option, none, some, [], ◌∷◌, Result, ok, err, ltb, if◌then◌else◌,
  length, get_elem?, add64, sub64, u64_max,
}
use mem_vanta.Gguf.Types.{
  Bytes, GgufParseLimits, GgufError, truncated, string_limit, budget, too_large_for_address_space,
  out_of_bounds,
}

pub record Reader : Type 0 where
  pub off : ℕ
  pub heap_remaining : ℕ

abbrev pub Parser {ℓ} : Type ℓ → Type ℓ
Parser A = Reader → Result GgufError (A × Reader)

infixl 5 ◌>>=◌ ◌>>◌
-- The rest runs where the first part left the cursor.
abbrev pub ◌>>=◌ {ℓ κ} : {X : Type ℓ} {Y : Type κ} → Parser X → (X → Parser Y) → Parser Y
◌>>=◌ m f r = elim (m r) [ ok (a, r') ↦ f a r' | err e ↦ err e ]

abbrev pub ◌>>◌ {ℓ} : {B : Type ℓ} → Parser (Unit {0}) → Parser B → Parser B
m >> k = m >>= λ _. k

abbrev pub pure {ℓ} : {A : Type ℓ} → A → Parser A
pure a r = ok (a, r)

abbrev pub throw {ℓ} : {A : Type ℓ} → GgufError → Parser A
throw e r = err e

-- A result that needs no cursor.
abbrev pub lift {ℓ} : {A : Type ℓ} → Result GgufError A → Parser A
lift (ok a) r = ok (a, r)
lift (err e) r = err e

-- `count` bytes from an offset, as far as the mapping has them.
unfoldable pub bytes_at : Bytes → ℕ → ℕ → Option Bytes
bytes_at file off zero = some []
bytes_at file off (suc count) =
    let rest = bytes_at file (suc off) count in
    elim (get_elem? file off) [
      | none ↦ none
      | some b ↦ elim rest [ none ↦ none | some bs ↦ some (b ∷ bs) ]
    ]

-- The number that bytes stand for on a little-endian machine.
unfoldable pub le_value : Bytes → ℕ
le_value [] = 0
le_value (b ∷ bs) = b + 256 * le_value bs

unfoldable pub or_out_of_bounds : Option Bytes → Result GgufError Bytes
or_out_of_bounds none = err out_of_bounds
or_out_of_bounds (some bs) = ok bs

module _ (file : Bytes) where
  unfoldable pub require : ℕ → Parser (Unit {0})
  require k r =
      if ltb (length file) k || ltb (sub64 (length file) k) r.off then err truncated else ok (tt, r)

  -- `memcpy` from the cursor, and the step of the cursor.
  unfoldable pub fetch : ℕ → Parser Bytes
  unfolding or_out_of_bounds bytes_at
  fetch k = do
    bs ← λ r. lift (or_out_of_bounds (bytes_at file r.off k)) r
    λ r. ok (bs, record r { off = add64 r.off k })

  -- `read<T>()` at a type of `k` bytes, as an unsigned number.
  unfoldable pub read : ℕ → Parser ℕ
  unfolding require fetch le_value
  read k = do require k; bs ← fetch k; pure (le_value bs)

  unfoldable pub charge : ℕ → Parser (Unit {0})
  charge n r =
      if ltb r.heap_remaining n
      then err budget
      else ok (tt, record r { heap_remaining = sub64 r.heap_remaining n })

  module _ (limits : GgufParseLimits) where
    unfoldable pub str : Parser Bytes
    unfolding read charge
    str = do
      len ← read 8
      if ltb limits.max_string_bytes len then throw string_limit else pure tt
      if ltb u64_max len then throw too_large_for_address_space else pure tt
      require len
      charge len
      fetch len
