-- ===== src/Gguf/Tensors.antt =====
-- The second half of the constructor of `GgufFile`: from the tensor descriptors to the table of
-- tensors, with the data offset.
use Prim.Native.Nat.{bit_and}
use mem_vanta.Prelude.{
  ℕ, ◌%◌, Bool, true, false, not, ◌&&◌, ◌||◌, Option, none, some, List, [], ◌∷◌, ◌++◌, Result, ok,
  err, ltb, ◌==◌, if◌then◌else◌, length, add64, sub64, u64_max, u64_mod, ◌>>=◌, ◌>>◌, throw_if,
  get_or,
}
use mem_vanta.Gguf.Types.{
  GgmlType, Bytes, GgufValue, GgufTensor, GgufError, bad_alignment, data_offset_overflow,
  tensor_offset_overflow, tensor_out_of_file, duplicate_tensor, not_block_aligned, bytes_eq,
}
use mem_vanta.Gguf.Values.{as_unsigned}
use mem_vanta.Gguf.Sizes.{quant_row_block, elements, ggml_tensor_nbytes}

-- The maps of `GgufFile`, keyed by strings.
unfoldable pub lookup {ℓ} : {V : Type ℓ} → Bytes → List (Bytes × V) → Option V
lookup k [] = none
lookup k ((j, v) ∷ m) = if bytes_eq k j then some v else lookup k m

abbrev has {ℓ} : {V : Type ℓ} → Option V → Bool
has none = false
has (some _) = true

unfoldable pub has_key {ℓ} : {V : Type ℓ} → Bytes → List (Bytes × V) → Bool
unfolding lookup
has_key k m = has (lookup k m)

-- `struct Tmp`
pub record Tmp : Type 0 where
  pub name : Bytes
  pub dims : List ℕ
  pub kind : GgmlType
  pub rel : ℕ

unfoldable pub alignment : {D : Type 0} → Option (GgufValue D) → Result GgufError ℕ
alignment none = ok 32
alignment (some v) = as_unsigned v.payload

-- `(pos + align - 1) & ~(align - 1)`, a 64-bit word.
unfoldable pub align_up : ℕ → ℕ → ℕ
align_up at align = bit_and (sub64 (add64 at align) 1) (sub64 u64_max (sub64 align 1)) % u64_mod

unfoldable pub data_offset_of : ℕ → ℕ → Result GgufError ℕ
unfolding align_up
data_offset_of at align =
    if (align == 0) || not (bit_and align (sub64 align 1) == 0)
    then err bad_alignment
    else if ltb (sub64 u64_max (sub64 align 1)) at
    then err data_offset_overflow
    else ok (align_up at align)

-- The tensors built so far, and their index.
pub record Table : Type 0 where
  pub tensors : List GgufTensor
  pub index : List (Bytes × ℕ)

-- `tensor_index_[x.name] = tensors_.size(); tensors_.push_back(x)`
unfoldable pub add_tensor : Table → GgufTensor → Table
add_tensor t x = record {
  tensors = t.tensors ++ x ∷ [];
  index = (x.name, length t.tensors) ∷ t.index;
}

-- One round of the last loop of the constructor.
unfoldable pub place : ℕ → ℕ → Table → Tmp → Result GgufError Table
unfolding add_tensor
place size data_offset t d = do
  let qk = quant_row_block d.kind
  throw_if (ltb 1 qk && not (get_or d.dims 0 1 % qk == 0)) not_block_aligned
  throw_if (ltb (sub64 u64_max data_offset) d.rel) tensor_offset_overflow
  let offset = add64 data_offset d.rel
  n ← elements d.dims
  nbytes ← ggml_tensor_nbytes d.kind n
  throw_if (ltb size offset || ltb (sub64 size offset) nbytes) tensor_out_of_file
  throw_if (has_key d.name t.index) duplicate_tensor
  ok (
      add_tensor t
        (record { name = d.name; dims = d.dims; kind = d.kind; offset = offset; nbytes = nbytes }))

unfoldable pub place_all : ℕ → ℕ → Table → List Tmp → Result GgufError Table
unfolding place
place_all size data_offset t [] = ok t
place_all size data_offset t (d ∷ ds) = do
  t' ← place size data_offset t d
  place_all size data_offset t' ds
