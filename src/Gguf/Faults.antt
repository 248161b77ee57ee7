-- ===== src/Gguf/Faults.antt =====
-- The steps of the parser that take no cursor throw the parser's exceptions only: none is a read
-- past the mapping.
use mem_vanta.Prelude.{
  ℕ, ◌/◌, ◌%◌, ◌≡◌, ap, Bool, true, false, not, ◌||◌, ◌&&◌, ◌≢◌, Option, none, some, List, [], ◌∷◌,
  arith, Result, ok, err, ltb, ◌==◌, if◌then◌else◌, sub64, add64, mul64, u64_max, if-cases, ◌>>=◌,
  throw_if, get_or,
}
use mem_vanta.Gguf.Types.{
  GgmlType, f32, f16, q4_0, q4_1, q5_0, q5_1, q8_0, q2_k, q3_k, q4_k, q5_k, q6_k, i8, i16, i32, i64,
  f64, bf16, Payload, u64, GgufValue, GgufError, out_of_bounds, not_block_aligned,
  tensor_offset_overflow, tensor_out_of_file, duplicate_tensor,
}
use mem_vanta.Gguf.Types
use mem_vanta.Prelude.Int.{pos, negsuc}
use mem_vanta.Gguf.Values.{as_unsigned}
use mem_vanta.Gguf.Sizes.{
  checked_mul, blocks, elements_from, elements, ggml_tensor_nbytes, quant_row_block,
}
use mem_vanta.Gguf.Tensors.{
  Tmp, Table, has_key, alignment, data_offset_of, place, place_all, add_tensor,
}

pub record IsSafe {ℓ} {A : Type ℓ} (r : Result GgufError A) : Type ℓ where
  pub safe : r ≢ err out_of_bounds

ok-IsSafe {ℓ} : {A : Type ℓ} (a : A) → IsSafe (ok a)
ok-IsSafe a = record { safe = λ q. cc }

err-IsSafe {ℓ} : {A : Type ℓ} (e : GgufError) → e ≢ out_of_bounds → IsSafe {A = A} (err e)
err-IsSafe {A} e h = record {
  safe = λ (q : ◌≡◌ {A = Result GgufError A} (err e) (err out_of_bounds)). h (ground arith);
}

bind-IsSafe {ℓ κ} :
    {A : Type ℓ} {B : Type κ} {m : Result GgufError A} {f : A → Result GgufError B}
    → IsSafe m
    → ((a : A) → IsSafe (f a))
    → IsSafe (m >>= f)
bind-IsSafe {A} {B} {m} {f} h next = go m h
  where
    go : (m : Result GgufError A) → IsSafe m → IsSafe (m >>= f)
    go (ok a) h = next a
    go (err e) h = err-IsSafe e (λ q. h.safe (ap err q))

throw_if-IsSafe : (b : Bool) (e : GgufError) → e ≢ out_of_bounds → IsSafe (throw_if b e)
throw_if-IsSafe b e h = go b
  where
    go : (b : Bool) → IsSafe (throw_if b e)
    go true = err-IsSafe e h
    go false = ok-IsSafe tt

if-IsSafe {ℓ} :
    {A : Type ℓ} (b : Bool) {x y : Result GgufError A}
    → IsSafe x
    → IsSafe y
    → IsSafe (if b then x else y)
if-IsSafe b {x} {y} h k = if-cases IsSafe b x y (λ _. h) (λ _. k)

checked_mul-IsSafe : (a b : ℕ) → IsSafe (checked_mul a b)
unfolding checked_mul
checked_mul-IsSafe a b =
    if-IsSafe (not (a == 0) && ltb (u64_max / a) b) (err-IsSafe Types.overflow (λ q. cc))
      (ok-IsSafe _)

blocks-IsSafe : (n qk bs : ℕ) → IsSafe (blocks n qk bs)
unfolding blocks
blocks-IsSafe n qk bs =
    if-IsSafe (n % qk == 0) (checked_mul-IsSafe (n / qk) bs)
      (err-IsSafe not_block_aligned (λ q. cc))

nbytes-IsSafe : (t : GgmlType) (n : ℕ) → IsSafe (ggml_tensor_nbytes t n)
unfolding ggml_tensor_nbytes
nbytes-IsSafe f32 n = checked_mul-IsSafe n 4
nbytes-IsSafe f16 n = checked_mul-IsSafe n 2
nbytes-IsSafe q4_0 n = blocks-IsSafe n 32 18
nbytes-IsSafe q4_1 n = blocks-IsSafe n 32 20
nbytes-IsSafe q5_0 n = blocks-IsSafe n 32 22
nbytes-IsSafe q5_1 n = blocks-IsSafe n 32 24
nbytes-IsSafe q8_0 n = blocks-IsSafe n 32 34
nbytes-IsSafe i8 n = ok-IsSafe n
nbytes-IsSafe i16 n = checked_mul-IsSafe n 2
nbytes-IsSafe i32 n = checked_mul-IsSafe n 4
nbytes-IsSafe Types.i64 n = checked_mul-IsSafe n 8
nbytes-IsSafe f64 n = checked_mul-IsSafe n 8
nbytes-IsSafe bf16 n = checked_mul-IsSafe n 2
nbytes-IsSafe q2_k n = blocks-IsSafe n 256 84
nbytes-IsSafe q3_k n = blocks-IsSafe n 256 110
nbytes-IsSafe q4_k n = blocks-IsSafe n 256 144
nbytes-IsSafe q5_k n = blocks-IsSafe n 256 176
nbytes-IsSafe q6_k n = blocks-IsSafe n 256 210
nbytes-IsSafe t n = err-IsSafe Types.unsupported_type (λ q. cc)

elements_from-IsSafe : (n : ℕ) (ds : List ℕ) → IsSafe (elements_from n ds)
unfolding elements_from
elements_from-IsSafe n [] = ok-IsSafe n
elements_from-IsSafe n (d ∷ ds) =
    let rest = elements_from-IsSafe (mul64 n d) ds in
    if-IsSafe (d == 0) (err-IsSafe Types.zero_dimension (λ q. cc))
      (if-IsSafe (ltb (u64_max / d) n) (err-IsSafe Types.element_overflow (λ q. cc)) rest)

place-IsSafe : (size data_offset : ℕ) (t : Table) (d : Tmp) → IsSafe (place size data_offset t d)
unfolding place elements
place-IsSafe size data_offset t d =
    bind-IsSafe
      (throw_if-IsSafe
        (ltb 1 (quant_row_block d.kind) && not (get_or d.dims 0 1 % quant_row_block d.kind == 0))
        not_block_aligned (λ q. cc))
      λ _.
        bind-IsSafe
          (throw_if-IsSafe (ltb (sub64 u64_max data_offset) d.rel) tensor_offset_overflow (λ q. cc))
          λ _. bind-IsSafe (elements_from-IsSafe 1 d.dims) λ n.
            bind-IsSafe (nbytes-IsSafe d.kind n) λ nbytes.
              bind-IsSafe
                (throw_if-IsSafe
                  (ltb size (add64 data_offset d.rel)
                    || ltb (sub64 size (add64 data_offset d.rel)) nbytes)
                  tensor_out_of_file (λ q. cc))
                λ _.
                  bind-IsSafe (throw_if-IsSafe (has_key d.name t.index) duplicate_tensor (λ q. cc))
                    λ _. ok-IsSafe (
                      add_tensor t (record {
                        name = d.name;
                        dims = d.dims;
                        kind = d.kind;
                        offset = add64 data_offset d.rel;
                        nbytes = nbytes;
                      }))

pub place_all-IsSafe :
    (size data_offset : ℕ) (t : Table) (ds : List Tmp) → IsSafe (place_all size data_offset t ds)
unfolding place_all
place_all-IsSafe size data_offset t [] = ok-IsSafe t
place_all-IsSafe size data_offset t (d ∷ ds) =
    bind-IsSafe (place-IsSafe size data_offset t d) λ t'. place_all-IsSafe size data_offset t' ds

as_unsigned-IsSafe : {D : Type 0} (p : Payload D) → IsSafe (as_unsigned p)
unfolding as_unsigned
as_unsigned-IsSafe (u64 v) = ok-IsSafe v
as_unsigned-IsSafe (Types.i64 (pos v)) = ok-IsSafe v
as_unsigned-IsSafe (Types.i64 (negsuc v)) = err-IsSafe Types.negative_metadata (λ q. cc)
as_unsigned-IsSafe _ = err-IsSafe Types.metadata_not_integer (λ q. cc)

pub alignment-IsSafe : {D : Type 0} (v : Option (GgufValue D)) → IsSafe (alignment v)
unfolding alignment
alignment-IsSafe none = ok-IsSafe 32
alignment-IsSafe (some v) = as_unsigned-IsSafe v.payload

pub data_offset_of-IsSafe : (at align : ℕ) → IsSafe (data_offset_of at align)
unfolding data_offset_of
data_offset_of-IsSafe at align =
    if-IsSafe _ (err-IsSafe Types.bad_alignment (λ q. cc))
      (if-IsSafe _ (err-IsSafe Types.data_offset_overflow (λ q. cc)) (ok-IsSafe _))
