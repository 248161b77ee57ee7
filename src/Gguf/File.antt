-- ===== src/Gguf/File.antt =====
-- The constructor of `GgufFile`, whose second half is in Tensors.antt, and its accessors.
use mem_vanta.Prelude.{
  ℕ, zero, suc, ◌+◌, Bool, not, ◌&&◌, ◌||◌, Option, none, some, List, [], ◌∷◌, Result, ok, err, ltb,
  u64_max, ◌==◌, if◌then◌else◌, length, get_elem?,
}
use mem_vanta.Prelude.Int.{ℤ, pos}
use mem_vanta.Gguf.Types.{
  value_type, ggml_type, Abi, Bytes, Payload, u64, i64, double, boolean, text, ints, floats, texts,
  GgufValue, GgufTensor, GgufParseLimits, GgufError, zero_dimension, not_gguf, bad_version,
  item_limit, too_large_for_address_space, duplicate_key, bad_dimensions, data_beyond_file,
  missing_tensor, bytes_eq,
}
use mem_vanta.Gguf.Reader.{Parser, ◌>>=◌, ◌>>◌, pure, throw, lift, read, charge, str}
use mem_vanta.Gguf.Values.{read_value, as_unsigned, i64_max, repeat}
use mem_vanta.Gguf.Sizes.{checked_mul}
use mem_vanta.Gguf.Tensors.{lookup, has_key, Tmp, alignment, data_offset_of, place_all}

pub record GgufFile (D : Type 0) : Type 0 where
  pub version : ℕ
  pub data_offset : ℕ
  pub metadata : List (Bytes × GgufValue D)
  pub tensors : List GgufTensor
  pub tensor_index : List (Bytes × ℕ)

-- "GGUF"
abbrev pub magic : Bytes
magic = b'G' ∷ b'G' ∷ b'U' ∷ b'F' ∷ []

-- "general.alignment"
abbrev pub alignment_key : Bytes
alignment_key =
    b'g' ∷ b'e' ∷ b'n' ∷ b'e' ∷ b'r' ∷ b'a' ∷ b'l' ∷ b'.' ∷ b'a' ∷ b'l' ∷ b'i' ∷ b'g' ∷ b'n' ∷ b'm'
    ∷ b'e' ∷ b'n' ∷ b't' ∷ []

module _ (A : Abi) (file : Bytes) (limits : GgufParseLimits) where
  -- One round of the loop over the metadata.
  unfoldable pub read_entry :
      List (Bytes × GgufValue A.Double) → Parser (List (Bytes × GgufValue A.Double))
  read_entry m = do
    key ← str file limits
    code ← read file 4
    value ← read_value A file limits (value_type code)
    if has_key key m then throw duplicate_key else pure tt
    pure ((key, value) ∷ m)

  unfoldable pub read_metadata :
      ℕ → List (Bytes × GgufValue A.Double) → Parser (List (Bytes × GgufValue A.Double))
  unfolding read_entry
  read_metadata zero m = pure m
  read_metadata (suc n) m = do m' ← read_entry m; read_metadata n m'

  unfoldable pub read_dim : Parser ℕ
  read_dim = do d ← read file 8; if d == 0 then throw zero_dimension else pure tt; pure d

  -- One round of the loop over the tensor descriptors.
  unfoldable pub read_descriptor : Parser Tmp
  unfolding read_dim
  read_descriptor = do
    name ← str file limits
    nd ← read file 4
    if nd == 0 || ltb 4 nd then throw bad_dimensions else pure tt
    bytes ← lift (checked_mul nd 8)
    charge file bytes
    dims ← repeat read_dim nd
    code ← read file 4
    rel ← read file 8
    pure (record { name = name; dims = dims; kind = ggml_type code; rel = rel })

  unfoldable pub check_magic : Bytes → Parser (Unit {0})
  check_magic m = if bytes_eq m magic then pure tt else throw not_gguf

  -- The header: version, tensor count, metadata count.
  unfoldable pub read_header : Parser (ℕ × ℕ × ℕ)
  unfolding check_magic
  read_header = do
    m ← repeat (read file 1) 4
    check_magic m
    version ← read file 4
    if ltb version 2 || ltb 3 version then throw bad_version else pure tt
    nt ← read file 8
    nkv ← read file 8
    if ltb limits.max_tensors nt || ltb limits.max_metadata_items nkv
        then throw item_limit
        else pure tt
    if ltb u64_max nt || ltb u64_max nkv then throw too_large_for_address_space else pure tt
    pure (version, nt, nkv)

module _ (A : Abi) (file : Bytes) (limits : GgufParseLimits) where
  abbrev pub position : Parser ℕ
  position r = ok (r.off, r)

  -- GgufFile(path, limits), once the file is mapped.
  unfoldable pub parse_body : Parser (GgufFile A.Double)
  unfolding read_header read_metadata read_descriptor data_offset_of place_all alignment
  parse_body = do
    (version, nt, nkv) ← read_header A file limits
    entries_bytes ← lift (checked_mul nkv 128)
    charge file entries_bytes
    metadata ← read_metadata A file limits nkv []
    descriptor_bytes ← lift (checked_mul nt (A.sizeof_tmp + 64))
    charge file descriptor_bytes
    tmp ← repeat (read_descriptor A file limits) nt
    align ← lift (alignment (lookup alignment_key metadata))
    at ← position
    data_offset ← lift (data_offset_of at align)
    if not (nt == 0) && ltb (length file) data_offset then throw data_beyond_file else pure tt
    index_bytes ← lift (checked_mul nt (A.sizeof_tensor + 96))
    charge file index_bytes
    t ← lift (place_all (length file) data_offset (record { tensors = []; index = [] }) tmp)
    pure (record {
      version = version;
      data_offset = data_offset;
      metadata = metadata;
      tensors = t.tensors;
      tensor_index = t.index;
    })

  unfoldable pub parse : Result GgufError (GgufFile A.Double)
  unfolding parse_body
  parse = elim (parse_body (record { off = 0; heap_remaining = limits.max_parse_heap_bytes })) [
    | err e ↦ err e
    | ok (g, _) ↦ ok g
  ]

module _ {D : Type 0} where
  -- `GgufFile::tensor`; a position past the vector is undefined there, and `none` here.
  unfoldable pub tensor : GgufFile D → Bytes → Result GgufError (Option GgufTensor)
  tensor g name = elim (lookup name g.tensor_index) [
    | none ↦ err missing_tensor
    | some i ↦ ok (get_elem? g.tensors i)
  ]

  unfoldable pub has_tensor : GgufFile D → Bytes → Bool
  has_tensor g name = has_key name g.tensor_index

  unfoldable pub value_u64 : Payload D → Option ℕ
  value_u64 p = elim (as_unsigned p) [ ok v ↦ some v | err e ↦ none ]

  unfoldable pub value_i64 : Payload D → Option ℤ
  value_i64 (i64 v) = some v
  value_i64 (u64 v) = if ltb i64_max v then none else some (pos v)
  value_i64 p = none

  unfoldable pub value_bool : Payload D → Option Bool
  value_bool (boolean b) = some b
  value_bool p = none

  unfoldable pub value_text : Payload D → Option Bytes
  value_text (text s) = some s
  value_text p = none

  unfoldable pub value_texts : Payload D → Option (List Bytes)
  value_texts (texts ss) = some ss
  value_texts p = none

  unfoldable pub value_floats : Payload D → Option (List D)
  value_floats (floats vs) = some vs
  value_floats p = none

  unfoldable pub value_ints : Payload D → Option (List ℤ)
  value_ints (ints vs) = some vs
  value_ints p = none

  -- The lookup that the getters share.
  unfoldable pub get {ℓ} : {V : Type ℓ} → (Payload D → Option V) → GgufFile D → Bytes → Option V
  unfolding lookup
  get view g k = elim (lookup k g.metadata) [ none ↦ none | some v ↦ view v.payload ]

  unfoldable pub get_u64 : GgufFile D → Bytes → Option ℕ
  unfolding get value_u64
  get_u64 = get value_u64

  unfoldable pub get_i64 : GgufFile D → Bytes → Option ℤ
  unfolding get value_i64
  get_i64 = get value_i64

  unfoldable pub get_bool : GgufFile D → Bytes → Option Bool
  unfolding get value_bool
  get_bool = get value_bool

  unfoldable pub get_string : GgufFile D → Bytes → Option Bytes
  unfolding get value_text
  get_string = get value_text

  unfoldable pub get_string_array : GgufFile D → Bytes → Option (List Bytes)
  unfolding get value_texts
  get_string_array = get value_texts

  unfoldable pub get_float_array : GgufFile D → Bytes → Option (List D)
  unfolding get value_floats
  get_float_array = get value_floats

  unfoldable pub get_int_array : GgufFile D → Bytes → Option (List ℤ)
  unfolding get value_ints
  get_int_array = get value_ints

module _ (A : Abi) where
  unfoldable pub value_f64 : Payload A.Double → Option A.Double
  value_f64 (double v) = some v
  value_f64 (u64 v) = some (A.of_u64 v)
  value_f64 (i64 v) = some (A.of_i64 v)
  value_f64 p = none

  unfoldable pub get_f64 : GgufFile A.Double → Bytes → Option A.Double
  unfolding get value_f64
  get_f64 = get value_f64
