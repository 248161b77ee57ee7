-- ===== src/Gguf/Types.antt =====
-- The enumerations and records of include/memvanta/gguf.hpp. An enumeration that is cast from a
-- `std::uint32_t` keeps a code that it does not name.
use mem_vanta.Prelude.{ℕ, List, [], ◌∷◌, ◌&&◌, Bool, true, false, ◌==◌, if◌then◌else◌, get_or}
use mem_vanta.Prelude.Int.{ℤ}

pub data GgufValueType : Type 0 where
  uint8 int8 uint16 int16 uint32 int32 float32 bool string array uint64 int64 float64 :
      GgufValueType
  other : ℕ → GgufValueType

-- `static_cast<GgufValueType>`
unfoldable pub value_type : ℕ → GgufValueType
value_type n =
    if n == 0
    then uint8
    else if n == 1
    then int8
    else if n == 2
    then uint16
    else if n == 3
    then int16
    else if n == 4
    then uint32
    else if n == 5
    then int32
    else if n == 6
    then float32
    else if n == 7
    then bool
    else if n == 8
    then string
    else if n == 9
    then array
    else if n == 10
    then uint64
    else if n == 11
    then int64
    else if n == 12
    then float64
    else other n

pub data GgmlType : Type 0 where
  f32 f16 q4_0 q4_1 q5_0 q5_1 q8_0 q2_k q3_k q4_k q5_k q6_k iq2_xxs iq2_xs iq3_xxs iq1_s iq4_nl
        iq3_s iq2_s iq4_xs i8 i16 i32 i64 f64 iq1_m bf16 :
      GgmlType
  unnamed : ℕ → GgmlType

-- `static_cast<GgmlType>`
unfoldable pub ggml_type : ℕ → GgmlType
ggml_type n =
    if n == 0
    then f32
    else if n == 1
    then f16
    else if n == 2
    then q4_0
    else if n == 3
    then q4_1
    else if n == 6
    then q5_0
    else if n == 7
    then q5_1
    else if n == 8
    then q8_0
    else if n == 10
    then q2_k
    else if n == 11
    then q3_k
    else if n == 12
    then q4_k
    else if n == 13
    then q5_k
    else if n == 14
    then q6_k
    else if n == 16
    then iq2_xxs
    else if n == 17
    then iq2_xs
    else if n == 18
    then iq3_xxs
    else if n == 19
    then iq1_s
    else if n == 20
    then iq4_nl
    else if n == 21
    then iq3_s
    else if n == 22
    then iq2_s
    else if n == 23
    then iq4_xs
    else if n == 24
    then i8
    else if n == 25
    then i16
    else if n == 26
    then i32
    else if n == 27
    then i64
    else if n == 28
    then f64
    else if n == 29
    then iq1_m
    else if n == 30
    then bf16
    else unnamed n

-- What the parser takes from the platform: the layout of C++ types, and the floating-point numbers
-- that bit patterns and integers stand for.
pub record Abi : Type 1 where
  pub Double : Type 0
  pub of_f32 : ℕ → Double
  pub of_f64 : ℕ → Double
  pub of_u64 : ℕ → Double
  pub of_i64 : ℤ → Double
  pub sizeof_string : ℕ
  pub sizeof_tmp : ℕ
  pub sizeof_tensor : ℕ

-- A `std::string` is the list of its bytes.
abbrev pub Bytes : Type 0
Bytes = List ℕ

-- `GgufValue::Data`
pub data Payload (D : Type 0) : Type 0 where
  u64 : ℕ → Payload D
  i64 : ℤ → Payload D
  double : D → Payload D
  boolean : Bool → Payload D
  text : Bytes → Payload D
  ints : List ℤ → Payload D
  floats : List D → Payload D
  texts : List Bytes → Payload D

pub record GgufValue (D : Type 0) : Type 0 where
  pub kind : GgufValueType
  pub payload : Payload D

pub record GgufTensor : Type 0 where
  pub name : Bytes
  pub dims : List ℕ
  pub kind : GgmlType
  pub offset : ℕ
  pub nbytes : ℕ

-- `GgufTensor::ne`
abbrev pub ne : GgufTensor → ℕ → ℕ
ne t i = get_or t.dims i 1

pub record GgufParseLimits : Type 0 where
  pub max_tensors : ℕ
  pub max_metadata_items : ℕ
  pub max_array_elements : ℕ
  pub max_string_bytes : ℕ
  pub max_parse_heap_bytes : ℕ

-- The exceptions, and the read beyond the mapping that must not happen.
pub data GgufError : Type 0 where
  truncated string_limit budget nested_array unknown_type array_limit overflow int64_range :
      GgufError
  unsupported_element zero_dimension element_overflow not_block_aligned unsupported_type : GgufError
  not_gguf bad_version item_limit duplicate_key bad_dimensions bad_alignment : GgufError
  negative_metadata metadata_not_integer data_offset_overflow data_beyond_file : GgufError
  tensor_offset_overflow tensor_out_of_file duplicate_tensor missing_tensor : GgufError
  too_large_for_address_space out_of_bounds : GgufError

-- `operator==` of strings
unfoldable pub bytes_eq : Bytes → Bytes → Bool
bytes_eq [] [] = true
bytes_eq [] (y ∷ ys) = false
bytes_eq (x ∷ xs) [] = false
bytes_eq (x ∷ xs) (y ∷ ys) = (x == y) && bytes_eq xs ys
