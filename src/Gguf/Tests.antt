-- ===== src/Gguf/Tests.antt =====
-- The theorems on the parser at a file with one metadata entry and one tensor of two floats.
use mem_vanta.Prelude.{
  ℕ, ◌≤◌, ◌≡◌, refl, ◌≢◌, ◌⊎◌, true, false, some, [], ◌∷◌, ◌++◌, arith, ok, err, length, replicate,
  All, sub64, add64,
}
use mem_vanta.Gguf.Types.{
  f32, uint32, u64, Abi, Bytes, GgufTensor, GgufParseLimits, missing_tensor, out_of_bounds,
  bytes_eq, value_type, ggml_type,
}
use mem_vanta.Gguf.Sizes.{checked_mul, quant_row_block, elements, ggml_tensor_nbytes}
use mem_vanta.Gguf.Reader.{read, charge, str}
use mem_vanta.Gguf.Values.{repeat, read_value}
use mem_vanta.Gguf.Tensors.{has_key}
use mem_vanta.Gguf.File.{GgufFile, parse, tensor, has_tensor}
use mem_vanta.Gguf.Parsing.{metadata_bytes, parse-in_bounds, parse-metadata_bytes}
use mem_vanta.Gguf.Placement.{IsPlaced}
use mem_vanta.Gguf.Accepted.{parse-IsPlaced, parse-tensor, parse-tensor_complete}

-- Little-endian words.
abbrev word32 : ℕ → Bytes
word32 n = n ∷ 0 ∷ 0 ∷ 0 ∷ []

abbrev word64 : ℕ → Bytes
word64 n = n ∷ 0 ∷ 0 ∷ 0 ∷ 0 ∷ 0 ∷ 0 ∷ 0 ∷ []

abbrev name : Bytes
name = b'w' ∷ []

abbrev key : Bytes
key = b'k' ∷ []

abbrev header : Bytes
header = b'G' ∷ b'G' ∷ b'U' ∷ b'F' ∷ (word32 3 ++ (word64 1 ++ word64 1))

abbrev entry : Bytes
entry = word64 1 ++ (key ++ (word32 4 ++ word32 5))

abbrev descriptor : Bytes
descriptor = word64 1 ++ (name ++ (word32 1 ++ (word64 2 ++ (word32 0 ++ word64 0))))

-- 24 + 17 + 33 bytes, 22 of padding, and the tensor.
abbrev file : Bytes
file = header ++ (entry ++ (descriptor ++ replicate 30 0))

abbrev abi : Abi
abi = record {
  Double = ℕ;
  of_f32 = λ n. n;
  of_f64 = λ n. n;
  of_u64 = λ n. n;
  of_i64 = λ z. 0;
  sizeof_string = 32;
  sizeof_tmp = 72;
  sizeof_tensor = 88;
}

abbrev limits : GgufParseLimits
limits = record {
  max_tensors = 4;
  max_metadata_items = 4;
  max_array_elements = 4;
  max_string_bytes = 16;
  max_parse_heap_bytes = 1000;
}

abbrev weights : GgufTensor
weights = record { name = name; dims = 2 ∷ []; kind = f32; offset = 96; nbytes = 8 }

abbrev parsed : GgufFile ℕ
parsed = record {
  version = 3;
  data_offset = 96;
  metadata = (key, record { kind = uint32; payload = u64 5 }) ∷ [];
  tensors = weights ∷ [];
  tensor_index = (name, 0) ∷ [];
}

parse-file : parse abi file limits ≡ ok parsed
unfolding parse repeat read sub64 add64 bytes_eq checked_mul charge str read_value value_type
    has_key quant_row_block ggml_type elements ggml_tensor_nbytes
parse-file = refl

parse-in_bounds_example : parse abi file limits ≢ err out_of_bounds
parse-in_bounds_example = parse-in_bounds abi file limits (omega arith) (omega arith)

parse-metadata_bytes_example : metadata_bytes abi parsed.metadata ≤ 1000
parse-metadata_bytes_example =
    parse-metadata_bytes abi file limits (omega arith) parsed (omega arith) parse-file

parse-IsPlaced_example : All (IsPlaced (length file) parsed.data_offset) parsed.tensors
parse-IsPlaced_example = parse-IsPlaced abi file limits (omega arith) parsed parse-file

parse-tensor_example :
    ((has_tensor parsed name ≡ true)
      × (x : GgufTensor) × (tensor parsed name ≡ ok (some x))
      × (x.name ≡ name)
      × IsPlaced (length file) parsed.data_offset x)
    ⊎ ((has_tensor parsed name ≡ false) × (tensor parsed name ≡ err missing_tensor))
parse-tensor_example = parse-tensor abi file limits (omega arith) parsed name parse-file

parse-tensor_complete_example : tensor parsed name ≡ ok (some weights)
parse-tensor_complete_example =
    parse-tensor_complete abi file limits (omega arith) parsed 0 weights parse-file refl
