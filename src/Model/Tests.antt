-- ===== src/Model/Tests.antt =====
-- A file of one layer with two heads of the size 2, and ten tokens.
use mem_vanta.Prelude.{ℕ, ◌≡◌, refl, ltb, [], ◌∷◌, replicate, ok}
use mem_vanta.Gguf.Types.{Abi, GgufTensor, f32, uint64, string, u64, text, GgufValue, bytes_eq}
use mem_vanta.Gguf.Values.{as_unsigned}
use mem_vanta.Gguf.Tensors.{lookup}
use mem_vanta.Gguf.File.{GgufFile, get_u64, get_string, get_f64, tensor}
use mem_vanta.Model.{Numbers, LlamaConfig, load_sizes}
use mem_vanta.Model.Keys.{
  architecture_key, llama_arch, context_key, embedding_key, feed_forward_key, block_count_key,
  head_count_key, embedding_name,
}
use mem_vanta.Model.Sizes.{IsSound, load_sizes-IsSound}

abbrev abi : Abi
abi = record {
  Double = ℕ;
  of_f32 = λ n. n;
  of_f64 = λ n. n;
  of_u64 = λ n. n;
  of_i64 = λ z. 0;
  sizeof_string = 32;
  sizeof_tmp = 72;
  sizeof_tensor = 80;
}

abbrev naturals : Numbers abi
naturals = record {
  F = ℕ;
  to_float = λ n. n;
  default_eps = 1;
  default_theta = 10000;
  is_positive = λ n. ltb 0 n;
}

abbrev number : ℕ → GgufValue ℕ
number n = record { kind = uint64; payload = u64 n }

abbrev embedding : GgufTensor
embedding = record {
  name = embedding_name;
  dims = 4 ∷ 10 ∷ [];
  kind = f32;
  offset = 0;
  nbytes = 160;
}

abbrev file : GgufFile ℕ
file = record {
  version = 3;
  data_offset = 0;
  metadata =
      (architecture_key, record { kind = string; payload = text llama_arch })
      ∷ (context_key, number 128)
      ∷ (embedding_key, number 4)
      ∷ (feed_forward_key, number 8)
      ∷ (block_count_key, number 1)
      ∷ (head_count_key, number 2)
      ∷ [];
  tensors = replicate 9 embedding;
  tensor_index = (embedding_name, 0) ∷ [];
}

abbrev sizes : LlamaConfig abi naturals
sizes = record {
  n_ctx = 64;
  n_embd = 4;
  n_ff = 8;
  n_layer = 1;
  n_head = 2;
  n_head_kv = 2;
  vocab = 10;
  rms_eps = 1;
  rope_theta = 10000;
}

sizes_are_read : load_sizes abi naturals file 64 ≡ ok sizes
unfolding load_sizes get_u64 get_string get_f64 tensor lookup bytes_eq as_unsigned
sizes_are_read = refl

load_sizes-IsSound_example : IsSound abi naturals 9 sizes
load_sizes-IsSound_example = load_sizes-IsSound abi naturals file 64 sizes sizes_are_read
