-- ===== src/Model.antt =====
-- `LlamaConfig` of include/memvanta/llama_model.hpp, and the first half of `LlamaModel::load_config`
-- of src/llama_model.cpp, which reads the sizes of a model from a file and checks them. Parameters
-- are the two defaults, the conversion to `float`, and the test of a `float` for being finite and
-- above 0.
pub mod Keys
pub mod Sizes
mod Tests
use mem_vanta.Prelude.{
  ℕ, zero, suc, ◌*◌, ◌/◌, ◌%◌, min, Bool, true, false, not, ◌||◌, Option, none, some, List, [], ltb,
  ◌==◌, if◌then◌else◌, length, u64_max, Result, ok, err, throw_if, ◌>>=◌, ◌>>◌,
}
use mem_vanta.Gguf.Types.{Abi, Bytes, GgufTensor, GgufError, ne, bytes_eq}
use mem_vanta.Gguf.File.{GgufFile, get_u64, get_string, get_f64, tensor}
use mem_vanta.Model.Keys.{
  architecture_key, llama_arch, context_key, embedding_key, feed_forward_key, block_count_key,
  head_count_key, head_count_kv_key, rms_eps_key, rope_key, embedding_name,
}

pub data ModelError : Type 0 where
  bad_architecture : ModelError
  missing_key : ModelError
  beyond_address_space : ModelError
  zero_size : ModelError
  bad_heads : ModelError
  odd_head : ModelError
  too_many_layers : ModelError
  bad_number : ModelError
  missing_tensor : ModelError
  bad_embedding : ModelError
  empty_vocabulary : ModelError
  empty_context : ModelError
  dangling_index : ModelError

-- `double` and `float`, as far as the sizes need them.
pub record Numbers (A : Abi) : Type 1 where
  pub F : Type 0
  pub to_float : A.Double → F
  pub default_eps : A.Double
  pub default_theta : A.Double
  pub is_positive : F → Bool

abbrev pub or_else {ℓ} : {A : Type ℓ} → Option A → A → A
or_else none d = d
or_else (some a) d = a

-- The local function `req`.
unfoldable pub word_or : Option ℕ → Result ModelError ℕ
word_or none = err missing_key
word_or (some v) = if ltb u64_max v then err beyond_address_space else ok v

-- The number of heads of the keys, which is that of the queries by default.
unfoldable pub heads_or : Option ℕ → ℕ → Result ModelError ℕ
heads_or none n = ok n
heads_or (some v) n = if ltb u64_max v then err beyond_address_space else ok v

-- `file_.tensor(name)`; an index past the vector of tensors is undefined, and an error of its own.
unfoldable pub found : Result GgufError (Option GgufTensor) → Result ModelError GgufTensor
found (err e) = err missing_tensor
found (ok none) = err dangling_index
found (ok (some t)) = ok t

module _ (A : Abi) (N : Numbers A) where
  open N use {F, to_float, default_eps, default_theta, is_positive}

  pub record LlamaConfig : Type 0 where
    pub n_ctx : ℕ
    pub n_embd : ℕ
    pub n_ff : ℕ
    pub n_layer : ℕ
    pub n_head : ℕ
    pub n_head_kv : ℕ
    pub vocab : ℕ
    pub rms_eps : F
    pub rope_theta : F

  unfoldable pub head_dim : LlamaConfig → ℕ
  head_dim c = c.n_embd / c.n_head

  -- Once the sizes are checked, the product is at most `n_embd`, so it does not wrap around.
  unfoldable pub kv_dim : LlamaConfig → ℕ
  unfolding head_dim
  kv_dim c = c.n_head_kv * head_dim c

  -- What is read, before any check.
  unfoldable pub read_sizes : GgufFile A.Double → Result ModelError LlamaConfig
  unfolding word_or heads_or
  read_sizes f = do
    n_ctx ← word_or (get_u64 f context_key)
    n_embd ← word_or (get_u64 f embedding_key)
    n_ff ← word_or (get_u64 f feed_forward_key)
    n_layer ← word_or (get_u64 f block_count_key)
    n_head ← word_or (get_u64 f head_count_key)
    n_head_kv ← heads_or (get_u64 f head_count_kv_key) n_head
    ok (record {
      n_ctx = n_ctx;
      n_embd = n_embd;
      n_ff = n_ff;
      n_layer = n_layer;
      n_head = n_head;
      n_head_kv = n_head_kv;
      vocab = 0;
      rms_eps = to_float (or_else (get_f64 A f rms_eps_key) default_eps);
      rope_theta = to_float (or_else (get_f64 A f rope_key) default_theta);
    })

  abbrev pub has_zero : LlamaConfig → Bool
  has_zero c =
      (c.n_ctx == 0)
      || ((c.n_embd == 0)
          || ((c.n_ff == 0) || ((c.n_layer == 0) || ((c.n_head == 0) || (c.n_head_kv == 0)))))

  -- The checks of what was read, for a file of `tensors` tensors.
  unfoldable pub check_sizes : ℕ → LlamaConfig → Result ModelError (Unit {0})
  unfolding head_dim
  check_sizes tensors c = do
    throw_if (has_zero c) zero_size
    throw_if (not (c.n_embd % c.n_head == 0) || not (c.n_head % c.n_head_kv == 0)) bad_heads
    throw_if (not (head_dim c % 2 == 0)) odd_head
    throw_if (ltb (tensors / 9) c.n_layer) too_many_layers
    throw_if (not (is_positive c.rms_eps) || not (is_positive c.rope_theta)) bad_number

  -- The rows of the table of token embeddings.
  unfoldable pub check_embedding : GgufTensor → LlamaConfig → Result ModelError ℕ
  check_embedding t c = do
    throw_if (not (length t.dims == 2) || not (ne t 0 == c.n_embd)) bad_embedding
    throw_if (ne t 1 == 0) empty_vocabulary
    ok (ne t 1)

  abbrev pub with_context : ℕ → ℕ → LlamaConfig → LlamaConfig
  with_context vocab override c = record {
    n_ctx = if override == 0 then c.n_ctx else min c.n_ctx override;
    n_embd = c.n_embd;
    n_ff = c.n_ff;
    n_layer = c.n_layer;
    n_head = c.n_head;
    n_head_kv = c.n_head_kv;
    vocab = vocab;
    rms_eps = c.rms_eps;
    rope_theta = c.rope_theta;
  }

  -- The first half of `load_config`.
  unfoldable pub load_sizes : GgufFile A.Double → ℕ → Result ModelError LlamaConfig
  unfolding read_sizes check_sizes check_embedding found
  load_sizes f override = do
    throw_if (not (bytes_eq (or_else (get_string f architecture_key) []) llama_arch))
        bad_architecture
    c ← read_sizes f
    _ ← check_sizes (length f.tensors) c
    t ← found (tensor f embedding_name)
    vocab ← check_embedding t c
    throw_if ((with_context vocab override c).n_ctx == 0) empty_context
    ok (with_context vocab override c)
