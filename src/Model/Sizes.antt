-- ===== src/Model/Sizes.antt =====
-- The sizes that `load_config` accepts.
use mem_vanta.Prelude.{
  ℕ, ◌*◌, ◌/◌, ◌%◌, ◌≤◌, ◌<◌, ◌≡◌, subst, false, not, ◌||◌, [], arith, ltb, ◌==◌, length, ok,
  throw_if, throw_if-eq-ok, >>=-eq-ok, ok-injective,
}
use mem_vanta.Gguf.Types.{Abi, GgufTensor, ne, bytes_eq}
use mem_vanta.Gguf.File.{GgufFile, get_string, tensor}
use mem_vanta.Model.Keys.{architecture_key, llama_arch, embedding_name}
use mem_vanta.Model.{
  bad_architecture, bad_embedding, empty_vocabulary, empty_context, Numbers, or_else, found,
  LlamaConfig, head_dim, kv_dim, read_sizes, check_sizes, check_embedding, has_zero, with_context,
  load_sizes,
}

module _ (A : Abi) (N : Numbers A) where
  -- Sizes that fit together, for a file of `tensors` tensors.
  pub record IsSound (tensors : ℕ) (c : LlamaConfig A N) : Type 0 where
    pub context : 0 < c.n_ctx
    pub feed_forward : 0 < c.n_ff
    pub words : 0 < c.vocab
    pub heads : c.n_head * head_dim A N c ≡ c.n_embd
    pub head_size : 0 < head_dim A N c
    pub even : head_dim A N c % 2 ≡ 0
    pub group : 0 < c.n_head_kv
    pub groups : c.n_head % c.n_head_kv ≡ 0
    pub narrow : kv_dim A N c ≤ c.n_embd
    pub layers : c.n_layer * 9 ≤ tensors

  -- What the checks say of the sizes they pass.
  Checked : ℕ → LlamaConfig A N → Type 0
  Checked tensors c =
      (has_zero A N c ≡ false)
      × ((not (c.n_embd % c.n_head == 0) || not (c.n_head % c.n_head_kv == 0)) ≡ false)
      × (not (head_dim A N c % 2 == 0) ≡ false)
      × (ltb (tensors / 9) c.n_layer ≡ false)

  check_sizes-Checked :
      (tensors : ℕ) (c : LlamaConfig A N) (u : Unit {0})
      → check_sizes A N tensors c ≡ ok u
      → Checked tensors c
  unfolding check_sizes Checked head_dim
  check_sizes-Checked tensors c u h =
      let (_, zeros, h1) = >>=-eq-ok _ _ h in
      let (_, heads, h2) = >>=-eq-ok _ _ h1 in
      let (_, odd, h3) = >>=-eq-ok _ _ h2 in
      let (_, many, h4) = >>=-eq-ok _ _ h3 in
      (
        throw_if-eq-ok _ _ zeros,
        throw_if-eq-ok _ _ heads,
        throw_if-eq-ok _ _ odd,
        throw_if-eq-ok _ _ many,
      )

  whole_parts : (n d : ℕ) → 0 < d → 0 < n → n % d ≡ 0 → (d * (n / d) ≡ n) × (0 < n / d)
  whole_parts n d h k e = (omega (arith, e), grind arith)

  divisor_bound : (n d : ℕ) → 0 < n → n % d ≡ 0 → d ≤ n
  divisor_bound n d h e = grind arith

  times_mono : (a b c : ℕ) → a ≤ b → a * c ≤ b * c
  times_mono a b c h = grind arith

  sound :
      (tensors vocab override : ℕ) (c : LlamaConfig A N)
      → Checked tensors c
      → 0 < vocab
      → 0 < (with_context A N vocab override c).n_ctx
      → IsSound tensors (with_context A N vocab override c)
  unfolding Checked head_dim kv_dim
  sound tensors vocab override c (zeros, heads, odd, many) words context =
      let embd : 0 < c.n_embd = ground arith in
      let head : 0 < c.n_head = ground arith in
      let group : 0 < c.n_head_kv = ground arith in
      let whole : c.n_embd % c.n_head ≡ 0 = ground arith in
      let groups : c.n_head % c.n_head_kv ≡ 0 = ground arith in
      let (parts, size) = whole_parts c.n_embd c.n_head head embd whole in
      record {
        context = context;
        feed_forward = ground arith;
        words = words;
        heads = parts;
        head_size = size;
        even = ground arith;
        group = group;
        groups = groups;
        narrow = omega (
          arith,
          parts,
          times_mono c.n_head_kv c.n_head (c.n_embd / c.n_head)
              (divisor_bound c.n_head c.n_head_kv head groups),
        );
        layers = ground arith;
      }

  positive : (n : ℕ) → (n == 0) ≡ false → 0 < n
  positive n h = ground arith

  check_embedding_words :
      (t : GgufTensor) (c : LlamaConfig A N) (n : ℕ) → check_embedding A N t c ≡ ok n → 0 < n
  unfolding check_embedding
  check_embedding_words t c n h =
      let (_, _, h1) =
        >>=-eq-ok (throw_if (not (length t.dims == 2) || not (ne t 0 == c.n_embd)) bad_embedding) _
          h in
      let (_, some_words, h2) = >>=-eq-ok (throw_if (ne t 1 == 0) empty_vocabulary) _ h1 in
      let nonempty : (ne t 1 == 0) ≡ false = throw_if-eq-ok _ _ some_words in
      let same : ne t 1 ≡ n = ok-injective h2 in
      subst (λ m. 0 < m) same (positive (ne t 1) nonempty)

  -- If the first half of load_config accepts a file, the sizes fit together: the context, the
  -- feed-forward size, the vocabulary, the key heads and the head size are not 0, the heads make
  -- up the embedding, the head size is even, the key heads divide the heads and make rows no
  -- longer than the embedding, and there are nine tensors for each layer.
  pub load_sizes-IsSound :
      (f : GgufFile A.Double) (override : ℕ) (c : LlamaConfig A N)
      → load_sizes A N f override ≡ ok c
      → IsSound (length f.tensors) c
  unfolding load_sizes
  load_sizes-IsSound f override c h =
      let (_, _, h1) =
        >>=-eq-ok
          (throw_if (not (bytes_eq (or_else (get_string f architecture_key) []) llama_arch))
            bad_architecture)
          _ h in
      let (read, _, h2) = >>=-eq-ok (read_sizes A N f) _ h1 in
      let (_, checked, h3) = >>=-eq-ok (check_sizes A N (length f.tensors) read) _ h2 in
      let (t, _, h4) = >>=-eq-ok (found (tensor f embedding_name)) _ h3 in
      let (vocab, embedding, h5) = >>=-eq-ok (check_embedding A N t read) _ h4 in
      let (_, context, h6) =
        >>=-eq-ok (throw_if ((with_context A N vocab override read).n_ctx == 0) empty_context) _
          h5 in
      let room : ((with_context A N vocab override read).n_ctx == 0) ≡ false =
        throw_if-eq-ok _ _ context in
      subst (IsSound (length f.tensors)) (ok-injective h6) (
        sound (length f.tensors) vocab override read
          (check_sizes-Checked (length f.tensors) read _ checked)
          (check_embedding_words t read vocab embedding) (positive _ room))
