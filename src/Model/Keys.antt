-- ===== src/Model/Keys.antt =====
-- The metadata keys that `load_config` reads.
use mem_vanta.Prelude.{[], ◌∷◌}
use mem_vanta.Gguf.Types.{Bytes}

-- "general.architecture"
abbrev pub architecture_key : Bytes
architecture_key =
    b'g' ∷ b'e' ∷ b'n' ∷ b'e' ∷ b'r' ∷ b'a' ∷ b'l' ∷ b'.' ∷ b'a' ∷ b'r' ∷ b'c' ∷ b'h' ∷ b'i' ∷ b't'
    ∷ b'e' ∷ b'c' ∷ b't' ∷ b'u' ∷ b'r' ∷ b'e' ∷ []

-- "llama"
abbrev pub llama_arch : Bytes
llama_arch = b'l' ∷ b'l' ∷ b'a' ∷ b'm' ∷ b'a' ∷ []

-- "llama.context_length"
abbrev pub context_key : Bytes
context_key =
    b'l' ∷ b'l' ∷ b'a' ∷ b'm' ∷ b'a' ∷ b'.' ∷ b'c' ∷ b'o' ∷ b'n' ∷ b't' ∷ b'e' ∷ b'x' ∷ b't' ∷ b'_'
    ∷ b'l' ∷ b'e' ∷ b'n' ∷ b'g' ∷ b't' ∷ b'h' ∷ []

-- "llama.embedding_length"
abbrev pub embedding_key : Bytes
embedding_key =
    b'l' ∷ b'l' ∷ b'a' ∷ b'm' ∷ b'a' ∷ b'.' ∷ b'e' ∷ b'm' ∷ b'b' ∷ b'e' ∷ b'd' ∷ b'd' ∷ b'i' ∷ b'n'
    ∷ b'g' ∷ b'_' ∷ b'l' ∷ b'e' ∷ b'n' ∷ b'g' ∷ b't' ∷ b'h' ∷ []

-- "llama.feed_forward_length"
abbrev pub feed_forward_key : Bytes
feed_forward_key =
    b'l' ∷ b'l' ∷ b'a' ∷ b'm' ∷ b'a' ∷ b'.' ∷ b'f' ∷ b'e' ∷ b'e' ∷ b'd' ∷ b'_' ∷ b'f' ∷ b'o' ∷ b'r'
    ∷ b'w' ∷ b'a' ∷ b'r' ∷ b'd' ∷ b'_' ∷ b'l' ∷ b'e' ∷ b'n' ∷ b'g' ∷ b't' ∷ b'h' ∷ []

-- "llama.block_count"
abbrev pub block_count_key : Bytes
block_count_key =
    b'l' ∷ b'l' ∷ b'a' ∷ b'm' ∷ b'a' ∷ b'.' ∷ b'b' ∷ b'l' ∷ b'o' ∷ b'c' ∷ b'k' ∷ b'_' ∷ b'c' ∷ b'o'
    ∷ b'u' ∷ b'n' ∷ b't' ∷ []

-- "llama.attention.head_count"
abbrev pub head_count_key : Bytes
head_count_key =
    b'l' ∷ b'l' ∷ b'a' ∷ b'm' ∷ b'a' ∷ b'.' ∷ b'a' ∷ b't' ∷ b't' ∷ b'e' ∷ b'n' ∷ b't' ∷ b'i' ∷ b'o'
    ∷ b'n' ∷ b'.' ∷ b'h' ∷ b'e' ∷ b'a' ∷ b'd' ∷ b'_' ∷ b'c' ∷ b'o' ∷ b'u' ∷ b'n' ∷ b't' ∷ []

-- "llama.attention.head_count_kv"
abbrev pub head_count_kv_key : Bytes
head_count_kv_key =
    b'l' ∷ b'l' ∷ b'a' ∷ b'm' ∷ b'a' ∷ b'.' ∷ b'a' ∷ b't' ∷ b't' ∷ b'e' ∷ b'n' ∷ b't' ∷ b'i' ∷ b'o'
    ∷ b'n' ∷ b'.' ∷ b'h' ∷ b'e' ∷ b'a' ∷ b'd' ∷ b'_' ∷ b'c' ∷ b'o' ∷ b'u' ∷ b'n' ∷ b't' ∷ b'_'
    ∷ b'k' ∷ b'v' ∷ []

-- "llama.attention.layer_norm_rms_epsilon"
abbrev pub rms_eps_key : Bytes
rms_eps_key =
    b'l' ∷ b'l' ∷ b'a' ∷ b'm' ∷ b'a' ∷ b'.' ∷ b'a' ∷ b't' ∷ b't' ∷ b'e' ∷ b'n' ∷ b't' ∷ b'i' ∷ b'o'
    ∷ b'n' ∷ b'.' ∷ b'l' ∷ b'a' ∷ b'y' ∷ b'e' ∷ b'r' ∷ b'_' ∷ b'n' ∷ b'o' ∷ b'r' ∷ b'm' ∷ b'_'
    ∷ b'r' ∷ b'm' ∷ b's' ∷ b'_' ∷ b'e' ∷ b'p' ∷ b's' ∷ b'i' ∷ b'l' ∷ b'o' ∷ b'n' ∷ []

-- "llama.rope.freq_base"
abbrev pub rope_key : Bytes
rope_key =
    b'l' ∷ b'l' ∷ b'a' ∷ b'm' ∷ b'a' ∷ b'.' ∷ b'r' ∷ b'o' ∷ b'p' ∷ b'e' ∷ b'.' ∷ b'f' ∷ b'r' ∷ b'e'
    ∷ b'q' ∷ b'_' ∷ b'b' ∷ b'a' ∷ b's' ∷ b'e' ∷ []

-- "token_embd.weight"
abbrev pub embedding_name : Bytes
embedding_name =
    b't' ∷ b'o' ∷ b'k' ∷ b'e' ∷ b'n' ∷ b'_' ∷ b'e' ∷ b'm' ∷ b'b' ∷ b'd' ∷ b'.' ∷ b'w' ∷ b'e' ∷ b'i'
    ∷ b'g' ∷ b'h' ∷ b't' ∷ []
