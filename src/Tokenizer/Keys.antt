-- ===== src/Tokenizer/Keys.antt =====
-- The metadata keys that the constructor of `GgufTokenizer` reads, and the defaults of two of them.
use mem_vanta.Prelude.{[], ◌∷◌}
use mem_vanta.Gguf.Types.{Bytes}

-- "tokenizer.ggml.tokens"
abbrev pub tokens_key : Bytes
tokens_key =
    b't' ∷ b'o' ∷ b'k' ∷ b'e' ∷ b'n' ∷ b'i' ∷ b'z' ∷ b'e' ∷ b'r' ∷ b'.' ∷ b'g' ∷ b'g' ∷ b'm' ∷ b'l'
    ∷ b'.' ∷ b't' ∷ b'o' ∷ b'k' ∷ b'e' ∷ b'n' ∷ b's' ∷ []

-- "tokenizer.ggml.model"
abbrev pub model_key : Bytes
model_key =
    b't' ∷ b'o' ∷ b'k' ∷ b'e' ∷ b'n' ∷ b'i' ∷ b'z' ∷ b'e' ∷ b'r' ∷ b'.' ∷ b'g' ∷ b'g' ∷ b'm' ∷ b'l'
    ∷ b'.' ∷ b'm' ∷ b'o' ∷ b'd' ∷ b'e' ∷ b'l' ∷ []

-- "tokenizer.ggml.pre"
abbrev pub pre_key : Bytes
pre_key =
    b't' ∷ b'o' ∷ b'k' ∷ b'e' ∷ b'n' ∷ b'i' ∷ b'z' ∷ b'e' ∷ b'r' ∷ b'.' ∷ b'g' ∷ b'g' ∷ b'm' ∷ b'l'
    ∷ b'.' ∷ b'p' ∷ b'r' ∷ b'e' ∷ []

-- "tokenizer.ggml.add_space_prefix"
abbrev pub prefix_key : Bytes
prefix_key =
    b't' ∷ b'o' ∷ b'k' ∷ b'e' ∷ b'n' ∷ b'i' ∷ b'z' ∷ b'e' ∷ b'r' ∷ b'.' ∷ b'g' ∷ b'g' ∷ b'm' ∷ b'l'
    ∷ b'.' ∷ b'a' ∷ b'd' ∷ b'd' ∷ b'_' ∷ b's' ∷ b'p' ∷ b'a' ∷ b'c' ∷ b'e' ∷ b'_' ∷ b'p' ∷ b'r'
    ∷ b'e' ∷ b'f' ∷ b'i' ∷ b'x' ∷ []

-- "tokenizer.ggml.bos_token_id"
abbrev pub bos_key : Bytes
bos_key =
    b't' ∷ b'o' ∷ b'k' ∷ b'e' ∷ b'n' ∷ b'i' ∷ b'z' ∷ b'e' ∷ b'r' ∷ b'.' ∷ b'g' ∷ b'g' ∷ b'm' ∷ b'l'
    ∷ b'.' ∷ b'b' ∷ b'o' ∷ b's' ∷ b'_' ∷ b't' ∷ b'o' ∷ b'k' ∷ b'e' ∷ b'n' ∷ b'_' ∷ b'i' ∷ b'd' ∷ []

-- "tokenizer.ggml.eos_token_id"
abbrev pub eos_key : Bytes
eos_key =
    b't' ∷ b'o' ∷ b'k' ∷ b'e' ∷ b'n' ∷ b'i' ∷ b'z' ∷ b'e' ∷ b'r' ∷ b'.' ∷ b'g' ∷ b'g' ∷ b'm' ∷ b'l'
    ∷ b'.' ∷ b'e' ∷ b'o' ∷ b's' ∷ b'_' ∷ b't' ∷ b'o' ∷ b'k' ∷ b'e' ∷ b'n' ∷ b'_' ∷ b'i' ∷ b'd' ∷ []

-- "tokenizer.ggml.unknown_token_id"
abbrev pub unk_key : Bytes
unk_key =
    b't' ∷ b'o' ∷ b'k' ∷ b'e' ∷ b'n' ∷ b'i' ∷ b'z' ∷ b'e' ∷ b'r' ∷ b'.' ∷ b'g' ∷ b'g' ∷ b'm' ∷ b'l'
    ∷ b'.' ∷ b'u' ∷ b'n' ∷ b'k' ∷ b'n' ∷ b'o' ∷ b'w' ∷ b'n' ∷ b'_' ∷ b't' ∷ b'o' ∷ b'k' ∷ b'e'
    ∷ b'n' ∷ b'_' ∷ b'i' ∷ b'd' ∷ []

-- "tokenizer.ggml.scores"
abbrev pub scores_key : Bytes
scores_key =
    b't' ∷ b'o' ∷ b'k' ∷ b'e' ∷ b'n' ∷ b'i' ∷ b'z' ∷ b'e' ∷ b'r' ∷ b'.' ∷ b'g' ∷ b'g' ∷ b'm' ∷ b'l'
    ∷ b'.' ∷ b's' ∷ b'c' ∷ b'o' ∷ b'r' ∷ b'e' ∷ b's' ∷ []

-- "tokenizer.ggml.token_type"
abbrev pub types_key : Bytes
types_key =
    b't' ∷ b'o' ∷ b'k' ∷ b'e' ∷ b'n' ∷ b'i' ∷ b'z' ∷ b'e' ∷ b'r' ∷ b'.' ∷ b'g' ∷ b'g' ∷ b'm' ∷ b'l'
    ∷ b'.' ∷ b't' ∷ b'o' ∷ b'k' ∷ b'e' ∷ b'n' ∷ b'_' ∷ b't' ∷ b'y' ∷ b'p' ∷ b'e' ∷ []

-- "tokenizer.ggml.merges"
abbrev pub merges_key : Bytes
merges_key =
    b't' ∷ b'o' ∷ b'k' ∷ b'e' ∷ b'n' ∷ b'i' ∷ b'z' ∷ b'e' ∷ b'r' ∷ b'.' ∷ b'g' ∷ b'g' ∷ b'm' ∷ b'l'
    ∷ b'.' ∷ b'm' ∷ b'e' ∷ b'r' ∷ b'g' ∷ b'e' ∷ b's' ∷ []

-- "gpt2"
abbrev pub gpt2 : Bytes
gpt2 = b'g' ∷ b'p' ∷ b't' ∷ b'2' ∷ []

-- "default"
abbrev pub default : Bytes
default = b'd' ∷ b'e' ∷ b'f' ∷ b'a' ∷ b'u' ∷ b'l' ∷ b't' ∷ []
