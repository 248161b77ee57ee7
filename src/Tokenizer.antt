-- ===== src/Tokenizer.antt =====
-- The class `GgufTokenizer` of include/memvanta/llama_model.hpp and src/llama_model.cpp. A position
-- in a string is the rest of the string from there.
pub mod Utf8
pub mod ByteMap
pub mod ByteRoundTrip
mod Tests
pub mod Text
pub mod Bpe
pub mod Merging
pub mod MergeEnd
pub mod Encode
pub mod Decode
pub mod Keys
pub mod Load
pub mod Loaded
pub mod Vocabulary
pub mod RoundTrip
