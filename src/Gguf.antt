-- ===== src/Gguf.antt =====
-- include/memvanta/gguf.hpp and src/gguf.cpp: the parser of GGUF model files. Reader.antt has the
-- cursor, Types.antt the value and tensor types, Values.antt the metadata values, Sizes.antt the
-- byte sizes of tensors, Tensors.antt and File.antt the constructor of `GgufFile` and its accessors.
pub mod Types
pub mod Sizes
pub mod Reader
pub mod Values
pub mod Tensors
pub mod File
pub mod Runs
pub mod Reads
pub mod Spending
pub mod Faults
pub mod Parsing
pub mod Placement
pub mod Index
pub mod Accepted
mod Tests
