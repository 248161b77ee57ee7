-- ===== src/Lib.antt =====
-- MemVanta streams the weights of language models from a memory-mapped file through a bounded cache.
-- This library models the parts of it that carry its guarantees, and proves them.
--
-- The parts, and the files that model them:
--   TensorCache.antt    include/memvanta/lru_cache.hpp, src/lru_cache.cpp. The record `TensorCache`
--                       is the class; `get_or_load`, `insert_prefetched` and `evict_for` are its
--                       methods, and `TensorCache.holds` is `contains`. The mutex makes each call
--                       one step, so clients are lists of calls (TensorCache/Coherence.antt).
--   TensorStore.antt    include/memvanta/tensor_store.hpp, src/tensor_store.cpp: the chunks of a
--                       mapped file, which the cache holds copies of. The constructor starts from
--                       the size of the file, and refuses an empty one as `MMapFile::open` does.
--   PrefetchPolicy.antt include/memvanta/prefetch_policy.hpp, src/prefetch_policy.cpp: the
--                       controller `observe`s one window at a time and sets the look-ahead depth.
--   WorkerPool.antt     src/worker_pool.cpp and `parallel_rows` of src/quant.cpp: the ranges that
--                       threads are given. WorkerPool/Protocol.antt is the hand-over of a loop to
--                       the workers, as a relation `Step` between states of the pool.
--                       WorkerPool/Waking.antt adds who sleeps on `cv_` and `done_`, and the notices.
--   MMapFile.antt       include/memvanta/mmap_file.hpp, src/mmap_file.cpp: the mapping of a file. The
--                       answers of the system are the record `Answers`, and each method returns the
--                       calls that it made.
--   Prefetcher.antt     include/memvanta/prefetcher.hpp, src/prefetcher.cpp: the worker that inserts
--                       slices into the cache ahead of the consumer. Each section under a lock is
--                       an operation (`enqueue`, `take_next`, `insert`, `finish`, `fail`,
--                       `request_stop`, `cancel`), and Prefetcher/Steps.antt lets the threads take
--                       them in any order; Prefetcher/Waking.antt adds the sleep of the worker on
--                       `cv_` and the notices. What `store_.prefetch` advises to the kernel and
--                       failed allocations are left out.
--   CheckedMath.antt    include/memvanta/checked_math.hpp: sums and products of sizes that throw where
--                       they would wrap around.
--   Tokenizer.antt      `GgufTokenizer` of include/memvanta/llama_model.hpp and src/llama_model.cpp.
--                       Tokenizer/Load.antt is the constructor, from the accessors of `GgufFile`;
--                       Tokenizer/Text.antt cuts a text into pieces, Tokenizer/Bpe.antt merges the
--                       characters of a piece, Tokenizer/Encode.antt is `encode_gpt2` and
--                       Tokenizer/Decode.antt `decode`. `std::stoi` and `std::sort` are parameters.
--   KvCache.antt        `PagedKVCache` of src/llama_model.cpp. KvCache/Encode.antt is how a row is
--                       stored, KvCache/Calls.antt are `write`, `dot_key`, `add_value` and
--                       `bytes_allocated`. `float` is the parameter `Single`, so the sums are those
--                       of a build without vector instructions, in the order of its loops.
--                       Allocations that fail are left out.
--   Half.antt           `fp16_to_fp32` of src/gguf.cpp and `fp32_to_fp16` of src/gguf_kernels.cpp, on
--                       bit patterns; the cache stores rows with them.
--   Quant.antt          src/quant.cpp, include/memvanta/quant.hpp: the blocks of quantized rows, their
--                       dot products, and products by rows over the ranges of WorkerPool.antt.
--   Model.antt          `LlamaConfig` and the first half of `LlamaModel::load_config`, which reads the
--                       sizes of a model from the metadata and checks them.
--   Runtime.antt        include/memvanta/runtime.hpp, src/runtime.cpp: `make` is the constructor, and
--                       `run_stream` of Runtime/Stream.antt streams the slices of a TensorStore
--                       through the cache with the prefetcher ahead; Runtime/Statistics.antt has
--                       the variables of its loop. Runtime/Shared.antt is the
--                       monad of code on the shared objects: before each locked section of the
--                       consumer the worker runs as many of its own as the parameter `pace` says.
--   Gguf.antt           include/memvanta/gguf.hpp, src/gguf.cpp: the parser of model files and the
--                       accessors of `GgufFile`. Gguf/Reader.antt is the cursor, Gguf/Values.antt
--                       the metadata, Gguf/Sizes.antt the sizes of tensors, Gguf/Tensors.antt and
--                       Gguf/File.antt the constructor.
--   Prelude.antt        words, lists, maps and results that all of them share.
--
-- Words of 32 and 64 bits are natural numbers, and each operation that may wrap around says so
-- (`add64`, `sub64`, `mul64`, `add32`, `sub32`). `std::size_t` has 64 bits, so the tests whether a
-- 64-bit number fits it never fail. Exceptions are results with an error type of each part. What
-- C++ leaves undefined is an error of its own that theorems exclude: `dangling` of the cache is an
-- access through the end of the map, `out_of_bounds` of the parser a read past the mapping, and that
-- of the key-value cache an access past a vector.
-- `double` is a parameter: the record `Double` of the policy, and the record `Abi` of the parser,
-- which also has the sizes of C++ types that the parser charges to its budget; `float` is the
-- parameter `Single` of Prelude/Float.antt. The machine is
-- little-endian, as the `memcpy` of the reader needs it to be.
--
-- Fuel: `evict_loop` has the length of the recency list, and drops an id in each round; the loop of
-- the store's constructor has size / chunk + 1 rounds, and takes a whole chunk in each but the last.
-- The loops over a text have as many rounds as it has bytes, as each round takes a byte at least, and
-- the loop over merges as many as there are symbols, as each round joins two. The loop that shifts a
-- subnormal significand has ten rounds, as the leading one is among its ten bits. The
-- loop of the checksum has bytes / 4096 + 1 rounds, as each takes 4096 bytes but the last; the
-- look-ahead has as many rounds as the policy looks deep. The worker has three sections in which to
-- return once `stop` has asked for it, and Prefetcher/Joining.antt shows that it needs no more.
--
-- Not modelled: floating-point inference (the layers and the sampler of src/llama_model.cpp,
-- src/llama2.cpp, the kernels of src/gguf_kernels.cpp, src/quant_kernels.cpp, src/matmul.cpp), the
-- SentencePiece encoding of src/llama_model.cpp,
-- and the programs, benchmarks and tests around the library.
pub mod Prelude
pub mod CheckedMath
pub mod Gguf
pub mod Half
pub mod KvCache
pub mod MMapFile
pub mod Model
pub mod PrefetchPolicy
pub mod Prefetcher
pub mod Quant
pub mod Runtime
pub mod TensorCache
pub mod TensorStore
pub mod Tokenizer
pub mod WorkerPool
