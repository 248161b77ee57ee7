-- ===== src/TensorStore.antt =====
-- include/memvanta/tensor_store.hpp and src/tensor_store.cpp: a mapped file cut into chunks.
-- The mapping itself is in MMapFile.antt; here the file is its size.
pub mod Slices
pub mod Chunks
mod Tests
use mem_vanta.Prelude.{
  ℕ, zero, suc, ◌+◌, ◌-◌, ◌/◌, ◌%◌, min, ◌≡◌, refl, Bool, true, false, Option, none, some, List, [],
  ◌∷◌, Result, ok, err, ltb, ◌==◌, if◌then◌else◌, length, get_elem?, add64, sub64, add32, u32_mod,
}

pub record TensorSlice : Type 0 where
  pub id : ℕ
  pub offset : ℕ
  pub bytes : ℕ

pub record TensorStore : Type 0 where
  pub file_size : ℕ
  pub chunk_bytes : ℕ
  pub slices : List TensorSlice

pub data StoreError : Type 0 where
  empty_file zero_chunk out_of_range : StoreError

-- The loop of the constructor, on fuel: each round but the last takes a whole chunk.
unfoldable pub chunk_loop : ℕ → ℕ → ℕ → ℕ → ℕ → List TensorSlice
chunk_loop zero chunk size off id = []
chunk_loop (suc fuel) chunk size off id =
    let n = min chunk (sub64 size off) in
    let rest = chunk_loop fuel chunk size (add64 off n) (add32 id 1) in
    if ltb off size then record { id = id; offset = off; bytes = n } ∷ rest else []

-- TensorStore(path, chunk_bytes), by the size of the file: `MMapFile::open` refuses an empty one.
unfoldable pub make : ℕ → ℕ → Result StoreError TensorStore
make size chunk =
    if size == 0
    then err empty_file
    else if chunk == 0
    then err zero_chunk
    else ok (record {
      file_size = size;
      chunk_bytes = chunk;
      slices = chunk_loop (size / chunk + 1) chunk size 0 0;
    })

or_out_of_range : Option TensorSlice → Result StoreError TensorSlice
or_out_of_range none = err out_of_range
or_out_of_range (some s) = ok s

-- `slices_.at(id)`
pub slice : TensorStore → ℕ → Result StoreError TensorSlice
unfolding or_out_of_range
slice t id = or_out_of_range (get_elem? t.slices id)

pub count : TensorStore → ℕ
count t = length t.slices % u32_mod
