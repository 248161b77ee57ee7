-- ===== src/TensorStore/Tests.antt =====
-- The theorems on a store at a file of ten bytes in chunks of four.
use mem_vanta.Prelude.{◌*◌, ◌-◌, ◌≤◌, ◌<◌, min, ◌≡◌, ◌⊎◌, arith, ok, err}
use mem_vanta.TensorStore.{TensorStore, out_of_range, make, slice}
use mem_vanta.TensorStore.Chunks.{Tiles, make-Tiles, make-slice}

make-Tiles_example : (t : TensorStore) × (make 10 4 ≡ ok t) × Tiles 4 10 0 t.slices
make-Tiles_example = make-Tiles 10 4 (omega arith) (omega arith) (omega arith)

make-slice_example :
    (t : TensorStore) × (make 10 4 ≡ ok t)
    × (((2 * 4 < 10)
          × (slice t 2 ≡ ok (record { id = 2; offset = 2 * 4; bytes = min 4 (10 - 2 * 4) })))
        ⊎ ((10 ≤ 2 * 4) × (slice t 2 ≡ err out_of_range)))
make-slice_example = make-slice 10 4 (omega arith) (omega arith) (omega arith) 2 (omega arith)
