-- ===== src/TensorStore/Slices.antt =====
-- src/tensor_store.cpp: the slices that a store has.
use mem_vanta.Prelude.{
  ◌≤◌, ◌^◌, ◌<◌, ◌≡◌, ℕ, ok, some, arith, refl, get_elem?, get_elem?-some, length, u32_mod,
}
use mem_vanta.TensorStore.{TensorStore, TensorSlice, slice, count, or_out_of_range}

pub slice-below_count :
    (t : TensorStore) (id : ℕ)
    → id < count t
    → (s : TensorSlice) × (slice t id ≡ ok s) × (get_elem? t.slices id ≡ some s)
unfolding slice count or_out_of_range
slice-below_count t id h =
    let (s, e) = get_elem?-some t.slices id (omega arith) in (s, rw e refl, e)

pub count-few : (t : TensorStore) → length t.slices < u32_mod → count t ≡ length t.slices
unfolding count
count-few t h = omega arith

-- Slices that a file can have: fewer than a 32-bit word counts, and none larger than a file.
pub record IsStore (store : TensorStore) : Type 0 where
  pub few : length store.slices < u32_mod
  pub small : (i : ℕ) (s : TensorSlice) → get_elem? store.slices i ≡ some s → s.bytes ≤ 2 ^ 63
