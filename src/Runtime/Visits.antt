-- ===== src/Runtime/Visits.antt =====
-- The total that src/runtime.cpp reports, on the store of a file.
use mem_vanta.Prelude.{
  ℕ, zero, suc, ◌+◌, ◌*◌, ◌%◌, ◌^◌, ◌≤◌, ◌-◌, ◌<◌, ◌≡◌, ap, sym, ◌∙◌, List, [], ◌∷◌, ok,
  ok-injective, arith, subst, some, get_elem?, length, add64, add64-lt, u64_mod, u32_mod,
}
use mathlib.Core.Option.{some-injective}
use mem_vanta.TensorStore.{TensorStore, TensorSlice, make}
use mem_vanta.TensorStore.Chunks.{Tiles, make-Tiles, div_ceil, make-length, make-positive}
use mem_vanta.TensorStore.Slices.{IsStore}
use mem_vanta.Runtime.Statistics.{Sums}
use mem_vanta.Runtime.Reference.{visit, visit_all, visit_passes}

Tiles-small :
    (chunk size off : ℕ) (ss : List TensorSlice) (i : ℕ) (s : TensorSlice)
    → Tiles chunk size off ss
    → get_elem? ss i ≡ some s
    → s.bytes ≤ size
Tiles-small chunk size off [] i s tiles h = cc
Tiles-small chunk size off (t ∷ ss) zero s tiles h =
    subst (λ (t : TensorSlice). t.bytes ≤ size) (some-injective _ _ h) (omega (arith, tiles))
Tiles-small chunk size off (t ∷ ss) (suc i) s tiles h =
    Tiles-small chunk size (off + t.bytes) ss i s tiles.4 h

-- The store of a file that is small enough to be mapped.
pub make-IsStore :
    (size chunk : ℕ) (store : TensorStore)
    → size ≤ 2 ^ 63
    → div_ceil size chunk < u32_mod
    → make size chunk ≡ ok store
    → IsStore store × Tiles chunk size 0 store.slices
make-IsStore size chunk store small few made =
    let (nonempty, positive) = make-positive size chunk made in
    let (t, is_t, tiles) = make-Tiles size chunk nonempty positive (omega (arith, small)) in
    let (u, is_u, counted) = make-length size chunk nonempty positive (omega (arith, small)) in
    let tiled =
      subst (λ (t : TensorStore). Tiles chunk size 0 t.slices) (ok-injective (sym is_t ∙ made))
        tiles in
    let same = ap (λ (t : TensorStore). length t.slices) (ok-injective (sym is_u ∙ made)) in
    (
      record {
        few = omega (arith, same, counted, few);
        small = λ i s h. omega (arith, small, Tiles-small chunk size 0 store.slices i s tiled h);
      },
      tiled,
    )

module _ (mapped : ℕ → ℕ) where
  visit_all-total :
      (chunk size off : ℕ) (ss : List TensorSlice) (sums : Sums)
      → Tiles chunk size off ss
      → off ≤ size
      → (visit_all mapped sums ss).total % u64_mod ≡ (sums.total + (size - off)) % u64_mod
  unfolding visit_all visit add64
  visit_all-total chunk size off [] sums tiles h = omega (arith, tiles)
  visit_all-total chunk size off (s ∷ ss) sums tiles h = omega (
    arith,
    tiles,
    visit_all-total chunk size (off + s.bytes) ss (visit mapped sums s) tiles.4 tiles.3,
  )

  visit_all-word :
      (ss : List TensorSlice) (sums : Sums)
      → sums.total < u64_mod
      → (visit_all mapped sums ss).total < u64_mod
  unfolding visit_all visit
  visit_all-word [] sums h = h
  visit_all-word (s ∷ ss) sums h =
      visit_all-word ss (visit mapped sums s) (add64-lt sums.total s.bytes)

  pub visit_passes-total :
      (chunk size n : ℕ) (ss : List TensorSlice) (sums : Sums)
      → Tiles chunk size 0 ss
      → sums.total < u64_mod
      → (visit_passes mapped n sums ss).total ≡ (sums.total + n * size) % u64_mod
  unfolding visit_passes
  visit_passes-total chunk size zero ss sums tiles h = omega arith
  visit_passes-total chunk size (suc n) ss sums tiles h =
      let once = visit_all-total chunk size 0 ss sums tiles (omega arith) in
      let rest =
        visit_passes-total chunk size n ss (visit_all mapped sums ss) tiles
          (visit_all-word ss sums h) in
      rest ∙ omega (arith, once)
