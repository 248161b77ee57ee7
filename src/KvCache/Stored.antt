-- ===== src/KvCache/Stored.antt =====
-- A row that was written is what reads of it see.
use mem_vanta.Prelude.{ℕ, ◌+◌, ◌≤◌, ◌<◌, ◌≡◌, ap, ◌∙◌, arith, ok}
use mem_vanta.Prelude.Float.{Single, dot}
use mem_vanta.KvCache.{KvCacheType, f32, f16, q8, Vec, Page, new_page}
use mem_vanta.KvCache.Encode.{scale, quantized, half}
use mem_vanta.KvCache.Calls.{of_half, of_byte, dot_page, axpy, add_page, vectors}
use mem_vanta.KvCache.Rows.{
  poke, load_lem, poke-inside, dot-ext, axpy-ext, written, SizeAt, size_lem,
}

module _ (S : Single) where
  open S use {F, mul}

  -- What reading the written row gives.
  unfoldable pub stored_dot : ℕ → KvCacheType → (ℕ → F) → ℕ → (ℕ → F) → ℕ → F
  stored_dot dim f32 k offset q n = dot S n q (λ d. k (offset + d))
  stored_dot dim f16 k offset q n = dot S n q (λ d. of_half S (half S k) (offset + d))
  stored_dot dim q8 k offset q n =
      mul (dot S n q (λ d. of_byte S (quantized S k (scale S dim k)) (offset + d))) (scale S dim k)

  unfoldable pub stored_add : ℕ → KvCacheType → (ℕ → F) → ℕ → F → (ℕ → F) → ℕ → ℕ → F
  stored_add dim f32 v offset alpha out n = axpy S n alpha (λ d. v (offset + d)) out
  stored_add dim f16 v offset alpha out n =
      axpy S n alpha (λ d. of_half S (half S v) (offset + d)) out
  stored_add dim q8 v offset alpha out n =
      axpy S n (mul alpha (scale S dim v))
        (λ d. of_byte S (quantized S v (scale S dim v)) (offset + d)) out

  -- A read at a position of the row that was written.
  row_at :
      {A : Type 0} (off dim offset n d : ℕ) (g : ℕ → A) (w : Vec A)
      → offset + n ≤ dim
      → d < n
      → (poke off dim g w).at (off + offset + d) ≡ g (offset + d)
  row_at off dim offset n d g w h lt =
      ap (poke off dim g w).at (omega arith) ∙ poke-inside off dim (offset + d) g w (omega arith)

  pub dot_page-written :
      (dim : ℕ) (kind : KvCacheType) (k v : ℕ → F) (off i : ℕ) (pg : Page S)
      (elems tokens offset n : ℕ) (q : ℕ → F)
      → vectors S pg ≡ vectors S (new_page S kind elems tokens)
      → off + dim ≤ elems
      → i < tokens
      → offset + n ≤ dim
      → dot_page S kind (written S dim kind k v off i pg) i (off + offset) q n
        ≡ ok (stored_dot dim kind k offset q n)
  unfolding dot_page written SizeAt new_page stored_dot
  dot_page-written dim f32 k v off i pg elems tokens offset n q e h lt u =
      let a : pg.k32.size ≡ elems = size_lem S pg f32 elems tokens 0 e in
      rw (load_lem (off + offset) n (poke off dim k pg.k32) (omega arith))
        (ap ok (dot-ext S n q _ _ (λ d b. row_at off dim offset n d k pg.k32 u b)))
  dot_page-written dim f16 k v off i pg elems tokens offset n q e h lt u =
      let a : pg.k16.size ≡ elems = size_lem S pg f16 elems tokens 2 e in
      rw (load_lem (off + offset) n (poke off dim (half S k) pg.k16) (omega arith)) (
        ap ok (
          dot-ext S n q _ _ (λ d b.
            ap (λ x. of_half S (λ _. x) 0) (row_at off dim offset n d (half S k) pg.k16 u b))))
  dot_page-written dim q8 k v off i pg elems tokens offset n q e h lt u =
      let a : pg.k8.size ≡ elems = size_lem S pg q8 elems tokens 4 e in
      let b : pg.ks.size ≡ tokens = size_lem S pg q8 elems tokens 6 e in
      let g = quantized S k (scale S dim k) in
      rw
        (
          load_lem i 1 (poke i 1 (λ d. scale S dim k) pg.ks) (omega arith),
          load_lem (off + offset) n (poke off dim g pg.k8) (omega arith),
          poke-inside i 1 0 (λ d. scale S dim k) pg.ks (omega arith),
        )
        (ap (λ x. ok (mul x (scale S dim k)))
          (dot-ext S n q _ _
            (λ d c. ap (λ x. of_byte S (λ _. x) 0) (row_at off dim offset n d g pg.k8 u c))))

  pub add_page-written :
      (dim : ℕ) (kind : KvCacheType) (k v : ℕ → F) (off i : ℕ) (pg : Page S)
      (elems tokens offset n : ℕ) (alpha : F) (out : ℕ → F)
      → vectors S pg ≡ vectors S (new_page S kind elems tokens)
      → off + dim ≤ elems
      → i < tokens
      → offset + n ≤ dim
      → add_page S kind (written S dim kind k v off i pg) i (off + offset) alpha out n
        ≡ ok (stored_add dim kind v offset alpha out n)
  unfolding add_page written SizeAt new_page stored_add
  add_page-written dim f32 k v off i pg elems tokens offset n alpha out e h lt u =
      let a : pg.v32.size ≡ elems = size_lem S pg f32 elems tokens 1 e in
      rw (load_lem (off + offset) n (poke off dim v pg.v32) (omega arith))
        (ap ok (axpy-ext S n _ _ _ out (λ d b. row_at off dim offset n d v pg.v32 u b)))
  add_page-written dim f16 k v off i pg elems tokens offset n alpha out e h lt u =
      let a : pg.v16.size ≡ elems = size_lem S pg f16 elems tokens 3 e in
      rw (load_lem (off + offset) n (poke off dim (half S v) pg.v16) (omega arith)) (
        ap ok (
          axpy-ext S n _ _ _ out (λ d b.
            ap (λ x. of_half S (λ _. x) 0) (row_at off dim offset n d (half S v) pg.v16 u b))))
  add_page-written dim q8 k v off i pg elems tokens offset n alpha out e h lt u =
      let a : pg.v8.size ≡ elems = size_lem S pg q8 elems tokens 5 e in
      let b : pg.vs.size ≡ tokens = size_lem S pg q8 elems tokens 7 e in
      let g = quantized S v (scale S dim v) in
      rw
        (
          load_lem i 1 (poke i 1 (λ d. scale S dim v) pg.vs) (omega arith),
          load_lem (off + offset) n (poke off dim g pg.v8) (omega arith),
          poke-inside i 1 0 (λ d. scale S dim v) pg.vs (omega arith),
        )
        (ap ok (
          axpy-ext S n _ _ _ out
            (λ d c. ap (λ x. of_byte S (λ _. x) 0) (row_at off dim offset n d g pg.v8 u c))))
