-- ===== src/KvCache/Others.antt =====
-- Rows that were not written are read as before.
use mem_vanta.Prelude.{
  ℕ, ◌+◌, ◌≤◌, ◌<◌, ◌≡◌, refl, ap, ◌∙◌, arith, ltb, Result, ok, ◌>>=◌, ◌⊎◌, inl, inr, if-cases,
}
use mem_vanta.Prelude.Float.{Single, dot}
use mem_vanta.KvCache.{KvCacheType, f32, f16, q8, KvError, Vec, load, Page}
use mem_vanta.KvCache.Encode.{scale, quantized, half}
use mem_vanta.KvCache.Calls.{of_half, of_byte, dot_page, axpy, add_page}
use mem_vanta.KvCache.Rows.{poke, poke-outside, dot-ext, axpy-ext, written}

-- What comes of a read depends on the positions that are read only.
load_then :
    {A B : Type 0} (off n : ℕ) (v w : Vec A) (f : (ℕ → A) → Result KvError B)
    → v.size ≡ w.size
    → ((d : ℕ) → d < n → v.at (off + d) ≡ w.at (off + d))
    → ((g h : ℕ → A) → ((d : ℕ) → d < n → g d ≡ h d) → f g ≡ f h)
    → (do x ← load off n v; f x) ≡ (do x ← load off n w; f x)
unfolding load
load_then off n v w f e same ext = rw e (
    if-cases (λ r. (do x ← r; f x) ≡ (do x ← load off n w; f x)) (ltb w.size (off + n)) _ _
      (λ h. rw (load, h) refl) (λ h. rw (load, h) (ext _ _ same)))

-- Two ranges without a common position.
unfoldable pub Apart : ℕ → ℕ → ℕ → ℕ → Type 0
Apart off n off' n' = (off + n ≤ off') ⊎ (off' + n' ≤ off)

poke-Apart :
    {A : Type 0} (off dim off' n d : ℕ) (g : ℕ → A) (v : Vec A)
    → Apart off dim off' n
    → d < n
    → (poke off dim g v).at (off' + d) ≡ v.at (off' + d)
unfolding Apart
poke-Apart off dim off' n d g v (inl h) lt = poke-outside off dim (off' + d) g v (inr (omega arith))
poke-Apart off dim off' n d g v (inr h) lt = poke-outside off dim (off' + d) g v (inl (omega arith))

module _ (S : Single) where
  open S use {F, mul}

  pub dot_page-other :
      (dim : ℕ) (kind : KvCacheType) (k v : ℕ → F) (off i : ℕ) (pg : Page S) (i' off' n : ℕ)
      (q : ℕ → F)
      → Apart off dim off' n
      → Apart i 1 i' 1
      → dot_page S kind (written S dim kind k v off i pg) i' off' q n
        ≡ dot_page S kind pg i' off' q n
  unfolding dot_page written
  dot_page-other dim f32 k v off i pg i' off' n q a b =
      load_then off' n (poke off dim k pg.k32) pg.k32 (λ x. ok (dot S n q x)) refl
        (λ d lt. poke-Apart off dim off' n d k pg.k32 a lt) (λ g h e. ap ok (dot-ext S n q g h e))
  dot_page-other dim f16 k v off i pg i' off' n q a b =
      load_then off' n (poke off dim (half S k) pg.k16) pg.k16 (λ x. ok (dot S n q (of_half S x)))
        refl (λ d lt. poke-Apart off dim off' n d (half S k) pg.k16 a lt)
        (λ g h e. ap ok (dot-ext S n q _ _ (λ d lt. ap (λ x. of_half S (λ _. x) 0) (e d lt))))
  dot_page-other dim q8 k v off i pg i' off' n q a b =
      let g = quantized S k (scale S dim k) in
      load_then i' 1 (poke i 1 (λ d. scale S dim k) pg.ks) pg.ks
        (λ s. do x ← load off' n (poke off dim g pg.k8); ok (mul (dot S n q (of_byte S x)) (s 0)))
        refl (λ d lt. poke-Apart i 1 i' 1 d (λ d. scale S dim k) pg.ks b lt)
        (λ s t e.
          ap (λ y. do x ← load off' n (poke off dim g pg.k8); ok (mul (dot S n q (of_byte S x)) y))
            (e 0 (omega arith)))
      ∙ ap (λ (r : (ℕ → F) → Result KvError F). do s ← load i' 1 pg.ks; r s)
          (λ j s.
            load_then off' n (poke off dim g pg.k8) pg.k8
              (λ x. ok (mul (dot S n q (of_byte S x)) (s 0))) refl
              (λ d lt. poke-Apart off dim off' n d g pg.k8 a lt)
              (λ x y e.
                ap (λ z. ok (mul z (s 0)))
                  (dot-ext S n q _ _ (λ d lt. ap (λ u. of_byte S (λ _. u) 0) (e d lt))))
              j)

  pub add_page-other :
      (dim : ℕ) (kind : KvCacheType) (k v : ℕ → F) (off i : ℕ) (pg : Page S) (i' off' n : ℕ)
      (alpha : F) (out : ℕ → F)
      → Apart off dim off' n
      → Apart i 1 i' 1
      → add_page S kind (written S dim kind k v off i pg) i' off' alpha out n
        ≡ add_page S kind pg i' off' alpha out n
  unfolding add_page written
  add_page-other dim f32 k v off i pg i' off' n alpha out a b =
      load_then off' n (poke off dim v pg.v32) pg.v32 (λ x. ok (axpy S n alpha x out)) refl
        (λ d lt. poke-Apart off dim off' n d v pg.v32 a lt)
        (λ g h e. ap ok (axpy-ext S n alpha g h out e))
  add_page-other dim f16 k v off i pg i' off' n alpha out a b =
      load_then off' n (poke off dim (half S v) pg.v16) pg.v16
        (λ x. ok (axpy S n alpha (of_half S x) out)) refl
        (λ d lt. poke-Apart off dim off' n d (half S v) pg.v16 a lt)
        (λ g h e.
          ap ok (axpy-ext S n alpha _ _ out (λ d lt. ap (λ x. of_half S (λ _. x) 0) (e d lt))))
  add_page-other dim q8 k v off i pg i' off' n alpha out a b =
      let g = quantized S v (scale S dim v) in
      load_then i' 1 (poke i 1 (λ d. scale S dim v) pg.vs) pg.vs
        (λ s. do
          x ← load off' n (poke off dim g pg.v8)
          ok (axpy S n (mul alpha (s 0)) (of_byte S x) out))
        refl (λ d lt. poke-Apart i 1 i' 1 d (λ d. scale S dim v) pg.vs b lt)
        (λ s t e.
          ap
            (λ y. do
              x ← load off' n (poke off dim g pg.v8)
              ok (axpy S n (mul alpha y) (of_byte S x) out))
            (e 0 (omega arith)))
      ∙ ap (λ (r : (ℕ → F) → Result KvError (ℕ → F)). do s ← load i' 1 pg.vs; r s)
          (λ j s.
            load_then off' n (poke off dim g pg.v8) pg.v8
              (λ x. ok (axpy S n (mul alpha (s 0)) (of_byte S x) out)) refl
              (λ d lt. poke-Apart off dim off' n d g pg.v8 a lt)
              (λ x y e. ap ok (
                axpy-ext S n (mul alpha (s 0)) _ _ out
                  (λ d lt. ap (λ u. of_byte S (λ _. u) 0) (e d lt))))
              j)
