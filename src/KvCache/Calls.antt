-- ===== src/KvCache/Calls.antt =====
-- The calls of `PagedKVCache` that write, read and count.
use mem_vanta.Prelude.{
  ℕ, ◌-◌, ◌/◌, ◌%◌, Bool, true, false, not, ◌&&◌, ◌||◌, Option, none, some, List, [], ◌∷◌, ltb,
  ◌==◌, if◌then◌else◌, Result, ok, err, ◌>>=◌,
}
use mem_vanta.Prelude.Float.{Single, dot}
use mem_vanta.Prelude.Int.{ℤ}
use mem_vanta.CheckedMath.{checked_add_size, checked_mul_size}
use mem_vanta.Half.{fp16_to_fp32}
use mem_vanta.KvCache.{
  KvCacheType, f32, f16, q8, KvError, null_input, slice_out_of_bounds, null_pointer, page_missing,
  load, lift, Page, PagedKvCache, with_pages, set_page, page_at, ensure,
}
use mem_vanta.KvCache.Encode.{write_page}

abbrev pub is_null {ℓ} : {A : Type ℓ} → Option A → Bool
is_null none = true
is_null (some _) = false

abbrev pub or_missing {ℓ} : {A : Type ℓ} → Option A → Result KvError A
or_missing none = err page_missing
or_missing (some a) = ok a

module _ (S : Single) where
  open S use {F, nought, add, mul, of_int, of_bits}

  -- What a pointer points to; nothing is read through the null pointer.
  abbrev pub values : Option (ℕ → F) → ℕ → F
  values none = λ i. nought
  values (some k) = k

  -- The part of `write` that follows `ensure`.
  unfoldable pub write_at :
      ℕ
      → ℕ
      → (ℕ → F)
      → (ℕ → F)
      → Page S
      → PagedKvCache S
      → PagedKvCache S × Result KvError (Unit {0})
  unfolding write_page
  write_at p i k v pg c =
      elim (do
        off ← lift (checked_mul_size i c.kv_dim)
        write_page S c.kv_dim c.kind k v off i pg) [
          | err e ↦ (c, err e)
          | ok pg' ↦ (with_pages S (set_page S c.pages p pg') c, ok tt)
        ]

  unfoldable pub write :
      ℕ
      → Option (ℕ → F)
      → Option (ℕ → F)
      → PagedKvCache S
      → PagedKvCache S × Result KvError (Unit {0})
  unfolding ensure write_at
  write position k v c =
      if not (c.kv_dim == 0) && (is_null k || is_null v)
      then (c, err null_input)
      else let (c', r) = ensure S (position / c.page_tokens) c in
        elim r [
          | err e ↦ (c', err e)
          | ok pg ↦
              write_at (position / c.page_tokens) (position % c.page_tokens) (values k) (values v)
                pg c'
        ]

  abbrev pub of_half : (ℕ → ℕ) → ℕ → F
  of_half k d = of_bits (fp16_to_fp32 (k d))

  abbrev pub of_byte : (ℕ → ℤ) → ℕ → F
  of_byte k d = of_int (k d)

  -- The guard that `dot_key` and `add_value` share, and the page and position that they go to.
  unfoldable pub locate : ℕ → ℕ → Bool → ℕ → PagedKvCache S → Result KvError (Page S × ℕ)
  locate position offset null n c =
      if ltb c.kv_dim offset || ltb (c.kv_dim - offset) n
      then err slice_out_of_bounds
      else if not (n == 0) && null
      then err null_pointer
      else do
        pg ← or_missing (page_at S c.pages (position / c.page_tokens))
        start ← lift (checked_mul_size (position % c.page_tokens) c.kv_dim)
        off ← lift (checked_add_size start offset)
        ok (pg, off)

  unfoldable pub dot_page : KvCacheType → Page S → ℕ → ℕ → (ℕ → F) → ℕ → Result KvError F
  unfolding load dot
  dot_page f32 pg i off q n = do k ← load off n pg.k32; ok (dot S n q k)
  dot_page f16 pg i off q n = do k ← load off n pg.k16; ok (dot S n q (of_half k))
  dot_page q8 pg i off q n = do
    s ← load i 1 pg.ks
    k ← load off n pg.k8
    ok (mul (dot S n q (of_byte k)) (s 0))

  unfoldable pub dot_key : ℕ → ℕ → Option (ℕ → F) → ℕ → PagedKvCache S → Result KvError F
  unfolding locate dot_page
  dot_key position offset q n c = do
    at ← locate position offset (is_null q) n c
    dot_page c.kind at.0 (position % c.page_tokens) at.1 (values q) n

  -- `out[d] += a * x[d]` for the first `n` positions.
  unfoldable pub axpy : ℕ → F → (ℕ → F) → (ℕ → F) → ℕ → F
  axpy n a x out d = if ltb d n then add (out d) (mul a (x d)) else out d

  unfoldable pub add_page : KvCacheType → Page S → ℕ → ℕ → F → (ℕ → F) → ℕ → Result KvError (ℕ → F)
  unfolding load axpy
  add_page f32 pg i off alpha out n = do v ← load off n pg.v32; ok (axpy n alpha v out)
  add_page f16 pg i off alpha out n = do v ← load off n pg.v16; ok (axpy n alpha (of_half v) out)
  add_page q8 pg i off alpha out n = do
    s ← load i 1 pg.vs
    v ← load off n pg.v8
    ok (axpy n (mul alpha (s 0)) (of_byte v) out)

  unfoldable pub add_value :
      ℕ → ℕ → F → Option (ℕ → F) → ℕ → PagedKvCache S → Result KvError (ℕ → F)
  unfolding locate add_page
  add_value position offset alpha out n c = do
    at ← locate position offset (is_null out) n c
    add_page c.kind at.0 (position % c.page_tokens) at.1 alpha (values out) n

  -- The local function `add` of `bytes_allocated`, for each of some vectors.
  unfoldable pub add_bytes : List (ℕ × ℕ) → ℕ → Result KvError ℕ
  add_bytes [] n = ok n
  add_bytes ((count, width) ∷ vs) n = do
    bytes ← lift (checked_mul_size count width)
    sum ← lift (checked_add_size n bytes)
    add_bytes vs sum

  abbrev pub vectors : Page S → List (ℕ × ℕ)
  vectors pg =
      (pg.k32.size, 4)
      ∷ (pg.v32.size, 4)
      ∷ (pg.k16.size, 2)
      ∷ (pg.v16.size, 2)
      ∷ (pg.k8.size, 1)
      ∷ (pg.v8.size, 1)
      ∷ (pg.ks.size, 4)
      ∷ (pg.vs.size, 4)
      ∷ []

  unfoldable pub add_pages : List (Option (Page S)) → ℕ → Result KvError ℕ
  unfolding add_bytes
  add_pages [] n = ok n
  add_pages (none ∷ ps) n = add_pages ps n
  add_pages (some pg ∷ ps) n = do sum ← add_bytes (vectors pg) n; add_pages ps sum

  unfoldable pub bytes_allocated : PagedKvCache S → Result KvError ℕ
  unfolding add_pages
  bytes_allocated c = add_pages c.pages 0
