-- ===== src/KvCache/Memory.antt =====
-- What `bytes_allocated` counts.
use mem_vanta.Prelude.{
  ℕ, suc, ◌+◌, ◌*◌, ◌≤◌, ◌<◌, ◌≡◌, refl, ap, ◌∙◌, subst, Option, none, some, List, [], ◌∷◌, arith,
  Result, ok, err, ◌⊎◌, inl, inr, u64_mod,
}
use mem_vanta.CheckedMath.{checked_mul_size_lem, checked_add_size_lem}
use mem_vanta.Prelude.Float.{Single}
use mem_vanta.KvCache.{KvCacheType, f32, f16, q8, KvError, overflow, Page, PagedKvCache, new_page}
use mem_vanta.KvCache.Calls.{add_bytes, vectors, add_pages, bytes_allocated}
use mem_vanta.KvCache.Pages.{Fits, AllFit, IsCache}

-- A count of bytes that is right, or an exception if it is no 64-bit word.
abbrev pub Counts : ℕ → Result KvError ℕ → Type 0
Counts n r = ((n < u64_mod) × (r ≡ ok n)) ⊎ ((u64_mod ≤ n) × (r ≡ err overflow))

total : List (ℕ × ℕ) → ℕ
total [] = 0
total ((count, width) ∷ vs) = count * width + total vs

-- The bytes of a page of `elems` keys and as many values.
abbrev pub page_bytes : KvCacheType → ℕ → ℕ → ℕ
page_bytes f32 elems tokens = 8 * elems
page_bytes f16 elems tokens = 4 * elems
page_bytes q8 elems tokens = 2 * elems + 8 * tokens

-- The pages that exist.
abbrev pub present {ℓ} : {A : Type ℓ} → List (Option A) → ℕ
present [] = 0
present (none ∷ ps) = present ps
present (some _ ∷ ps) = suc (present ps)

module _ (S : Single) where
  add_bytes-Counts :
      (vs : List (ℕ × ℕ)) (n : ℕ) → n < u64_mod → Counts (n + total vs) (add_bytes S vs n)
  unfolding add_bytes total
  add_bytes-Counts [] n h = inl (omega arith, ap ok (omega arith))
  add_bytes-Counts ((count, width) ∷ vs) n h = elim (checked_mul_size_lem count width) [
    | inr (big, e) ↦ inr (omega arith, rw e refl)
    | inl (small, e) ↦ elim (checked_add_size_lem n (count * width) h) [
      | inr (big, f) ↦ inr (omega arith, rw (e, f) refl)
      | inl (fits, f) ↦
          rw (e, f)
            (subst (λ m. Counts m (add_bytes S vs (n + count * width))) (omega arith)
              (add_bytes-Counts vs (n + count * width) fits))
    ]
  ]

  total-new_page :
      (kind : KvCacheType) (elems tokens : ℕ)
      → total (vectors S (new_page S kind elems tokens)) ≡ page_bytes kind elems tokens
  unfolding total new_page
  total-new_page f32 elems tokens = omega arith
  total-new_page f16 elems tokens = omega arith
  total-new_page q8 elems tokens = omega arith

  bytes_of : PagedKvCache S → ℕ
  bytes_of c = page_bytes c.kind (c.page_tokens * c.kv_dim) c.page_tokens

  add_pages-Counts :
      (c : PagedKvCache S) (ps : List (Option (Page S))) (n : ℕ)
      → AllFit S c ps
      → n < u64_mod
      → Counts (n + present ps * bytes_of c) (add_pages S ps n)
  unfolding add_pages AllFit Fits bytes_of
  add_pages-Counts c [] n all h = inl (omega arith, ap ok (omega arith))
  add_pages-Counts c (none ∷ ps) n all h = add_pages-Counts c ps n (λ p. all (suc p)) h
  add_pages-Counts c (some pg ∷ ps) n all h =
      let size : total (vectors S pg) ≡ bytes_of c =
        ap total (all 0 pg refl).1
        ∙ total-new_page c.kind (c.page_tokens * c.kv_dim) c.page_tokens in
      let more : suc (present ps) * bytes_of c ≡ bytes_of c + present ps * bytes_of c =
        grind arith in
      elim (add_bytes-Counts (vectors S pg) n h) [
        | inr (big, e) ↦ inr (omega (arith, big, size, more), rw e refl)
        | inl (fits, e) ↦ rw e (
            subst (λ m. Counts m (add_pages S ps (n + total (vectors S pg))))
              (omega (arith, size, more))
              (add_pages-Counts c ps (n + total (vectors S pg)) (λ p. all (suc p)) fits))
      ]

  -- For a well-formed cache, bytes_allocated returns the number of pages that exist times the
  -- bytes of a page of its type if that product is a 64-bit word, and throws otherwise.
  pub bytes_allocated-Counts :
      (c : PagedKvCache S)
      → IsCache S c
      → Counts
          (present c.pages * page_bytes c.kind (c.page_tokens * c.kv_dim) c.page_tokens)
          (bytes_allocated S c)
  unfolding bytes_allocated bytes_of
  bytes_allocated-Counts c w =
      subst (λ m. Counts m (bytes_allocated S c)) (omega arith)
        (add_pages-Counts c c.pages 0 w.fits (omega arith))
