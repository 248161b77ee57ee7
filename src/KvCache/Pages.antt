-- ===== src/KvCache/Pages.antt =====
-- Well-formed caches, and what `ensure` does.
use mem_vanta.Prelude.{
  ℕ, zero, suc, ◌+◌, ◌-◌, ◌*◌, ◌≤◌, ◌<◌, ◌≡◌, ◌≢◌, refl, sym, ap, ◌∙◌, Option, none, some, List, [],
  ◌∷◌, ◌++◌, arith, ltb, ◌==◌, length, length-append, length-replicate, replicate, Result, ok, err,
  Option-cases, ◌⊎◌, inl, inr, if-cases, u64_mod,
}
use mem_vanta.CheckedMath.{checked_mul_size_lem, checked_add_size_lem}
use mem_vanta.Prelude.Float.{Single}
use mem_vanta.KvCache.{
  KvCacheType, KvError, overflow, Page, PagedKvCache, new_page, with_pages, set_page, page_at,
  ensure_page, ensure, make,
}
use mem_vanta.KvCache.Calls.{vectors}

module _ (S : Single) where
  page_at-append :
      (ps : List (Option (Page S))) (n q : ℕ)
      → page_at S (ps ++ replicate n none) q ≡ page_at S ps q
  page_at-append [] zero q = refl
  page_at-append [] (suc n) zero = refl
  page_at-append [] (suc n) (suc q) = page_at-append [] n q
  page_at-append (x ∷ ps) n zero = refl
  page_at-append (x ∷ ps) n (suc q) = page_at-append ps n q

  pub page_at-set_page :
      (ps : List (Option (Page S))) (p : ℕ) (pg : Page S)
      → p < length ps
      → page_at S (set_page S ps p pg) p ≡ some pg
  page_at-set_page [] p pg h = absurd (omega arith)
  page_at-set_page (x ∷ ps) zero pg h = refl
  page_at-set_page (x ∷ ps) (suc p) pg h = page_at-set_page ps p pg (omega arith)

  pub page_at-set_page_other :
      (ps : List (Option (Page S))) (p q : ℕ) (pg : Page S)
      → p ≢ q
      → page_at S (set_page S ps p pg) q ≡ page_at S ps q
  page_at-set_page_other [] p q pg h = refl
  page_at-set_page_other (x ∷ ps) zero zero pg h = absurd (h refl)
  page_at-set_page_other (x ∷ ps) zero (suc q) pg h = refl
  page_at-set_page_other (x ∷ ps) (suc p) zero pg h = refl
  page_at-set_page_other (x ∷ ps) (suc p) (suc q) pg h =
      page_at-set_page_other ps p q pg (λ e. h (ap suc e))

  pub length-set_page :
      (ps : List (Option (Page S))) (p : ℕ) (pg : Page S) → length (set_page S ps p pg) ≡ length ps
  length-set_page [] p pg = refl
  length-set_page (x ∷ ps) zero pg = refl
  length-set_page (x ∷ ps) (suc p) pg = ap suc (length-set_page ps p pg)

  pub page_at-bound :
      (ps : List (Option (Page S))) (p : ℕ) (pg : Page S) → page_at S ps p ≡ some pg → p < length ps
  page_at-bound [] p pg e = cc
  page_at-bound (x ∷ ps) zero pg e = omega arith
  page_at-bound (x ∷ ps) (suc p) pg e = omega (arith, page_at-bound ps p pg e)

  -- A page whose vectors have the sizes of a new page of the cache.
  unfoldable pub Fits : PagedKvCache S → Page S → Type 0
  Fits c pg =
      (c.page_tokens * c.kv_dim < u64_mod)
      × (vectors S pg ≡ vectors S (new_page S c.kind (c.page_tokens * c.kv_dim) c.page_tokens))

  -- Whether all pages of a cache fit it.
  unfoldable pub AllFit : PagedKvCache S → List (Option (Page S)) → Type 0
  AllFit c ps = (p : ℕ) (pg : Page S) → page_at S ps p ≡ some pg → Fits c pg

  pub record IsCache (c : PagedKvCache S) : Type 0 where
    pub tokens : 0 < c.page_tokens
    pub fits : AllFit c c.pages

  -- What `ensure` leaves: the page, which was there or is new, or an exception; the other pages are
  -- as before.
  pub data Ensured (c : PagedKvCache S) (p : ℕ)
      : PagedKvCache S × Result KvError (Page S) → Type 0 where
    ensured :
        (ps : List (Option (Page S))) (pg : Page S)
        → ((q : ℕ) → p ≢ q → page_at S ps q ≡ page_at S c.pages q)
        → page_at S ps p ≡ some pg
        → (page_at S c.pages p ≡ some pg) ⊎ ((page_at S c.pages p ≡ none) × Fits c pg)
        → Ensured c p (with_pages S ps c, ok pg)
    failed :
        (ps : List (Option (Page S)))
        → ((q : ℕ) → page_at S ps q ≡ page_at S c.pages q)
        → u64_mod ≤ suc p ⊎ u64_mod ≤ c.page_tokens * c.kv_dim
        → Ensured c p (with_pages S ps c, err overflow)

  ensure_page-Ensured :
      (c : PagedKvCache S) (p : ℕ) (ps : List (Option (Page S)))
      → ((q : ℕ) → page_at S ps q ≡ page_at S c.pages q)
      → p < length ps
      → Ensured c p (ensure_page S p (with_pages S ps c))
  unfolding ensure_page
  ensure_page-Ensured c p ps same h = elim (Option-cases (page_at S ps p)) [
    | inr (pg, e) ↦ rw (ensure_page, e) (ensured ps pg (λ q _. same q) e (inl (sym (same p) ∙ e)))
    | inl e ↦ elim (checked_mul_size_lem c.page_tokens c.kv_dim) [
      | inr (big, f) ↦ rw (ensure_page, e, f) (failed ps same (inr big))
      | inl (small, f) ↦
          let pg = new_page S c.kind (c.page_tokens * c.kv_dim) c.page_tokens in
          rw (ensure_page, e, f)
            (ensured (set_page S ps p pg) pg (λ q ne. page_at-set_page_other ps p q pg ne ∙ same q)
              (page_at-set_page ps p pg h) (inr (sym (same p) ∙ e, unfold Fits in (small, refl))))
    ]
  ]

  pub ensure-Ensured : (c : PagedKvCache S) (p : ℕ) → p < u64_mod → Ensured c p (ensure S p c)
  unfolding ensure
  ensure-Ensured c p w =
      if-cases (Ensured c p) (ltb p (length c.pages)) _ _
        (λ h. ensure_page-Ensured c p c.pages (λ q. refl) (ground arith))
        λ h. elim (checked_add_size_lem p 1 w) [
          | inr (big, f) ↦ rw f (failed c.pages (λ q. refl) (inl (omega arith)))
          | inl (small, f) ↦ rw f (
              ensure_page-Ensured c p (c.pages ++ replicate (p + 1 - length c.pages) none)
                (page_at-append c.pages (p + 1 - length c.pages))
                (ground (
                  arith,
                  length-append c.pages (replicate (p + 1 - length c.pages) none),
                  length-replicate {A = Option (Page S)} (p + 1 - length c.pages) none,
                )))
        ]

  -- A fresh cache, and one without pages.
  pub make-IsCache : (d p : ℕ) (kind : KvCacheType) → IsCache (make S d p kind)
  unfolding make AllFit
  make-IsCache d p kind = record {
    tokens = if-cases (λ n. 0 < n) (p == 0) 128 p (λ _. omega arith) (λ h. ground arith);
    fits = λ q pg e. cc;
  }
