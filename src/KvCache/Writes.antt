-- ===== src/KvCache/Writes.antt =====
-- What `write` leaves in a well-formed cache.
use mem_vanta.Prelude.{
  ℕ, suc, ◌+◌, ◌*◌, ◌/◌, ◌%◌, ◌≤◌, ◌<◌, ◌≡◌, ◌≢◌, refl, sym, ap, ◌∙◌, subst, Bool, true, not, ◌&&◌,
  ◌||◌, Option, none, some, List, arith, ◌==◌, Result, ok, err, ◌⊎◌, inl, inr, if-cases, u64_mod,
  ==_iff, Bool-cases,
}
use mathlib.Core.Option.{some-injective}
use mem_vanta.CheckedMath.{checked_mul_size, checked_mul_size_lem}
use mem_vanta.Prelude.Float.{Single}
use mem_vanta.KvCache.{
  KvError, null_input, overflow, Page, PagedKvCache, with_pages, set_page, page_at, ensure,
}
use mem_vanta.KvCache.Calls.{is_null, values, write_at, write}
use mem_vanta.KvCache.Pages.{Fits, AllFit, IsCache, Ensured, ensured, failed, ensure-Ensured}
use mem_vanta.KvCache.Rows.{written, write_page_lem}

-- A row lies within its page.
pub row_fits : (i t d : ℕ) → i < t → i * d + d ≤ t * d
row_fits i t d h = let rows : suc i * d ≤ t * d = grind arith in grind arith

pub checked_mul_fits : (a b : ℕ) → a * b < u64_mod → checked_mul_size a b ≡ ok (a * b)
checked_mul_fits a b h = elim (checked_mul_size_lem a b) [
  | inl (_, e) ↦ e
  | inr (big, _) ↦ absurd (omega arith)
]

module _ (S : Single) where
  open S use {F}

  -- Why `write` may throw: a null pointer, or sizes that are no 64-bit words.
  unfoldable pub Refuses : PagedKvCache S → ℕ → Bool → KvError → Type 0
  Refuses c p null e =
      ((e ≡ null_input) × (null ≡ true))
      ⊎ ((e ≡ overflow)
          × (u64_mod ≤ suc p ⊎ u64_mod ≤ c.page_tokens * c.kv_dim ⊎ u64_mod ≤ c.kv_dim * 4))

  -- The outcomes of a write at the position `i` of the page `p`.
  pub data Wrote (c : PagedKvCache S) (p i : ℕ) (null : Bool) (k v : ℕ → F)
      : PagedKvCache S × Result KvError (Unit {0}) → Type 0 where
    stored :
        (ps : List (Option (Page S))) (pg : Page S)
        → ((q : ℕ) → p ≢ q → page_at S ps q ≡ page_at S c.pages q)
        → page_at S ps p ≡ some pg
        → (page_at S c.pages p ≡ some pg) ⊎ (page_at S c.pages p ≡ none)
        → Fits S c pg
        → Wrote c p i null k v (
          with_pages S (set_page S ps p (written S c.kv_dim c.kind k v (i * c.kv_dim) i pg)) c,
          ok tt,
        )
    refused :
        (ps : List (Option (Page S))) (e : KvError)
        → ((q : ℕ) (pg : Page S) → page_at S c.pages q ≡ some pg → page_at S ps q ≡ some pg)
        → AllFit S c ps
        → Refuses c p null e
        → Wrote c p i null k v (with_pages S ps c, err e)

  pub equal_or_not : (p q : ℕ) → (p ≡ q) ⊎ (p ≢ q)
  equal_or_not p q = elim (Bool-cases (p == q)) [
    | inl e ↦ inl ((==_iff p q).0 e)
    | inr n ↦ inr (λ e. ground arith)
  ]

  -- The pages once one of them is there.
  pub AllFit-page :
      (c : PagedKvCache S) (ps : List (Option (Page S))) (p : ℕ) (pg : Page S)
      → AllFit S c c.pages
      → ((q : ℕ) → p ≢ q → page_at S ps q ≡ page_at S c.pages q)
      → page_at S ps p ≡ some pg
      → Fits S c pg
      → AllFit S c ps
  unfolding AllFit
  AllFit-page c ps p pg all others here fits q x e = elim (equal_or_not p q) [
    | inl same ↦ subst (Fits S c) (some-injective _ _ (sym here ∙ ap (page_at S ps) same ∙ e)) fits
    | inr other ↦ all q x (sym (others q other) ∙ e)
  ]

  kept :
      (c : PagedKvCache S) (ps : List (Option (Page S))) (p : ℕ) (pg : Page S)
      → ((q : ℕ) → p ≢ q → page_at S ps q ≡ page_at S c.pages q)
      → page_at S ps p ≡ some pg
      → (page_at S c.pages p ≡ some pg) ⊎ (page_at S c.pages p ≡ none)
      → (q : ℕ) (x : Page S) → page_at S c.pages q ≡ some x
      → page_at S ps q ≡ some x
  kept c ps p pg others here from q x e = elim (equal_or_not p q) [
    | inr other ↦ others q other ∙ e
    | inl same ↦ elim from [
      | inl was ↦ ap (page_at S ps) (sym same) ∙ here ∙ sym was ∙ ap (page_at S c.pages) same ∙ e
      | inr gone ↦ let e' = ap (page_at S c.pages) same in absurd (cc)
    ]
  ]

  write_at-Wrote :
      (c : PagedKvCache S) (p i : ℕ) (null : Bool) (k v : ℕ → F) (ps : List (Option (Page S)))
      (pg : Page S)
      → AllFit S c c.pages
      → i < c.page_tokens
      → ((q : ℕ) → p ≢ q → page_at S ps q ≡ page_at S c.pages q)
      → page_at S ps p ≡ some pg
      → (page_at S c.pages p ≡ some pg) ⊎ (page_at S c.pages p ≡ none)
      → Fits S c pg
      → Wrote c p i null k v (write_at S p i k v pg (with_pages S ps c))
  unfolding write_at Fits Refuses
  write_at-Wrote c p i null k v ps pg all lt others here from fits =
      let row = row_fits i c.page_tokens c.kv_dim lt in
      let start = checked_mul_fits i c.kv_dim (omega (arith, row, fits.0)) in
      elim (write_page_lem S c.kv_dim c.kind k v (i * c.kv_dim) i pg (c.page_tokens * c.kv_dim)
        c.page_tokens fits.1 row lt) [
          | inl done ↦ rw (write_at, start, done) (stored ps pg others here from fits)
          | inr (big, e) ↦
              rw (write_at, start, e)
                (refused ps overflow (kept c ps p pg others here from)
                  (AllFit-page c ps p pg all others here fits) (inr (refl, inr (inr big))))
        ]

  pub write-Wrote :
      (c : PagedKvCache S) (position : ℕ) (k v : Option (ℕ → F))
      → IsCache S c
      → position / c.page_tokens < u64_mod
      → Wrote c
          (position / c.page_tokens)
          (position % c.page_tokens)
          (not (c.kv_dim == 0) && (is_null k || is_null v))
          (values S k)
          (values S v)
          (write S position k v c)
  unfolding write Refuses AllFit
  write-Wrote c position k v w small =
      if-cases
        (Wrote c (position / c.page_tokens) (position % c.page_tokens)
          (not (c.kv_dim == 0) && (is_null k || is_null v)) (values S k) (values S v))
        (not (c.kv_dim == 0) && (is_null k || is_null v)) _ _
        (λ null. refused c.pages null_input (λ q pg e. e) w.fits (inl (refl, null)))
        λ _.
          go (ensure S (position / c.page_tokens) c)
            (ensure-Ensured S c (position / c.page_tokens) small)
    where
      in_page : (n : ℕ) → n % c.page_tokens < c.page_tokens
      in_page n = let positive = w.tokens in omega arith

      why :
          (u64_mod ≤ suc (position / c.page_tokens)) ⊎ (u64_mod ≤ c.page_tokens * c.kv_dim)
          → u64_mod ≤ suc (position / c.page_tokens)
            ⊎ u64_mod ≤ c.page_tokens * c.kv_dim
            ⊎ u64_mod ≤ c.kv_dim * 4
      why (inl a) = inl a
      why (inr b) = inr (inl b)

      go :
          (r : PagedKvCache S × Result KvError (Page S))
          → Ensured S c (position / c.page_tokens) r
          → Wrote c
              (position / c.page_tokens)
              (position % c.page_tokens)
              (not (c.kv_dim == 0) && (is_null k || is_null v))
              (values S k)
              (values S v)
              (elim r.1 [
                | err e ↦ (r.0, err e)
                | ok pg ↦
                    write_at S
                      (position / c.page_tokens)
                      (position % c.page_tokens)
                      (values S k)
                      (values S v)
                      pg
                      r.0
              ])
      go _ (ensured ps pg others here (inl was)) =
          write_at-Wrote c _ _ _ _ _ ps pg w.fits (in_page position) others here (inl was)
            (w.fits _ pg was)
      go _ (ensured ps pg others here (inr (gone, fits))) =
          write_at-Wrote c _ _ _ _ _ ps pg w.fits (in_page position) others here (inr gone) fits
      go _ (failed ps same big) =
          refused ps overflow (λ q pg e. same q ∙ e) (λ q pg e. w.fits q pg (sym (same q) ∙ e))
            (inr (refl, why big))
