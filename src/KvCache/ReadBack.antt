-- ===== src/KvCache/ReadBack.antt =====
-- What is read after a write.
use mem_vanta.Prelude.{
  ℕ, suc, ◌+◌, ◌-◌, ◌*◌, ◌/◌, ◌%◌, ◌≤◌, ◌<◌, ◌≡◌, ◌≢◌, refl, ◌∙◌, Bool, false, not, ◌&&◌, ◌||◌,
  Option, some, List, arith, ltb, ◌==◌, Result, ok, err, inl, inr, u64_mod,
}
use mem_vanta.CheckedMath.{checked_add_size_lem}
use mem_vanta.Prelude.Float.{Single}
use mem_vanta.KvCache.{KvError, out_of_bounds, Page, PagedKvCache, with_pages, set_page, page_at}
use mem_vanta.KvCache.Calls.{write, locate, dot_key, add_value}
use mem_vanta.KvCache.Pages.{
  page_at-set_page, page_at-set_page_other, page_at-bound, Fits, AllFit, IsCache,
}
use mem_vanta.KvCache.Rows.{written, vectors-written}
use mem_vanta.KvCache.Stored.{stored_dot, stored_add, dot_page-written, add_page-written}
use mem_vanta.KvCache.Writes.{
  row_fits, checked_mul_fits, Refuses, Wrote, stored, refused, write-Wrote, AllFit-page,
}

module _ (S : Single) where
  open S use {F}

  -- The pages after a row was stored.
  stored_pages :
      (c : PagedKvCache S) (p i : ℕ) (k v : ℕ → F) (ps : List (Option (Page S))) (pg : Page S)
      → IsCache S c
      → ((q : ℕ) → p ≢ q → page_at S ps q ≡ page_at S c.pages q)
      → page_at S ps p ≡ some pg
      → Fits S c pg
      → AllFit S c (set_page S ps p (written S c.kv_dim c.kind k v (i * c.kv_dim) i pg))
  unfolding Fits
  stored_pages c p i k v ps pg w others here fits =
      let pg' = written S c.kv_dim c.kind k v (i * c.kv_dim) i pg in
      AllFit-page S c (set_page S ps p pg') p pg' w.fits
        (λ q ne. page_at-set_page_other S ps p q pg' ne ∙ others q ne)
        (page_at-set_page S ps p pg' (page_at-bound S ps p pg here))
        (fits.0, vectors-written S c.kv_dim c.kind k v (i * c.kv_dim) i pg ∙ fits.1)

  Wrote-IsCache :
      (c : PagedKvCache S) (p i : ℕ) (null : Bool) (k v : ℕ → F)
      (r : PagedKvCache S × Result KvError (Unit {0}))
      → IsCache S c
      → Wrote S c p i null k v r
      → IsCache S r.0 × (r.1 ≢ err out_of_bounds)
  unfolding Fits AllFit Refuses
  Wrote-IsCache c p i null k v _ w (stored ps pg others here from fits) = (
    record { tokens = w.tokens; fits = stored_pages c p i k v ps pg w others here fits },
    λ e. cc,
  )
  Wrote-IsCache c p i null k v _ w (refused ps e kept all (inl (why, _))) =
      (record { tokens = w.tokens; fits = all }, λ f. cc)
  Wrote-IsCache c p i null k v _ w (refused ps e kept all (inr (why, _))) =
      (record { tokens = w.tokens; fits = all }, λ f. cc)

  pub quotient_small : (n t : ℕ) → 0 < t → n < u64_mod → n / t < u64_mod
  quotient_small n t h lt = grind arith

  -- For a well-formed cache, a position that is a 64-bit word and any pointers, null ones among
  -- them, write leaves a well-formed cache and never accesses a vector past its end.
  pub write-IsCache :
      (c : PagedKvCache S) (position : ℕ) (k v : Option (ℕ → F))
      → IsCache S c
      → position < u64_mod
      → IsCache S (write S position k v c).0 × ((write S position k v c).1 ≢ err out_of_bounds)
  write-IsCache c position k v w small =
      Wrote-IsCache c _ _ _ _ _ _ w
        (write-Wrote S c position k v w (quotient_small position c.page_tokens w.tokens small))

  pub in_page : (c : PagedKvCache S) (n : ℕ) → IsCache S c → n % c.page_tokens < c.page_tokens
  in_page c n w = let positive = w.tokens in omega arith

  -- Where the guards let a read go.
  pub locate_lem :
      (c : PagedKvCache S) (ps : List (Option (Page S))) (position offset n : ℕ) (null : Bool)
      (pg : Page S)
      → IsCache S c
      → (ltb c.kv_dim offset || ltb (c.kv_dim - offset) n) ≡ false
      → (not (n == 0) && null) ≡ false
      → page_at S ps (position / c.page_tokens) ≡ some pg
      → c.page_tokens * c.kv_dim < u64_mod
      → locate S position offset null n (with_pages S ps c)
        ≡ ok (pg, position % c.page_tokens * c.kv_dim + offset)
  unfolding locate
  locate_lem c ps position offset n null pg w inside given here fits =
      let i = position % c.page_tokens in
      let row = row_fits i c.page_tokens c.kv_dim (in_page c position w) in
      let start = checked_mul_fits i c.kv_dim (omega (arith, row, fits)) in
      let below : offset ≤ c.kv_dim = ground arith in
      elim (checked_add_size_lem (i * c.kv_dim) offset (omega (arith, row, fits))) [
        | inr (big, _) ↦ absurd (omega (arith, row, fits, big, below))
        | inl (_, e) ↦ rw (locate, inside, given, here, start, e) refl
      ]

  inside_lem :
      (dim offset n : ℕ) → offset + n ≤ dim → (ltb dim offset || ltb (dim - offset) n) ≡ false
  inside_lem dim offset n h = ground arith

  given_lem : (n : ℕ) → (not (n == 0) && false) ≡ false
  given_lem n = ground arith

  -- The row that was written, and the two reads of a part of it.
  Reads :
      (c : PagedKvCache S) (position : ℕ) (k v : ℕ → F) (offset n : ℕ) (q : ℕ → F) (alpha : F)
      (out : ℕ → F)
      → PagedKvCache S × Result KvError (Unit {0})
      → Type 0
  Reads c position k v offset n q alpha out r =
      (r.1 ≡ ok tt)
      × (dot_key S position offset (some q) n r.0 ≡ ok (stored_dot S c.kv_dim c.kind k offset q n))
      × (add_value S position offset alpha (some out) n r.0
          ≡ ok (stored_add S c.kv_dim c.kind v offset alpha out n))

  Wrote-Reads :
      (c : PagedKvCache S) (position : ℕ) (k v : ℕ → F) (offset n : ℕ) (q : ℕ → F) (alpha : F)
      (out : ℕ → F) (null : Bool) (r : PagedKvCache S × Result KvError (Unit {0}))
      → IsCache S c
      → null ≡ false
      → suc (position / c.page_tokens) < u64_mod
      → c.page_tokens * c.kv_dim < u64_mod
      → c.kv_dim * 4 < u64_mod
      → offset + n ≤ c.kv_dim
      → Wrote S c (position / c.page_tokens) (position % c.page_tokens) null k v r
      → Reads c position k v offset n q alpha out r
  unfolding Reads Refuses Fits dot_key add_value
  Wrote-Reads c position k v offset n q alpha out null _ w given a b d h
        (refused ps e kept all (inl (why, bad))) =
      absurd (cc)
  Wrote-Reads c position k v offset n q alpha out null _ w given a b d h
        (refused ps e kept all (inr (why, inl x))) =
      absurd (omega arith)
  Wrote-Reads c position k v offset n q alpha out null _ w given a b d h
        (refused ps e kept all (inr (why, inr (inl x)))) =
      absurd (omega arith)
  Wrote-Reads c position k v offset n q alpha out null _ w given a b d h
        (refused ps e kept all (inr (why, inr (inr x)))) =
      absurd (omega arith)
  Wrote-Reads c position k v offset n q alpha out null _ w given a b d h
        (stored ps pg others here from fits) =
      let p = position / c.page_tokens in
      let i = position % c.page_tokens in
      let pg' = written S c.kv_dim c.kind k v (i * c.kv_dim) i pg in
      let row = row_fits i c.page_tokens c.kv_dim (in_page c position w) in
      let there = page_at-set_page S ps p pg' (page_at-bound S ps p pg here) in
      let found =
        locate_lem c (set_page S ps p pg') position offset n false pg' w
          (inside_lem c.kv_dim offset n h) (given_lem n) there b in
      (
        refl,
        rw found (
            dot_page-written S c.kv_dim c.kind k v (i * c.kv_dim) i pg (c.page_tokens * c.kv_dim)
              c.page_tokens offset n q fits.1 row (in_page c position w) h),
        rw found (
            add_page-written S c.kv_dim c.kind k v (i * c.kv_dim) i pg (c.page_tokens * c.kv_dim)
              c.page_tokens offset n alpha out fits.1 row (in_page c position w) h),
      )

  -- In a well-formed cache, if the number of the page after the one of a position, the elements of
  -- a page and the bytes of a row of floats are 64-bit words and neither pointer is null, then
  -- write returns, and the two reads of any part of the row return the dot product and the scaled
  -- sum of the encodings of the keys and values that were written, in each of the three types.
  pub write-Reads :
      (c : PagedKvCache S) (position : ℕ) (k v : ℕ → F) (offset n : ℕ) (q : ℕ → F) (alpha : F)
      (out : ℕ → F)
      → IsCache S c
      → suc (position / c.page_tokens) < u64_mod
      → c.page_tokens * c.kv_dim < u64_mod
      → c.kv_dim * 4 < u64_mod
      → offset + n ≤ c.kv_dim
      → ((write S position (some k) (some v) c).1 ≡ ok tt)
        × (dot_key S position offset (some q) n (write S position (some k) (some v) c).0
            ≡ ok (stored_dot S c.kv_dim c.kind k offset q n))
        × (add_value S position offset alpha (some out) n (write S position (some k) (some v) c).0
            ≡ ok (stored_add S c.kv_dim c.kind v offset alpha out n))
  unfolding Reads
  write-Reads c position k v offset n q alpha out w a b d h =
      Wrote-Reads c position k v offset n q alpha out (not (c.kv_dim == 0) && false) _ w
        (given_lem c.kv_dim) a b d h (write-Wrote S c position (some k) (some v) w (omega arith))
