-- ===== src/KvCache/Unchanged.antt =====
-- A write changes nothing that is read of other positions.
use mem_vanta.Prelude.{
  ℕ, ◌+◌, ◌-◌, ◌*◌, ◌/◌, ◌%◌, ◌≤◌, ◌<◌, ◌≡◌, ◌≢◌, refl, sym, ap, ◌∙◌, Bool, false, not, ◌&&◌, ◌||◌,
  Option, none, some, List, arith, ltb, ◌==◌, Result, ok, err, ◌⊎◌, inl, inr, u64_mod, Bool-cases,
}
use mathlib.Core.Option.{some-injective}
use mem_vanta.Prelude.Float.{Single}
use mem_vanta.KvCache.{
  KvError, Page, PagedKvCache, with_pages, set_page, page_at, slice_out_of_bounds, null_pointer,
}
use mem_vanta.KvCache.Calls.{is_null, values, write, locate, dot_key, add_value}
use mem_vanta.KvCache.Pages.{page_at-set_page, page_at-set_page_other, page_at-bound, Fits, IsCache}
use mem_vanta.KvCache.Rows.{written}
use mem_vanta.KvCache.Others.{Apart, dot_page-other, add_page-other}
use mem_vanta.KvCache.Writes.{row_fits, Wrote, stored, refused, write-Wrote, equal_or_not}
use mem_vanta.KvCache.ReadBack.{locate_lem, quotient_small}

-- Different positions of a page have rows apart.
rows-Apart : (i j d offset n : ℕ) → i ≢ j → offset + n ≤ d → Apart (i * d) d (j * d + offset) n
unfolding Apart
rows-Apart i j d offset n ne h = elim (Bool-cases (ltb i j)) [
  | inl b ↦ let rows = row_fits i j d (ground arith) in inl (omega (arith, rows))
  | inr b ↦ let rows = row_fits j i d (below i j ne b) in inr (omega (arith, rows, h))
]
  where
    below : (i j : ℕ) → i ≢ j → ltb i j ≡ false → j < i
    below i j ne b = ground arith

positions-Apart : (i j : ℕ) → i ≢ j → Apart i 1 j 1
unfolding Apart
positions-Apart i j ne = ground arith

same_origin : {A : Type 0} (o : Option A) (x y : A) → (o ≡ some x) ⊎ (o ≡ none) → o ≡ some y → x ≡ y
same_origin o x y (inl e) f = some-injective _ _ (sym e ∙ f)
same_origin o x y (inr e) f = absurd (cc)

remainders_differ : (m n t : ℕ) → m ≢ n → m / t ≡ n / t → m % t ≢ n % t
remainders_differ m n t ne e f = ne (omega (arith, ap (λ x. t * x) e, f))

module _ (S : Single) where
  open S use {F}

  -- The same reads of two caches.
  Agree :
      (position offset n : ℕ) (q : Option (ℕ → F)) (alpha : F) (out : Option (ℕ → F))
      (c c' : PagedKvCache S)
      → Type 0
  Agree position offset n q alpha out c c' =
      (dot_key S position offset q n c' ≡ dot_key S position offset q n c)
      × (add_value S position offset alpha out n c' ≡ add_value S position offset alpha out n c)

  -- Reads depend on the page of their position only.
  same_page :
      (c : PagedKvCache S) (ps : List (Option (Page S))) (position offset n : ℕ)
      (q : Option (ℕ → F)) (alpha : F) (out : Option (ℕ → F))
      → page_at S ps (position / c.page_tokens) ≡ page_at S c.pages (position / c.page_tokens)
      → Agree position offset n q alpha out c (with_pages S ps c)
  unfolding Agree dot_key add_value locate
  same_page c ps position offset n q alpha out e =
      (rw (dot_key, locate, e) refl, rw (add_value, locate, e) refl)

  -- Where reads of two caches go that have a page each at the position.
  data Located (c c' : PagedKvCache S) (position offset n : ℕ) (null : Bool) (pg pg' : Page S)
      : Type 0 where
    nowhere :
        (e : KvError)
        → locate S position offset null n c ≡ err e
        → locate S position offset null n c' ≡ err e
        → Located c c' position offset n null pg pg'
    somewhere :
        offset + n ≤ c.kv_dim
        → locate S position offset null n c ≡ ok (pg, position % c.page_tokens * c.kv_dim + offset)
        → locate S position offset null n c'
          ≡ ok (pg', position % c.page_tokens * c.kv_dim + offset)
        → Located c c' position offset n null pg pg'

  locate-Located :
      (c : PagedKvCache S) (ps : List (Option (Page S))) (position offset n : ℕ) (null : Bool)
      (pg pg' : Page S)
      → IsCache S c
      → c.page_tokens * c.kv_dim < u64_mod
      → page_at S c.pages (position / c.page_tokens) ≡ some pg
      → page_at S ps (position / c.page_tokens) ≡ some pg'
      → Located c (with_pages S ps c) position offset n null pg pg'
  unfolding locate
  locate-Located c ps position offset n null pg pg' w fits was now =
      elim (Bool-cases (ltb c.kv_dim offset || ltb (c.kv_dim - offset) n)) [
        | inl bad ↦ nowhere slice_out_of_bounds (rw (locate, bad) refl) (rw (locate, bad) refl)
        | inr inside ↦ elim (Bool-cases (not (n == 0) && null)) [
          | inl bad ↦
              nowhere null_pointer (rw (locate, inside, bad) refl) (rw (locate, inside, bad) refl)
          | inr given ↦
              somewhere (ground arith)
                (locate_lem S c c.pages position offset n null pg w inside given was fits)
                (locate_lem S c ps position offset n null pg' w inside given now fits)
        ]
      ]

  -- Reads at another position of the page that was written.
  other_row :
      (c : PagedKvCache S) (ps : List (Option (Page S))) (i position offset n : ℕ) (k v : ℕ → F)
      (q : Option (ℕ → F)) (alpha : F) (out : Option (ℕ → F)) (pg : Page S)
      → IsCache S c
      → c.page_tokens * c.kv_dim < u64_mod
      → i ≢ position % c.page_tokens
      → page_at S c.pages (position / c.page_tokens) ≡ some pg
      → page_at S ps (position / c.page_tokens)
        ≡ some (written S c.kv_dim c.kind k v (i * c.kv_dim) i pg)
      → Agree position offset n q alpha out c (with_pages S ps c)
  unfolding Agree dot_key add_value Apart
  other_row c ps i position offset n k v q alpha out pg w fits ne was now = (
    elim (locate-Located c ps position offset n (is_null q) pg _ w fits was now) [
      | nowhere e f g ↦ rw (f, g) refl
      | somewhere h f g ↦
          rw (f, g)
            (dot_page-other S c.kv_dim c.kind k v (i * c.kv_dim) i pg (position % c.page_tokens)
              (position % c.page_tokens * c.kv_dim + offset) n (values S q)
              (rows-Apart i (position % c.page_tokens) c.kv_dim offset n ne h)
              (positions-Apart i (position % c.page_tokens) ne))
    ],
    elim (locate-Located c ps position offset n (is_null out) pg _ w fits was now) [
      | nowhere e f g ↦ rw (f, g) refl
      | somewhere h f g ↦
          rw (f, g)
            (add_page-other S c.kv_dim c.kind k v (i * c.kv_dim) i pg (position % c.page_tokens)
              (position % c.page_tokens * c.kv_dim + offset) n alpha (values S out)
              (rows-Apart i (position % c.page_tokens) c.kv_dim offset n ne h)
              (positions-Apart i (position % c.page_tokens) ne))
    ],
  )

  Wrote-Agree :
      (c : PagedKvCache S) (m : ℕ) (null : Bool) (k v : ℕ → F)
      (r : PagedKvCache S × Result KvError (Unit {0})) (position offset n : ℕ) (q : Option (ℕ → F))
      (alpha : F) (out : Option (ℕ → F)) (pg : Page S)
      → IsCache S c
      → m ≢ position
      → page_at S c.pages (position / c.page_tokens) ≡ some pg
      → Wrote S c (m / c.page_tokens) (m % c.page_tokens) null k v r
      → Agree position offset n q alpha out c r.0
  unfolding Fits
  Wrote-Agree c m null k v _ position offset n q alpha out pg w ne was (refused ps e kept all why) =
      same_page c ps position offset n q alpha out (kept _ pg was ∙ sym was)
  Wrote-Agree c m null k v _ position offset n q alpha out pg w ne was
        (stored ps pg' others here from fits) =
      let p = m / c.page_tokens in
      let i = m % c.page_tokens in
      let x = written S c.kv_dim c.kind k v (i * c.kv_dim) i pg' in
      elim (equal_or_not S p (position / c.page_tokens)) [
        | inr other ↦
            same_page c (set_page S ps p x) position offset n q alpha out
              (page_at-set_page_other S ps p (position / c.page_tokens) x other ∙ others _ other)
        | inl same ↦
            let was' = ap (page_at S c.pages) same ∙ was in
            let origin : pg' ≡ pg = same_origin (page_at S c.pages p) pg' pg from was' in
            other_row c (set_page S ps p x) i position offset n k v q alpha out pg w fits.0
              (remainders_differ m position c.page_tokens ne same) was
              (ap (page_at S (set_page S ps p x)) (sym same)
                ∙ page_at-set_page S ps p x (page_at-bound S ps p pg' here)
                ∙ ap (λ y. some (written S c.kv_dim c.kind k v (i * c.kv_dim) i y)) origin)
      ]

  -- In a well-formed cache, a write at a position, whether it throws or returns, changes no read
  -- of another position whose page exists, whatever part of the row is read.
  pub write-Agree :
      (c : PagedKvCache S) (m : ℕ) (k v : Option (ℕ → F)) (position offset n : ℕ)
      (q : Option (ℕ → F)) (alpha : F) (out : Option (ℕ → F)) (pg : Page S)
      → IsCache S c
      → m < u64_mod
      → m ≢ position
      → page_at S c.pages (position / c.page_tokens) ≡ some pg
      → (dot_key S position offset q n (write S m k v c).0 ≡ dot_key S position offset q n c)
        × (add_value S position offset alpha out n (write S m k v c).0
            ≡ add_value S position offset alpha out n c)
  unfolding Agree
  write-Agree c m k v position offset n q alpha out pg w small ne was =
      Wrote-Agree c m _ _ _ _ position offset n q alpha out pg w ne was
        (write-Wrote S c m k v w (quotient_small S m c.page_tokens w.tokens small))
