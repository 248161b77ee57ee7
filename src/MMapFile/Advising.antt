-- ===== src/MMapFile/Advising.antt =====
-- What the methods that advise ask of the kernel, and how they count it.
use native.Mathlib.Nat.{div-add-mod', mod-lt}
use mem_vanta.Prelude.{
  ℕ, ◌+◌, ◌-◌, ◌%◌, ◌≤◌, ◌<◌, min, ◌≡◌, ◌≢◌, refl, sym, ap, ◌∙◌, Bool, ◌⊎◌, inl, inr, ◌||◌, ◌&&◌,
  not, true, false, Option, none, some, List, [], ◌∷◌, arith, if◌then◌else◌, if-cases, leb, ◌==◌,
  Bool-cases, add64, sub64, add64_lem, sub64_lem, u64_mod, u64_max,
}
use mem_vanta.Prelude.Int.{ℤ, pos, negsuc, pos_part, neg_part}
use mem_vanta.MMapFile.{
  MMapFile, SystemCall, advises, Answers, advice_bounds, advise_pages, advise_range, is_null,
  count_success, count_failure, madv_sequential, madv_willneed, madv_dontneed, advise_sequential,
  advise_willneed, advise_dontneed,
}
use mem_vanta.MMapFile.Advice.{rounded, last_lem, advice_bounds_lem}

-- Whole pages of a file of `size` bytes around the range from `off` on: from the last page that
-- starts at or before the range, to the first end of a page behind it, or to the end of the file,
-- or nowhere beyond it where the file is within a page of the greatest 64-bit word.
pub record Around (size page off len first last : ℕ) : Type 0 where
  pub aligned : first % page ≡ 0
  pub before : first ≤ off
  pub near : off < first + page
  pub covers : off + min len (size - off) ≤ last
  pub inside : last ≤ size
  pub tight : last < off + min len (size - off) + page
  pub whole : (last % page ≡ 0) ⊎ (last ≡ size) ⊎ (u64_mod ≤ size + page)

-- How a method that gives advice of one kind ends: without a call for a file that is not mapped or
-- a range without a byte in it, with a failure that is counted where the page size is unknown, or
-- with one call, which is counted.
pub data Advises (A : Answers) (f : MMapFile) (off len kind : ℕ)
    : MMapFile × List SystemCall → Type 0 where
  useless : (f.data_at ≡ none) ⊎ (len ≡ 0) ⊎ (f.size ≤ off) → Advises A f off len kind (f, [])
  no_pages :
      f.data_at ≢ none
      → len ≢ 0
      → off < f.size
      → ((page : ℕ) → A.page_size ≡ pos page → page ≡ 0)
      → Advises A f off len kind (
        record f {
          advice_attempts = (f.advice_attempts + 1) % u64_mod;
          advice_failures = (f.advice_failures + 1) % u64_mod;
        },
        [],
      )
  advised :
      (page first last : ℕ)
      → f.data_at ≢ none
      → len ≢ 0
      → off < f.size
      → A.page_size ≡ pos page
      → Around f.size page off len first last
      → Advises A f off len kind (
        record f {
          advice_attempts = (f.advice_attempts + 1) % u64_mod;
          advice_failures =
              if A.advised then f.advice_failures else (f.advice_failures + 1) % u64_mod;
        },
        advises first (last - first) kind ∷ [],
      )

rounded-near :
    (last page : ℕ) → last < u64_mod → 0 < page → page < u64_mod → rounded last page < last + page
rounded-near last page w p w' =
    let below = mod-lt last {m = page} p in
    let part = sub64_lem page (last % page) w' (omega (arith, below)) in
    let top = sub64_lem u64_max (page - last % page) (omega arith) (omega arith) in
    elim (Bool-cases
      (not (last % page == 0) && leb last (sub64 u64_max (sub64 page (last % page))))) [
        | inl go ↦
            let room : last + (page - last % page) < u64_mod = ground (arith, part, top) in
            let sum = add64_lem last (page - last % page) room in rw (go, part, sum) (ground arith)
        | inr stay ↦ rw stay (omega arith)
      ]

advice_bounds-Around :
    (size page off len : ℕ)
    → size < u64_mod
    → 0 < page
    → page < u64_mod
    → off < size
    → let (first, last) = advice_bounds size page off len in Around size page off len first last
unfolding advice_bounds
advice_bounds-Around size page off len w p w' h =
    let (aligned, before, covers, inside, whole) = advice_bounds_lem size page off len w p w' h in
    record {
      aligned = aligned;
      before = before;
      near = omega (arith, div-add-mod' off page, mod-lt off {m = page} p);
      covers = covers;
      inside = inside;
      tight =
          rw (last_lem size off len w h)
            (omega (arith, rounded-near (off + min len (size - off)) page (omega arith) p w'));
      whole = whole;
    }

negative : (n page : ℕ) → negsuc n ≡ pos page → ⊥
negative n page e = omega (arith, ap neg_part e)

is_useless :
    (o : Option ℕ) (len size off : ℕ)
    → (is_null o || ((len == 0) || leb size off)) ≡ true
    → (o ≡ none) ⊎ (len ≡ 0) ⊎ (size ≤ off)
is_useless none len size off h = inl refl
is_useless (some address) len size off h = elim (Bool-cases (len == 0)) [
  | inl no_bytes ↦ inr (inl (ground arith))
  | inr some_bytes ↦ inr (inr (ground arith))
]

is_useful :
    (o : Option ℕ) (len size off : ℕ)
    → (is_null o || ((len == 0) || leb size off)) ≡ false
    → (o ≢ none) × (len ≢ 0) × (off < size)
is_useful none len size off h = absurd cc
is_useful (some address) len size off h = (λ e. cc, λ e. ground arith, ground arith)

counted :
    (f : MMapFile) (b : Bool)
    → (if b then count_success f else count_failure f) ≡ record f {
      advice_attempts = (f.advice_attempts + 1) % u64_mod;
      advice_failures = if b then f.advice_failures else (f.advice_failures + 1) % u64_mod;
    }
unfolding count_success count_failure add64
counted f true = refl
counted f false = refl

module _ (A : Answers) (f : MMapFile) (w : f.size < u64_mod)
    (page_word : (page : ℕ) → A.page_size ≡ pos page → page < u64_mod) (off len kind : ℕ) where
  module _ (there : f.data_at ≢ none) (some_bytes : len ≢ 0) (starts : off < f.size) where
    unknown :
        ((page : ℕ) → A.page_size ≡ pos page → page ≡ 0)
        → Advises A f off len kind (count_failure f, [])
    unfolding count_failure add64
    unknown h = Advises.no_pages there some_bytes starts h

    advise_pages-Advises :
        (page : ℕ)
        → A.page_size ≡ pos page
        → 0 < page
        → Advises A f off len kind (advise_pages A f page off len kind)
    unfolding advise_pages
    advise_pages-Advises page e p =
        let (first, last) = advice_bounds f.size page off len in
        let around = advice_bounds-Around f.size page off len w p (page_word page e) starts in
        let less : leb last first ≡ false = ground (arith, around.covers, around.before) in
        rw
          (
            less,
            sub64_lem last first (omega (arith, around.inside))
                (omega (arith, around.covers, around.before)),
            counted f A.advised,
          )
          (Advises.advised page first last there some_bytes starts e around)

  advise_range-Advises : Advises A f off len kind (advise_range A f off len kind)
  unfolding advise_range
  advise_range-Advises =
      if-cases (Advises A f off len kind) (is_null f.data_at || ((len == 0) || leb f.size off)) _ _
        (λ h. Advises.useless (is_useless f.data_at len f.size off h))
        λ h.
          let (there, some_bytes, starts) = is_useful f.data_at len f.size off h in
          go there some_bytes starts A.page_size refl
    where
      go :
          f.data_at ≢ none
          → len ≢ 0
          → off < f.size
          → (p : ℤ) → A.page_size ≡ p
          → Advises A f off len kind (elim p as (λ _. MMapFile × List SystemCall) [
            | negsuc n ↦ (count_failure f, [])
            | pos page ↦
                if page == 0 then (count_failure f, []) else advise_pages A f page off len kind
          ])
      go there some_bytes starts (negsuc n) e =
          unknown there some_bytes starts λ page e'. absurd (negative n page (sym e ∙ e'))
      go there some_bytes starts (pos page) e =
          if-cases (Advises A f off len kind) (page == 0) _ _
            (λ h.
              unknown there some_bytes starts
                λ page' e'. let same = ap pos_part (sym e ∙ e') in ground arith)
            λ h. advise_pages-Advises there some_bytes starts page e (ground arith)

-- For a file whose size is a 64-bit word and a page size that is one, if it is positive, advice of
-- each of the three kinds does nothing for a file that is not mapped or a range without a byte of
-- it, counts a failed attempt where the page size is not positive, and else makes one call of
-- `madvise` of its own kind, on the whole pages around the range, cut at the end of the file,
-- which counts one attempt, and one failure if it fails.
pub advise-Advises :
    (A : Answers) (f : MMapFile) (off len : ℕ)
    → f.size < u64_mod
    → ((page : ℕ) → A.page_size ≡ pos page → page < u64_mod)
    → Advises A f off len madv_sequential (advise_sequential A f off len)
      × Advises A f off len madv_willneed (advise_willneed A f off len)
      × Advises A f off len madv_dontneed (advise_dontneed A f off len)
unfolding advise_sequential advise_willneed advise_dontneed
advise-Advises A f off len w page_word = (
  advise_range-Advises A f w page_word off len madv_sequential,
  advise_range-Advises A f w page_word off len madv_willneed,
  advise_range-Advises A f w page_word off len madv_dontneed,
)
