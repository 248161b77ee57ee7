-- ===== src/MMapFile/Advice.antt =====
-- The bounds that `advise_range` hands to `madvise`.
use native.Mathlib.Nat.{div-mul-le_self, div-add-mod', mul-mod_left, mod-lt}
use mem_vanta.Prelude.{
  ℕ, suc, ◌+◌, ◌-◌, ◌*◌, ◌/◌, ◌%◌, ◌≤◌, ◌<◌, min, ◌≡◌, refl, ap, ◌∙◌, ◌⊎◌, inl, inr, not, ◌&&◌,
  arith, if◌then◌else◌, leb, ◌==◌, Bool-cases, add64, sub64, add64_lem, sub64_lem, u64_mod, u64_max,
}
use mem_vanta.MMapFile.{advice_bounds}

pub last_lem :
    (size off len : ℕ)
    → size < u64_mod
    → off < size
    → add64 off (min len (sub64 size off)) ≡ off + min len (size - off)
last_lem size off len w h =
    let e = sub64_lem size off w (omega arith) in
    ground (arith, e, add64_lem off (min len (size - off)) (omega arith))

abbrev pub rounded : ℕ → ℕ → ℕ
rounded last page =
    if not (last % page == 0) && leb last (sub64 u64_max (sub64 page (last % page)))
    then add64 last (sub64 page (last % page))
    else last

whole_pages : (last page : ℕ) → 0 < page → (last + (page - last % page)) % page ≡ 0
whole_pages last page p =
    let below = mod-lt last {m = page} p in
    let split = div-add-mod' last page in
    let e : last + (page - last % page) ≡ suc (last / page) * page = omega (arith, below, split) in
    ap (λ (n : ℕ). n % page) e ∙ mul-mod_left (suc (last / page)) page

rounded_lem :
    (last page : ℕ)
    → last < u64_mod
    → 0 < page
    → page < u64_mod
    → (last ≤ rounded last page) × ((rounded last page % page ≡ 0) ⊎ (u64_mod ≤ last + page))
rounded_lem last page w p w' =
    let below = mod-lt last {m = page} p in
    let part = sub64_lem page (last % page) w' (omega (arith, below)) in
    let top = sub64_lem u64_max (page - last % page) (omega arith) (omega arith) in
    elim (Bool-cases
      (not (last % page == 0) && leb last (sub64 u64_max (sub64 page (last % page))))) [
        | inl go ↦
            let room : last + (page - last % page) < u64_mod = ground (arith, part, top) in
            let sum = add64_lem last (page - last % page) room in
            rw (go, part, sum) (omega arith, inl (whole_pages last page p))
        | inr stay ↦ rw stay (
          omega arith,
          elim (Bool-cases (last % page == 0)) [
            | inl whole ↦ inl (ground arith)
            | inr some_left ↦ inr (ground (arith, part, top))
          ],
        )
      ]

cut_lem :
    (size page e last : ℕ)
    → last ≤ size
    → (last ≤ e) × ((e % page ≡ 0) ⊎ (u64_mod ≤ last + page))
    → (last ≤ min e size)
      × (min e size ≤ size)
      × ((min e size % page ≡ 0) ⊎ (min e size ≡ size) ⊎ (u64_mod ≤ size + page))
cut_lem size page e last h (above, inr huge) = (omega arith, omega arith, inr (inr (omega arith)))
cut_lem size page e last h (above, inl whole) = elim (Bool-cases (leb e size)) [
  | inl inside ↦
      let same : min e size ≡ e = ground arith in rw same (above, ground arith, inl whole)
  | inr cut ↦
      let same : min e size ≡ size = ground arith in rw same (h, omega arith, inr (inl refl))
]

-- For a range that starts inside a file whose size is a 64-bit word, and a page size that is a
-- positive 64-bit word, the bounds of the advice start on a page at or before the range, cover it
-- as far as the file goes, lie in the file, and end on a page, at the end of the file, or where
-- the file is within a page of the greatest 64-bit word.
pub advice_bounds_lem :
    (size page off len : ℕ)
    → size < u64_mod
    → 0 < page
    → page < u64_mod
    → off < size
    → let (first, last) = advice_bounds size page off len in
      (first % page ≡ 0)
      × (first ≤ off)
      × (off + min len (size - off) ≤ last)
      × (last ≤ size)
      × ((last % page ≡ 0) ⊎ (last ≡ size) ⊎ (u64_mod ≤ size + page))
unfolding advice_bounds
advice_bounds_lem size page off len w p w' h =
    let last = off + min len (size - off) in
    let inside : last ≤ size = omega arith in
    let (covers, ends, whole) =
      cut_lem size page (rounded last page) last inside
        (rounded_lem last page (omega (arith, inside)) p w') in
    rw (last_lem size off len w h)
      (mul-mod_left (off / page) page, div-mul-le_self off page, covers, ends, whole)
