-- ===== src/TensorStore/Chunks.antt =====
-- The chunks of a `TensorStore` tile its file.
use mem_vanta.Prelude.{
  ℕ, zero, suc, ◌+◌, ◌-◌, ◌*◌, ◌/◌, ◌%◌, ◌≤◌, ◌<◌, min, ◌≡◌, refl, ap, sym, ◌⊎◌, inl, inr, none,
  some, List, [], ◌∷◌, arith, ok, err, ltb, Bool-cases, ltb→lt, ltb→le, length, get_elem?, ◌∙◌,
  add32_lem, add64_lem, sub64_lem, add32, u32_mod, u64_mod, lt→ltb, le→ltb,
}
use native.Mathlib.Nat.{div-eq_of_lt, div-eq-sub-div}
use mem_vanta.TensorStore.{TensorSlice, TensorStore, out_of_range, chunk_loop, make, slice, count}

-- Slices that follow one another from an offset to the end of the file, none empty or too long.
abbrev pub Tiles : ℕ → ℕ → ℕ → List TensorSlice → Type 0
Tiles chunk size off [] = off ≡ size
Tiles chunk size off (s ∷ ss) =
    (s.offset ≡ off)
    × (0 < s.bytes)
    × (s.bytes ≤ chunk)
    × (off + s.bytes ≤ size)
    × Tiles chunk size (off + s.bytes) ss

-- One round before the end, with the words' sums read as numbers.
chunk_loop_round :
    (fuel chunk size off id : ℕ)
    → size < u64_mod
    → off < size
    → chunk_loop (suc fuel) chunk size off id
      ≡ record { id = id; offset = off; bytes = min chunk (size - off) }
        ∷ chunk_loop fuel chunk size (off + min chunk (size - off)) (add32 id 1)
unfolding chunk_loop
chunk_loop_round fuel chunk size off id w h = rw (
  lt→ltb off size h,
  sub64_lem size off w (omega arith),
  add64_lem off (min chunk (size - off)) (omega arith),
)

chunk_loop_end : (fuel chunk size off id : ℕ) → size ≤ off → chunk_loop fuel chunk size off id ≡ []
unfolding chunk_loop
chunk_loop_end zero chunk size off id h = refl
chunk_loop_end (suc fuel) chunk size off id h = rw (le→ltb off size h)

chunk_loop-Tiles :
    (fuel chunk size off id : ℕ)
    → 0 < chunk
    → size < u64_mod
    → off ≤ size
    → size ≤ off + fuel * chunk
    → Tiles chunk size off (chunk_loop fuel chunk size off id)
chunk_loop-Tiles zero chunk size off id p w h k =
    let same : off ≡ size = omega arith in
    rw (chunk_loop_end zero chunk size off id (omega arith)) same
chunk_loop-Tiles (suc fuel) chunk size off id p w h k = elim (Bool-cases (ltb off size)) [
  | inr ended ↦
      let same : off ≡ size = omega (arith, ltb→le off size ended) in
      rw (chunk_loop_end (suc fuel) chunk size off id (ltb→le off size ended)) same
  | inl more ↦
      let lt = ltb→lt off size more in
      rw (chunk_loop_round fuel chunk size off id w lt) (
        refl,
        omega arith,
        omega arith,
        omega arith,
        chunk_loop-Tiles fuel chunk size (off + min chunk (size - off)) (add32 id 1) p w
            (omega arith) (omega arith),
      )
]

-- The fuel of the constructor is enough.
fuel_enough : (size chunk : ℕ) → 0 < chunk → size ≤ 0 + (size / chunk + 1) * chunk
fuel_enough size chunk h = grind arith

-- The slice of an index that starts before the end of the file.
chunk_loop_at :
    (fuel chunk size off id k : ℕ)
    → size < u64_mod
    → off + k * chunk < size
    → size ≤ off + fuel * chunk
    → id + k < u32_mod
    → get_elem? (chunk_loop fuel chunk size off id) k
      ≡ some (record {
        id = id + k;
        offset = off + k * chunk;
        bytes = min chunk (size - (off + k * chunk));
      })
chunk_loop_at zero chunk size off id k w lt h b = absurd (omega arith)
chunk_loop_at (suc fuel) chunk size off id zero w lt h b =
    rw (chunk_loop_round fuel chunk size off id w (omega arith)) (ground arith)
chunk_loop_at (suc fuel) chunk size off id (suc k) w lt h b =
    let whole : min chunk (size - off) ≡ chunk = omega arith in
    rw (chunk_loop_round fuel chunk size off id w (omega arith), whole)
      (chunk_loop_at fuel chunk size (off + chunk) (add32 id 1) k w (omega arith) (omega arith)
          (omega (arith, add32_lem id 1))
        ∙ ground (arith, add32_lem id 1))

chunk_loop_past :
    (fuel chunk size off id k : ℕ)
    → 0 < chunk
    → size < u64_mod
    → size ≤ off + k * chunk
    → get_elem? (chunk_loop fuel chunk size off id) k ≡ none
unfolding chunk_loop
chunk_loop_past zero chunk size off id k p w h = refl
chunk_loop_past (suc fuel) chunk size off id zero p w h =
    rw (chunk_loop_end (suc fuel) chunk size off id (omega arith)) refl
chunk_loop_past (suc fuel) chunk size off id (suc k) p w h = elim (Bool-cases (ltb off size)) [
  | inr ended ↦ rw (chunk_loop_end (suc fuel) chunk size off id (ltb→le off size ended)) refl
  | inl more ↦ rw (chunk_loop_round fuel chunk size off id w (ltb→lt off size more)) (
      chunk_loop_past fuel chunk size (off + min chunk (size - off)) (add32 id 1) k p w
        (past (ltb→lt off size more)))
]
  where
    past : off < size → size ≤ off + min chunk (size - off) + k * chunk
    past more = omega arith

-- How many chunks of a size cover a range: the quotient, rounded up.
abbrev pub div_ceil : ℕ → ℕ → ℕ
div_ceil a b = (a + b - 1) / b

div_ceil_zero : (b : ℕ) → 0 < b → div_ceil 0 b ≡ 0
div_ceil_zero b p = div-eq_of_lt (omega arith)

div_ceil_step : (a b : ℕ) → 0 < b → 0 < a → div_ceil a b ≡ 1 + div_ceil (a - min b a) b
div_ceil_step a b p h = div-eq-sub-div p (omega arith) ∙ elim (Bool-cases (ltb a b)) [
  | inl small ↦
      let below = ltb→lt a b small in
      omega (
        arith,
        div-eq_of_lt {n = a + b - 1 - b} {m = b} (omega arith),
        div-eq_of_lt {n = a - min b a + b - 1} {m = b} (omega arith),
      )
  | inr large ↦
      let above = ltb→le a b large in
      let same : a + b - 1 - b ≡ a - min b a + b - 1 = omega arith in rw same (omega arith)
]

length-chunk_loop :
    (fuel chunk size off id : ℕ)
    → 0 < chunk
    → size < u64_mod
    → size ≤ off + fuel * chunk
    → length (chunk_loop fuel chunk size off id) ≡ div_ceil (size - off) chunk
length-chunk_loop zero chunk size off id p w h =
    let nothing : size - off ≡ 0 = omega arith in
    rw (chunk_loop_end zero chunk size off id (omega arith), nothing) (sym (div_ceil_zero chunk p))
length-chunk_loop (suc fuel) chunk size off id p w h = elim (Bool-cases (ltb off size)) [
  | inr ended ↦
      let le = ltb→le off size ended in
      let nothing : size - off ≡ 0 = omega arith in
      rw (chunk_loop_end (suc fuel) chunk size off id le, nothing) (sym (div_ceil_zero chunk p))
  | inl more ↦
      let lt = ltb→lt off size more in
      let rest : size - (off + min chunk (size - off)) ≡ size - off - min chunk (size - off) =
        omega arith in
      let ih =
        length-chunk_loop fuel chunk size (off + min chunk (size - off)) (add32 id 1) p w
          (omega arith) in
      rw (chunk_loop_round fuel chunk size off id w lt) (
        ap suc (ih ∙ ap (λ (a : ℕ). div_ceil a chunk) rest)
        ∙ (omega (arith, div_ceil_step (size - off) chunk p (omega arith))))
]

-- The store of a mapped file.
module _ (size chunk : ℕ) (nonempty : 0 < size) (positive : 0 < chunk) (word : size < u64_mod) where
  store_of : TensorStore
  store_of = record {
    file_size = size;
    chunk_bytes = chunk;
    slices = chunk_loop (size / chunk + 1) chunk size 0 0;
  }

  -- For a positive chunk size and a file that is not empty and whose size is a 64-bit word the
  -- constructor succeeds, and its slices start at 0, follow one another without gap or overlap,
  -- are never empty or longer than the chunk size, and end with the file.
  pub make-Tiles : (t : TensorStore) × (make size chunk ≡ ok t) × Tiles chunk size 0 t.slices
  unfolding make store_of
  make-Tiles = (
    store_of,
    ground arith,
    chunk_loop-Tiles (size / chunk + 1) chunk size 0 0 positive word (omega arith)
        (fuel_enough size chunk positive),
  )

  enough : size ≤ 0 + (size / chunk + 1) * chunk
  enough = fuel_enough size chunk positive

  -- For a positive chunk size and a file that is not empty and whose size is a 64-bit word,
  -- `slice` of a 32-bit index returns the chunk that starts at the index times the chunk size, cut
  -- at the end of the file, if that lies inside the file, and throws otherwise.
  pub make-slice :
      (id : ℕ)
      → id < u32_mod
      → (t : TensorStore) × (make size chunk ≡ ok t)
        × (((id * chunk < size)
              × (slice t id
                  ≡ ok (record {
                    id = id;
                    offset = id * chunk;
                    bytes = min chunk (size - id * chunk);
                  })))
            ⊎ ((size ≤ id * chunk) × (slice t id ≡ err out_of_range)))
  unfolding make slice store_of
  make-slice id b = (
    store_of,
    ground arith,
    elim (Bool-cases (ltb (id * chunk) size)) [
      | inl inside ↦
          let h = ltb→lt (id * chunk) size inside in
          inl (
            h,
            rw
                (chunk_loop_at (size / chunk + 1) chunk size 0 0 id word (omega arith) enough
                  (omega arith))
                (ground arith),
          )
      | inr beyond ↦
          let h = ltb→le (id * chunk) size beyond in
          inr (
            h,
            rw (chunk_loop_past (size / chunk + 1) chunk size 0 0 id positive word (omega arith))
                refl,
          )
    ],
  )

  -- For a positive chunk size and a file that is not empty and whose size is a 64-bit word, `count` is the size over the
  -- chunk size, rounded up, if that is a 32-bit word.
  pub make-count :
      div_ceil size chunk < u32_mod
      → (t : TensorStore) × (make size chunk ≡ ok t) × (count t ≡ div_ceil size chunk)
  unfolding make count store_of
  make-count few = (
    store_of,
    ground arith,
    count_lem (length-chunk_loop (size / chunk + 1) chunk size 0 0 positive word enough),
  )
    where
      count_lem : {n : ℕ} → n ≡ div_ceil (size - 0) chunk → n % u32_mod ≡ div_ceil size chunk
      count_lem e = let z : size - 0 ≡ size = omega arith in rw (e, z) (ground (arith, few))

  pub make-length :
      (t : TensorStore) × (make size chunk ≡ ok t) × (length t.slices ≡ div_ceil size chunk)
  unfolding make store_of
  make-length = (
    store_of,
    ground arith,
    length-chunk_loop (size / chunk + 1) chunk size 0 0 positive word enough
        ∙ ap (λ (a : ℕ). div_ceil a chunk) (omega arith),
  )

-- A store is made of a file that is not empty, for a positive chunk size only.
pub make-positive :
    (size chunk : ℕ) {t : TensorStore} → make size chunk ≡ ok t → (0 < size) × (0 < chunk)
unfolding make
make-positive size chunk h = (ground (arith, h), ground (arith, h))
