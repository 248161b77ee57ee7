-- ===== src/KvCache/Rows.antt =====
-- Rows of a page: what `write_page` writes, and what `dot_page` and `add_page` read of it.
use mem_vanta.Prelude.{
  ℕ, zero, suc, ◌+◌, ◌-◌, ◌*◌, ◌≤◌, ◌<◌, ◌≡◌, refl, ap, ◌∙◌, true, false, ◌&&◌, List, arith, ltb,
  leb, if◌then◌else◌, get_or, ok, err, ◌⊎◌, inl, inr, if-cases, u64_mod,
}
use mem_vanta.CheckedMath.{checked_mul_size_lem}
use mem_vanta.Prelude.Float.{Single, dot}
use mem_vanta.KvCache.{KvCacheType, f32, f16, q8, overflow, Vec, store, load, Page, new_page}
use mem_vanta.KvCache.Encode.{scale, quantized, half, write_page}
use mem_vanta.KvCache.Calls.{axpy, vectors}

-- A vector after `n` writes from the position `off` on.
abbrev pub poke : {A : Type 0} → ℕ → ℕ → (ℕ → A) → Vec A → Vec A
poke off n g v = record {
  size = v.size;
  at = λ i. if leb off i && ltb i (off + n) then g (i - off) else v.at i;
}

pub store_lem :
    {A : Type 0} (off n : ℕ) (g : ℕ → A) (v : Vec A)
    → off + n ≤ v.size
    → store off n g v ≡ ok (poke off n g v)
unfolding store
store_lem off n g v h = let fits : ltb v.size (off + n) ≡ false = ground arith in rw fits refl

pub load_lem :
    {A : Type 0} (off n : ℕ) (v : Vec A)
    → off + n ≤ v.size
    → load off n v ≡ ok (λ d. v.at (off + d))
unfolding load
load_lem off n v h = let fits : ltb v.size (off + n) ≡ false = ground arith in rw fits refl

-- A position that was written, and one that was not.
pub poke-inside :
    {A : Type 0} (off n d : ℕ) (g : ℕ → A) (v : Vec A) → d < n → (poke off n g v).at (off + d) ≡ g d
poke-inside off n d g v h =
    let inside : (leb off (off + d) && ltb (off + d) (off + n)) ≡ true = ground arith in
    rw inside (ap g (omega arith))

pub poke-outside :
    {A : Type 0} (off n i : ℕ) (g : ℕ → A) (v : Vec A)
    → (i < off) ⊎ (off + n ≤ i)
    → (poke off n g v).at i ≡ v.at i
poke-outside off n i g v h =
    let outside : (leb off i && ltb i (off + n)) ≡ false = ground arith in rw outside refl

module _ (S : Single) where
  open S use {F, add, mul}

  pub dot-ext : (n : ℕ) (q f g : ℕ → F) → ((d : ℕ) → d < n → f d ≡ g d) → dot S n q f ≡ dot S n q g
  unfolding dot
  dot-ext zero q f g h = refl
  dot-ext (suc n) q f g h =
      ap (λ x. add x (mul (q n) (f n))) (dot-ext n q f g (λ d lt. h d (omega arith)))
      ∙ ap (λ y. add (dot S n q g) (mul (q n) y)) (h n (omega arith))

  pub axpy-ext :
      (n : ℕ) (a : F) (f g out : ℕ → F)
      → ((d : ℕ) → d < n → f d ≡ g d)
      → axpy S n a f out ≡ axpy S n a g out
  unfolding axpy
  axpy-ext n a f g out h = λ i d.
      if-cases (λ y. y ≡ axpy S n a g out d) (ltb d n) (add (out d) (mul a (f d))) (out d)
        (λ lt. rw (lt, h d (ground arith)) refl) (λ ge. rw ge refl) i

  -- The page after a row was written.
  unfoldable pub written : ℕ → KvCacheType → (ℕ → F) → (ℕ → F) → ℕ → ℕ → Page S → Page S
  written dim f32 k v off i pg = record {
    k32 = poke off dim k pg.k32;
    v32 = poke off dim v pg.v32;
    k16 = pg.k16;
    v16 = pg.v16;
    k8 = pg.k8;
    v8 = pg.v8;
    ks = pg.ks;
    vs = pg.vs;
  }
  written dim f16 k v off i pg = record {
    k32 = pg.k32;
    v32 = pg.v32;
    k16 = poke off dim (half S k) pg.k16;
    v16 = poke off dim (half S v) pg.v16;
    k8 = pg.k8;
    v8 = pg.v8;
    ks = pg.ks;
    vs = pg.vs;
  }
  written dim q8 k v off i pg = record {
    k32 = pg.k32;
    v32 = pg.v32;
    k16 = pg.k16;
    v16 = pg.v16;
    k8 = poke off dim (quantized S k (scale S dim k)) pg.k8;
    v8 = poke off dim (quantized S v (scale S dim v)) pg.v8;
    ks = poke i 1 (λ d. scale S dim k) pg.ks;
    vs = poke i 1 (λ d. scale S dim v) pg.vs;
  }

  pub vectors-written :
      (dim : ℕ) (kind : KvCacheType) (k v : ℕ → F) (off i : ℕ) (pg : Page S)
      → vectors S (written dim kind k v off i pg) ≡ vectors S pg
  unfolding written
  vectors-written dim f32 k v off i pg = refl
  vectors-written dim f16 k v off i pg = refl
  vectors-written dim q8 k v off i pg = refl

  -- The size of a vector of a page that fits.
  unfoldable pub SizeAt : ℕ → (pg : Page S) (kind : KvCacheType) (elems tokens : ℕ) → Type 0
  SizeAt j pg kind elems tokens =
      (get_or (vectors S pg) j (0, 0)).0
      ≡ (get_or (vectors S (new_page S kind elems tokens)) j (0, 0)).0

  pub size_lem :
      (pg : Page S) (kind : KvCacheType) (elems tokens j : ℕ)
      → vectors S pg ≡ vectors S (new_page S kind elems tokens)
      → SizeAt j pg kind elems tokens
  unfolding SizeAt
  size_lem pg kind elems tokens j e = ap (λ (l : List (ℕ × ℕ)). (get_or l j (0, 0)).0) e

  pub write_page_lem :
      (dim : ℕ) (kind : KvCacheType) (k v : ℕ → F) (off i : ℕ) (pg : Page S) (elems tokens : ℕ)
      → vectors S pg ≡ vectors S (new_page S kind elems tokens)
      → off + dim ≤ elems
      → i < tokens
      → (write_page S dim kind k v off i pg ≡ ok (written dim kind k v off i pg))
        ⊎ ((u64_mod ≤ dim * 4) × (write_page S dim kind k v off i pg ≡ err overflow))
  unfolding write_page written SizeAt new_page
  write_page_lem dim f32 k v off i pg elems tokens e h lt = elim (checked_mul_size_lem dim 4) [
    | inr (big, f) ↦ inr (big, rw f refl)
    | inl (small, f) ↦
        let a : pg.k32.size ≡ elems = size_lem pg f32 elems tokens 0 e in
        let b : pg.v32.size ≡ elems = size_lem pg f32 elems tokens 1 e in
        inl (
          rw (f, store_lem off dim k pg.k32 (omega arith), store_lem off dim v pg.v32 (omega arith))
            refl)
  ]
  write_page_lem dim f16 k v off i pg elems tokens e h lt =
      let a : pg.k16.size ≡ elems = size_lem pg f16 elems tokens 2 e in
      let b : pg.v16.size ≡ elems = size_lem pg f16 elems tokens 3 e in
      inl (
        rw
          (
            store_lem off dim (half S k) pg.k16 (omega arith),
            store_lem off dim (half S v) pg.v16 (omega arith),
          )
          refl)
  write_page_lem dim q8 k v off i pg elems tokens e h lt =
      let a : pg.k8.size ≡ elems = size_lem pg q8 elems tokens 4 e in
      let b : pg.v8.size ≡ elems = size_lem pg q8 elems tokens 5 e in
      let c : pg.ks.size ≡ tokens = size_lem pg q8 elems tokens 6 e in
      let d : pg.vs.size ≡ tokens = size_lem pg q8 elems tokens 7 e in
      inl (
        rw
          (
            store_lem i 1 (λ d. scale S dim k) pg.ks (omega arith),
            store_lem i 1 (λ d. scale S dim v) pg.vs (omega arith),
            store_lem off dim (quantized S k (scale S dim k)) pg.k8 (omega arith),
            store_lem off dim (quantized S v (scale S dim v)) pg.v8 (omega arith),
          )
          refl)
