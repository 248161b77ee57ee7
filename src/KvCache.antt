-- ===== src/KvCache.antt =====
-- `PagedKVCache` of include/memvanta/llama_model.hpp and src/llama_model.cpp, with the loops of a
-- build without vector instructions. Operations on `float` are the parameter `S`. A pointer to
-- floats is the function from positions to values, and `none` the null pointer. What reads or
-- writes past a vector's end is undefined in C++, and the error `out_of_bounds` here.
pub mod Encode
pub mod Calls
pub mod Pages
pub mod Rows
pub mod Stored
pub mod Others
pub mod Writes
pub mod ReadBack
pub mod Unchanged
pub mod Memory
mod Tests
use mem_vanta.Prelude.{
  ℕ, zero, suc, ◌+◌, ◌-◌, ◌/◌, ◌%◌, Bool, true, false, not, ◌&&◌, ◌||◌, Option, none, some, List,
  [], ◌∷◌, ◌++◌, ltb, leb, ◌==◌, if◌then◌else◌, length, get_elem?, replicate, Result, ok, err,
  ◌>>=◌,
}
use mem_vanta.Prelude.Float.{Single}
use mem_vanta.Prelude.Int.{ℤ, pos, negsuc, ltb_ℤ}
use mem_vanta.CheckedMath.{SizeError, checked_add_size, checked_mul_size}
use mem_vanta.Gguf.Types.{Bytes, bytes_eq}
use mem_vanta.Half.{fp16_to_fp32, fp32_to_fp16}

pub data KvCacheType : Type 0 where
  f32 f16 q8 : KvCacheType

pub data KvError : Type 0 where
  unknown_type null_input overflow slice_out_of_bounds null_pointer page_missing out_of_bounds :
      KvError

unfoldable pub parse_kv_cache_type : Bytes → Result KvError KvCacheType
unfolding bytes_eq
parse_kv_cache_type s =
    if bytes_eq s (b'f' ∷ b'3' ∷ b'2' ∷ [])
    then ok f32
    else if bytes_eq s (b'f' ∷ b'1' ∷ b'6' ∷ [])
    then ok f16
    else if bytes_eq s (b'q' ∷ b'8' ∷ []) || bytes_eq s (b'q' ∷ b'8' ∷ b'_' ∷ b'0' ∷ [])
    then ok q8
    else err unknown_type

unfoldable pub kv_cache_type_name : KvCacheType → Bytes
kv_cache_type_name f32 = b'f' ∷ b'3' ∷ b'2' ∷ []
kv_cache_type_name f16 = b'f' ∷ b'1' ∷ b'6' ∷ []
kv_cache_type_name q8 = b'q' ∷ b'8' ∷ []

-- A `std::vector`: its size, and its elements.
pub record Vec (A : Type 0) : Type 0 where
  pub size : ℕ
  pub at : ℕ → A

abbrev pub filled : {A : Type 0} → ℕ → A → Vec A
filled n a = record { size = n; at = λ i. a }

-- `n` writes from the position `off` on, by a loop or by `memcpy`.
unfoldable pub store : {A : Type 0} → ℕ → ℕ → (ℕ → A) → Vec A → Result KvError (Vec A)
store off n g v =
    if ltb v.size (off + n)
    then err out_of_bounds
    else ok (record {
      size = v.size;
      at = λ i. if leb off i && ltb i (off + n) then g (i - off) else v.at i;
    })

-- `n` reads from the position `off` on.
unfoldable pub load : {A : Type 0} → ℕ → ℕ → Vec A → Result KvError (ℕ → A)
load off n v = if ltb v.size (off + n) then err out_of_bounds else ok (λ d. v.at (off + d))

abbrev pub lift : {A : Type 0} → Result SizeError A → Result KvError A
lift (ok a) = ok a
lift (err e) = err overflow

module _ (S : Single) where
  open S use {F, nought, one, add, mul, div, abs, lt, of_int, lround, to_bits, of_bits}

  pub record Page : Type 0 where
    pub k32 : Vec F
    pub v32 : Vec F
    pub k16 : Vec ℕ
    pub v16 : Vec ℕ
    pub k8 : Vec ℤ
    pub v8 : Vec ℤ
    pub ks : Vec F
    pub vs : Vec F

  pub record PagedKvCache : Type 0 where
    pub kv_dim : ℕ
    pub page_tokens : ℕ
    pub kind : KvCacheType
    pub pages : List (Option Page)

  abbrev nothing : {A : Type 0} → A → Vec A
  nothing a = filled 0 a

  -- `Page::Page`
  unfoldable pub new_page : KvCacheType → ℕ → ℕ → Page
  new_page f32 elems tokens = record {
    k32 = filled elems nought;
    v32 = filled elems nought;
    k16 = nothing 0;
    v16 = nothing 0;
    k8 = nothing (pos 0);
    v8 = nothing (pos 0);
    ks = nothing nought;
    vs = nothing nought;
  }
  new_page f16 elems tokens = record {
    k32 = nothing nought;
    v32 = nothing nought;
    k16 = filled elems 0;
    v16 = filled elems 0;
    k8 = nothing (pos 0);
    v8 = nothing (pos 0);
    ks = nothing nought;
    vs = nothing nought;
  }
  new_page q8 elems tokens = record {
    k32 = nothing nought;
    v32 = nothing nought;
    k16 = nothing 0;
    v16 = nothing 0;
    k8 = filled elems (pos 0);
    v8 = filled elems (pos 0);
    ks = filled tokens nought;
    vs = filled tokens nought;
  }

  unfoldable pub make : ℕ → ℕ → KvCacheType → PagedKvCache
  make d p kind = record {
    kv_dim = d;
    page_tokens = if p == 0 then 128 else p;
    kind = kind;
    pages = [];
  }

  abbrev pub with_pages : List (Option Page) → PagedKvCache → PagedKvCache
  with_pages ps c = record {
    kv_dim = c.kv_dim;
    page_tokens = c.page_tokens;
    kind = c.kind;
    pages = ps;
  }

  unfoldable pub reset : PagedKvCache → PagedKvCache
  reset c = with_pages [] c

  -- The pages once one of them is set.
  abbrev pub set_page : List (Option Page) → ℕ → Page → List (Option Page)
  set_page [] p pg = []
  set_page (x ∷ ps) zero pg = some pg ∷ ps
  set_page (x ∷ ps) (suc p) pg = x ∷ set_page ps p pg

  abbrev pub page_at : List (Option Page) → ℕ → Option Page
  page_at [] p = none
  page_at (x ∷ ps) zero = x
  page_at (x ∷ ps) (suc p) = page_at ps p

  -- What `ensure` does about a page, when the vector of pages is long enough.
  unfoldable pub ensure_page : ℕ → PagedKvCache → PagedKvCache × Result KvError Page
  unfolding new_page
  ensure_page p c = elim (page_at c.pages p) [
    | some pg ↦ (c, ok pg)
    | none ↦ elim (checked_mul_size c.page_tokens c.kv_dim) [
      | err e ↦ (c, err overflow)
      | ok elems ↦
          let pg = new_page c.kind elems c.page_tokens in
          (with_pages (set_page c.pages p pg) c, ok pg)
    ]
  ]

  unfoldable pub ensure : ℕ → PagedKvCache → PagedKvCache × Result KvError Page
  unfolding ensure_page
  ensure p c =
      let grown = λ (n : ℕ). with_pages (c.pages ++ replicate (n - length c.pages) none) c in
      if ltb p (length c.pages) then ensure_page p c else elim (checked_add_size p 1) [
        | err e ↦ (c, err overflow)
        | ok n ↦ ensure_page p (grown n)
      ]
