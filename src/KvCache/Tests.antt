-- ===== src/KvCache/Tests.antt =====
-- Caches of numbers without sign, in place of `float`.
use mem_vanta.Prelude.{
  ℕ, zero, suc, ◌+◌, ◌*◌, ◌≡◌, ◌≢◌, refl, subst, none, some, [], ◌∷◌, arith, ok, err,
}
use mathlib.Core.Option.{some-injective}
use mem_vanta.Gguf.Types.{bytes_eq}
use mem_vanta.Prelude.Float.{numbers}
use mem_vanta.KvCache.{
  KvCacheType, f32, f16, q8, out_of_bounds, page_missing, Page, PagedKvCache, new_page, make,
  parse_kv_cache_type, kv_cache_type_name,
}
use mem_vanta.KvCache.Calls.{write, dot_key, add_value, bytes_allocated}
use mem_vanta.KvCache.Pages.{Fits, AllFit, IsCache, make-IsCache}
use mem_vanta.KvCache.Stored.{stored_dot, stored_add}
use mem_vanta.KvCache.ReadBack.{write-IsCache, write-Reads}
use mem_vanta.KvCache.Unchanged.{write-Agree}
use mem_vanta.KvCache.Memory.{Counts, page_bytes, bytes_allocated-Counts}

-- Rows of two, pages of two rows, one byte for each number.
abbrev empty : PagedKvCache numbers
empty = make numbers 2 2 q8

empty-IsCache : IsCache numbers empty
empty-IsCache = make-IsCache numbers 2 2 q8

abbrev counting : ℕ → ℕ
counting d = d + 1

write-IsCache_example :
    IsCache numbers (write numbers 5 (some counting) none empty).0
    × ((write numbers 5 (some counting) none empty).1 ≢ err out_of_bounds)
write-IsCache_example =
    write-IsCache numbers empty 5 (some counting) none empty-IsCache (omega arith)

write-Reads_example :
    ((write numbers 5 (some counting) (some counting) empty).1 ≡ ok tt)
    × (dot_key numbers 5 1
          (some counting)
          1
          (write numbers 5 (some counting) (some counting) empty).0
        ≡ ok (stored_dot numbers 2 q8 counting 1 counting 1))
    × (add_value numbers 5 1 3
          (some counting)
          1
          (write numbers 5 (some counting) (some counting) empty).0
        ≡ ok (stored_add numbers 2 q8 counting 1 3 counting 1))
unfolding make
write-Reads_example =
    write-Reads numbers empty 5 counting counting 1 1 counting 3 counting empty-IsCache
      (omega arith) (omega arith) (omega arith) (omega arith)

abbrev first_page : Page numbers
first_page = new_page numbers f32 4 2

-- A cache with a page.
abbrev one_page : PagedKvCache numbers
one_page = record { kv_dim = 2; page_tokens = 2; kind = f32; pages = some first_page ∷ [] }

first_page-Fits : Fits numbers one_page first_page
unfolding Fits new_page
first_page-Fits = (omega arith, refl)

one_page-AllFit : AllFit numbers one_page one_page.pages
unfolding AllFit
one_page-AllFit zero pg e = subst (Fits numbers one_page) (some-injective _ _ e) first_page-Fits
one_page-AllFit (suc p) pg e = cc

one_page-IsCache : IsCache numbers one_page
one_page-IsCache = record { tokens = omega arith; fits = one_page-AllFit }

write-Agree_example :
    (dot_key numbers 1 0
        (some counting)
        2
        (write numbers 0 (some counting) (some counting) one_page).0
      ≡ dot_key numbers 1 0 (some counting) 2 one_page)
    × (add_value numbers 1 0 3
          (some counting)
          2
          (write numbers 0 (some counting) (some counting) one_page).0
        ≡ add_value numbers 1 0 3 (some counting) 2 one_page)
write-Agree_example =
    write-Agree numbers one_page 0 (some counting) (some counting) 1 0 2 (some counting) 3
      (some counting) first_page one_page-IsCache (omega arith) (omega arith) refl

bytes_allocated-Counts_example : Counts (1 * page_bytes f32 4 2) (bytes_allocated numbers one_page)
bytes_allocated-Counts_example = bytes_allocated-Counts numbers one_page one_page-IsCache

missing_test : dot_key numbers 2 0 (some counting) 2 one_page ≡ err page_missing
unfolding dot_key
missing_test = refl

names_test : (kind : KvCacheType) → parse_kv_cache_type (kv_cache_type_name kind) ≡ ok kind
unfolding parse_kv_cache_type kv_cache_type_name bytes_eq
names_test f32 = refl
names_test f16 = refl
names_test q8 = refl
