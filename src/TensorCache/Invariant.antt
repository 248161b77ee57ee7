-- ===== src/TensorCache/Invariant.antt =====
-- The state invariant of `TensorCache`, and one round of eviction.
use mem_vanta.Prelude.{
  ℕ, suc, ◌+◌, ◌≤◌, ◌<◌, ◌≡◌, refl, false, ◌||◌, some, List, [], ◌∷◌, ◌++◌, arith, ◌==◌,
  if◌then◌else◌, length, elem, Distinct, u64_mod, sub64_lem,
}
use mem_vanta.Prelude.Dict.{
  find, contains, total, DistinctKeys, total-erase_key, le-total, contains-erase_key_ne,
  contains-erase_key_self, erase_key-DistinctKeys,
}
use mem_vanta.TensorCache.{TensorCache, Entry, size_of, init, back, pop_back, evict_entry}

-- The bytes that an entry adds to `prefetched_used_`.
abbrev pub prefetched_size : Entry → ℕ
prefetched_size e = if e.prefetched then size_of e else 0

pub record Inv (c : TensorCache) : Type 0 where
  pub capacity_fits : c.capacity < u64_mod
  pub agree : (i : ℕ) → contains i c.entries ≡ elem i c.lru
  pub lru_distinct : Distinct c.lru
  pub keys_distinct : DistinctKeys c.entries
  pub used_total : c.used ≡ total size_of c.entries
  pub used_bounded : c.used ≤ c.capacity
  pub prefetched_total : c.prefetched_used ≡ total prefetched_size c.entries
  pub peak_above : c.prefetched_used ≤ c.peak_prefetched_used
  pub peak_bounded : c.peak_prefetched_used ≤ c.capacity

pub init-Inv : (cap : ℕ) → cap < u64_mod → Inv (init cap)
unfolding init
init-Inv cap h = record {
  capacity_fits = h;
  agree = λ i. refl;
  lru_distinct = tt;
  keys_distinct = tt;
  used_total = refl;
  used_bounded = omega arith;
  prefetched_total = refl;
  peak_above = omega arith;
  peak_bounded = omega arith;
}

pub back-pop_back : (xs : List ℕ) (x : ℕ) → back xs ≡ some x → xs ≡ pop_back xs ++ x ∷ []
back-pop_back [] x h = cc
back-pop_back (y ∷ []) x h = ground arith
back-pop_back (y ∷ z ∷ xs) x h = rw (← back-pop_back (z ∷ xs) x h)

pub length-pop_back :
    (xs : List ℕ) (x : ℕ) → back xs ≡ some x → length xs ≡ suc (length (pop_back xs))
length-pop_back [] x h = cc
length-pop_back (y ∷ []) x h = refl
length-pop_back (y ∷ z ∷ xs) x h = omega (arith, length-pop_back (z ∷ xs) x h)

pub elem-pop_back :
    (i : ℕ) (xs : List ℕ) (x : ℕ)
    → back xs ≡ some x
    → elem i xs ≡ (elem i (pop_back xs) || (i == x))
elem-pop_back i [] x h = cc
elem-pop_back i (y ∷ []) x h = ground arith
elem-pop_back i (y ∷ z ∷ xs) x h = ground (arith, elem-pop_back i (z ∷ xs) x h)

pub pop_back-Distinct :
    (xs : List ℕ) (x : ℕ)
    → back xs ≡ some x
    → Distinct xs
    → Distinct (pop_back xs) × (elem x (pop_back xs) ≡ false)
pop_back-Distinct [] x h d = cc
pop_back-Distinct (y ∷ []) x h d = (tt, refl)
pop_back-Distinct (y ∷ z ∷ xs) x h d =
    let ih = pop_back-Distinct (z ∷ xs) x h d.1 in
    (
      (ground (arith, elem-pop_back y (z ∷ xs) x h), ih.0),
      ground (arith, ih.1, elem-pop_back y (z ∷ xs) x h),
    )

pub prefetched_size-le : (e : Entry) → prefetched_size e ≤ size_of e
prefetched_size-le e = ground arith

module _ {c : TensorCache} (v : Inv c) {id : ℕ} {e : Entry} (last : back c.lru ≡ some id)
    (found : find id c.entries ≡ some e) where
  pub used-evict_entry : (evict_entry c id e).used + size_of e ≡ c.used
  unfolding evict_entry
  used-evict_entry =
      rw
        (sub64_lem c.used (size_of e) (omega (arith, v))
          (omega (arith, v, le-total size_of id c.entries e found)))
        (omega (arith, v, le-total size_of id c.entries e found))

  pub prefetched-evict_entry :
      (evict_entry c id e).prefetched_used + prefetched_size e ≡ c.prefetched_used
  unfolding evict_entry
  prefetched-evict_entry = ground (
    arith,
    v,
    sub64_lem c.prefetched_used (size_of e),
    le-total prefetched_size id c.entries e found,
  )

  agree-evict_entry :
      (i : ℕ) → contains i (evict_entry c id e).entries ≡ elem i (evict_entry c id e).lru
  unfolding evict_entry
  agree-evict_entry i = ground (
    arith,
    v.agree i,
    elem-pop_back i c.lru id last,
    pop_back-Distinct c.lru id last v.lru_distinct,
    contains-erase_key_ne id i c.entries,
    contains-erase_key_self id c.entries v.keys_distinct,
  )

  pub evict_entry-Inv : Inv (evict_entry c id e)
  unfolding evict_entry
  evict_entry-Inv = record {
    capacity_fits = v.capacity_fits;
    agree = agree-evict_entry;
    lru_distinct = (pop_back-Distinct c.lru id last v.lru_distinct).0;
    keys_distinct = erase_key-DistinctKeys id c.entries v.keys_distinct;
    used_total = omega (arith, used-evict_entry, v, total-erase_key size_of id c.entries e found);
    used_bounded = omega (arith, used-evict_entry, v);
    prefetched_total =
        omega
          (arith, prefetched-evict_entry, v, total-erase_key prefetched_size id c.entries e found);
    peak_above = omega (arith, prefetched-evict_entry, v);
    peak_bounded = v.peak_bounded;
  }
