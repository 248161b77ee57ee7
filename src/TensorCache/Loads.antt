-- ===== src/TensorCache/Loads.antt =====
-- The public methods of `TensorCache`: the invariant on every branch, and what each call does.
use mem_vanta.Prelude.{
  ℕ, ◌≤◌, ◌<◌, ◌≡◌, refl, true, false, ◌&&◌, not, ◌⊎◌, inl, inr, none, some, List, arith, ◌==◌, ◌≢◌,
  Bool-cases, Option-cases, Result, ok, err, ltb, ==_iff, u64_max, le→ltb, ltb→lt, ltb→le,
}
use mem_vanta.Prelude.Dict.{find, contains, contains-find-none}
use mem_vanta.TensorCache.{
  TensorCache, Entry, Source, CacheError, null_source, larger_than_capacity, copy_bytes, add_entry,
  hit, load, is_null, count_miss, count_prefetched, get_or_load, insert_prefetched,
}
use mem_vanta.TensorCache.Invariant.{Inv}
use mem_vanta.TensorCache.Rounds.{Evicts, evict_for-Evicts}
use mem_vanta.TensorCache.Eviction.{Evicts-Evicted}
use mem_vanta.TensorCache.Changes.{
  Readable, hit-Inv, Evicts-absent, add_entry-Inv, prefetched_in-Inv,
}

-- How `load` ends: it refuses and changes nothing, or it evicts and copies the source to the front.
pub data Loaded (c : TensorCache) (id : ℕ) (src : Source) (n : ℕ)
    : TensorCache × Result CacheError (List ℕ) → Type 0 where
  too_large : c.capacity < n → Loaded c id src n (c, err larger_than_capacity)
  null : n ≤ c.capacity → src ≡ none → n ≢ 0 → Loaded c id src n (c, err null_source)
  loads :
      {d : TensorCache}
      → Readable src n
      → Evicts n c d
      → Loaded c id src n (add_entry d id (copy_bytes src n) n false, ok (copy_bytes src n))

null_or_Readable :
    (src : Source) (n : ℕ)
    → ((not (n == 0) && is_null src) ≡ true) × (src ≡ none) × (n ≢ 0)
      ⊎ (((not (n == 0) && is_null src) ≡ false) × Readable src n)
null_or_Readable none n = elim (Bool-cases (n == 0)) [
  | inl zero_bytes ↦ inr (rw zero_bytes, (==_iff n 0).0 zero_bytes)
  | inr some_bytes ↦ inl (rw some_bytes, refl, λ e. ground arith)
]
null_or_Readable (some src) n = inr (ground arith, tt)

load-Loaded :
    {c : TensorCache} (id : ℕ) (src : Source) (n : ℕ) → Inv c → Loaded c id src n (load c id src n)
unfolding load
load-Loaded {c} id src n v = elim (Bool-cases (ltb c.capacity n)) [
  | inl large ↦ rw large (too_large (ltb→lt c.capacity n large))
  | inr small ↦
      let fits = ltb→le c.capacity n small in
      rw (small, le→ltb u64_max n (omega (arith, v)))
        (elim (null_or_Readable src n) [
          | inl (test, is_none, nonzero) ↦ rw test (null fits is_none nonzero)
          | inr (test, readable) ↦
              let (d, run, rounds) = evict_for-Evicts n c v fits in
              rw (test, run) (loads readable rounds)
        ])
]

Loaded-Inv :
    {c : TensorCache} {id : ℕ} {src : Source} {n : ℕ} {r : TensorCache × Result CacheError (List ℕ)}
    → Inv c
    → contains id c.entries ≡ false
    → Loaded c id src n r
    → Inv r.0
Loaded-Inv v absent (too_large _) = v
Loaded-Inv v absent (null _ _ _) = v
Loaded-Inv {id} {src} {n} v absent (loads _ rounds) =
    let w = Evicts-Evicted v rounds in
    add_entry-Inv w.inv id src n (Evicts-absent id v rounds absent) w.room

pub count_miss-Inv : {c : TensorCache} → Inv c → Inv (count_miss c)
unfolding count_miss
count_miss-Inv v = record {
  capacity_fits = v.capacity_fits;
  agree = v.agree;
  lru_distinct = v.lru_distinct;
  keys_distinct = v.keys_distinct;
  used_total = v.used_total;
  used_bounded = v.used_bounded;
  prefetched_total = v.prefetched_total;
  peak_above = v.peak_above;
  peak_bounded = v.peak_bounded;
}

-- How `get_or_load` ends: a hit, or a counted miss and a load.
pub data Got (c : TensorCache) (id : ℕ) (src : Source) (n : ℕ)
    : TensorCache × Result CacheError (List ℕ) → Type 0 where
  hits : (e : Entry) → find id c.entries ≡ some e → Got c id src n (hit c id e, ok e.bytes)
  misses :
      {r : TensorCache × Result CacheError (List ℕ)}
      → find id c.entries ≡ none
      → Loaded (count_miss c) id src n r
      → Got c id src n r

-- On a well-formed cache a load is a hit, or a counted miss that is refused without any change,
-- because the slice is larger than the capacity or its source is null, or a counted miss that
-- evicts as `Evicts` says and copies the source to the front.
pub get_or_load-Got :
    {c : TensorCache} (id : ℕ) (src : Source) (n : ℕ)
    → Inv c
    → Got c id src n (get_or_load c id src n)
unfolding get_or_load
get_or_load-Got {c} id src n v = elim (Option-cases (find id c.entries)) [
  | inl e ↦ rw (e, get_or_load) (misses e (load-Loaded id src n (count_miss-Inv v)))
  | inr (en, e) ↦ rw (e, get_or_load) (hits en e)
]

pub absent-count_miss :
    (c : TensorCache) (id : ℕ)
    → find id c.entries ≡ none
    → contains id (count_miss c).entries ≡ false
unfolding count_miss
absent-count_miss c id missing = contains-find-none id c.entries missing

Got-Inv :
    {c : TensorCache} {id : ℕ} {src : Source} {n : ℕ} {r : TensorCache × Result CacheError (List ℕ)}
    → Inv c
    → Got c id src n r
    → Inv r.0
Got-Inv v (hits e found) = hit-Inv v _ e found
Got-Inv {c} {id} v (misses missing l) =
    Loaded-Inv (count_miss-Inv v) (absent-count_miss c id missing) l

-- Whatever is asked of it, `get_or_load` keeps the invariant, also when it throws.
pub get_or_load-Inv :
    {c : TensorCache} (id : ℕ) (src : Source) (n : ℕ) → Inv c → Inv (get_or_load c id src n).0
get_or_load-Inv {c} id src n v = Got-Inv v (get_or_load-Got id src n v)

-- How `insert_prefetched` ends.
pub data Inserted (c : TensorCache) (id : ℕ) (src : Source) (n : ℕ)
    : TensorCache × Result CacheError (Unit {0}) → Type 0 where
  skips : (contains id c.entries ≡ true) ⊎ (c.capacity < n) → Inserted c id src n (c, ok tt)
  null : n ≤ c.capacity → src ≡ none → n ≢ 0 → Inserted c id src n (c, err null_source)
  inserts :
      {d : TensorCache}
      → contains id c.entries ≡ false
      → Readable src n
      → Evicts n c d
      → Inserted c id src n (count_prefetched (add_entry d id (copy_bytes src n) n true) n, ok tt)

-- On a well-formed cache a prefetched insertion is skipped without any change, for an id that is
-- there or a slice larger than the capacity, or refused without any change, for a null source, or
-- evicts as `Evicts` says and copies the source to the front as a prefetched entry.
pub insert_prefetched-Inserted :
    {c : TensorCache} (id : ℕ) (src : Source) (n : ℕ)
    → Inv c
    → Inserted c id src n (insert_prefetched c id src n)
unfolding insert_prefetched
insert_prefetched-Inserted {c} id src n v = elim (Bool-cases (contains id c.entries)) [
  | inl there ↦ rw there (skips (inl there))
  | inr absent ↦ elim (Bool-cases (ltb c.capacity n)) [
    | inl large ↦ rw (absent, large) (skips (inr (ltb→lt c.capacity n large)))
    | inr small ↦
        let fits = ltb→le c.capacity n small in
        rw (absent, small, le→ltb u64_max n (omega (arith, v)))
          (elim (null_or_Readable src n) [
            | inl (test, is_none, nonzero) ↦ rw test (null fits is_none nonzero)
            | inr (test, readable) ↦
                let (d, run, rounds) = evict_for-Evicts n c v fits in
                rw (test, run) (inserts absent readable rounds)
          ])
  ]
]

Inserted-Inv :
    {c : TensorCache} {id : ℕ} {src : Source} {n : ℕ}
    {r : TensorCache × Result CacheError (Unit {0})}
    → Inv c
    → Inserted c id src n r
    → Inv r.0
Inserted-Inv v (skips _) = v
Inserted-Inv v (null _ _ _) = v
Inserted-Inv {id} {src} {n} v (inserts absent _ rounds) =
    let w = Evicts-Evicted v rounds in
    prefetched_in-Inv w.inv id src n (Evicts-absent id v rounds absent) w.room

pub insert_prefetched-Inv :
    {c : TensorCache} (id : ℕ) (src : Source) (n : ℕ) → Inv c → Inv (insert_prefetched c id src n).0
insert_prefetched-Inv id src n v = Inserted-Inv v (insert_prefetched-Inserted id src n v)
