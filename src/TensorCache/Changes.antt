-- ===== src/TensorCache/Changes.antt =====
-- The changes that the public methods of `TensorCache` make to its state keep the invariant.
use mem_vanta.Prelude.{
  ℕ, ◌+◌, ◌≤◌, ◌≡◌, sym, ap, Bool, true, false, ◌&&◌, not, inl, inr, none, some, List, [], ◌∷◌,
  arith, ◌==◌, ◌∙◌, length, elem, Bool-cases, add64_lem, sub64_lem, elem-erase_ne, elem-erase_self,
  erase-Distinct, length-replicate, length-table, elem-append_left,
}
use mem_vanta.Prelude.Dict.{
  find, contains, total, contains-assign, assign-DistinctKeys, total-assign, le-total,
  contains-find-some,
}
use mem_vanta.TensorCache.{
  TensorCache, Entry, Source, size_of, copy_bytes, add_entry, hit, is_null, count_prefetched,
}
use mem_vanta.TensorCache.Invariant.{Inv, prefetched_size, prefetched_size-le}
use mem_vanta.TensorCache.Rounds.{Evicts}
use mem_vanta.TensorCache.Eviction.{Evicts-Evicted, Evicts-split}

length-copy_bytes : (src : Source) (n : ℕ) → length (copy_bytes src n) ≡ n
unfolding copy_bytes
length-copy_bytes none n = length-replicate n 0
length-copy_bytes (some src) n = length-table src 0 n

module _ {c : TensorCache} (v : Inv c) (id : ℕ) (e : Entry)
    (found : find id c.entries ≡ some e) where
  agree-hit : (i : ℕ) → contains i (hit c id e).entries ≡ elem i (hit c id e).lru
  unfolding hit
  agree-hit i = ground (
    arith,
    contains-assign id i (record e { prefetched = false }) c.entries,
    v.agree i,
    elem-erase_ne id i c.lru,
    contains-find-some id e c.entries found,
  )

  pub prefetched-hit : (hit c id e).prefetched_used + prefetched_size e ≡ c.prefetched_used
  unfolding hit
  prefetched-hit = ground (
    arith,
    v,
    sub64_lem c.prefetched_used (size_of e),
    le-total prefetched_size id c.entries e found,
  )

  pub hit-Inv : Inv (hit c id e)
  unfolding hit
  hit-Inv = record {
    capacity_fits = v.capacity_fits;
    agree = agree-hit;
    lru_distinct =
        (elem-erase_self id c.lru v.lru_distinct, erase-Distinct id c.lru v.lru_distinct);
    keys_distinct = assign-DistinctKeys id _ c.entries v.keys_distinct;
    used_total =
        omega
          (arith, v, total-assign size_of id (record e { prefetched = false }) c.entries e found);
    used_bounded = v.used_bounded;
    prefetched_total = omega (
      arith,
      v,
      prefetched-hit,
      total-assign prefetched_size id (record e { prefetched = false }) c.entries e found,
    );
    peak_above = omega (arith, v, prefetched-hit);
    peak_bounded = v.peak_bounded;
  }

prefetched-le-total : (m : List (ℕ × Entry)) → total prefetched_size m ≤ total size_of m
prefetched-le-total [] = omega arith
prefetched-le-total ((k, e) ∷ m) = omega (arith, prefetched_size-le e, prefetched-le-total m)

-- The bytes that a call copies are there to be read.
abbrev pub Readable : Source → ℕ → Type 0
Readable none n = n ≡ 0
Readable (some src) n = Unit {0}

pub Readable-test : (src : Source) (n : ℕ) → Readable src n → (not (n == 0) && is_null src) ≡ false
Readable-test none n h = ground arith
Readable-test (some src) n h = ground arith

-- An id that is absent stays absent while entries are evicted.
pub Evicts-absent :
    {n : ℕ} {c d : TensorCache} (id : ℕ)
    → Inv c
    → Evicts n c d
    → contains id c.entries ≡ false
    → contains id d.entries ≡ false
Evicts-absent {n} {c} {d} id v rounds h = elim (Bool-cases (contains id d.entries)) [
  | inr absent ↦ absent
  | inl there ↦ absurd (cc (before there))
]
  where
    before : contains id d.entries ≡ true → contains id c.entries ≡ true
    before there =
        let w = Evicts-Evicted v rounds in
        let (dropped, split, _) = Evicts-split v rounds in
        v.agree id
        ∙ ap (elem id) split
        ∙ elem-append_left id d.lru dropped (sym (w.inv.agree id) ∙ there)

module _ {d : TensorCache} (v : Inv d) (id : ℕ) (src : Source) (n : ℕ)
    (absent : contains id d.entries ≡ false) (room : n + d.used ≤ d.capacity) where
  used-add_entry : (b : Bool) → (add_entry d id (copy_bytes src n) n b).used ≡ d.used + n
  unfolding add_entry
  used-add_entry b = add64_lem d.used n (omega (arith, v))

  entries-add_entry :
      (b : Bool)
      → (add_entry d id (copy_bytes src n) n b).entries
        ≡ (id, record { bytes = copy_bytes src n; prefetched = b }) ∷ d.entries
  unfolding add_entry
  entries-add_entry b = rw absent

  agree-add_entry :
      (b : Bool) (i : ℕ)
      → contains i (add_entry d id (copy_bytes src n) n b).entries
        ≡ elem i (add_entry d id (copy_bytes src n) n b).lru
  agree-add_entry b i = rw (entries-add_entry b) (unfold add_entry in (ground (arith, v.agree i)))

  pub add_entry-Inv : Inv (add_entry d id (copy_bytes src n) n false)
  add_entry-Inv = record {
    capacity_fits = unfold add_entry in v.capacity_fits;
    agree = agree-add_entry false;
    lru_distinct = unfold add_entry in (sym (v.agree id) ∙ absent, v.lru_distinct);
    keys_distinct = rw (entries-add_entry false) (absent, v.keys_distinct);
    used_total =
        rw (entries-add_entry false)
          (omega (arith, v, used-add_entry false, length-copy_bytes src n));
    used_bounded = unfold add_entry in omega (arith, v, used-add_entry false);
    prefetched_total = rw (entries-add_entry false) (unfold add_entry in omega (arith, v));
    peak_above = unfold add_entry in v.peak_above;
    peak_bounded = unfold add_entry in v.peak_bounded;
  }

  prefetched-count :
      (count_prefetched (add_entry d id (copy_bytes src n) n true) n).prefetched_used
      ≡ d.prefetched_used + n
  unfolding count_prefetched add_entry
  prefetched-count = add64_lem d.prefetched_used n (omega (arith, v, prefetched-le-total d.entries))

  peak_bounded-count :
      (count_prefetched (add_entry d id (copy_bytes src n) n true) n).peak_prefetched_used
      ≤ d.capacity
  unfolding count_prefetched add_entry
  peak_bounded-count =
      rw (add64_lem d.prefetched_used n (omega (arith, v, prefetched-le-total d.entries)))
        (omega (arith, v, prefetched-le-total d.entries))

  pub prefetched_in-Inv : Inv (count_prefetched (add_entry d id (copy_bytes src n) n true) n)
  prefetched_in-Inv = record {
    capacity_fits = unfold count_prefetched add_entry in v.capacity_fits;
    agree = unfold count_prefetched in agree-add_entry true;
    lru_distinct = unfold count_prefetched add_entry in (sym (v.agree id) ∙ absent, v.lru_distinct);
    keys_distinct =
        unfold count_prefetched in rw (entries-add_entry true) (absent, v.keys_distinct);
    used_total =
        unfold count_prefetched in
        rw (entries-add_entry true)
          (omega (arith, v, used-add_entry true, length-copy_bytes src n));
    used_bounded = unfold count_prefetched add_entry in omega (arith, v, used-add_entry true);
    prefetched_total = rw prefetched-count (
        unfold count_prefetched in
        rw (entries-add_entry true) (omega (arith, v, length-copy_bytes src n)));
    peak_above = unfold count_prefetched add_entry in omega arith;
    peak_bounded = unfold count_prefetched add_entry in peak_bounded-count;
  }
