-- ===== src/TensorCache/Eviction.antt =====
-- What the loop of `evict_for` leaves.
use mem_vanta.Prelude.{
  ℕ, ◌+◌, ◌≤◌, ◌<◌, ◌≡◌, refl, sym, ap, true, false, ◌⊎◌, inl, inr, some, List, [], ◌∷◌, ◌++◌, ok,
  none, Option-cases, ◌∙◌, arith, append-nil, append_assoc, ◌==◌, elem, Bool-cases, ==_iff, subst,
  elem-append_left, length, length-append, ◌%◌, u64_mod, add64,
}
use mem_vanta.Prelude.Dict.{find, find-erase_key_ne, contains-find-some}
use mem_vanta.TensorCache.{TensorCache, Entry, size_of, back, pop_back, evict_entry, evict_for}
use mem_vanta.TensorCache.Invariant.{
  Inv, back-pop_back, pop_back-Distinct, used-evict_entry, prefetched-evict_entry, evict_entry-Inv,
}
use mem_vanta.TensorCache.Rounds.{done, round, Evicts, capacity-evict_entry, evict_for-Evicts}

-- What holds of any rounds of eviction.
pub record Evicted (n : ℕ) (c d : TensorCache) : Type 0 where
  pub inv : Inv d
  pub room : n + d.used ≤ d.capacity
  pub capacity_same : d.capacity ≡ c.capacity
  pub peak_same : d.peak_prefetched_used ≡ c.peak_prefetched_used
  pub hits_same : d.stats.hits ≡ c.stats.hits
  pub misses_same : d.stats.misses ≡ c.stats.misses
  pub copied_same : d.stats.bytes_copied ≡ c.stats.bytes_copied
  pub used_less : d.used ≤ c.used
  pub prefetched_less : d.prefetched_used ≤ c.prefetched_used

pub Evicts-Evicted : {n : ℕ} {c d : TensorCache} → Inv c → Evicts n c d → Evicted n c d
unfolding evict_entry
Evicts-Evicted v (done room) = record {
  inv = v;
  room = room;
  capacity_same = refl;
  peak_same = refl;
  hits_same = refl;
  misses_same = refl;
  copied_same = refl;
  used_less = omega arith;
  prefetched_less = omega arith;
}
Evicts-Evicted {n} {c} {d} v (round id e last found short rounds) =
    let r = Evicts-Evicted (evict_entry-Inv v last found) rounds in
    record {
      inv = r.inv;
      room = r.room;
      capacity_same = r.capacity_same;
      peak_same = r.peak_same;
      hits_same = r.hits_same;
      misses_same = r.misses_same;
      copied_same = r.copied_same;
      used_less = omega (arith, r, used-evict_entry v last found);
      prefetched_less = omega (arith, r, prefetched-evict_entry v last found);
    }

pop_back-ne : (i id : ℕ) (xs : List ℕ) → elem id xs ≡ false → elem i xs ≡ true → (i == id) ≡ false
pop_back-ne i id xs h k = elim (Bool-cases (i == id)) [
  | inr no_match ↦ no_match
  | inl same ↦ absurd (cc (ap (λ j. elem j xs) ((==_iff i id).0 same)))
]

find-evict_entry :
    {c : TensorCache} {id : ℕ} (e : Entry) (i : ℕ)
    → Inv c
    → back c.lru ≡ some id
    → elem i (evict_entry c id e).lru ≡ true
    → find i (evict_entry c id e).entries ≡ find i c.entries
unfolding evict_entry
find-evict_entry {c} {id} e i v last h =
    find-erase_key_ne id i c.entries
      (pop_back-ne i id (pop_back c.lru) (pop_back-Distinct c.lru id last v.lru_distinct).1 h)

lru-evict_entry :
    (c : TensorCache) (id : ℕ) (e : Entry)
    → back c.lru ≡ some id
    → c.lru ≡ (evict_entry c id e).lru ++ id ∷ []
unfolding evict_entry
lru-evict_entry c id e last = back-pop_back c.lru id last

-- The ids that stay are a prefix of the recency order, and their entries do not change.
pub Evicts-split :
    {n : ℕ} {c d : TensorCache}
    → Inv c
    → Evicts n c d
    → (dropped : List ℕ) × (c.lru ≡ d.lru ++ dropped)
      × ((i : ℕ) → elem i d.lru ≡ true → find i d.entries ≡ find i c.entries)
Evicts-split {n} {c} v (done room) = ([], sym (append-nil c.lru), λ i h. refl)
Evicts-split {n} {c} {d} v (round id e last found short rounds) =
    let (dropped, split, same) = Evicts-split (evict_entry-Inv v last found) rounds in
    (
      dropped ++ id ∷ [],
      lru-evict_entry c id e last
          ∙ ap (λ l. l ++ id ∷ []) split
          ∙ append_assoc d.lru dropped (id ∷ []),
      λ i h.
          same i h
          ∙ find-evict_entry e i v last
              (subst (λ l. elem i l ≡ true) (sym split) (elem-append_left i d.lru dropped h)),
    )

found_earlier :
    {c : TensorCache} {id : ℕ} (e : Entry) (j : ℕ) (f : Entry)
    → Inv c
    → back c.lru ≡ some id
    → find id c.entries ≡ some e
    → find j (evict_entry c id e).entries ≡ some f
    → find j c.entries ≡ some f
found_earlier {c} {id} e j f v last found h =
    sym (
      find-evict_entry e j v last
        (sym ((evict_entry-Inv v last found).agree j) ∙ contains-find-some j f _ h))
    ∙ h

-- The front of the recency list stays, with its entries, and if any ids go, then the entry of the
-- most recent of those is gone, and would not have fitted beside what stays and the incoming bytes.
pub record Minimal (n : ℕ) (c d : TensorCache) : Type 0 where
  pub dropped : List ℕ
  pub split : c.lru ≡ d.lru ++ dropped
  pub evictions : d.stats.evictions % u64_mod ≡ (c.stats.evictions + length dropped) % u64_mod
  pub kept : (i : ℕ) → elem i d.lru ≡ true → find i d.entries ≡ find i c.entries
  pub tight :
      ((d ≡ c) × (dropped ≡ []))
      ⊎ ((id : ℕ) × (older : List ℕ) × (e : Entry) × (dropped ≡ id ∷ older)
          × (find id c.entries ≡ some e)
          × (find id d.entries ≡ none)
          × (d.capacity < n + (d.used + size_of e)))

evicted-none :
    {c : TensorCache} (id : ℕ) (e : Entry)
    → Inv c
    → back c.lru ≡ some id
    → find id c.entries ≡ some e
    → find id (evict_entry c id e).entries ≡ none
unfolding evict_entry
evicted-none {c} id e v last found = elim (Option-cases (find id (evict_entry c id e).entries)) [
  | inl gone ↦ gone
  | inr (f, there) ↦
      let w = evict_entry-Inv v last found in
      absurd (
        cc (
          (pop_back-Distinct c.lru id last v.lru_distinct).1,
          w.agree id,
          contains-find-some id f (evict_entry c id e).entries there,
        ))
]

count-evict_entry :
    (c : TensorCache) (id : ℕ) (e : Entry)
    → (evict_entry c id e).stats.evictions ≡ (c.stats.evictions + 1) % u64_mod
unfolding evict_entry add64
count-evict_entry c id e = refl

pub Evicts-Minimal : {n : ℕ} {c d : TensorCache} → Inv c → Evicts n c d → Minimal n c d
Evicts-Minimal {n} {c} v (done room) = record {
  dropped = [];
  split = sym (append-nil c.lru);
  evictions = omega arith;
  kept = λ i h. refl;
  tight = inl (refl, refl);
}
Evicts-Minimal {n} {c} {d} v (round id e last found short rounds) =
    let (dropped, split, same) = Evicts-split v (round id e last found short rounds) in
    let m = Evicts-Minimal (evict_entry-Inv v last found) rounds in
    record {
      dropped = m.dropped ++ id ∷ [];
      split =
          lru-evict_entry c id e last
          ∙ ap (λ l. l ++ id ∷ []) m.split
          ∙ append_assoc d.lru m.dropped (id ∷ []);
      evictions =
          omega (arith, m.evictions, count-evict_entry c id e, length-append m.dropped (id ∷ []));
      kept = same;
      tight = inr (elim m.tight [
        | inl (unchanged, no_more) ↦ (
          id,
          [],
          e,
          ap (λ l. l ++ id ∷ []) no_more,
          found,
          rw unchanged (evicted-none id e v last found),
          rw unchanged (omega (arith, used-evict_entry v last found, capacity-evict_entry c id e)),
        )
        | inr (j, older, f, first, found_j, gone, tight) ↦ (
          j,
          older ++ id ∷ [],
          f,
          ap (λ l. l ++ id ∷ []) first,
          found_earlier e j f v last found found_j,
          gone,
          tight,
        )
      ]);
    }

-- On a well-formed cache with the capacity for the incoming bytes, `evict_for` returns a cache
-- with room for them: the ids that stay are the front of the recency list, with their entries, the
-- rounds are counted, and either nothing has changed, or the last id given up, which is the most
-- recent one of them, is gone, and its entry would not have fitted beside what stays and the
-- incoming bytes.
pub evict_for-Minimal :
    (n : ℕ) (c : TensorCache)
    → Inv c
    → n ≤ c.capacity
    → (d : TensorCache) × (evict_for n c ≡ ok d) × (n + d.used ≤ d.capacity) × Minimal n c d
evict_for-Minimal n c v k =
    let (d, ran, rounds) = evict_for-Evicts n c v k in
    (d, ran, (Evicts-Evicted v rounds).room, Evicts-Minimal v rounds)
