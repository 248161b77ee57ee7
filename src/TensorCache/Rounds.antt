-- ===== src/TensorCache/Rounds.antt =====
-- The loop of `evict_for`: it ends, it never reads a missing entry, and it makes the room.
use mem_vanta.Prelude.{
  ℕ, zero, suc, ◌+◌, ◌-◌, ◌≤◌, ◌<◌, ◌≡◌, refl, true, false, ◌⊎◌, inl, inr, none, some, List, [],
  ◌∷◌, arith, length, elem, Bool-cases, Option-cases, ok, ltb, sub64, sub64_lem, ◌∙◌,
}
use mem_vanta.Prelude.Dict.{find, contains, total, find-contains-true}
use mem_vanta.TensorCache.{TensorCache, Entry, size_of, back, evict_entry, evict_loop, evict_for}
use mem_vanta.TensorCache.Invariant.{Inv, length-pop_back, elem-pop_back, evict_entry-Inv}

-- The rounds that lead from one state to another, as long as `n` bytes do not fit.
pub data Evicts (n : ℕ) : TensorCache → TensorCache → Type 0 where
  done : {c : TensorCache} → n + c.used ≤ c.capacity → Evicts n c c
  round :
      {c d : TensorCache} (id : ℕ) (e : Entry)
      → back c.lru ≡ some id
      → find id c.entries ≡ some e
      → c.capacity < n + c.used
      → Evicts n (evict_entry c id e) d
      → Evicts n c d

back-none : (xs : List ℕ) → back xs ≡ none → xs ≡ []
back-none [] h = refl
back-none (x ∷ []) h = cc
back-none (x ∷ y ∷ xs) h = absurd (cc (back-none (y ∷ xs) h))

total_nil : (m : List (ℕ × Entry)) → ((i : ℕ) → contains i m ≡ false) → total size_of m ≡ 0
total_nil [] h = refl
total_nil ((k, e) ∷ m) h = ground (arith, h k)

used_nil : {c : TensorCache} → Inv c → c.lru ≡ [] → c.used ≡ 0
used_nil {c} v h = omega (arith, v, total_nil c.entries (λ i. ground (arith, v.agree i)))

elem-back : (xs : List ℕ) (x : ℕ) → back xs ≡ some x → elem x xs ≡ true
elem-back xs x h = ground (arith, elem-pop_back x xs x h)

-- The loop's test, read as the inequality that it means under the invariant.
room_test :
    {c : TensorCache} (n : ℕ)
    → Inv c
    → ((ltb (sub64 c.capacity c.used) n ≡ false) × (n + c.used ≤ c.capacity))
      ⊎ ((ltb (sub64 c.capacity c.used) n ≡ true) × (c.capacity < n + c.used))
room_test {c} n v =
    rw (sub64_lem c.capacity c.used v.capacity_fits v.used_bounded)
      (elim (Bool-cases (ltb (c.capacity - c.used) n)) [
        | inl full ↦ inr (full, ground arith)
        | inr fits ↦ inl (fits, ground arith)
      ])

length-evict_entry :
    (c : TensorCache) (id : ℕ) (e : Entry)
    → back c.lru ≡ some id
    → length c.lru ≡ suc (length (evict_entry c id e).lru)
unfolding evict_entry
length-evict_entry c id e last = length-pop_back c.lru id last

pub capacity-evict_entry :
    (c : TensorCache) (id : ℕ) (e : Entry) → (evict_entry c id e).capacity ≡ c.capacity
unfolding evict_entry
capacity-evict_entry c id e = refl

last_found :
    {c : TensorCache} (id : ℕ)
    → Inv c
    → back c.lru ≡ some id
    → (e : Entry) × (find id c.entries ≡ some e)
last_found {c} id v last = find-contains-true id c.entries (v.agree id ∙ elem-back c.lru id last)

length_zero : (xs : List ℕ) → length xs ≤ 0 → xs ≡ []
length_zero [] h = refl
length_zero (x ∷ xs) h = absurd (omega arith)

-- The loop ends with room, whatever the cache holds, if it has fuel for each id.
evict_loop-Evicts :
    (fuel n : ℕ) (c : TensorCache)
    → Inv c
    → length c.lru ≤ fuel
    → n ≤ c.capacity
    → (d : TensorCache) × (evict_loop fuel n c ≡ ok d) × Evicts n c d
unfolding evict_loop
evict_loop-Evicts zero n c v h k = (c, refl, done (omega (arith, used_nil v (length_zero c.lru h))))
evict_loop-Evicts (suc fuel) n c v h k = elim (room_test n v) [
  | inl (fits, room) ↦ rw (fits, evict_loop) (c, refl, done room)
  | inr (full, short) ↦
      rw (full, evict_loop)
        (elim (Option-cases (back c.lru)) [
          | inl e ↦ rw e (c, refl, done (omega (arith, used_nil v (back-none c.lru e))))
          | inr (id, last) ↦
              let (e, found) = last_found id v last in
              let (d, run, rounds) =
                evict_loop-Evicts fuel n (evict_entry c id e) (evict_entry-Inv v last found)
                  (omega (arith, length-evict_entry c id e last))
                  (omega (arith, capacity-evict_entry c id e)) in
              rw (last, found) (d, run, round id e last found short rounds)
        ])
]

-- On a well-formed cache with the capacity for the incoming bytes, eviction ends after rounds that
-- each drop the last id of the recency list while the bytes do not fit, with room for them, and
-- never reads a missing entry.
pub evict_for-Evicts :
    (n : ℕ) (c : TensorCache)
    → Inv c
    → n ≤ c.capacity
    → (d : TensorCache) × (evict_for n c ≡ ok d) × Evicts n c d
unfolding evict_for
evict_for-Evicts n c v k = evict_loop-Evicts (length c.lru) n c v (omega arith) k
