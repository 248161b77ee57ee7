-- ===== src/TensorCache/Coherence.antt =====
-- Clients of one `TensorCache` over one tensor store: whatever the calls and their order, a load
-- that succeeds returns the bytes of the store.
use mem_vanta.Prelude.{
  ℕ, ◌<◌, ◌≡◌, refl, sym, ap, Bool, true, false, inl, inr, none, some, List, [], ◌∷◌, arith, ◌==◌,
  ◌∙◌, Bool-cases, Result, ok, err, u64_mod, ==_iff, table,
}
use mem_vanta.Prelude.Dict.{find, contains, find-assign, contains-find-some}
use mem_vanta.TensorCache.{
  TensorCache, Entry, Source, CacheError, init, copy_bytes, add_entry, hit, count_miss,
  count_prefetched, get_or_load, insert_prefetched,
}
use mem_vanta.TensorCache.Invariant.{Inv, init-Inv}
use mem_vanta.TensorCache.Rounds.{Evicts}
use mem_vanta.TensorCache.Eviction.{Evicts-Evicted, Evicts-split}
use mem_vanta.TensorCache.Changes.{Readable, Evicts-absent}
use mem_vanta.TensorCache.Loads.{
  Loaded, Got, Inserted, get_or_load-Got, get_or_load-Inv, insert_prefetched-Inserted,
  insert_prefetched-Inv, count_miss-Inv, absent-count_miss,
}

-- A call of the consumer or of the prefetch worker; both name a slice of the store.
pub data Call : Type 0 where
  loads : ℕ → Call
  inserts : ℕ → Call

Evicts-find :
    {n : ℕ} {c d : TensorCache} (i : ℕ) (e : Entry)
    → Inv c
    → Evicts n c d
    → find i d.entries ≡ some e
    → find i c.entries ≡ some e
Evicts-find {n} {c} {d} i e v rounds h =
    let (_, _, same) = Evicts-split v rounds in
    let w = Evicts-Evicted v rounds in
    sym (same i (sym (w.inv.agree i) ∙ contains-find-some i e d.entries h)) ∙ h

-- The first `n` bytes behind a pointer; behind the null pointer there are none.
abbrev pub contents : Source → ℕ → List ℕ
contents none n = []
contents (some src) n = table src 0 n

pub copy_bytes-contents :
    (src : Source) (n : ℕ) → Readable src n → copy_bytes src n ≡ contents src n
unfolding copy_bytes
copy_bytes-contents none n h = rw h refl
copy_bytes-contents (some src) n h = refl

-- A store: the bytes and the size of each slice.
module _ (bytes_of : ℕ → Source) (bytes_in : ℕ → ℕ) where
  abbrev pub stored : ℕ → List ℕ
  stored id = contents (bytes_of id) (bytes_in id)

  -- Every entry is a copy of its slice.
  abbrev pub IsCoherent : TensorCache → Type 0
  IsCoherent c = (i : ℕ) (e : Entry) → find i c.entries ≡ some e → e.bytes ≡ stored i

  Evicts-IsCoherent :
      {n : ℕ} {c d : TensorCache} → Inv c → Evicts n c d → IsCoherent c → IsCoherent d
  Evicts-IsCoherent v rounds h i e found = h i e (Evicts-find i e v rounds found)

  add_entry-IsCoherent :
      (d : TensorCache) (id : ℕ) (b : Bool)
      → contains id d.entries ≡ false
      → Readable (bytes_of id) (bytes_in id)
      → IsCoherent d
      → IsCoherent (add_entry d id (copy_bytes (bytes_of id) (bytes_in id)) (bytes_in id) b)
  unfolding add_entry
  add_entry-IsCoherent d id b absent readable h i e found = elim (Bool-cases (i == id)) [
    | inl same ↦ ground (
      arith,
      ap stored ((==_iff i id).0 same),
      copy_bytes-contents (bytes_of id) (bytes_in id) readable,
    )
    | inr other ↦ h i e (ground arith)
  ]

  hit-IsCoherent :
      (c : TensorCache) (id : ℕ) (e : Entry)
      → find id c.entries ≡ some e
      → IsCoherent c
      → IsCoherent (hit c id e)
  unfolding hit
  hit-IsCoherent c id e found h i f found_i =
      let there = contains-find-some id e c.entries found in
      elim (Bool-cases (i == id)) [
        | inl same ↦ ground (
          arith,
          h id e found,
          ap stored ((==_iff i id).0 same),
          find-assign id i (record e { prefetched = false }) c.entries there,
        )
        | inr other ↦
            h i f
              (ground (arith, find-assign id i (record e { prefetched = false }) c.entries there))
      ]

  -- What a load returns is right.
  abbrev pub Returns : ℕ → Result CacheError (List ℕ) → Type 0
  Returns id (ok bytes) = bytes ≡ stored id
  Returns id (err e) = Unit {0}

  Loaded-IsCoherent :
      {c : TensorCache} {id : ℕ} {r : TensorCache × Result CacheError (List ℕ)}
      → Inv c
      → contains id c.entries ≡ false
      → IsCoherent c
      → Loaded c id (bytes_of id) (bytes_in id) r
      → IsCoherent r.0 × Returns id r.1
  Loaded-IsCoherent v absent h (Loaded.too_large _) = (h, tt)
  Loaded-IsCoherent v absent h (Loaded.null _ _ _) = (h, tt)
  Loaded-IsCoherent {id} v absent h (Loaded.loads readable rounds) = (
    add_entry-IsCoherent _ id false (Evicts-absent id v rounds absent) readable
        (Evicts-IsCoherent v rounds h),
    copy_bytes-contents (bytes_of id) (bytes_in id) readable,
  )

  count_miss-IsCoherent : (c : TensorCache) → IsCoherent c → IsCoherent (count_miss c)
  unfolding count_miss
  count_miss-IsCoherent c h = h

  Got-IsCoherent :
      {c : TensorCache} {id : ℕ} {r : TensorCache × Result CacheError (List ℕ)}
      → Inv c
      → IsCoherent c
      → Got c id (bytes_of id) (bytes_in id) r
      → IsCoherent r.0 × Returns id r.1
  Got-IsCoherent {id} v h (Got.hits e found) = (hit-IsCoherent _ id e found h, h id e found)
  Got-IsCoherent {c} {id} v h (Got.misses missing l) =
      Loaded-IsCoherent (count_miss-Inv v) (absent-count_miss c id missing)
        (count_miss-IsCoherent c h) l

  count_prefetched-IsCoherent :
      (c : TensorCache) (n : ℕ) → IsCoherent c → IsCoherent (count_prefetched c n)
  unfolding count_prefetched
  count_prefetched-IsCoherent c n h = h

  Inserted-IsCoherent :
      {c : TensorCache} {id : ℕ} {r : TensorCache × Result CacheError (Unit {0})}
      → Inv c
      → IsCoherent c
      → Inserted c id (bytes_of id) (bytes_in id) r
      → IsCoherent r.0
  Inserted-IsCoherent v h (Inserted.skips _) = h
  Inserted-IsCoherent v h (Inserted.null _ _ _) = h
  Inserted-IsCoherent {id} v h (Inserted.inserts absent readable rounds) =
      count_prefetched-IsCoherent _ (bytes_in id) (
        add_entry-IsCoherent _ id true (Evicts-absent id v rounds absent) readable
          (Evicts-IsCoherent v rounds h))

  unfoldable pub step : TensorCache → Call → TensorCache
  step c (loads id) = (get_or_load c id (bytes_of id) (bytes_in id)).0
  step c (inserts id) = (insert_prefetched c id (bytes_of id) (bytes_in id)).0

  unfoldable pub run : TensorCache → List Call → TensorCache
  run c [] = c
  run c (call ∷ calls) = run (step c call) calls

  pub step-Inv : {c : TensorCache} (call : Call) → Inv c → Inv (step c call)
  unfolding step
  step-Inv (loads id) v = get_or_load-Inv id (bytes_of id) (bytes_in id) v
  step-Inv (inserts id) v = insert_prefetched-Inv id (bytes_of id) (bytes_in id) v

  step-IsCoherent :
      {c : TensorCache} (call : Call) → Inv c → IsCoherent c → IsCoherent (step c call)
  unfolding step
  step-IsCoherent (loads id) v h = (Got-IsCoherent v h (get_or_load-Got id _ _ v)).0
  step-IsCoherent (inserts id) v h = Inserted-IsCoherent v h (insert_prefetched-Inserted id _ _ v)

  pub run_lem :
      (calls : List Call) {c : TensorCache}
      → Inv c
      → IsCoherent c
      → Inv (run c calls) × IsCoherent (run c calls)
  unfolding run
  run_lem [] v h = (v, h)
  run_lem (call ∷ calls) v h = run_lem calls (step-Inv call v) (step-IsCoherent call v h)

  init-IsCoherent : (cap : ℕ) → IsCoherent (init cap)
  unfolding init
  init-IsCoherent cap i e h = cc

  -- After any loads and prefetched insertions on a fresh cache, whose capacity is a 64-bit word,
  -- the recency list and the map hold the same ids, each once, the counts of used and of
  -- prefetched bytes are the sums over the entries, and they and the peak stay within the
  -- capacity.
  pub run-init-Inv : (cap : ℕ) (calls : List Call) → cap < u64_mod → Inv (run (init cap) calls)
  run-init-Inv cap calls h = (run_lem calls (init-Inv cap h) (init-IsCoherent cap)).0

  -- Whatever loads and prefetched insertions a fresh cache, whose capacity is a 64-bit word, has
  -- seen of the slices of one store, a load that succeeds returns the bytes of its slice.
  pub run-Returns :
      (cap : ℕ) (calls : List Call) (id : ℕ)
      → cap < u64_mod
      → Returns id (get_or_load (run (init cap) calls) id (bytes_of id) (bytes_in id)).1
  run-Returns cap calls id h =
      let (v, coherent) = run_lem calls (init-Inv cap h) (init-IsCoherent cap) in
      (Got-IsCoherent v coherent (get_or_load-Got id (bytes_of id) (bytes_in id) v)).1
