-- ===== src/Prefetcher/Draining.antt =====
-- The worker alone empties the queue, if nobody stops it and the slices can be read.
use mem_vanta.Prelude.{
  ℕ, ◌≡◌, refl, ap, subst, false, inl, inr, some, List, [], ◌∷◌, ◌++◌, arith, Result, ok,
  Option-cases, elem, ◌∙◌,
}
use mem_vanta.Prelude.Dict.{find, contains, total}
use mem_vanta.TensorCache.{TensorCache, CacheError, Source, insert_prefetched}
use mem_vanta.TensorCache.Invariant
use mem_vanta.TensorCache.Changes.{Readable}
use mem_vanta.TensorCache.Loads.{Inserted, insert_prefetched-Inserted}
use mem_vanta.Prefetcher.{
  idle, inserting, inserted, Prefetcher, take_next, after_insert, insert, finish,
}
use mem_vanta.Prefetcher.Steps.{System, Step, Steps}
use mem_vanta.Prefetcher.Accounting.{Accounted, active, Steps-Accounted}

insert_prefetched-eq-ok :
    (c : TensorCache) (id : ℕ) (src : Source) (n : ℕ)
    → Invariant.Inv c
    → Readable src n
    → (insert_prefetched c id src n).1 ≡ ok tt
insert_prefetched-eq-ok c id src n v readable = go (insert_prefetched-Inserted id src n v)
  where
    go : {r : TensorCache × Result CacheError (Unit {0})} → Inserted c id src n r → r.1 ≡ ok tt
    go (Inserted.skips _) = refl
    go (Inserted.null _ is_none nonzero) =
        absurd (nonzero (subst (λ p. Readable p n) is_none readable))
    go (Inserted.inserts _ _ _) = refl

finish_lem :
    (s : Prefetcher) (id : ℕ)
    → ((finish s id).queue ≡ s.queue)
      × ((finish s id).stop ≡ s.stop)
      × ((finish s id).worker ≡ idle)
unfolding finish
finish_lem s id = elim (Option-cases (find id s.pending)) [
  | inl e ↦ rw (finish, e) (refl, refl, refl)
  | inr (b, e) ↦ rw (finish, e) (refl, refl, refl)
]

total_nil : (m : List (ℕ × ℕ)) → ((i : ℕ) → contains i m ≡ false) → total (λ b. b) m ≡ 0
total_nil [] h = refl
total_nil ((k, b) ∷ m) h = ground (arith, h k)

-- Nothing queued and nobody at work: nothing pending.
idle_empty : {s : Prefetcher} → Accounted s → s.worker ≡ idle → s.queue ≡ [] → s.pending_bytes ≡ 0
idle_empty {s} v at empty =
    v.sum
    ∙ total_nil s.pending
        λ i. v.agree i ∙ ap (λ w. elem i (active w ++ s.queue)) at ∙ ap (elem i) empty

module _ (bytes_of : ℕ → Source) (bytes_in : ℕ → ℕ) (count : ℕ)
    (readable : (id : ℕ) → Readable (bytes_of id) (bytes_in id)) where
  -- Ready for the next round, with the ids that are queued.
  record Waits (s : Prefetcher) (ids : List ℕ) : Type 0 where
    at : s.worker ≡ idle
    live : s.stop ≡ false
    queued : s.queue ≡ ids

  abbrev taken : Prefetcher → ℕ → List ℕ → Prefetcher
  taken s id ids = record s { queue = ids; worker = inserting id }

  take_next-Waits :
      (s : Prefetcher) (id : ℕ) (ids : List ℕ)
      → Waits s (id ∷ ids)
      → take_next s ≡ some (taken s id ids)
  unfolding take_next
  take_next-Waits s id ids w = ground (arith, w.live, w.queued)

  insert_worker :
      (s : Prefetcher) (id : ℕ)
      → Invariant.Inv s.cache
      → (insert s id (bytes_of id) (bytes_in id)).worker ≡ inserted id
  unfolding insert after_insert
  insert_worker s id v =
      ap (after_insert id)
        (insert_prefetched-eq-ok s.cache id (bytes_of id) (bytes_in id) v (readable id))

  -- One round of the worker's loop.
  round :
      (s : System) (id : ℕ) (ids : List ℕ)
      → Accounted s.shared
      → Waits s.shared (id ∷ ids)
      → (t : System) × Steps bytes_of bytes_in count s t × Waits t.shared ids
  unfolding insert
  round s id ids v w =
      let p = taken s.shared id ids in
      let q = insert p id (bytes_of id) (bytes_in id) in
      let at = insert_worker p id v.cached in
      let (queue, stop, worker) = finish_lem q id in
      (
        record s { shared = finish q id },
        Steps.more (Step.takes p w.at (take_next-Waits s.shared id ids w))
            (Steps.more (Step.inserts id refl) (Steps.more (Step.finishes id at) Steps.done)),
        record { at = worker; live = stop ∙ w.live; queued = queue },
      )

  append-Steps :
      {s t u : System}
      → Steps bytes_of bytes_in count s t
      → Steps bytes_of bytes_in count t u
      → Steps bytes_of bytes_in count s u
  append-Steps Steps.done rest = rest
  append-Steps (Steps.more first steps) rest = Steps.more first (append-Steps steps rest)

  drain :
      (ids : List ℕ) (s : System)
      → Accounted s.shared
      → Waits s.shared ids
      → (t : System) × Steps bytes_of bytes_in count s t × Waits t.shared [] × Accounted t.shared
  drain [] s v w = (s, Steps.done, w, v)
  drain (id ∷ ids) s v w =
      let (t, first, w') = round s id ids v w in
      let (u, rest, w'', v') = drain ids t (Steps-Accounted bytes_of bytes_in count first v) w' in
      (u, append-Steps first rest, w'', v')

  -- If the prefetcher's accounts are right, it is not stopped, its worker is before its wait, and
  -- the source of every slice with bytes is not null, then some steps lead to a state with the
  -- worker before its wait, nothing queued and no bytes pending.
  pub drain-Steps :
      (s : System)
      → Accounted s.shared
      → s.shared.worker ≡ idle
      → s.shared.stop ≡ false
      → (t : System) × Steps bytes_of bytes_in count s t
        × (t.shared.queue ≡ [])
        × (t.shared.pending_bytes ≡ 0)
        × (t.shared.worker ≡ idle)
  drain-Steps s v at live =
      let (t, steps, w, v') =
        drain s.shared.queue s v (record { at = at; live = live; queued = refl }) in
      (t, steps, w.queued, idle_empty v' w.at w.queued, w.at)
