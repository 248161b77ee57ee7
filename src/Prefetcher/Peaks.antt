-- ===== src/Prefetcher/Peaks.antt =====
-- The pending bytes and their peak, from one section to the next.
use mem_vanta.Prelude.{
  ℕ, ◌+◌, ◌≤◌, ◌<◌, max, ◌≡◌, refl, subst, ◌||◌, Option, none, some, List, [], ◌∷◌, Result, ok,
  arith, ltb, if-cases, ok-injective, u64_mod, u64_max, add64, sub64, sub64_lem, add64-lt,
}
use mem_vanta.Prelude.Dict.{find, contains, le-total}
use mem_vanta.TensorCache.{TensorCache, Source}
use mem_vanta.Prefetcher.{
  Worker, idle, ended, inserting, inserted, failing, Prefetcher, RequestError, enqueue, take_next,
  insert, finish, fail, init, request_stop, cancel,
}
use mem_vanta.Prefetcher.Accounting.{Accounted}
use mem_vanta.Prefetcher.Thread.{or_stay, worker_step}

-- From one state to a later one the pending bytes have not grown, and the peak is the same.
abbrev pub Shrinks : Prefetcher → Prefetcher → Type 0
Shrinks s t = (t.pending_bytes ≤ s.pending_bytes) × (t.peak_pending_bytes ≡ s.peak_pending_bytes)

module _ (bytes_of : ℕ → Source) (bytes_in : ℕ → ℕ) where
  pub worker_step-Shrinks :
      (s : Prefetcher) → Accounted s → Shrinks s (worker_step bytes_of bytes_in s)
  unfolding worker_step take_next insert finish fail
  worker_step-Shrinks s v = at s.worker
    where
      stays : Shrinks s s
      stays = (omega arith, refl)

      finished : (id : ℕ) (found : Option ℕ) → find id s.pending ≡ found → Shrinks s (finish s id)
      finished id none e = rw (finish, e) stays
      finished id (some bytes) e =
          let most = le-total (λ b. b) id s.pending bytes e in
          rw (finish, e)
            (
              omega (
                arith,
                most,
                v.sum,
                v.word,
                sub64_lem s.pending_bytes bytes v.word (omega (arith, most, v.sum)),
              ),
              refl,
            )

      P : Option Prefetcher → Type 0
      P o = Shrinks s (or_stay s o)

      taken :
          (ids : List ℕ)
          → P (elim ids [
            | [] ↦ none
            | id ∷ ids ↦ some (record s { queue = ids; worker = inserting id })
          ])
      taken [] = stays
      taken (id ∷ ids) = stays

      next : P (take_next s)
      next = if-cases P s.stop _ _ (λ _. stays) λ _. taken s.queue

      at :
          (w : Worker)
          → Shrinks s (elim w [
            | idle ↦ or_stay s (take_next s)
            | ended ↦ s
            | inserting id ↦ insert s id (bytes_of id) (bytes_in id)
            | inserted id ↦ finish s id
            | failing id e ↦ fail s e
          ])
      at idle = next
      at ended = stays
      at (inserting id) = stays
      at (inserted id) = finished id (find id s.pending) refl
      at (failing id e) = (omega arith, refl)

-- A request that is queued adds at most its size, and the peak follows.
pub enqueue-peak :
    (s : Prefetcher) (id bytes : ℕ) {p : Prefetcher}
    → s.pending_bytes < u64_mod
    → enqueue s id bytes ≡ ok p
    → (p.pending_bytes ≤ s.pending_bytes + bytes)
      × (p.pending_bytes < u64_mod)
      × (p.peak_pending_bytes ≤ max s.peak_pending_bytes p.pending_bytes)
unfolding enqueue
enqueue-peak s id bytes {p} word =
    if-cases P (s.stop || contains id s.pending) _ _
      (λ _ e. subst Grows (ok-injective e) (omega arith, word, omega arith))
      λ _.
        if-cases P (ltb (sub64 u64_max s.pending_bytes) bytes) _ _ (λ _ e. cc)
          λ room e.
            subst Grows (ok-injective e) (below, add64-lt s.pending_bytes bytes, omega arith)
  where
    Grows : Prefetcher → Type 0
    Grows q =
        (q.pending_bytes ≤ s.pending_bytes + bytes)
        × (q.pending_bytes < u64_mod)
        × (q.peak_pending_bytes ≤ max s.peak_pending_bytes q.pending_bytes)

    P : Result RequestError Prefetcher → Type 0
    P r = r ≡ ok p → Grows p

    below : add64 s.pending_bytes bytes ≤ s.pending_bytes + bytes
    below = unfold add64 in omega arith

pub init-peak : (cache : TensorCache) → (init cache).peak_pending_bytes ≡ 0
unfolding init
init-peak cache = refl

pub request_stop-peak :
    (s : Prefetcher) → (request_stop s).peak_pending_bytes ≡ s.peak_pending_bytes
unfolding request_stop
request_stop-peak s = refl

pub cancel-peak : (s : Prefetcher) → (cancel s).peak_pending_bytes ≡ s.peak_pending_bytes
unfolding cancel
cancel-peak s = refl
