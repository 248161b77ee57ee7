-- ===== src/Prefetcher/Joining.antt =====
-- src/prefetcher.cpp, `stop`: a worker that is told to stop and is awake returns within three of its
-- sections.
use mem_vanta.Prelude.{
  ℕ, zero, suc, ◌-◌, ◌≤◌, ◌≡◌, refl, true, Result, ok, err, Option, none, some, arith,
}
use mem_vanta.Prelude.Dict.{find}
use mem_vanta.TensorCache.{CacheError, Source, insert_prefetched}
use mem_vanta.Prefetcher.{
  Worker, idle, ended, inserting, inserted, failing, Prefetcher, take_next, after_insert, insert,
  finish, fail, request_stop,
}
use mem_vanta.Prefetcher.Thread.{or_stay, worker_step, worker_steps}

-- The sections that a stopped worker has left.
abbrev left : Worker → ℕ
left ended = 0
left idle = 1
left (failing id e) = 1
left (inserted id) = 2
left (inserting id) = 3

module _ (bytes_of : ℕ → Source) (bytes_in : ℕ → ℕ) where
  Nearer : Worker → Prefetcher → Type 0
  Nearer w t = (t.stop ≡ true) × (left t.worker ≤ left w - 1)

  worker_step-Nearer :
      (s : Prefetcher) → s.stop ≡ true → Nearer s.worker (worker_step bytes_of bytes_in s)
  unfolding worker_step Nearer take_next insert finish fail after_insert
  worker_step-Nearer s h = at s.worker refl
    where
      inserted_left : (id : ℕ) (r : Result CacheError (Unit {0})) → left (after_insert id r) ≤ 2
      inserted_left id (ok u) = omega arith
      inserted_left id (err e) = omega arith

      finished :
          (id : ℕ) (found : Option ℕ)
          → find id s.pending ≡ found
          → Nearer (inserted id) (finish s id)
      finished id none e = rw (finish, e) (h, omega arith)
      finished id (some bytes) e = rw (finish, e) (h, omega arith)

      at :
          (w : Worker)
          → s.worker ≡ w
          → Nearer w (elim w [
            | idle ↦ or_stay s (take_next s)
            | ended ↦ s
            | inserting id ↦ insert s id (bytes_of id) (bytes_in id)
            | inserted id ↦ finish s id
            | failing id e ↦ fail s e
          ])
      at idle e = rw (take_next, h) (refl, omega arith)
      at ended e = (h, rw e (omega arith))
      at (inserting id) e =
          (h, inserted_left id (insert_prefetched s.cache id (bytes_of id) (bytes_in id)).1)
      at (inserted id) e = finished id (find id s.pending) refl
      at (failing id x) e = (refl, omega arith)

  worker_steps-Nearer :
      (n : ℕ) (s : Prefetcher)
      → s.stop ≡ true
      → let t = worker_steps bytes_of bytes_in n s in
        (t.stop ≡ true) × (left t.worker ≤ left s.worker - n)
  unfolding worker_steps Nearer
  worker_steps-Nearer zero s h = (h, omega arith)
  worker_steps-Nearer (suc n) s h =
      let (stopped, nearer) = worker_step-Nearer s h in
      let (stopped', nearer') = worker_steps-Nearer n (worker_step bytes_of bytes_in s) stopped in
      (stopped', omega (arith, nearer, nearer'))

  pub worker_step-stop :
      (s : Prefetcher) → s.stop ≡ true → (worker_step bytes_of bytes_in s).stop ≡ true
  unfolding Nearer
  worker_step-stop s h = (worker_step-Nearer s h).0

  pub worker_steps-stop :
      (n : ℕ) (s : Prefetcher) → s.stop ≡ true → (worker_steps bytes_of bytes_in n s).stop ≡ true
  worker_steps-stop n s h = (worker_steps-Nearer n s h).0

  none_left : (w : Worker) → left w ≤ 0 → w ≡ ended
  none_left ended h = refl
  none_left idle h = absurd (omega arith)
  none_left (failing id e) h = absurd (omega arith)
  none_left (inserted id) h = absurd (omega arith)
  none_left (inserting id) h = absurd (omega arith)

  most_left : (w : Worker) → left w ≤ 3
  most_left ended = omega arith
  most_left idle = omega arith
  most_left (failing id e) = omega arith
  most_left (inserted id) = omega arith
  most_left (inserting id) = omega arith

  -- A worker that is told to stop returns within three of its sections, whatever the state.
  pub worker_steps-ended :
      (s : Prefetcher) → s.stop ≡ true → (worker_steps bytes_of bytes_in 3 s).worker ≡ ended
  worker_steps-ended s h =
      let (stopped, nearer) = worker_steps-Nearer 3 s h in
      none_left _ (omega (arith, nearer, most_left s.worker))

  pub request_stop-stop : (s : Prefetcher) → (request_stop s).stop ≡ true
  unfolding request_stop
  request_stop-stop s = refl
