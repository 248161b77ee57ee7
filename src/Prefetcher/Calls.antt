-- ===== src/Prefetcher/Calls.antt =====
-- The prefetcher and the consumer as clients of the cache: any interleaving is some sequence of
-- the calls of TensorCache/Coherence.antt.
use mem_vanta.Prelude.{
  ℕ, ◌<◌, ◌≡◌, refl, sym, ap, ◌∙◌, subst, ◌||◌, Option, none, some, List, [], ◌∷◌, ◌++◌, Result, ok,
  ltb, if-cases, ok-injective, Option-cases, inl, inr, sub64, u64_max, u64_mod,
}
use mathlib.Core.Option.{some-injective}
use mem_vanta.Prelude.Dict.{find, contains}
use mem_vanta.TensorCache.{TensorCache, Source, get_or_load}
use mem_vanta.TensorCache
use mem_vanta.TensorCache.Coherence.{Call, loads, inserts, step, run, Returns, run-Returns}
use mem_vanta.Prefetcher.{
  inserting, Prefetcher, RequestError, init, enqueue, take_next, insert, finish, fail, request_stop,
  cancel,
}
use mem_vanta.Prefetcher.Steps.{System, consume, start, Step, Steps}

enqueue-cache :
    (s : Prefetcher) (id bytes : ℕ) {p : Prefetcher} → enqueue s id bytes ≡ ok p → p.cache ≡ s.cache
unfolding enqueue
enqueue-cache s id bytes {p} =
    if-cases P (s.stop || contains id s.pending) _ _
      (λ _ e. ap (λ (q : Prefetcher). q.cache) (sym (ok-injective e)))
      λ _.
        if-cases P (ltb (sub64 u64_max s.pending_bytes) bytes) _ _ (λ _ e. cc)
          λ _ e. ap (λ (q : Prefetcher). q.cache) (sym (ok-injective e))
  where
    P : Result RequestError Prefetcher → Type 0
    P r = r ≡ ok p → p.cache ≡ s.cache

take_next-cache : (s : Prefetcher) {p : Prefetcher} → take_next s ≡ some p → p.cache ≡ s.cache
unfolding take_next
take_next-cache s {p} =
    if-cases P s.stop _ _ (λ _ e. ap (λ (q : Prefetcher). q.cache) (sym (some-injective _ _ e)))
      λ _. go s.queue
  where
    P : Option Prefetcher → Type 0
    P r = r ≡ some p → p.cache ≡ s.cache

    go :
        (ids : List ℕ)
        → P (elim ids [
          | [] ↦ none
          | id ∷ ids ↦ some (record s { queue = ids; worker = inserting id })
        ])
    go [] e = cc
    go (id ∷ ids) e = ap (λ (q : Prefetcher). q.cache) (sym (some-injective _ _ e))

finish-cache : (s : Prefetcher) (id : ℕ) → (finish s id).cache ≡ s.cache
unfolding finish
finish-cache s id = elim (Option-cases (find id s.pending)) [
  | inl e ↦ rw (finish, e) refl
  | inr (b, e) ↦ rw (finish, e) refl
]

module _ (bytes_of : ℕ → Source) (bytes_in : ℕ → ℕ) (count : ℕ) where
  -- The calls of the cache that a step makes.
  Step-calls :
      {s t : System}
      → Step bytes_of bytes_in count s t
      → (calls : List Call) × (t.shared.cache ≡ run bytes_of bytes_in s.shared.cache calls)
  unfolding run step insert consume fail request_stop cancel
  Step-calls (Step.asks id _) = ([], refl)
  Step-calls {s} (Step.enqueues id p _ e) = ([], enqueue-cache s.shared id (bytes_in id) e)
  Step-calls (Step.refuses id _ _ _) = ([], refl)
  Step-calls {s} (Step.takes p _ e) = ([], take_next-cache s.shared e)
  Step-calls (Step.inserts id _) = (inserts id ∷ [], refl)
  Step-calls {s} (Step.finishes id _) = ([], finish-cache s.shared id)
  Step-calls (Step.fails id e _) = ([], refl)
  Step-calls (Step.consumes id) = (loads id ∷ [], refl)
  Step-calls Step.stops = ([], refl)
  Step-calls (Step.cancels _ _) = ([], refl)

  run-append :
      (xs ys : List Call) (c : TensorCache)
      → run bytes_of bytes_in c (xs ++ ys) ≡ run bytes_of bytes_in (run bytes_of bytes_in c xs) ys
  unfolding run
  run-append [] ys c = refl
  run-append (x ∷ xs) ys c = run-append xs ys (step bytes_of bytes_in c x)

  Steps-calls :
      {s t : System}
      → Steps bytes_of bytes_in count s t
      → (calls : List Call) × (t.shared.cache ≡ run bytes_of bytes_in s.shared.cache calls)
  unfolding run
  Steps-calls Steps.done = ([], refl)
  Steps-calls {s} (Steps.more first rest) =
      let (xs, e) = Step-calls first in
      let (ys, e') = Steps-calls rest in
      (
        xs ++ ys,
        e' ∙ ap (λ c. run bytes_of bytes_in c ys) e ∙ sym (run-append xs ys s.shared.cache),
      )

  -- Whatever steps requesting threads, the worker, the consumer and a stopping thread take, in any
  -- order, from a fresh prefetcher over a fresh cache whose capacity is a 64-bit word, a load of
  -- the consumer that succeeds returns the bytes of its slice.
  pub Steps-Returns :
      (cap : ℕ) {t : System} (id : ℕ)
      → cap < u64_mod
      → Steps bytes_of bytes_in count (start (TensorCache.init cap)) t
      → Returns bytes_of bytes_in id (get_or_load t.shared.cache id (bytes_of id) (bytes_in id)).1
  unfolding init
  Steps-Returns cap {t} id h steps =
      let (calls, e) = Steps-calls steps in
      subst (λ c. Returns bytes_of bytes_in id (get_or_load c id (bytes_of id) (bytes_in id)).1)
        (sym e) (run-Returns bytes_of bytes_in cap calls id h)
