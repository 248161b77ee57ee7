-- ===== src/Prefetcher/Accounting.antt =====
-- What the prefetcher's counts stand for, whatever the interleaving.
use mem_vanta.Prelude.{
  ℕ, ◌+◌, ◌≤◌, ◌<◌, max, ◌≡◌, refl, sym, ap, subst, Bool, true, false, ◌||◌, inl, inr, Option, none,
  some, List, [], ◌∷◌, ◌++◌, arith, Result, ok, err, ltb, ◌==◌, Bool-cases, if-cases, elem,
  Distinct, elem-append, u64_mod, u64_max, add64, sub64, add64_lem, sub64_lem, ok-injective,
  ==_refl, ==_iff, ◌∙◌, append_assoc,
}
use mathlib.Core.Option.{some-injective}
use mem_vanta.Prelude.Dict.{
  contains, emplace, erase_key, DistinctKeys, total, find-contains-true, contains-erase_key_ne,
  contains-erase_key_self, erase_key-DistinctKeys, total-erase_key,
}
use mem_vanta.TensorCache.{TensorCache, CacheError, Source, insert_prefetched}
use mem_vanta.TensorCache.Invariant
use mem_vanta.TensorCache.Loads.{get_or_load-Inv, insert_prefetched-Inv}
use mem_vanta.Prefetcher.{
  Worker, idle, ended, inserting, inserted, failing, Prefetcher, RequestError, init, enqueue,
  take_next, after_insert, insert, finish, fail, request_stop, cancel,
}
use mem_vanta.Prefetcher.Steps.{System, consume, start, Step, Steps}

-- The id that the worker is at.
abbrev pub active : Worker → List ℕ
active idle = []
active ended = []
active (inserting id) = id ∷ []
active (inserted id) = id ∷ []
active (failing id e) = id ∷ []

-- The map of pending ids has those that are queued or worked on, each once, and the count of
-- pending bytes is the sum of their sizes.
pub record Accounted (s : Prefetcher) : Type 0 where
  pub agree : (i : ℕ) → contains i s.pending ≡ elem i (active s.worker ++ s.queue)
  pub once : Distinct (active s.worker ++ s.queue)
  pub keys : DistinctKeys s.pending
  pub sum : s.pending_bytes ≡ total (λ b. b) s.pending
  pub word : s.pending_bytes < u64_mod
  pub peak : s.pending_bytes ≤ s.peak_pending_bytes
  pub cached : Invariant.Inv s.cache

Distinct-snoc : (xs : List ℕ) (x : ℕ) → Distinct xs → elem x xs ≡ false → Distinct (xs ++ x ∷ [])
Distinct-snoc [] x d h = (refl, tt)
Distinct-snoc (y ∷ xs) x d h =
    (ground (arith, elem-append y xs (x ∷ [])), Distinct-snoc xs x d.1 (ground arith))

init-Accounted : (cache : TensorCache) → Invariant.Inv cache → Accounted (init cache)
unfolding init
init-Accounted cache v = record {
  agree = λ i. refl;
  once = tt;
  keys = tt;
  sum = refl;
  word = omega arith;
  peak = omega arith;
  cached = v;
}

module _ {s : Prefetcher} (v : Accounted s) where
  added-Accounted :
      (id bytes : ℕ)
      → contains id s.pending ≡ false
      → ltb (sub64 u64_max s.pending_bytes) bytes ≡ false
      → Accounted (record s {
        pending = emplace id bytes s.pending;
        pending_bytes = add64 s.pending_bytes bytes;
        peak_pending_bytes = max s.peak_pending_bytes (add64 s.pending_bytes bytes);
        queue = s.queue ++ id ∷ [];
      })
  added-Accounted id bytes absent room =
      let below : s.pending_bytes + bytes < u64_mod =
        ground (
          arith,
          v.word,
          sub64_lem u64_max s.pending_bytes (omega arith) (omega (arith, v.word)),
        ) in
      let same = add64_lem s.pending_bytes bytes below in
      let split : active s.worker ++ (s.queue ++ id ∷ [])
          ≡ (active s.worker ++ s.queue) ++ id ∷ [] =
        sym (append_assoc (active s.worker) s.queue (id ∷ [])) in
      record {
        agree = λ i.
            rw (absent, split)
              (ground (arith, v.agree i, elem-append i (active s.worker ++ s.queue) (id ∷ [])));
        once =
            subst Distinct (sym split)
              (Distinct-snoc (active s.worker ++ s.queue) id v.once (sym (v.agree id) ∙ absent));
        keys = rw absent (absent, v.keys);
        sum = rw absent (omega (arith, same, v.sum));
        word = omega (arith, same);
        peak = omega arith;
        cached = v.cached;
      }

  enqueue-Accounted : (id bytes : ℕ) {p : Prefetcher} → enqueue s id bytes ≡ ok p → Accounted p
  unfolding enqueue
  enqueue-Accounted id bytes {p} =
      if-cases P (s.stop || contains id s.pending) _ _ (λ _ e. subst Accounted (ok-injective e) v)
        λ new.
          if-cases P (ltb (sub64 u64_max s.pending_bytes) bytes) _ _ (λ _ e. cc)
            λ room e.
              subst Accounted (ok-injective e) (added-Accounted id bytes (ground (arith, new)) room)
    where
      P : Result RequestError Prefetcher → Type 0
      P r = r ≡ ok p → Accounted p

  moved-Accounted :
      (w : Worker) (ids : List ℕ) (stop : Bool)
      → active w ++ ids ≡ active s.worker ++ s.queue
      → Accounted (record s { worker = w; queue = ids; stop = stop })
  moved-Accounted w ids stop same = record {
    agree = λ i. v.agree i ∙ ap (elem i) (sym same);
    once = subst Distinct (sym same) v.once;
    keys = v.keys;
    sum = v.sum;
    word = v.word;
    peak = v.peak;
    cached = v.cached;
  }

  take_next-Accounted : {p : Prefetcher} → s.worker ≡ idle → take_next s ≡ some p → Accounted p
  unfolding take_next
  take_next-Accounted {p} at =
      if-cases P s.stop _ _
        (λ _ e.
          subst Accounted (some-injective _ _ e)
            (moved-Accounted ended s.queue s.stop (rw at refl)))
        λ _. go s.queue refl
    where
      P : Option Prefetcher → Type 0
      P r = r ≡ some p → Accounted p

      go :
          (ids : List ℕ)
          → s.queue ≡ ids
          → P (elim ids [
            | [] ↦ none
            | id ∷ ids ↦ some (record s { queue = ids; worker = inserting id })
          ])
      go [] q e = cc
      go (id ∷ ids) q e =
          subst Accounted (some-injective _ _ e)
            (moved-Accounted (inserting id) ids s.stop (rw (at, q) refl))

  insert-Accounted :
      (id : ℕ) (src : Source) (bytes : ℕ)
      → s.worker ≡ inserting id
      → Accounted (insert s id src bytes)
  unfolding insert
  insert-Accounted id src bytes at =
      let kept = insert_prefetched-Inv id src bytes v.cached in
      let same = active_after (insert_prefetched s.cache id src bytes).1 in
      record {
        agree = λ i. v.agree i ∙ ap (λ w. elem i (w ++ s.queue)) (ap active at ∙ sym same);
        once = subst (λ w. Distinct (w ++ s.queue)) (ap active at ∙ sym same) v.once;
        keys = v.keys;
        sum = v.sum;
        word = v.word;
        peak = v.peak;
        cached = kept;
      }
    where
      active_after : (r : Result CacheError (Unit {0})) → active (after_insert id r) ≡ id ∷ []
      active_after (ok _) = refl
      active_after (err e) = refl

  finish-Accounted : (id : ℕ) → s.worker ≡ inserted id → Accounted (finish s id)
  unfolding finish
  finish-Accounted id at =
      let there : contains id s.pending ≡ true = v.agree id ∙ rw at (ground (arith, ==_refl id)) in
      let (bytes, found) = find-contains-true id s.pending there in
      let once : Distinct (id ∷ s.queue) = subst (λ w. Distinct (active w ++ s.queue)) at v.once in
      let all = λ (i : ℕ).
        subst (λ w. contains i s.pending ≡ elem i (active w ++ s.queue)) at (v.agree i) in
      let less = total-erase_key (λ b. b) id s.pending bytes found in
      let same = sub64_lem s.pending_bytes bytes v.word (omega (arith, less, v.sum)) in
      rw (finish, found)
        (record {
          agree = λ i. agree_after i (all i) once.0;
          once = once.1;
          keys = erase_key-DistinctKeys id s.pending v.keys;
          sum = omega (arith, same, less, v.sum);
          word = omega (arith, same, v.word);
          peak = omega (arith, same, v.peak);
          cached = v.cached;
        })
    where
      agree_after :
          (i : ℕ)
          → contains i s.pending ≡ elem i (id ∷ s.queue)
          → elem id s.queue ≡ false
          → contains i (erase_key id s.pending) ≡ elem i s.queue
      agree_after i all fresh = elim (Bool-cases (i == id)) [
        | inl same ↦
            let e = (==_iff i id).0 same in
            subst (λ j. contains j (erase_key id s.pending) ≡ elem j s.queue) (sym e)
              (contains-erase_key_self id s.pending v.keys ∙ sym fresh)
        | inr other ↦ ground (arith, contains-erase_key_ne id i s.pending other)
      ]

  emptied-Accounted :
      (error : Option CacheError) (stop : Bool) (w : Worker)
      → active w ≡ []
      → Accounted (record s {
        error = error;
        stop = stop;
        worker = w;
        queue = [];
        pending = [];
        pending_bytes = 0;
      })
  emptied-Accounted error stop w none_active = record {
    agree = λ i. rw none_active refl;
    once = rw none_active tt;
    keys = tt;
    sum = refl;
    word = omega arith;
    peak = omega arith;
    cached = v.cached;
  }

  consume-Accounted : (id : ℕ) (src : Source) (bytes : ℕ) → Accounted (consume s id src bytes)
  unfolding consume
  consume-Accounted id src bytes = record {
    agree = v.agree;
    once = v.once;
    keys = v.keys;
    sum = v.sum;
    word = v.word;
    peak = v.peak;
    cached = get_or_load-Inv id src bytes v.cached;
  }

module _ (bytes_of : ℕ → Source) (bytes_in : ℕ → ℕ) (count : ℕ) where
  pub Step-Accounted :
      {s t : System} → Step bytes_of bytes_in count s t → Accounted s.shared → Accounted t.shared
  Step-Accounted (Step.asks id _) v = v
  Step-Accounted (Step.enqueues id p _ e) v = enqueue-Accounted v id (bytes_in id) e
  Step-Accounted (Step.refuses id _ _ _) v = v
  Step-Accounted (Step.takes p at e) v = take_next-Accounted v at e
  Step-Accounted (Step.inserts id at) v = insert-Accounted v id (bytes_of id) (bytes_in id) at
  Step-Accounted (Step.finishes id at) v = finish-Accounted v id at
  Step-Accounted {s} (Step.fails id e _) v = unfold fail in emptied-Accounted v _ true ended refl
  Step-Accounted (Step.consumes id) v = consume-Accounted v id (bytes_of id) (bytes_in id)
  Step-Accounted {s} Step.stops v =
      unfold request_stop in moved-Accounted v s.shared.worker s.shared.queue true refl
  Step-Accounted {s} (Step.cancels _ at) v =
      unfold cancel in emptied-Accounted v s.shared.error s.shared.stop s.shared.worker (rw at refl)

  pub Steps-Accounted :
      {s t : System} → Steps bytes_of bytes_in count s t → Accounted s.shared → Accounted t.shared
  Steps-Accounted Steps.done v = v
  Steps-Accounted (Steps.more first rest) v = Steps-Accounted rest (Step-Accounted first v)

  -- Whatever steps requesting threads, the worker, the consumer and a stopping thread take from a
  -- fresh prefetcher over a well-formed cache, the pending map has exactly the ids that are queued
  -- or worked on, each once, the pending bytes are the sum of its sizes, a 64-bit word and at most
  -- the peak, and the cache stays well-formed.
  pub start-Accounted :
      (cache : TensorCache) {t : System}
      → Invariant.Inv cache
      → Steps bytes_of bytes_in count (start cache) t
      → Accounted t.shared
  start-Accounted cache v steps = Steps-Accounted steps (init-Accounted cache v)
