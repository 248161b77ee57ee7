-- ===== src/Prefetcher/Steps.antt =====
-- The threads around a prefetcher, one locked section at a time, in any order: those that request,
-- the worker, the consumer of the cache, and the one that stops.
use mem_vanta.Prelude.{ℕ, ◌≡◌, true, List, [], ◌∷◌, ok, err, some, erase, elem}
use mem_vanta.TensorCache.{TensorCache, CacheError, Source, get_or_load}
use mem_vanta.Prefetcher.{
  idle, ended, inserting, inserted, failing, Prefetcher, RequestError, init, check_request, enqueue,
  take_next, insert, finish, fail, request_stop, cancel,
}

-- The ids that a request is in flight for: past its test, and not yet at its lock.
pub record System : Type 0 where
  pub shared : Prefetcher
  pub asked : List ℕ

-- The consumer loads a slice.
unfoldable pub consume : Prefetcher → ℕ → Source → ℕ → Prefetcher
consume s id src bytes = record s { cache = (get_or_load s.cache id src bytes).0 }

abbrev pub start : TensorCache → System
start cache = record { shared = init cache; asked = [] }

-- A store: the bytes and the size of each slice, and their number.
module _ (bytes_of : ℕ → Source) (bytes_in : ℕ → ℕ) (count : ℕ) where
  pub data Step (s : System) : System → Type 0 where
    asks :
        (id : ℕ)
        → check_request count s.shared id ≡ ok true
        → Step s (record s { asked = id ∷ s.asked })
    enqueues :
        (id : ℕ) (p : Prefetcher)
        → elem id s.asked ≡ true
        → enqueue s.shared id (bytes_in id) ≡ ok p
        → Step s (record { shared = p; asked = erase id s.asked })
    refuses :
        (id : ℕ) (e : RequestError)
        → elem id s.asked ≡ true
        → enqueue s.shared id (bytes_in id) ≡ err e
        → Step s (record s { asked = erase id s.asked })
    takes :
        (p : Prefetcher)
        → s.shared.worker ≡ idle
        → take_next s.shared ≡ some p
        → Step s (record s { shared = p })
    inserts :
        (id : ℕ)
        → s.shared.worker ≡ inserting id
        → Step s (record s { shared = insert s.shared id (bytes_of id) (bytes_in id) })
    finishes :
        (id : ℕ) → s.shared.worker ≡ inserted id → Step s (record s { shared = finish s.shared id })
    fails :
        (id : ℕ) (e : CacheError)
        → s.shared.worker ≡ failing id e
        → Step s (record s { shared = fail s.shared e })
    consumes :
        (id : ℕ) → Step s (record s { shared = consume s.shared id (bytes_of id) (bytes_in id) })
    stops : Step s (record s { shared = request_stop s.shared })
    cancels :
        s.shared.stop ≡ true
        → s.shared.worker ≡ ended
        → Step s (record s { shared = cancel s.shared })

  pub data Steps : System → System → Type 0 where
    done : {s : System} → Steps s s
    more : {s t u : System} → Step s t → Steps t u → Steps s u
