-- ===== src/WorkerPool/Counts.antt =====
-- What the hand-over of src/worker_pool.cpp has done and has left to do, counted over its workers.
use mem_vanta.Prelude.{
  ℕ, min, ◌+◌, ◌≡◌, refl, Bool, true, false, ◌&&◌, ◌||◌, not, List, [], ◌∷◌, ◌++◌, arith, ltb, leb,
  ◌==◌, if◌then◌else◌, All,
}
use mem_vanta.WorkerPool.{step_of, start_of, end_of}
use mem_vanta.WorkerPool.Protocol.{
  Fn, Place, waiting, returned, running, called, done, Thread, Caller, outside, working, awaiting,
  failing, Pool, is_some,
}

-- The ranges that have an index in them.
abbrev pub hits : ℕ → List (ℕ × ℕ) → ℕ
hits i [] = 0
hits i ((a, b) ∷ rs) = (if leb a i && ltb i b then 1 else 0) + hits i rs

-- Whether the function threw on one of the ranges.
abbrev pub threw : {E : Type 0} → Fn E → List (ℕ × ℕ) → Bool
threw f [] = false
threw f ((a, b) ∷ rs) = is_some (f a b) || threw f rs

module _ {A : Type 0} where
  abbrev pub sum : (A → ℕ) → List A → ℕ
  sum f [] = 0
  sum f (x ∷ xs) = f x + sum f xs

  abbrev pub any : (A → Bool) → List A → Bool
  any f [] = false
  any f (x ∷ xs) = f x || any f xs

  pub sum-middle :
      (f : A → ℕ) (xs ys : List A) (x : A) → sum f (xs ++ x ∷ ys) ≡ f x + sum f (xs ++ ys)
  sum-middle f [] ys x = refl
  sum-middle f (y ∷ xs) ys x = omega (arith, sum-middle f xs ys x)

  pub any-middle :
      (f : A → Bool) (xs ys : List A) (x : A) → any f (xs ++ x ∷ ys) ≡ (f x || any f (xs ++ ys))
  any-middle f [] ys x = refl
  any-middle f (y ∷ xs) ys x = ground (arith, any-middle f xs ys x)

  pub All-middle :
      (P : A → Type 0) (xs ys : List A) (x : A) → All P (xs ++ x ∷ ys) → P x × All P (xs ++ ys)
  All-middle P [] ys x h = h
  All-middle P (y ∷ xs) ys x h = let (p, rest) = All-middle P xs ys x h.1 in (p, (h.0, rest))

  pub All-insert :
      (P : A → Type 0) (xs ys : List A) (x : A) → P x → All P (xs ++ ys) → All P (xs ++ x ∷ ys)
  All-insert P [] ys x p h = (p, h)
  All-insert P (y ∷ xs) ys x p h = (h.0, All-insert P xs ys x p h.1)

-- The range of a worker.
abbrev pub range_of : ℕ → ℕ → ℕ → List (ℕ × ℕ)
range_of n threads tid =
    if ltb (start_of n threads tid) (end_of n threads tid)
    then (start_of n threads tid, end_of n threads tid) ∷ []
    else []

-- The caller's own range.
abbrev pub first_range : ℕ → ℕ → List (ℕ × ℕ)
first_range n threads = let b = min n (step_of n threads) in if b == 0 then [] else (0, b) ∷ []

module _ {E : Type 0} where
  -- Whether a worker has its call of a generation still to make.
  abbrev pub owes_at : ℕ → ℕ → Place E → Bool
  owes_at generation seen waiting = not (generation == seen)
  owes_at generation seen returned = false
  owes_at generation seen (running f n g) = true
  owes_at generation seen (called e g) = false
  owes_at generation seen (done g) = false

  abbrev pub owes : ℕ → Thread E → Bool
  owes generation w = owes_at generation w.seen w.place

  -- The ranges that a worker still owes which have an index in them.
  abbrev pub owed : ℕ → Pool E → Thread E → ℕ
  owed i s w = if owes s.generation w then hits i (range_of s.n s.threads w.tid) else 0

  -- Whether a worker is through with a generation.
  abbrev pub settled_at : ℕ → ℕ → Place E → Bool
  settled_at generation seen waiting = generation == seen
  settled_at generation seen returned = false
  settled_at generation seen (running f n g) = false
  settled_at generation seen (called e g) = false
  settled_at generation seen (done g) = false

  abbrev pub settled : ℕ → Thread E → ℕ
  settled generation w = if settled_at generation w.seen w.place then 1 else 0

  -- Whether a worker carries an exception.
  abbrev pub carries_at : Place E → Bool
  carries_at waiting = false
  carries_at returned = false
  carries_at (running f n g) = false
  carries_at (called e g) = true
  carries_at (done g) = false

  abbrev pub carries : Thread E → Bool
  carries w = carries_at w.place

  -- A worker that is not in the wait is at work for the generation that the pool has.
  abbrev pub CurrentAt : Pool E → ℕ → Place E → Type 0
  CurrentAt s seen waiting = Unit {0}
  CurrentAt s seen returned = s.stop ≡ true
  CurrentAt s seen (running f n g) =
      (f ≡ s.fn) × (n ≡ s.n) × (g ≡ s.generation) × (seen ≡ s.generation)
  CurrentAt s seen (called e g) = (g ≡ s.generation) × (seen ≡ s.generation)
  CurrentAt s seen (done g) = (g ≡ s.generation) × (seen ≡ s.generation)

  abbrev pub IsCurrent : Pool E → Thread E → Type 0
  IsCurrent s w = CurrentAt s w.seen w.place

  -- The same of the caller.
  abbrev pub caller_owed : ℕ → ℕ → ℕ → Caller E → ℕ
  caller_owed i n threads outside = 0
  caller_owed i n threads working = hits i (first_range n threads)
  caller_owed i n threads awaiting = 0
  caller_owed i n threads (failing e) = 0

  abbrev pub caller_carries : Caller E → Bool
  caller_carries outside = false
  caller_carries working = false
  caller_carries awaiting = false
  caller_carries (failing e) = true
