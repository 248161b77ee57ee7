-- ===== src/Gguf/Runs.antt =====
-- A logic for parsers: from a cursor inside the file, a parser never reads past the mapping, ends
-- inside the file, never moves back, and pays from its budget for what it returns.
use mem_vanta.Prelude.{
  ℕ, zero, suc, ◌+◌, ◌*◌, ◌≤◌, ◌<◌, ◌≡◌, refl, ap, Bool, true, false, ◌≢◌, List, [], ◌∷◌, arith,
  Result, ok, err, if◌then◌else◌, length, u64_mod,
}
use mem_vanta.Gguf.Types.{Bytes, GgufError, out_of_bounds}
use mem_vanta.Gguf.Reader.{Reader, Parser, ◌>>=◌, pure, throw, lift}
use mem_vanta.Gguf.Values.{repeat}

pub record Ready (file : Bytes) (r : Reader) : Type 0 where
  pub inside : r.off ≤ length file
  pub word : r.heap_remaining < u64_mod

-- What a run from `r` ends with: `k` is what the caller has paid already, and `w` says what each
-- result costs.
abbrev pub Outcome {ℓ} :
    {A : Type ℓ} → Bytes → ℕ → (A → ℕ) → Reader → Result GgufError (A × Reader) → Type 0
Outcome file k w r (ok (a, r')) =
    (r.off ≤ r'.off)
    × (r'.off ≤ length file)
    × (r'.heap_remaining ≤ r.heap_remaining)
    × (r'.heap_remaining + w a ≤ r.heap_remaining + k)
Outcome file k w r (err e) = e ≢ out_of_bounds

pub record Runs {ℓ} {A : Type ℓ} (file : Bytes) (k : ℕ) (w : A → ℕ) (m : Parser A) : Type 0 where
  pub apply : (r : Reader) → Ready file r → Outcome file k w r (m r)

-- The sum of what the elements of a list cost.
abbrev pub cost_sum {ℓ} : {A : Type ℓ} → (A → ℕ) → List A → ℕ
cost_sum w [] = 0
cost_sum w (a ∷ rest) = w a + cost_sum w rest

-- One step of a parser, where its outcome is known.
pub bind_ok {ℓ κ} :
    {A : Type ℓ} {B : Type κ} (m : Parser A) (f : A → Parser B) (r : Reader) {a : A} {r' : Reader}
    → m r ≡ ok (a, r')
    → (m >>= f) r ≡ f a r'
bind_ok m f r e = rw (e, ◌>>=◌) refl

pub bind_err {ℓ κ} :
    {A : Type ℓ} {B : Type κ} (m : Parser A) (f : A → Parser B) (r : Reader) {e : GgufError}
    → m r ≡ err e
    → (m >>= f) r ≡ err e
bind_err m f r e = rw (e, ◌>>=◌) refl

module _ {file : Bytes} where
  pub Runs-pure {ℓ} : {A : Type ℓ} {k : ℕ} {w : A → ℕ} (a : A) → w a ≤ k → Runs file k w (pure a)
  Runs-pure a h = record { apply = λ r v. (omega arith, v.inside, omega arith, omega arith) }

  pub Runs-throw {ℓ} :
      {A : Type ℓ} {k : ℕ} {w : A → ℕ} (e : GgufError) → e ≢ out_of_bounds → Runs file k w (throw e)
  Runs-throw e h = record { apply = λ r v. h }

  bind-Outcome {ℓ κ} :
      {A : Type ℓ} {B : Type κ} (j k : ℕ) (w : B → ℕ) (cost : A → ℕ) {r : Reader} (f : A → Parser B)
      (x : Result GgufError (A × Reader))
      → Ready file r
      → Outcome file j cost r x
      → ((a : A) → Runs file (cost a + k) w (f a))
      → Outcome file (j + k) w r (elim x [ ok (a, r') ↦ f a r' | err e ↦ err e ])
  bind-Outcome j k w cost f (err e) v h next = h
  bind-Outcome {A} {B} j k w cost {r} f (ok (a, r')) v h next =
      later (f a r') ((next a).apply r' (record { inside = h.1; word = omega (arith, v) }))
    where
      later :
          (y : Result GgufError (B × Reader))
          → Outcome file (cost a + k) w r' y
          → Outcome file (j + k) w r y
      later (err e) o = o
      later (ok (b, r'')) o = (omega arith, omega arith, omega arith, omega arith)

  -- What a step leaves of its payment, the steps after it have.
  pub Runs-bind_prepaid {ℓ κ} :
      {A : Type ℓ} {B : Type κ} (j k : ℕ) {w : B → ℕ} (cost : A → ℕ) {m : Parser A}
      {f : A → Parser B}
      → Runs file j cost m
      → ((a : A) → Runs file (cost a + k) w (f a))
      → Runs file (j + k) w (m >>= f)
  Runs-bind_prepaid j k {w} cost {m} {f} h next = record {
    apply = λ r v. bind-Outcome j k w cost f (m r) v (h.apply r v) next;
  }

  -- More may be paid than is needed.
  pub Runs-paid {ℓ} :
      {A : Type ℓ} {k : ℕ} (k' : ℕ) {w : A → ℕ} {m : Parser A}
      → k ≤ k'
      → Runs file k w m
      → Runs file k' w m
  Runs-paid {A} {k} k' {w} {m} less h = record { apply = λ r v. go r (m r) (h.apply r v) }
    where
      go :
          (r : Reader) (x : Result GgufError (A × Reader))
          → Outcome file k w r x
          → Outcome file k' w r x
      go r (err e) o = o
      go r (ok (a, r')) o = (o.0, o.1, o.2, omega arith)

  pub Runs-bind {ℓ κ} :
      {A : Type ℓ} {B : Type κ} {k : ℕ} {w : B → ℕ} (cost : A → ℕ) {m : Parser A} {f : A → Parser B}
      → Runs file 0 cost m
      → ((a : A) → Runs file (cost a + k) w (f a))
      → Runs file k w (m >>= f)
  Runs-bind {k} cost h next = Runs-paid k (omega arith) (Runs-bind_prepaid 0 k cost h next)

  pub Runs-lift {ℓ} :
      {A : Type ℓ} (x : Result GgufError A) → x ≢ err out_of_bounds → Runs file 0 (λ _. 0) (lift x)
  Runs-lift (ok a) h = Runs-pure a (omega arith)
  Runs-lift (err e) h = record { apply = λ r v q. h (ap err q) }

  pub Runs-if {ℓ} :
      {A : Type ℓ} {k : ℕ} {w : A → ℕ} (b : Bool) (x y : Parser A)
      → Runs file k w x
      → Runs file k w y
      → Runs file k w (if b then x else y)
  Runs-if true x y h g = h
  Runs-if false x y h g = g

  -- `if (bad) throw e;`
  pub Runs-check :
      (b : Bool) (e : GgufError)
      → e ≢ out_of_bounds
      → Runs file 0 (λ _. 0) (if b then throw {A = Unit {0}} e else pure tt)
  Runs-check b e h = Runs-if b _ _ (Runs-throw e h) (Runs-pure tt (omega arith))

  -- A parser that costs less than is asked.
  pub Runs-weaken {ℓ} :
      {A : Type ℓ} {k : ℕ} (w w' : A → ℕ) {m : Parser A}
      → ((a : A) → w' a ≤ w a)
      → Runs file k w m
      → Runs file k w' m
  Runs-weaken {A} {k} w w' {m} less h = record { apply = λ r v. go r (m r) (h.apply r v) }
    where
      go :
          (r : Reader) (x : Result GgufError (A × Reader))
          → Outcome file k w r x
          → Outcome file k w' r x
      go r (err e) o = o
      go r (ok (a, r')) o = (o.0, o.1, o.2, omega (arith, less a))

  -- A loop of `n` rounds, with `c` bytes paid for each in advance.
  pub Runs-repeat {ℓ} :
      {A : Type ℓ} (c : ℕ) (w : A → ℕ) (m : Parser A) (n : ℕ)
      → Runs file 0 w m
      → Runs file (n * c) (cost_sum (λ a. c + w a)) (repeat m n)
  unfolding repeat
  Runs-repeat c w m zero h = Runs-pure [] (omega arith)
  Runs-repeat c w m (suc n) h = Runs-bind w h λ x. Runs-paid _ (omega arith) (
      Runs-bind_prepaid (n * c) (w x + c) (cost_sum (λ a. c + w a)) (Runs-repeat c w m n h)
        λ xs. Runs-pure (x ∷ xs) (omega arith))
