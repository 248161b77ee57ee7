-- ===== src/Prelude/Lists.antt =====
-- Lists measured by native numbers, Boolean membership of numbers, and tables of numbers.
use Prim.Native.Nat.{ℕ, zero, suc, ◌+◌, ◌<◌, ◌≤◌}
use mathlib.Core.Path.{◌≡◌, refl, ap, ◌∙◌}
use mathlib.Core.Bool.{Bool, true, false, ◌||◌}
use mathlib.Core.List.{List, [], ◌∷◌, ◌++◌}
use mathlib.Core.Option.{Option, none, some}
use native.Mathlib.Omega.{arith}
use mem_vanta.Prelude.Tests.{◌==◌, if◌then◌else◌}

module _ {ℓ} {A : Type ℓ} where
  abbrev pub length : List A → ℕ
  length [] = 0
  length (x ∷ xs) = suc (length xs)

  abbrev pub get_elem? : List A → ℕ → Option A
  get_elem? [] i = none
  get_elem? (x ∷ xs) zero = some x
  get_elem? (x ∷ xs) (suc i) = get_elem? xs i

  abbrev pub get_or : List A → ℕ → A → A
  get_or [] i d = d
  get_or (x ∷ xs) zero d = x
  get_or (x ∷ xs) (suc i) d = get_or xs i d

  abbrev pub take : ℕ → List A → List A
  take zero xs = []
  take (suc n) [] = []
  take (suc n) (x ∷ xs) = x ∷ take n xs

  abbrev pub drop : ℕ → List A → List A
  drop zero xs = xs
  drop (suc n) [] = []
  drop (suc n) (x ∷ xs) = drop n xs

  abbrev pub replicate : ℕ → A → List A
  replicate zero a = []
  replicate (suc n) a = a ∷ replicate n a

  pub length-append : (xs ys : List A) → length (xs ++ ys) ≡ length xs + length ys
  length-append [] ys = omega arith
  length-append (x ∷ xs) ys = omega (arith, length-append xs ys)

  pub length-replicate : (n : ℕ) (a : A) → length (replicate n a) ≡ n
  length-replicate zero a = refl
  length-replicate (suc n) a = ap suc (length-replicate n a)

  abbrev pub All {κ} : (A → Type κ) → List A → Type κ
  All P [] = Unit
  All P (x ∷ xs) = P x × All P xs

-- Membership of a number, as a test.
abbrev pub elem : ℕ → List ℕ → Bool
elem a [] = false
elem a (x ∷ xs) = (a == x) || elem a xs

-- No number stands twice.
abbrev pub Distinct : List ℕ → Type 0
Distinct [] = Unit {0}
Distinct (x ∷ xs) = (elem x xs ≡ false) × Distinct xs

-- Drops the first occurrence.
abbrev pub erase : ℕ → List ℕ → List ℕ
erase a [] = []
erase a (x ∷ xs) = if a == x then xs else x ∷ erase a xs

pub elem-erase_ne : (a i : ℕ) (xs : List ℕ) → (i == a) ≡ false → elem i (erase a xs) ≡ elem i xs
elem-erase_ne a i [] h = refl
elem-erase_ne a i (x ∷ xs) h = ground (arith, elem-erase_ne a i xs h)

pub elem-erase_self : (a : ℕ) (xs : List ℕ) → Distinct xs → elem a (erase a xs) ≡ false
elem-erase_self a [] d = refl
elem-erase_self a (x ∷ xs) d = ground (arith, elem-erase_self a xs d.1)

pub erase-Distinct : (a : ℕ) (xs : List ℕ) → Distinct xs → Distinct (erase a xs)
erase-Distinct a [] d = tt
erase-Distinct a (x ∷ xs) d = ground (arith, erase-Distinct a xs d.1, elem-erase_ne a x xs)

pub elem-append : (a : ℕ) (xs ys : List ℕ) → elem a (xs ++ ys) ≡ (elem a xs || elem a ys)
elem-append a [] ys = refl
elem-append a (x ∷ xs) ys = ground (arith, elem-append a xs ys)

pub Distinct-append :
    (xs ys : List ℕ)
    → Distinct (xs ++ ys)
    → Distinct xs × ((a : ℕ) → elem a ys ≡ true → elem a xs ≡ false)
Distinct-append [] ys d = (tt, λ a h. refl)
Distinct-append (x ∷ xs) ys d =
    let ih = Distinct-append xs ys d.1 in
    (
      (ground (arith, elem-append x xs ys), ih.0),
      λ a h. ground (arith, ih.1 a, elem-append x xs ys),
    )

-- `f 0, f 1, …, f (n - 1)`, starting at an offset.
abbrev pub table {ℓ} : {A : Type ℓ} → (ℕ → A) → ℕ → ℕ → List A
table f i zero = []
table f i (suc n) = f i ∷ table f (suc i) n

pub length-table {ℓ} : {A : Type ℓ} (f : ℕ → A) (i n : ℕ) → length (table f i n) ≡ n
length-table f i zero = refl
length-table f i (suc n) = ap suc (length-table f (suc i) n)

pub elem-append_left : (a : ℕ) (xs ys : List ℕ) → elem a xs ≡ true → elem a (xs ++ ys) ≡ true
elem-append_left a xs ys h = ground (arith, elem-append a xs ys)

pub get_elem?-some {ℓ} :
    {A : Type ℓ} (xs : List A) (i : ℕ) → i < length xs → (x : A) × (get_elem? xs i ≡ some x)
get_elem?-some [] i h = elim h [ ]
get_elem?-some (x ∷ xs) zero h = (x, refl)
get_elem?-some (x ∷ xs) (suc i) h = get_elem?-some xs i (omega arith)

pub get_elem?-table {ℓ} :
    {A : Type ℓ} (f : ℕ → A) (i n j : ℕ) → j < n → get_elem? (table f i n) j ≡ some (f (i + j))
get_elem?-table f i zero j h = absurd (omega (arith, h))
get_elem?-table f i (suc n) zero h = ap (λ k. some (f k)) (omega arith)
get_elem?-table f i (suc n) (suc j) h =
    get_elem?-table f (suc i) n j (omega (arith, h)) ∙ ap (λ k. some (f k)) (omega arith)

pub drop-get_elem? {ℓ} :
    {A : Type ℓ} (ss : List A) (i : ℕ) (s : A)
    → get_elem? ss i ≡ some s
    → drop i ss ≡ s ∷ drop (suc i) ss
drop-get_elem? [] i s h = cc
drop-get_elem? (t ∷ ss) zero s h = cc
drop-get_elem? (t ∷ ss) (suc i) s h = drop-get_elem? ss i s h

pub drop_all {ℓ} : {A : Type ℓ} (ss : List A) (i : ℕ) → length ss ≤ i → drop i ss ≡ []
drop_all [] zero h = refl
drop_all [] (suc i) h = refl
drop_all (t ∷ ss) zero h = absurd (omega (arith, h))
drop_all (t ∷ ss) (suc i) h = drop_all ss i (omega (arith, h))
