-- ===== src/Prelude/Dict.antt =====
-- `std::unordered_map` from ids, as an association list with at most one entry for a key.
use Prim.Native.Nat.{ℕ, ◌+◌, ◌≤◌}
use mathlib.Core.Path.{◌≡◌, refl}
use mathlib.Core.Bool.{Bool, true, false}
use mathlib.Core.List.{List, [], ◌∷◌}
use mathlib.Core.Option.{Option, none, some}
use native.Mathlib.Omega.{arith}
use mem_vanta.Prelude.Tests.{◌==◌, if◌then◌else◌}

module _ {ℓ} {V : Type ℓ} where
  abbrev pub find : ℕ → List (ℕ × V) → Option V
  find k [] = none
  find k ((j, v) ∷ m) = if k == j then some v else find k m

  abbrev pub contains : ℕ → List (ℕ × V) → Bool
  contains k [] = false
  contains k ((j, v) ∷ m) = if k == j then true else contains k m

  -- The entry of a key that is there, given anew.
  abbrev pub assign : ℕ → V → List (ℕ × V) → List (ℕ × V)
  assign k v [] = []
  assign k v ((j, w) ∷ m) = if k == j then (j, v) ∷ m else (j, w) ∷ assign k v m

  abbrev pub erase_key : ℕ → List (ℕ × V) → List (ℕ × V)
  erase_key k [] = []
  erase_key k ((j, w) ∷ m) = if k == j then m else (j, w) ∷ erase_key k m

  -- `emplace` leaves an entry that is there.
  abbrev pub emplace : ℕ → V → List (ℕ × V) → List (ℕ × V)
  emplace k v m = if contains k m then m else (k, v) ∷ m

  abbrev pub DistinctKeys : List (ℕ × V) → Type 0
  DistinctKeys [] = Unit {0}
  DistinctKeys ((k, v) ∷ m) = (contains k m ≡ false) × DistinctKeys m

  -- The sum of a weight over the entries.
  abbrev pub total : (V → ℕ) → List (ℕ × V) → ℕ
  total w [] = 0
  total w ((k, v) ∷ m) = w v + total w m

  pub contains-find-some :
      (k : ℕ) (v : V) (m : List (ℕ × V)) → find k m ≡ some v → contains k m ≡ true
  contains-find-some k v [] h = cc
  contains-find-some k v ((j, w) ∷ m) h = ground (arith, contains-find-some k v m)

  pub find-contains-true :
      (k : ℕ) (m : List (ℕ × V)) → contains k m ≡ true → (v : V) × (find k m ≡ some v)
  find-contains-true k [] h = cc
  find-contains-true k ((j, w) ∷ m) h =
      elim (k == j)
          as (λ b.
            (if b then true else contains k m) ≡ true
            → (v : V) × ((if b then some w else find k m) ≡ some v)) [
              | true ↦ λ _. (w, refl)
              | false ↦ λ h'. find-contains-true k m h'
            ]
        h

  pub find-contains-false : (k : ℕ) (m : List (ℕ × V)) → contains k m ≡ false → find k m ≡ none
  find-contains-false k [] h = refl
  find-contains-false k ((j, w) ∷ m) h = ground (arith, find-contains-false k m)

  pub contains-find-none : (k : ℕ) (m : List (ℕ × V)) → find k m ≡ none → contains k m ≡ false
  contains-find-none k [] h = refl
  contains-find-none k ((j, w) ∷ m) h = ground (arith, contains-find-none k m)

  pub find-erase_key_ne :
      (k i : ℕ) (m : List (ℕ × V)) → (i == k) ≡ false → find i (erase_key k m) ≡ find i m
  find-erase_key_ne k i [] h = refl
  find-erase_key_ne k i ((j, w) ∷ m) h = ground (arith, find-erase_key_ne k i m)

  pub contains-erase_key_ne :
      (k i : ℕ) (m : List (ℕ × V)) → (i == k) ≡ false → contains i (erase_key k m) ≡ contains i m
  contains-erase_key_ne k i [] h = refl
  contains-erase_key_ne k i ((j, w) ∷ m) h = ground (arith, contains-erase_key_ne k i m)

  pub contains-erase_key_self :
      (k : ℕ) (m : List (ℕ × V)) → DistinctKeys m → contains k (erase_key k m) ≡ false
  contains-erase_key_self k [] d = refl
  contains-erase_key_self k ((j, w) ∷ m) d = ground (arith, contains-erase_key_self k m d.1)

  pub erase_key-DistinctKeys :
      (k : ℕ) (m : List (ℕ × V)) → DistinctKeys m → DistinctKeys (erase_key k m)
  erase_key-DistinctKeys k [] d = tt
  erase_key-DistinctKeys k ((j, w) ∷ m) d =
      ground (arith, erase_key-DistinctKeys k m d.1, contains-erase_key_ne k j m)

  pub total-erase_key :
      (wt : V → ℕ) (k : ℕ) (m : List (ℕ × V)) (v : V)
      → find k m ≡ some v
      → total wt (erase_key k m) + wt v ≡ total wt m
  total-erase_key wt k [] v h = cc
  total-erase_key wt k ((j, w) ∷ m) v h = ground (arith, total-erase_key wt k m v)

  pub find-assign :
      (k i : ℕ) (v : V) (m : List (ℕ × V))
      → contains k m ≡ true
      → find i (assign k v m) ≡ (if i == k then some v else find i m)
  find-assign k i v [] h = cc
  find-assign k i v ((j, w) ∷ m) h = ground (arith, find-assign k i v m)

  pub contains-assign :
      (k i : ℕ) (v : V) (m : List (ℕ × V)) → contains i (assign k v m) ≡ contains i m
  contains-assign k i v [] = refl
  contains-assign k i v ((j, w) ∷ m) = ground (arith, contains-assign k i v m)

  pub assign-DistinctKeys :
      (k : ℕ) (v : V) (m : List (ℕ × V)) → DistinctKeys m → DistinctKeys (assign k v m)
  assign-DistinctKeys k v [] d = tt
  assign-DistinctKeys k v ((j, w) ∷ m) d =
      ground (arith, assign-DistinctKeys k v m d.1, contains-assign k j v m)

  pub total-assign :
      (wt : V → ℕ) (k : ℕ) (v : V) (m : List (ℕ × V)) (u : V)
      → find k m ≡ some u
      → total wt (assign k v m) + wt u ≡ total wt m + wt v
  total-assign wt k v [] u h = cc
  total-assign wt k v ((j, w) ∷ m) u h = ground (arith, total-assign wt k v m u)

  pub le-total :
      (wt : V → ℕ) (k : ℕ) (m : List (ℕ × V)) (v : V) → find k m ≡ some v → wt v ≤ total wt m
  le-total wt k m v h = omega (arith, total-erase_key wt k m v h)
