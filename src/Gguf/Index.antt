-- ===== src/Gguf/Index.antt =====
-- The index of the tensors' names: it finds each tensor under its name, and nothing else.
use mem_vanta.Prelude.{
  ℕ, zero, suc, ◌<◌, ◌≡◌, refl, ap, sym, subst, true, false, ◌⊎◌, inl, inr, none, some, List, [],
  ◌∷◌, ◌++◌, arith, ok, length, get_elem?, Bool-cases, Option-cases, u64_mod, >>=-eq-ok,
  ok-injective,
}
use mem_vanta.Gguf.Types.{GgufTensor, Bytes, bytes_eq}
use mem_vanta.Gguf.Tensors.{Tmp, Table, lookup, has_key, add_tensor, place_all}
use mem_vanta.Gguf.Placement.{place-eq-ok}

pub bytes_eq_refl : (xs : Bytes) → bytes_eq xs xs ≡ true
unfolding bytes_eq
bytes_eq_refl [] = refl
bytes_eq_refl (x ∷ xs) = ground (arith, bytes_eq_refl xs)

pub bytes_eq→eq : (xs ys : Bytes) → bytes_eq xs ys ≡ true → xs ≡ ys
unfolding bytes_eq
bytes_eq→eq [] [] h = refl
bytes_eq→eq [] (y ∷ ys) h = cc
bytes_eq→eq (x ∷ xs) [] h = cc
bytes_eq→eq (x ∷ xs) (y ∷ ys) h = ground (arith, bytes_eq→eq xs ys)

get_elem?-append_left {ℓ} :
    {A : Type ℓ} (xs ys : List A) (i : ℕ) (x : A)
    → get_elem? xs i ≡ some x
    → get_elem? (xs ++ ys) i ≡ some x
get_elem?-append_left [] ys i x h = cc
get_elem?-append_left (z ∷ xs) ys zero x h = h
get_elem?-append_left (z ∷ xs) ys (suc i) x h = get_elem?-append_left xs ys i x h

get_elem?-append_last {ℓ} :
    {A : Type ℓ} (xs : List A) (x : A) → get_elem? (xs ++ x ∷ []) (length xs) ≡ some x
get_elem?-append_last [] x = refl
get_elem?-append_last (z ∷ xs) x = get_elem?-append_last xs x

-- An element of a list that grew at its end was there, or is the new one.
get_elem?-append_cases {ℓ} :
    {A : Type ℓ} (xs : List A) (x : A) (i : ℕ) (y : A)
    → get_elem? (xs ++ x ∷ []) i ≡ some y
    → (get_elem? xs i ≡ some y) ⊎ ((i ≡ length xs) × (x ≡ y))
get_elem?-append_cases [] x zero y h = inr (refl, ground arith)
get_elem?-append_cases [] x (suc i) y h = cc
get_elem?-append_cases (z ∷ xs) x zero y h = inl h
get_elem?-append_cases (z ∷ xs) x (suc i) y h = elim (get_elem?-append_cases xs x i y h) [
  | inl old ↦ inl old
  | inr (e, new) ↦ inr (ap suc e, new)
]

pub record IsIndexed (ts : List GgufTensor) (index : List (Bytes × ℕ)) : Type 0 where
  pub sound :
      (name : Bytes) (i : ℕ)
      → lookup name index ≡ some i
      → (x : GgufTensor) × (get_elem? ts i ≡ some x) × (x.name ≡ name)
  pub complete : (i : ℕ) (x : GgufTensor) → get_elem? ts i ≡ some x → lookup x.name index ≡ some i

has_key-false {ℓ} :
    {V : Type ℓ} (k : Bytes) (m : List (Bytes × V)) → has_key k m ≡ false → lookup k m ≡ none
unfolding has_key
has_key-false k m h = elim (Option-cases (lookup k m)) [
  | inl e ↦ e
  | inr (v, e) ↦ absurd (ground arith)
]

module _ (t : Table) (x : GgufTensor) (v : IsIndexed t.tensors t.index)
    (fresh : lookup x.name t.index ≡ none) where
  sound-add_tensor :
      (name : Bytes) (i : ℕ)
      → lookup name ((x.name, length t.tensors) ∷ t.index) ≡ some i
      → (y : GgufTensor) × (get_elem? (t.tensors ++ x ∷ []) i ≡ some y) × (y.name ≡ name)
  unfolding lookup
  sound-add_tensor name i h = elim (Bool-cases (bytes_eq name x.name)) [
    | inl same ↦
        let at : length t.tensors ≡ i = ground arith in
        (
          x,
          subst (λ i. get_elem? (t.tensors ++ x ∷ []) i ≡ some x) at
              (get_elem?-append_last t.tensors x),
          sym (bytes_eq→eq name x.name same),
        )
    | inr other ↦
        let (y, there, named) = v.sound name i (ground arith) in
        (y, get_elem?-append_left t.tensors (x ∷ []) i y there, named)
  ]

  complete-add_tensor :
      (i : ℕ) (y : GgufTensor)
      → get_elem? (t.tensors ++ x ∷ []) i ≡ some y
      → lookup y.name ((x.name, length t.tensors) ∷ t.index) ≡ some i
  unfolding lookup
  complete-add_tensor i y h = elim (get_elem?-append_cases t.tensors x i y h) [
    | inl old ↦ elim (Bool-cases (bytes_eq y.name x.name)) [
      | inl same ↦ absurd (
          cc (
            v.complete i y old,
            fresh,
            ap (λ n. lookup n t.index) (bytes_eq→eq y.name x.name same),
          ))
      | inr other ↦ ground (arith, v.complete i y old)
    ]
    | inr (at, new) ↦ ground (arith, bytes_eq_refl x.name)
  ]

  add_tensor-IsIndexed : IsIndexed (add_tensor t x).tensors (add_tensor t x).index
  unfolding add_tensor
  add_tensor-IsIndexed = record { sound = sound-add_tensor; complete = complete-add_tensor }

-- All rounds of the constructor's last loop.
pub place_all-IsIndexed :
    (size data_offset : ℕ) (ds : List Tmp) (t : Table) {t' : Table}
    → size < u64_mod
    → data_offset < u64_mod
    → IsIndexed t.tensors t.index
    → place_all size data_offset t ds ≡ ok t'
    → IsIndexed t'.tensors t'.index
unfolding place_all
place_all-IsIndexed size data_offset [] t w w' v h =
    subst (λ (t' : Table). IsIndexed t'.tensors t'.index) (ok-injective h) v
place_all-IsIndexed size data_offset (d ∷ ds) t w w' v h =
    let (t1, first, rest) = >>=-eq-ok _ _ h in
    let (x, e, _, fresh, _) = place-eq-ok size data_offset t d w w' first in
    place_all-IsIndexed size data_offset ds t1 w w'
      (subst (λ (t' : Table). IsIndexed t'.tensors t'.index) (sym e)
        (add_tensor-IsIndexed t x v (has_key-false x.name t.index fresh)))
      rest
