-- ===== src/Gguf/Accepted.antt =====
-- What holds of each file that the constructor of `GgufFile` accepts: its tensors and their index.
use mem_vanta.Prelude.{
  ℕ, zero, suc, ◌+◌, ◌<◌, ◌≡◌, refl, ap, subst, Bool, true, false, not, ◌&&◌, ◌⊎◌, inl, inr, some,
  List, [], ◌∷◌, arith, Result, ok, err, ltb, ◌==◌, if◌then◌else◌, length, get_elem?, u64_mod,
  ok-injective, All, Option-cases,
}
use mathlib.Core.Option.{some-injective}
use mem_vanta.Gguf.Types.{
  Abi, Bytes, GgufValue, GgufTensor, GgufParseLimits, GgufError, missing_tensor, data_beyond_file,
}
use mem_vanta.Gguf.Reader.{Reader, Parser, ◌>>=◌, pure, lift, throw, charge}
use mem_vanta.Gguf.Sizes.{checked_mul}
use mem_vanta.Gguf.Values.{repeat}
use mem_vanta.Gguf.Tensors.{
  Tmp, Table, lookup, has_key, alignment, align_up, data_offset_of, place_all,
}
use mem_vanta.Gguf.File.{
  GgufFile, alignment_key, read_header, read_metadata, read_descriptor, position, parse_body, parse,
  tensor, has_tensor,
}
use mem_vanta.Gguf.Placement.{IsPlaced, place_all-IsPlaced}
use mem_vanta.Gguf.Index.{IsIndexed, place_all-IsIndexed}

-- A parser whose results all satisfy `P`.
record Ensures {ℓ κ} {A : Type ℓ} (P : A → Type κ) (m : Parser A) : Type (ℓ ⊔ κ) where
  holds : (r : Reader) {a : A} {r' : Reader} → m r ≡ ok (a, r') → P a

Ensures-bind {ℓ κ ι} :
    {A : Type ℓ} {B : Type κ} (P : B → Type ι) (m : Parser A) {f : A → Parser B}
    → ((a : A) → Ensures P (f a))
    → Ensures P (m >>= f)
Ensures-bind {A} {B} P m {f} h = record { holds = λ r q. go (m r) q }
  where
    go :
        (x : Result GgufError (A × Reader)) {b : B} {r' : Reader}
        → (elim x as (λ _. Result GgufError (B × Reader)) [ ok (a, r') ↦ f a r' | err e ↦ err e ])
          ≡ ok (b, r')
        → P b
    go (ok (a, r)) q = (h a).holds r q
    go (err e) q = cc

Ensures-lift {ℓ κ ι} :
    {A : Type ℓ} {B : Type κ} (P : B → Type ι) (x : Result GgufError A) {f : A → Parser B}
    → ((a : A) → x ≡ ok a → Ensures P (f a))
    → Ensures P (lift x >>= f)
Ensures-lift P (ok a) h = record { holds = λ r q. (h a refl).holds r q }
Ensures-lift P (err e) h = record { holds = λ r q. cc }

Ensures-pure {ℓ κ} : {A : Type ℓ} (P : A → Type κ) {a : A} → P a → Ensures P (pure a)
Ensures-pure {A} P {a} p = record { holds = λ r q. subst P (same q) p }
  where
    same :
        {b : A} {r r' : Reader}
        → ◌≡◌ {A = Result GgufError (A × Reader)} (ok (a, r)) (ok (b, r'))
        → a ≡ b
    same q = ap (λ p. p.0) (ok-injective q)

data_offset_of-word : (at align : ℕ) {n : ℕ} → data_offset_of at align ≡ ok n → n < u64_mod
unfolding data_offset_of align_up
data_offset_of-word at align {n} h = ground arith

-- The tensors of a file of `size` bytes lie in it, and the index finds each by its name.
record IsAccepted {D : Type 0} (size : ℕ) (g : GgufFile D) : Type 0 where
  placed : All (IsPlaced size g.data_offset) g.tensors
  indexed : IsIndexed g.tensors g.tensor_index

abbrev empty : Table
empty = record { tensors = []; index = [] }

empty-IsIndexed : IsIndexed [] []
unfolding lookup
empty-IsIndexed = record { sound = λ name i h. cc; complete = λ i x h. cc }

abbrev check : Bool → GgufError → Parser (Unit {0})
check b e = if b then throw e else pure tt

module _ (A : Abi) (file : Bytes) (limits : GgufParseLimits) (fits : length file < u64_mod) where
  accepted :
      (version : ℕ) (metadata : List (Bytes × GgufValue A.Double)) (t : Table) {data_offset : ℕ}
      (tmp : List Tmp)
      → data_offset < u64_mod
      → place_all (length file) data_offset empty tmp ≡ ok t
      → IsAccepted (length file) (record {
        version = version;
        data_offset = data_offset;
        metadata = metadata;
        tensors = t.tensors;
        tensor_index = t.index;
      })
  accepted version metadata t {data_offset} tmp word built = record {
    placed = place_all-IsPlaced (length file) data_offset tmp empty fits word tt built;
    indexed =
        place_all-IsIndexed (length file) data_offset tmp empty fits word empty-IsIndexed built;
  }

  parse_body-IsAccepted : Ensures (IsAccepted (length file)) (parse_body A file limits)
  unfolding parse_body
  parse_body-IsAccepted =
      let P = IsAccepted (length file) in
      Ensures-bind P (read_header A file limits) λ header.
        Ensures-bind P (lift (checked_mul header.2 128)) λ entries_bytes.
          Ensures-bind P (charge file entries_bytes) λ _.
            Ensures-bind P (read_metadata A file limits header.2 []) λ metadata.
              Ensures-bind P (lift (checked_mul header.1 (A.sizeof_tmp + 64))) λ descriptor_bytes.
                Ensures-bind P (charge file descriptor_bytes) λ _.
                  Ensures-bind P (repeat (read_descriptor A file limits) header.1) λ tmp.
                    Ensures-bind P (lift (alignment (lookup alignment_key metadata))) λ align.
                      Ensures-bind P (position A file limits) λ at.
                        Ensures-lift P (data_offset_of at align) λ data_offset word.
                          Ensures-bind P
                            (check (not (header.1 == 0) && ltb (length file) data_offset)
                              data_beyond_file)
                            λ _.
                              Ensures-bind P (lift (checked_mul header.1 (A.sizeof_tensor + 96)))
                                λ index_bytes. Ensures-bind P (charge file index_bytes) λ _.
                                  Ensures-lift P (place_all (length file) data_offset empty tmp)
                                    λ t built. Ensures-pure P (
                                      accepted header.0 metadata t tmp
                                        (data_offset_of-word at align word) built)

  abbrev start : Reader
  start = record { off = 0; heap_remaining = limits.max_parse_heap_bytes }

  -- Every file that the parser accepts has its tensors inside it.
  parse-IsAccepted :
      (g : GgufFile A.Double) → parse A file limits ≡ ok g → IsAccepted (length file) g
  unfolding parse
  parse-IsAccepted g = go (parse_body A file limits start) refl
    where
      go :
          (x : Result GgufError (GgufFile A.Double × Reader))
          → parse_body A file limits start ≡ x
          → (elim x as (λ _. Result GgufError (GgufFile A.Double)) [
            | err e ↦ err e
            | ok (g, _) ↦ ok g
          ])
            ≡ ok g
          → IsAccepted (length file) g
      go (err e) run q = cc
      go (ok (h, r)) run q =
          subst (IsAccepted (length file)) (ok-injective q) (parse_body-IsAccepted.holds start run)

All-get {ℓ κ} :
    {A : Type ℓ} (P : A → Type κ) (xs : List A) (i : ℕ) {x : A}
    → All P xs
    → get_elem? xs i ≡ some x
    → P x
All-get P [] i h q = cc
All-get P (y ∷ xs) zero h q = subst P (some-injective _ _ q) h.0
All-get P (y ∷ xs) (suc i) h q = All-get P xs i h.1 q

-- The accessors of an accepted file agree.
tensor-IsAccepted :
    {D : Type 0} (size : ℕ) (g : GgufFile D) (name : Bytes)
    → IsAccepted size g
    → ((has_tensor g name ≡ true)
        × (x : GgufTensor) × (tensor g name ≡ ok (some x))
        × (x.name ≡ name)
        × IsPlaced size g.data_offset x)
      ⊎ ((has_tensor g name ≡ false) × (tensor g name ≡ err missing_tensor))
unfolding tensor has_tensor has_key
tensor-IsAccepted size g name v = elim (Option-cases (lookup name g.tensor_index)) [
  | inl e ↦ inr (rw (has_key, e) refl, rw (tensor, e) refl)
  | inr (i, e) ↦
      let (x, there, named) = v.indexed.sound name i e in
      inl (
        rw (has_key, e) refl,
        x,
        rw (tensor, e) (ap ok there),
        named,
        All-get (IsPlaced size g.data_offset) g.tensors i v.placed there,
      )
]

complete-IsAccepted :
    {D : Type 0} (size : ℕ) (g : GgufFile D) (i : ℕ) (x : GgufTensor)
    → IsAccepted size g
    → get_elem? g.tensors i ≡ some x
    → tensor g x.name ≡ ok (some x)
unfolding tensor
complete-IsAccepted size g i x v there = rw (tensor, v.indexed.complete i x there) (ap ok there)

module _ (A : Abi) (file : Bytes) (limits : GgufParseLimits) (fits : length file < u64_mod) where
  -- If the parser accepts a file, whose size is a 64-bit word, each tensor lies between the data
  -- offset and the end of the file, its rows fill whole blocks, and its size is the one of its
  -- type and number of elements.
  pub parse-IsPlaced :
      (g : GgufFile A.Double)
      → parse A file limits ≡ ok g
      → All (IsPlaced (length file) g.data_offset) g.tensors
  parse-IsPlaced g h = (parse-IsAccepted A file limits fits g h).placed

  -- If the parser accepts a file, whose size is a 64-bit word, then for each name either
  -- `has_tensor` answers true and `tensor` returns a tensor of that name that lies in the file, or
  -- `has_tensor` answers false and `tensor` throws.
  pub parse-tensor :
      (g : GgufFile A.Double) (name : Bytes)
      → parse A file limits ≡ ok g
      → ((has_tensor g name ≡ true)
          × (x : GgufTensor) × (tensor g name ≡ ok (some x))
          × (x.name ≡ name)
          × IsPlaced (length file) g.data_offset x)
        ⊎ ((has_tensor g name ≡ false) × (tensor g name ≡ err missing_tensor))
  parse-tensor g name h =
      tensor-IsAccepted (length file) g name (parse-IsAccepted A file limits fits g h)

  -- If the parser accepts a file, whose size is a 64-bit word, `tensor` finds each of its tensors
  -- by its name, so no tensor hides another.
  pub parse-tensor_complete :
      (g : GgufFile A.Double) (i : ℕ) (x : GgufTensor)
      → parse A file limits ≡ ok g
      → get_elem? g.tensors i ≡ some x
      → tensor g x.name ≡ ok (some x)
  parse-tensor_complete g i x h =
      complete-IsAccepted (length file) g i x (parse-IsAccepted A file limits fits g h)
