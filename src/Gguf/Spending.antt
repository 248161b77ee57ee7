-- ===== src/Gguf/Spending.antt =====
-- The parser of GGUF files, by the logic of Runs.antt: no read past the mapping, and no more memory
-- than the budget.
use native.Mathlib.Nat.{mul-div-le}
use mem_vanta.Prelude.{
  ℕ, zero, suc, ◌+◌, ◌*◌, ◌/◌, ◌≤◌, ◌<◌, ◌≡◌, refl, sym, subst, false, not, ◌≢◌, ◌⊎◌, inl, inr,
  List, [], ◌∷◌, arith, ok, err, ltb, ◌==◌, length, sub64, mul64_lem, ◌&&◌, u64_mod, Bool-cases,
  u64_max, if-cases,
}
use mem_vanta.Gguf.Types.{
  GgufValueType, uint8, int8, uint16, int16, uint32, int32, float32, bool, string, array, uint64,
  int64, float64, other, value_type, Abi, Bytes, Payload, u64, boolean, text, ints, floats, texts,
  GgufParseLimits, overflow, nested_array, unknown_type, array_limit, unsupported_element,
  out_of_bounds, too_large_for_address_space,
}
use mem_vanta.Gguf.Reader.{Parser, ◌>>=◌, ◌>>◌, pure, lift, read, charge, str}
use mem_vanta.Gguf.Values.{
  scalar_payload, read_scalar, as_int, remaining_holds, read_texts, read_floats, read_ints,
  read_elements, read_array, read_value,
}
use mem_vanta.Gguf.Sizes.{checked_mul}
use mem_vanta.Gguf.Runs.{
  Runs, Outcome, cost_sum, Runs-pure, Runs-throw, Runs-bind, Runs-bind_prepaid, Runs-paid,
  Runs-lift, Runs-if, Runs-check, Runs-repeat,
}
use mem_vanta.Gguf.Reads.{Runs-read, Runs-charge, Runs-str}

product_fits : (a b : ℕ) → (not (a == 0) && ltb (u64_max / a) b) ≡ false → a * b < u64_mod
product_fits zero b h = omega arith
product_fits (suc a) b h =
    let below : b ≤ u64_max / suc a = ground arith in
    let product : suc a * (u64_max / suc a) ≤ u64_max = mul-div-le u64_max (suc a) in
    lemma a b (u64_max / suc a) below product
  where
    lemma : (a b q : ℕ) → b ≤ q → suc a * q ≤ u64_max → suc a * b < u64_mod
    lemma a b q h k = grind arith

-- `checked_mul` returns the product, which is a 64-bit word, or throws: it never returns a product
-- that wrapped around.
pub checked_mul_eq :
    (a b : ℕ)
    → ((checked_mul a b ≡ ok (a * b)) × (a * b < u64_mod)) ⊎ (checked_mul a b ≡ err overflow)
unfolding checked_mul
checked_mul_eq a b = elim (Bool-cases (not (a == 0) && ltb (u64_max / a) b)) [
  | inl wraps ↦ rw wraps (inr refl)
  | inr good ↦
      let below : a * b < u64_mod = product_fits a b good in
      rw (good, mul64_lem a b below) (inl (refl, below))
]

cost_sum_const {ℓ} : {A : Type ℓ} (c : ℕ) (xs : List A) → cost_sum (λ _. c + 0) xs ≡ c * length xs
cost_sum_const c [] = omega arith
cost_sum_const c (x ∷ xs) = omega (arith, cost_sum_const c xs)

module _ {file : Bytes} where
  -- A budget for `n` things of `size` bytes: the product is charged, and does not wrap.
  pub Runs-charge_mul {ℓ} :
      {B : Type ℓ} {k : ℕ} {w : B → ℕ} (fits : length file < u64_mod) (n size : ℕ) {next : Parser B}
      → Runs file (n * size + k) w next
      → Runs file k w (do bytes ← lift (checked_mul n size); charge file bytes; next)
  Runs-charge_mul {k} {w} fits n size {next} h = elim (checked_mul_eq n size) [
    | inl (e, _) ↦
        subst (λ x. Runs file k w (do bytes ← lift x; charge file bytes; next)) (sym e)
          (Runs-bind (λ _. n * size) (Runs-charge file fits (n * size)) λ _. h)
    | inr e ↦
        subst (λ x. Runs file k w (do bytes ← lift x; charge file bytes; next)) (sym e)
          (Runs-throw overflow (λ q. cc))
  ]

module _ (A : Abi) where
  -- What a decoded value holds on the heap.
  abbrev pub heap_bytes : Payload A.Double → ℕ
  heap_bytes (text s) = A.sizeof_string + length s
  heap_bytes (texts ss) = cost_sum (λ s. A.sizeof_string + length s) ss
  heap_bytes (floats vs) = 8 * length vs
  heap_bytes (ints vs) = 8 * length vs
  heap_bytes p = 0

  as_int-ne-fault : (p : Payload A.Double) → as_int A p ≢ err out_of_bounds
  unfolding as_int
  as_int-ne-fault (u64 v) = ground arith
  as_int-ne-fault (boolean b) = ground arith
  as_int-ne-fault _ = λ q. cc

  module _ (file : Bytes) (limits : GgufParseLimits) (fits : length file < u64_mod) where
    read_then {ℓ} :
        {B : Type ℓ} {w : B → ℕ} (k : ℕ) (f : ℕ → B)
        → ((v : ℕ) → w (f v) ≤ 0)
        → Runs file 0 w (do v ← read file k; pure (f v))
    read_then k f h = Runs-bind (λ _. 0) (Runs-read file fits k) λ v. Runs-pure (f v) (h v)

    Runs-scalar_payload :
        (t : GgufValueType) → Runs file 0 heap_bytes (scalar_payload A file limits t)
    unfolding scalar_payload
    Runs-scalar_payload uint8 = read_then 1 _ (λ v. omega arith)
    Runs-scalar_payload int8 = read_then 1 _ (λ v. omega arith)
    Runs-scalar_payload uint16 = read_then 2 _ (λ v. omega arith)
    Runs-scalar_payload int16 = read_then 2 _ (λ v. omega arith)
    Runs-scalar_payload uint32 = read_then 4 _ (λ v. omega arith)
    Runs-scalar_payload int32 = read_then 4 _ (λ v. omega arith)
    Runs-scalar_payload float32 = read_then 4 _ (λ v. omega arith)
    Runs-scalar_payload bool = read_then 1 _ (λ v. omega arith)
    Runs-scalar_payload string =
        Runs-bind (λ _. A.sizeof_string) (Runs-charge file fits A.sizeof_string)
          λ _. Runs-bind length (Runs-str file fits limits) λ s. Runs-pure (text s) (omega arith)
    Runs-scalar_payload uint64 = read_then 8 _ (λ v. omega arith)
    Runs-scalar_payload int64 = read_then 8 _ (λ v. omega arith)
    Runs-scalar_payload float64 = read_then 8 _ (λ v. omega arith)
    Runs-scalar_payload array = Runs-throw nested_array (λ q. cc)
    Runs-scalar_payload (other n) = Runs-throw unknown_type (λ q. cc)

    Runs-read_scalar :
        (t : GgufValueType) → Runs file 0 (λ v. heap_bytes v.payload) (read_scalar A file limits t)
    unfolding read_scalar
    Runs-read_scalar t = Runs-bind heap_bytes (Runs-scalar_payload t) λ p. Runs-pure _ (omega arith)

    Runs-remaining_holds :
        (n width : ℕ) → Runs file 0 (λ _. 0) (remaining_holds A file limits n width)
    unfolding remaining_holds
    Runs-remaining_holds n width = record {
      apply = λ r v.
          if-cases (Outcome file 0 (λ _. 0) r) (ltb (sub64 (length file) r.off / width) n) _ _
            (λ _ q. cc) (λ _. (omega arith, v.inside, omega arith, omega arith));
    }

    Runs-read_texts : (n : ℕ) → Runs file 0 heap_bytes (read_texts A file limits n)
    unfolding read_texts
    Runs-read_texts n =
        Runs-bind (λ _. 0) (Runs-remaining_holds n 8)
          λ _. Runs-charge_mul fits n A.sizeof_string (
            Runs-paid _ (omega arith) (
              Runs-bind_prepaid (n * A.sizeof_string) 0 (cost_sum (λ s. A.sizeof_string + length s))
                (Runs-repeat A.sizeof_string length (str file limits) n (Runs-str file fits limits))
                λ ss. Runs-pure (texts ss) (omega arith)))

    Runs-read_floats :
        (n width : ℕ) (of_bits : ℕ → A.Double)
        → Runs file 0 heap_bytes (read_floats A file limits n width of_bits)
    unfolding read_floats
    Runs-read_floats n width of_bits =
        Runs-bind (λ _. 0) (Runs-remaining_holds n width)
          λ _. Runs-charge_mul fits n 8 (
            Runs-paid _ (omega arith) (
              Runs-bind_prepaid (n * 8) 0 (cost_sum (λ _. 8 + 0))
                (Runs-repeat 8 (λ _. 0) _ n (read_then width of_bits (λ v. omega arith)))
                λ vs. Runs-pure (floats vs) (omega (arith, cost_sum_const 8 vs))))

    Runs-read_ints :
        (n width : ℕ) (elem : GgufValueType)
        → Runs file 0 heap_bytes (read_ints A file limits n width elem)
    unfolding read_ints
    Runs-read_ints n width elem =
        Runs-bind (λ _. 0) (Runs-remaining_holds n width)
          λ _. Runs-charge_mul fits n 8 (
            Runs-paid _ (omega arith) (
              Runs-bind_prepaid (n * 8) 0 (cost_sum (λ _. 8 + 0)) (Runs-repeat 8 (λ _. 0) _ n one)
                λ vs. Runs-pure (ints vs) (omega (arith, cost_sum_const 8 vs))))
      where
        one :
            Runs file 0 (λ _. 0) (do v ← read_scalar A file limits elem; lift (as_int A v.payload))
        one =
            Runs-bind (λ v. heap_bytes v.payload) (Runs-read_scalar elem)
              λ v.
                Runs-paid _ (omega arith)
                  (Runs-lift (as_int A v.payload) (as_int-ne-fault v.payload))

    Runs-read_elements :
        (t : GgufValueType) (n : ℕ) → Runs file 0 heap_bytes (read_elements A file limits t n)
    unfolding read_elements
    Runs-read_elements string n = Runs-read_texts n
    Runs-read_elements float32 n = Runs-read_floats n 4 A.of_f32
    Runs-read_elements float64 n = Runs-read_floats n 8 A.of_f64
    Runs-read_elements uint8 n = Runs-read_ints n 1 uint8
    Runs-read_elements int8 n = Runs-read_ints n 1 int8
    Runs-read_elements bool n = Runs-read_ints n 1 bool
    Runs-read_elements uint16 n = Runs-read_ints n 2 uint16
    Runs-read_elements int16 n = Runs-read_ints n 2 int16
    Runs-read_elements uint32 n = Runs-read_ints n 4 uint32
    Runs-read_elements int32 n = Runs-read_ints n 4 int32
    Runs-read_elements uint64 n = Runs-read_ints n 8 uint64
    Runs-read_elements int64 n = Runs-read_ints n 8 int64
    Runs-read_elements array n = Runs-throw unsupported_element (λ q. cc)
    Runs-read_elements (other m) n = Runs-throw unsupported_element (λ q. cc)

    Runs-read_array : Runs file 0 (λ v. heap_bytes v.payload) (read_array A file limits)
    unfolding read_array
    Runs-read_array =
        Runs-bind (λ _. 0) (Runs-read file fits 4)
          λ code.
            Runs-bind (λ _. 0) (Runs-check _ nested_array (λ q. cc))
              λ _.
                Runs-bind (λ _. 0) (Runs-read file fits 8)
                  λ n.
                    Runs-bind (λ _. 0)
                      (Runs-check (ltb limits.max_array_elements n) array_limit (λ q. cc))
                      λ _.
                        Runs-bind (λ _. 0)
                          (Runs-check (ltb u64_max n) too_large_for_address_space (λ q. cc))
                          λ _.
                            Runs-bind heap_bytes (Runs-read_elements (value_type code) n)
                              λ p. Runs-pure (record { kind = array; payload = p }) (omega arith)

    pub Runs-read_value :
        (t : GgufValueType) → Runs file 0 (λ v. heap_bytes v.payload) (read_value A file limits t)
    unfolding read_value
    Runs-read_value t = Runs-if _ _ _ Runs-read_array (Runs-read_scalar t)
