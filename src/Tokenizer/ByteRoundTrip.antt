-- ===== src/Tokenizer/ByteRoundTrip.antt =====
-- `gpt2_decode_bytes` undoes `gpt2_encode_bytes`.
use Prim.Native.Nat.{bit_and}
use mem_vanta.Prelude.{
  ℕ, zero, suc, ◌+◌, ◌≤◌, ◌<◌, ◌≡◌, refl, sym, ap, ◌∙◌, subst, Bool, true, false, ◌&&◌, not, Option,
  none, some, List, [], ◌∷◌, ◌++◌, arith, ltb, ◌==◌, length, length-append, get_or, take, drop, All,
  ==_iff,
}
use mem_vanta.Gguf.Types.{Bytes, bytes_eq}
use mem_vanta.Gguf.Tensors.{lookup}
use mem_vanta.Tokenizer.Utf8.{utf8_from}
use mem_vanta.Tokenizer.ByteMap.{
  make_byte_unicode, reverse_map, gpt2_encode_bytes, byte_or, decode_loop, gpt2_decode_bytes,
}

-- A character of one byte, or of two.
abbrev is_unit : Bytes → Bool
is_unit (c ∷ []) = ltb c 0x80
is_unit (c ∷ d ∷ []) = not (ltb c 0x80) && ((bit_and c 0xe0 == 0xc0) && (bit_and d 0xc0 == 0x80))
is_unit s = false

abbrev is_byte : Option ℕ → ℕ → Bool
is_byte none b = false
is_byte (some a) b = a == b

-- Whether each string of a list, whose first one has the index `i`, is one character, and `rev`
-- finds its index.
check_all : List (Bytes × ℕ) → ℕ → List Bytes → Bool
check_all rev i [] = true
check_all rev i (x ∷ xs) = is_unit x && (is_byte (lookup x rev) i && check_all rev (suc i) xs)

abbrev pub atoms : List Bytes
atoms = make_byte_unicode

abbrev pub atom_bytes : List (Bytes × ℕ)
atom_bytes = reverse_map 0 make_byte_unicode []

table_lem : check_all atom_bytes 0 atoms ≡ true
unfolding check_all make_byte_unicode reverse_map lookup bytes_eq
table_lem = refl

pub size_lem : length atoms ≡ 256
unfolding make_byte_unicode
size_lem = refl

is_byte→eq : (o : Option ℕ) (b : ℕ) → is_byte o b ≡ true → o ≡ some b
is_byte→eq none b h = cc
is_byte→eq (some a) b h = ap some ((==_iff a b).0 h)

check_all_at :
    (rev : List (Bytes × ℕ)) (i : ℕ) (xs : List Bytes) (k : ℕ)
    → check_all rev i xs ≡ true
    → k < length xs
    → (is_unit (get_or xs k []) ≡ true) × (lookup (get_or xs k []) rev ≡ some (i + k))
unfolding check_all
check_all_at rev i [] k h lt = absurd (omega arith)
check_all_at rev i (x ∷ xs) zero h lt =
    let found : is_byte (lookup x rev) i ≡ true = ground arith in
    (ground arith, is_byte→eq _ i found ∙ ap some (omega arith))
check_all_at rev i (x ∷ xs) (suc k) h lt =
    let rest : check_all rev (suc i) xs ≡ true = ground arith in
    let (unit, found) = check_all_at rev (suc i) xs k rest (omega arith) in
    (unit, found ∙ ap some (omega arith))

-- The character of a byte.
abbrev pub atom : ℕ → Bytes
atom b = get_or atoms b []

pub atom-is_unit : (b : ℕ) → b < 256 → is_unit (atom b) ≡ true
atom-is_unit b h = (check_all_at atom_bytes 0 atoms b table_lem (omega (arith, size_lem))).0

pub lookup-atom : (b : ℕ) → b < 256 → lookup (atom b) atom_bytes ≡ some b
lookup-atom b h =
    (check_all_at atom_bytes 0 atoms b table_lem (omega (arith, size_lem))).1
    ∙ ap some (omega arith)

pub take-append {ℓ} : {A : Type ℓ} (xs ys : List A) → take (length xs) (xs ++ ys) ≡ xs
take-append [] ys = refl
take-append (x ∷ xs) ys = ap (◌∷◌ x) (take-append xs ys)

pub drop-append {ℓ} : {A : Type ℓ} (xs ys : List A) → drop (length xs) (xs ++ ys) ≡ ys
drop-append [] ys = refl
drop-append (x ∷ xs) ys = drop-append xs ys

-- `utf8_at` reads one character off the front.
pub record IsUnit (x : Bytes) : Type 0 where
  pub first : ℕ
  pub others : Bytes
  pub split : x ≡ first ∷ others
  pub reads : (rest : Bytes) → (utf8_from first (others ++ rest)).0 ≡ length x

pub is_unit→IsUnit : (x : Bytes) → is_unit x ≡ true → IsUnit x
unfolding utf8_from
is_unit→IsUnit [] h = cc
is_unit→IsUnit (c ∷ []) h = record {
  first = c;
  others = [];
  split = refl;
  reads = λ rest. ground arith;
}
is_unit→IsUnit (c ∷ d ∷ []) h = record {
  first = c;
  others = d ∷ [];
  split = refl;
  reads = λ rest. ground arith;
}
is_unit→IsUnit (c ∷ d ∷ e ∷ x) h = cc

decode_loop-unit :
    (rev : List (Bytes × ℕ)) (fuel : ℕ) (x rest : Bytes)
    → IsUnit x
    → decode_loop rev (suc fuel) (x ++ rest) ≡ byte_or (lookup x rev) x ++ decode_loop rev fuel rest
decode_loop-unit rev fuel x rest u =
    subst
      (λ y.
        decode_loop rev (suc fuel) (y ++ rest)
        ≡ byte_or (lookup y rev) y ++ decode_loop rev fuel rest)
      (sym u.split) (split_first u.first u.others (u.reads rest ∙ ap length u.split))
  where
    split_first :
        (c : ℕ) (others : Bytes)
        → (utf8_from c (others ++ rest)).0 ≡ length (c ∷ others)
        → decode_loop rev (suc fuel) (c ∷ others ++ rest)
          ≡ byte_or (lookup (c ∷ others) rev) (c ∷ others) ++ decode_loop rev fuel rest
    split_first c others reads =
        unfold decode_loop in
        rw (reads, take-append (c ∷ others) rest, drop-append (c ∷ others) rest) refl

-- More fuel than bytes changes nothing, as each round takes a byte at least.
pub atom-nonempty : (b : ℕ) → b < 256 → 0 < length (atom b)
atom-nonempty b h =
    let u = is_unit→IsUnit (atom b) (atom-is_unit b h) in omega (arith, ap length u.split)

decode_loop-encode :
    (s : Bytes) (fuel : ℕ)
    → All (λ b. b < 256) s
    → length (gpt2_encode_bytes s) ≤ fuel
    → decode_loop atom_bytes fuel (gpt2_encode_bytes s) ≡ s
unfolding gpt2_encode_bytes
decode_loop-encode [] zero h k = unfold decode_loop in refl
decode_loop-encode [] (suc fuel) h k = unfold decode_loop in refl
decode_loop-encode (b ∷ s) zero h k =
    absurd (omega (arith, atom-nonempty b h.0, length-append (atom b) (gpt2_encode_bytes s)))
decode_loop-encode (b ∷ s) (suc fuel) h k =
    decode_loop-unit atom_bytes fuel (atom b) (gpt2_encode_bytes s)
      (is_unit→IsUnit (atom b) (atom-is_unit b h.0))
    ∙ ap (λ o. byte_or o (atom b) ++ decode_loop atom_bytes fuel (gpt2_encode_bytes s))
        (lookup-atom b h.0)
    ∙ ap (◌∷◌ b) (
        decode_loop-encode s fuel h.1
          (omega (arith, k, atom-nonempty b h.0, length-append (atom b) (gpt2_encode_bytes s))))

-- For any string of bytes, gpt2_decode_bytes undoes gpt2_encode_bytes.
pub gpt2_decode_bytes-gpt2_encode_bytes :
    (s : Bytes) → All (λ b. b < 256) s → gpt2_decode_bytes (gpt2_encode_bytes s) ≡ s
unfolding gpt2_decode_bytes
gpt2_decode_bytes-gpt2_encode_bytes s h =
    decode_loop-encode s (length (gpt2_encode_bytes s)) h (omega arith)
