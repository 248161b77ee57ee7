-- ===== src/Gguf/Values.antt =====
-- `read_scalar`, `read_value` and `as_unsigned` of src/gguf.cpp: the metadata values.
use mem_vanta.Prelude.{
  ℕ, zero, suc, ◌-◌, ◌*◌, ◌/◌, ◌^◌, Bool, true, false, not, List, [], ◌∷◌, Result, ok, err, ltb,
  ◌==◌, if◌then◌else◌, length, sub64, u64_max,
}
use mem_vanta.Prelude.Int.{ℤ, pos, negsuc}
use mem_vanta.Gguf.Types.{
  GgufValueType, uint8, int8, uint16, int16, uint32, int32, float32, bool, string, array, uint64,
  int64, float64, other, value_type, Abi, Bytes, Payload, u64, i64, double, boolean, text, ints,
  floats, texts, GgufValue, GgufParseLimits, GgufError, truncated, nested_array, unknown_type,
  array_limit, int64_range, unsupported_element, negative_metadata, metadata_not_integer,
  too_large_for_address_space,
}
use mem_vanta.Gguf.Reader.{Parser, ◌>>=◌, ◌>>◌, pure, throw, lift, read, charge, str}
use mem_vanta.Gguf.Sizes.{checked_mul}

-- std::numeric_limits<std::int64_t>::max()
abbrev pub i64_max : ℕ
i64_max = 2 ^ 63 - 1

-- The signed number that a word of `k` bytes stands for (two's complement).
unfoldable pub signed : ℕ → ℕ → ℤ
signed k w = if ltb w (2 ^ (8 * k - 1)) then pos w else negsuc (2 ^ (8 * k) - w - 1)

-- The loops `for (i = 0; i < n; ++i) a.push_back(...)`.
unfoldable pub repeat {ℓ} : {A : Type ℓ} → Parser A → ℕ → Parser (List A)
repeat m zero = pure []
repeat m (suc n) = do x ← m; xs ← repeat m n; pure (x ∷ xs)

module _ (A : Abi) where
  -- The element of an integer array that a scalar becomes.
  unfoldable pub as_int : Payload A.Double → Result GgufError ℤ
  as_int (u64 v) = if ltb i64_max v then err int64_range else ok (pos v)
  as_int (i64 v) = ok v
  as_int (boolean b) = ok (if b then pos 1 else pos 0)
  as_int (double _) = err unsupported_element
  as_int (text _) = err unsupported_element
  as_int (ints _) = err unsupported_element
  as_int (floats _) = err unsupported_element
  as_int (texts _) = err unsupported_element

module _ (A : Abi) (file : Bytes) (limits : GgufParseLimits) where
  unfoldable pub scalar_payload : GgufValueType → Parser (Payload A.Double)
  unfolding signed
  scalar_payload uint8 = do v ← read file 1; pure (u64 v)
  scalar_payload int8 = do v ← read file 1; pure (i64 (signed 1 v))
  scalar_payload uint16 = do v ← read file 2; pure (u64 v)
  scalar_payload int16 = do v ← read file 2; pure (i64 (signed 2 v))
  scalar_payload uint32 = do v ← read file 4; pure (u64 v)
  scalar_payload int32 = do v ← read file 4; pure (i64 (signed 4 v))
  scalar_payload float32 = do v ← read file 4; pure (double (A.of_f32 v))
  scalar_payload bool = do v ← read file 1; pure (boolean (not (v == 0)))
  scalar_payload string = do charge file A.sizeof_string; s ← str file limits; pure (text s)
  scalar_payload uint64 = do v ← read file 8; pure (u64 v)
  scalar_payload int64 = do v ← read file 8; pure (i64 (signed 8 v))
  scalar_payload float64 = do v ← read file 8; pure (double (A.of_f64 v))
  scalar_payload array = throw nested_array
  scalar_payload (other n) = throw unknown_type

  unfoldable pub read_scalar : GgufValueType → Parser (GgufValue A.Double)
  unfolding scalar_payload
  read_scalar t = do p ← scalar_payload t; pure (record { kind = t; payload = p })

  -- `n > r.remaining() / width`
  unfoldable pub remaining_holds : ℕ → ℕ → Parser (Unit {0})
  remaining_holds n width r =
      if ltb (sub64 (length file) r.off / width) n then err truncated else ok (tt, r)

  unfoldable pub read_texts : ℕ → Parser (Payload A.Double)
  unfolding remaining_holds repeat
  read_texts n = do
    remaining_holds n 8
    bytes ← lift (checked_mul n A.sizeof_string)
    charge file bytes
    ss ← repeat (str file limits) n
    pure (texts ss)

  unfoldable pub read_floats : ℕ → ℕ → (ℕ → A.Double) → Parser (Payload A.Double)
  unfolding remaining_holds repeat
  read_floats n width of_bits = do
    remaining_holds n width
    bytes ← lift (checked_mul n 8)
    charge file bytes
    vs ← repeat (do v ← read file width; pure (of_bits v)) n
    pure (floats vs)

  unfoldable pub read_ints : ℕ → ℕ → GgufValueType → Parser (Payload A.Double)
  unfolding remaining_holds repeat as_int read_scalar
  read_ints n width elem = do
    remaining_holds n width
    bytes ← lift (checked_mul n 8)
    charge file bytes
    vs ← repeat (do v ← read_scalar elem; lift (as_int A v.payload)) n
    pure (ints vs)

  -- The rest of `read_value`, by the type of the elements.
  unfoldable pub read_elements : GgufValueType → ℕ → Parser (Payload A.Double)
  unfolding read_texts read_floats read_ints
  read_elements string n = read_texts n
  read_elements float32 n = read_floats n 4 A.of_f32
  read_elements float64 n = read_floats n 8 A.of_f64
  read_elements uint8 n = read_ints n 1 uint8
  read_elements int8 n = read_ints n 1 int8
  read_elements bool n = read_ints n 1 bool
  read_elements uint16 n = read_ints n 2 uint16
  read_elements int16 n = read_ints n 2 int16
  read_elements uint32 n = read_ints n 4 uint32
  read_elements int32 n = read_ints n 4 int32
  read_elements uint64 n = read_ints n 8 uint64
  read_elements int64 n = read_ints n 8 int64
  read_elements array n = throw unsupported_element
  read_elements (other _) n = throw unsupported_element

  abbrev is_array : GgufValueType → Bool
  is_array array = true
  is_array _ = false

  unfoldable pub read_array : Parser (GgufValue A.Double)
  unfolding read_elements
  read_array = do
    code ← read file 4
    if is_array (value_type code) then throw nested_array else pure tt
    n ← read file 8
    if ltb limits.max_array_elements n then throw array_limit else pure tt
    if ltb u64_max n then throw too_large_for_address_space else pure tt
    p ← read_elements (value_type code) n
    pure (record { kind = array; payload = p })

  unfoldable pub read_value : GgufValueType → Parser (GgufValue A.Double)
  unfolding read_array read_scalar
  read_value t = if is_array t then read_array else read_scalar t

unfoldable pub as_unsigned : {D : Type 0} → Payload D → Result GgufError ℕ
as_unsigned (u64 v) = ok v
as_unsigned (i64 (pos v)) = ok v
as_unsigned (i64 (negsuc _)) = err negative_metadata
as_unsigned (double _) = err metadata_not_integer
as_unsigned (boolean _) = err metadata_not_integer
as_unsigned (text _) = err metadata_not_integer
as_unsigned (ints _) = err metadata_not_integer
as_unsigned (floats _) = err metadata_not_integer
as_unsigned (texts _) = err metadata_not_integer
