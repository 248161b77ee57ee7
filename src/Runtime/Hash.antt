-- ===== src/Runtime/Hash.antt =====
-- src/runtime.cpp: the checksum over every 4096th byte of a slice.
use mem_vanta.Prelude.{
  ℕ, zero, suc, ◌+◌, ◌/◌, Option, none, some, Result, ok, err, ltb, if◌then◌else◌, add64, mul64,
}
use Prim.Native.Nat.{bit_xor}
use mem_vanta.Runtime.{RunError, unreadable}

abbrev pub stride : ℕ
stride = 4096

abbrev pub seed : ℕ
seed = 1469598103934665603

abbrev pub prime : ℕ
prime = 1099511628211

pub mix : ℕ → ℕ → ℕ
mix checksum byte = mul64 (bit_xor checksum byte) prime

-- `u[j]`, of a buffer that has a byte at some indices.
unfoldable pub read_byte : Option ℕ → Result RunError ℕ
read_byte none = err unreadable
read_byte (some b) = ok b

-- The loop, on fuel: each round takes a whole stride.
unfoldable pub hash_loop : ℕ → ℕ → (ℕ → Option ℕ) → ℕ → ℕ → Result RunError ℕ
hash_loop zero bytes u j checksum = ok checksum
hash_loop (suc fuel) bytes u j checksum =
    if ltb j bytes
    then elim (read_byte (u j)) [
      | err e ↦ err e
      | ok b ↦ hash_loop fuel bytes u (add64 j stride) (mix checksum b)
    ]
    else ok checksum

unfoldable pub hash : ℕ → (ℕ → Option ℕ) → ℕ → Result RunError ℕ
hash bytes u checksum = hash_loop (bytes / stride + 1) bytes u 0 checksum
