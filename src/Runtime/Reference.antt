-- ===== src/Runtime/Reference.antt =====
-- What the checksum of src/runtime.cpp is meant to be: every 4096th byte of every slice, in order.
use mem_vanta.Prelude.{
  ℕ, zero, suc, ◌+◌, ◌*◌, ◌/◌, ◌^◌, ◌≤◌, ◌<◌, ◌≡◌, refl, some, Option, List, [], ◌∷◌, ok, arith,
  table, add64, lt→ltb, le→ltb, add64_lem, ◌∙◌,
}
use mem_vanta.TensorStore.{TensorSlice}
use mem_vanta.TensorStore.Chunks.{div_ceil}
use mem_vanta.Runtime.Hash.{stride, mix, hash_loop, hash, read_byte}
use mem_vanta.Runtime.Statistics.{Sums}

-- The mix of a checksum with bytes, the first one first.
unfoldable pub mix_all : ℕ → List ℕ → ℕ
mix_all checksum [] = checksum
mix_all checksum (b ∷ bs) = mix_all (mix checksum b) bs

-- Every 4096th of `bytes` bytes.
unfoldable pub sampled : (ℕ → ℕ) → ℕ → List ℕ
sampled byte bytes = table (λ k. byte (k * stride)) 0 (div_ceil bytes stride)

-- The rounds of the loop from the `k`-th on, of which `n` are left.
hash_loop-mix_all :
    (fuel n k bytes checksum : ℕ) (u : ℕ → Option ℕ) (byte : ℕ → ℕ)
    → ((j : ℕ) → j < bytes → u j ≡ some (byte j))
    → bytes ≤ 2 ^ 63
    → n ≤ fuel
    → (k + n) * 4096 < bytes + 4096
    → bytes ≤ (k + n) * 4096
    → hash_loop fuel bytes u (k * 4096) checksum
      ≡ ok (mix_all checksum (table (λ k. byte (k * 4096)) k n))
unfolding hash_loop mix_all read_byte
hash_loop-mix_all zero zero k bytes checksum u byte same word enough low high = refl
hash_loop-mix_all zero (suc n) k bytes checksum u byte same word enough low high =
    absurd (omega (arith, enough))
hash_loop-mix_all (suc fuel) zero k bytes checksum u byte same word enough low high =
    rw (le→ltb (k * 4096) bytes (omega (arith, high))) refl
hash_loop-mix_all (suc fuel) (suc n) k bytes checksum u byte same word enough low high =
    let below : k * 4096 < bytes = omega (arith, low) in
    let next : add64 (k * 4096) 4096 ≡ suc k * 4096 =
      add64_lem (k * 4096) 4096 (omega (arith, low, word)) ∙ omega arith in
    rw (lt→ltb (k * 4096) bytes below, same (k * 4096) below, read_byte, next)
      (hash_loop-mix_all fuel n (suc k) bytes (mix checksum (byte (k * 4096))) u byte same word
        (omega (arith, enough)) (omega (arith, low)) (omega (arith, high)))

-- A buffer that has the bytes hashes to their mix.
pub hash-mix_all :
    (bytes checksum : ℕ) (u : ℕ → Option ℕ) (byte : ℕ → ℕ)
    → bytes ≤ 2 ^ 63
    → ((j : ℕ) → j < bytes → u j ≡ some (byte j))
    → hash bytes u checksum ≡ ok (mix_all checksum (sampled byte bytes))
unfolding hash sampled
hash-mix_all bytes checksum u byte word same =
    hash_loop-mix_all (bytes / 4096 + 1) (div_ceil bytes 4096) 0 bytes checksum u byte same word
      (omega arith) (omega arith) (omega arith)

module _ (mapped : ℕ → ℕ) where
  -- The two sums after a slice, after a list of slices, and after passes over the list.
  unfoldable pub visit : Sums → TensorSlice → Sums
  visit sums s = record {
    checksum = mix_all sums.checksum (sampled (λ j. mapped (s.offset + j)) s.bytes);
    total = add64 sums.total s.bytes;
  }

  unfoldable pub visit_all : Sums → List TensorSlice → Sums
  visit_all sums [] = sums
  visit_all sums (s ∷ ss) = visit_all (visit sums s) ss

  unfoldable pub visit_passes : ℕ → Sums → List TensorSlice → Sums
  visit_passes zero sums ss = sums
  visit_passes (suc n) sums ss = visit_passes n (visit_all sums ss) ss
