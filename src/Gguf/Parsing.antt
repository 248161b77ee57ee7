-- ===== src/Gguf/Parsing.antt =====
-- The constructor of `GgufFile` never reads past the mapping, and what its metadata holds on the
-- heap was charged to the budget.
use mem_vanta.Prelude.{
  ℕ, zero, suc, ◌+◌, ◌*◌, ◌≤◌, ◌<◌, ◌≡◌, subst, not, ◌||◌, ◌&&◌, ◌≢◌, List, [], ◌∷◌, arith, Result,
  ok, err, ltb, ◌==◌, length, u64_mod, u64_max,
}
use mem_vanta.Gguf.Types.{
  value_type, ggml_type, Abi, Bytes, GgufValue, GgufParseLimits, GgufError, zero_dimension,
  bad_dimensions, not_gguf, bad_version, item_limit, too_large_for_address_space, duplicate_key,
  data_beyond_file, out_of_bounds,
}
use mem_vanta.Gguf.Reader.{Reader}
use mem_vanta.Gguf.Values.{repeat}
use mem_vanta.Gguf.Tensors.{Table, has_key, lookup}
use mem_vanta.Gguf.File.{
  GgufFile, alignment_key, read_entry, read_metadata, read_dim, read_descriptor, check_magic,
  read_header, position, parse_body, parse,
}
use mem_vanta.Gguf.Runs.{
  Runs, Outcome, cost_sum, Runs-pure, Runs-throw, Runs-bind, Runs-bind_prepaid, Runs-paid,
  Runs-lift, Runs-if, Runs-check, Runs-weaken, Runs-repeat,
}
use mem_vanta.Gguf.Reads.{Runs-read, Runs-str}
use mem_vanta.Gguf.Faults.{alignment-IsSafe, data_offset_of-IsSafe, place_all-IsSafe}
use mem_vanta.Gguf.Spending.{Runs-charge_mul, heap_bytes, Runs-read_value}

-- What the metadata holds on the heap: 128 bytes for each entry, its key, and its value.
abbrev pub metadata_bytes : (A : Abi) → List (Bytes × GgufValue A.Double) → ℕ
metadata_bytes A [] = 0
metadata_bytes A ((key, v) ∷ m) = 128 + length key + heap_bytes A v.payload + metadata_bytes A m

module _ (A : Abi) (file : Bytes) (limits : GgufParseLimits) (fits : length file < u64_mod) where
  Runs-read_entry :
      (m : List (Bytes × GgufValue A.Double))
      → Runs file (128 + metadata_bytes A m) (metadata_bytes A) (read_entry A file limits m)
  unfolding read_entry
  Runs-read_entry m = Runs-bind length (Runs-str file fits limits) λ key.
      Runs-bind (λ _. 0) (Runs-read file fits 4)
        λ code.
          Runs-bind (λ v. heap_bytes A v.payload)
            (Runs-read_value A file limits fits (value_type code))
            λ value.
              Runs-bind (λ _. 0) (Runs-check (has_key key m) duplicate_key (λ q. cc))
                λ _. Runs-pure ((key, value) ∷ m) (omega arith)

  Runs-read_metadata :
      (n : ℕ) (m : List (Bytes × GgufValue A.Double))
      → Runs file
          (n * 128 + metadata_bytes A m)
          (metadata_bytes A)
          (read_metadata A file limits n m)
  unfolding read_metadata
  Runs-read_metadata zero m = Runs-pure m (omega arith)
  Runs-read_metadata (suc n) m = Runs-paid (suc n * 128 + metadata_bytes A m) (omega arith) (
      Runs-bind_prepaid (128 + metadata_bytes A m) (n * 128) (metadata_bytes A) (Runs-read_entry m)
        λ m'. Runs-paid (metadata_bytes A m' + n * 128) (omega arith) (Runs-read_metadata n m'))

  Runs-read_dim : Runs file 0 (λ _. 0) (read_dim A file limits)
  unfolding read_dim
  Runs-read_dim =
      Runs-bind (λ _. 0) (Runs-read file fits 8)
        λ d.
          Runs-bind (λ _. 0) (Runs-check (d == 0) zero_dimension (λ q. cc))
            λ _. Runs-pure d (omega arith)

  Runs-read_descriptor : Runs file 0 (λ _. 0) (read_descriptor A file limits)
  unfolding read_descriptor
  Runs-read_descriptor = Runs-bind length (Runs-str file fits limits) λ name.
      Runs-bind (λ _. 0) (Runs-read file fits 4)
        λ nd.
          Runs-bind (λ _. 0) (Runs-check (nd == 0 || ltb 4 nd) bad_dimensions (λ q. cc))
            λ _. Runs-charge_mul fits nd 8 (
              Runs-paid (nd * 8 + (0 + (0 + (length name + 0)))) (omega arith) (
                Runs-bind_prepaid (nd * 8) 0 (cost_sum (λ _. 8 + 0))
                  (Runs-repeat 8 (λ _. 0) _ nd Runs-read_dim)
                  λ dims.
                    Runs-bind (λ _. 0) (Runs-read file fits 4)
                      λ code.
                        Runs-bind (λ _. 0) (Runs-read file fits 8)
                          λ rel.
                            Runs-pure
                              (record {
                                name = name;
                                dims = dims;
                                kind = ggml_type code;
                                rel = rel;
                              })
                              (omega arith)))

  Runs-check_magic : (m : Bytes) → Runs file 0 (λ _. 0) (check_magic A file limits m)
  unfolding check_magic
  Runs-check_magic m = Runs-if _ _ _ (Runs-pure tt (omega arith)) (Runs-throw not_gguf (λ q. cc))

  Runs-read_header : Runs file 0 (λ _. 0) (read_header A file limits)
  unfolding read_header
  Runs-read_header =
      Runs-bind (λ _. 0)
        (Runs-weaken _ (λ _. 0) (λ _. omega arith)
          (Runs-repeat 0 (λ _. 0) _ 4 (Runs-read file fits 1)))
        λ m.
          Runs-bind (λ _. 0) (Runs-check_magic m)
            λ _.
              Runs-bind (λ _. 0) (Runs-read file fits 4)
                λ version.
                  Runs-bind (λ _. 0)
                    (Runs-check (ltb version 2 || ltb 3 version) bad_version (λ q. cc))
                    λ _.
                      Runs-bind (λ _. 0) (Runs-read file fits 8)
                        λ nt.
                          Runs-bind (λ _. 0) (Runs-read file fits 8)
                            λ nkv.
                              Runs-bind (λ _. 0)
                                (Runs-check
                                  (ltb limits.max_tensors nt || ltb limits.max_metadata_items nkv)
                                  item_limit (λ q. cc))
                                λ _.
                                  Runs-bind (λ _. 0)
                                    (Runs-check (ltb u64_max nt || ltb u64_max nkv)
                                      too_large_for_address_space (λ q. cc))
                                    λ _. Runs-pure (version, nt, nkv) (omega arith)

  Runs-position : Runs file 0 (λ _. 0) (position A file limits)
  Runs-position = record { apply = λ r v. (omega arith, v.inside, omega arith, omega arith) }

  Runs-parse_body : Runs file 0 (λ g. metadata_bytes A g.metadata) (parse_body A file limits)
  unfolding parse_body
  Runs-parse_body =
      Runs-bind (λ _. 0) Runs-read_header
        λ header. Runs-charge_mul fits header.2 128 (
          Runs-paid _ (omega arith) (
            Runs-bind_prepaid (header.2 * 128 + 0) 0 (metadata_bytes A)
              (Runs-read_metadata header.2 [])
              λ metadata. Runs-charge_mul fits header.1 (A.sizeof_tmp + 64) (
                Runs-bind (λ _. 0) (descriptors header.1)
                  λ tmp.
                    Runs-bind (λ _. 0)
                      (Runs-lift _ (alignment-IsSafe (lookup alignment_key metadata)).safe)
                      λ align.
                        Runs-bind (λ _. 0) Runs-position
                          λ at.
                            Runs-bind (λ _. 0) (Runs-lift _ (data_offset_of-IsSafe at align).safe)
                              λ data_offset.
                                Runs-bind (λ _. 0)
                                  (Runs-check (not (header.1 == 0) && ltb (length file) data_offset)
                                    data_beyond_file (λ q. cc))
                                  λ _. Runs-charge_mul fits header.1 (A.sizeof_tensor + 96) (
                                    Runs-bind (λ _. 0)
                                      (Runs-lift _
                                        (place_all-IsSafe (length file) data_offset _ tmp).safe)
                                      λ t.
                                        Runs-pure (built header.0 data_offset metadata t)
                                          (omega arith)))))
    where
      built : ℕ → ℕ → List (Bytes × GgufValue A.Double) → Table → GgufFile A.Double
      built version data_offset metadata t = record {
        version = version;
        data_offset = data_offset;
        metadata = metadata;
        tensors = t.tensors;
        tensor_index = t.index;
      }

      descriptors : (n : ℕ) → Runs file 0 (λ _. 0) (repeat (read_descriptor A file limits) n)
      descriptors n = Runs-paid 0 (omega arith) (
          Runs-weaken _ (λ _. 0) (λ _. omega arith)
            (Runs-repeat 0 (λ _. 0) _ n Runs-read_descriptor))

  run_parse : Result GgufError (GgufFile A.Double × Reader)
  run_parse =
      parse_body A file limits (record { off = 0; heap_remaining = limits.max_parse_heap_bytes })

  parse-Outcome :
      limits.max_parse_heap_bytes < u64_mod
      → Outcome file 0
          (λ g. metadata_bytes A g.metadata)
          (record { off = 0; heap_remaining = limits.max_parse_heap_bytes })
          run_parse
  unfolding run_parse
  parse-Outcome word = Runs-parse_body.apply _ (record { inside = omega arith; word = word })

  -- Whatever the bytes of a file whose size and parse budget are 64-bit words, the parser never
  -- reads past the mapping.
  pub parse-in_bounds :
      limits.max_parse_heap_bytes < u64_mod → parse A file limits ≢ err out_of_bounds
  unfolding parse run_parse
  parse-in_bounds word = go run_parse (parse-Outcome word)
    where
      go :
          (x : Result GgufError (GgufFile A.Double × Reader))
          → Outcome file 0
              (λ g. metadata_bytes A g.metadata)
              (record { off = 0; heap_remaining = limits.max_parse_heap_bytes })
              x
          → (elim x as (λ _. Result GgufError (GgufFile A.Double)) [
            | err e ↦ err e
            | ok (g, _) ↦ ok g
          ])
            ≢ err out_of_bounds
      go (ok (g, r)) o = λ q. cc
      go (err e) o = λ q. o (ground arith)

  -- If the parser accepts a file, whose size and parse budget are 64-bit words, what its metadata
  -- holds on the heap, 128 bytes for each entry with its key and its value, is within the budget.
  pub parse-metadata_bytes :
      (g : GgufFile A.Double)
      → limits.max_parse_heap_bytes < u64_mod
      → parse A file limits ≡ ok g
      → metadata_bytes A g.metadata ≤ limits.max_parse_heap_bytes
  unfolding parse run_parse
  parse-metadata_bytes g word = go run_parse (parse-Outcome word)
    where
      go :
          (x : Result GgufError (GgufFile A.Double × Reader))
          → Outcome file 0
              (λ g. metadata_bytes A g.metadata)
              (record { off = 0; heap_remaining = limits.max_parse_heap_bytes })
              x
          → (elim x as (λ _. Result GgufError (GgufFile A.Double)) [
            | err e ↦ err e
            | ok (g, _) ↦ ok g
          ])
            ≡ ok g
          → metadata_bytes A g.metadata ≤ limits.max_parse_heap_bytes
      go (err e) o q = cc
      go (ok (h, r)) o q =
          subst (λ g. metadata_bytes A g.metadata ≤ limits.max_parse_heap_bytes) (same q)
            (omega arith)
        where
          same : {E : Type 0} {B : Type 0} {x y : B} → ◌≡◌ {A = Result E B} (ok x) (ok y) → x ≡ y
          same e = cc
