-- ===== src/Gguf/Reads.antt =====
-- The operations of `Reader` in the logic of Runs.antt.
use mem_vanta.Prelude.{
  ℕ, zero, suc, ◌+◌, ◌-◌, ◌≤◌, ◌<◌, ◌≡◌, refl, sym, subst, ◌∙◌, true, false, ◌⊎◌, inl, inr, some,
  [], ◌∷◌, arith, ok, err, ltb, length, get_elem?-some, add64_lem, sub64_lem, u64_mod, Bool-cases,
  ltb→lt, ltb→le, u64_max,
}
use mem_vanta.Gguf.Types.{
  Bytes, GgufParseLimits, truncated, string_limit, budget, too_large_for_address_space,
}
use mem_vanta.Gguf.Reader.{Reader, ◌>>◌, bytes_at, require, fetch, read, charge, str}
use mem_vanta.Gguf.Runs.{Runs, Outcome, Ready, bind_ok, bind_err, Runs-bind, Runs-check}

bytes_at-some :
    (file : Bytes) (off count : ℕ)
    → off + count ≤ length file
    → (bs : Bytes) × (bytes_at file off count ≡ some bs) × (length bs ≡ count)
unfolding bytes_at
bytes_at-some file off zero h = ([], refl, refl)
bytes_at-some file off (suc count) h =
    let (bs, rest, len) = bytes_at-some file (suc off) count (omega arith) in
    let (b, there) = get_elem?-some file off (omega arith) in
    (b ∷ bs, ground (arith, there, rest), omega arith)

module _ (file : Bytes) (fits : length file < u64_mod) where
  -- After a successful `require`, the bytes are there.
  require_cases :
      (k : ℕ) (r : Reader)
      → Ready file r
      → ((require file k r ≡ err truncated) × (length file < r.off + k))
        ⊎ ((require file k r ≡ ok (tt, r)) × (r.off + k ≤ length file))
  unfolding require
  require_cases k r v = elim (Bool-cases (ltb (length file) k)) [
    | inl long ↦ rw long (inl (refl, omega (arith, ltb→lt (length file) k long)))
    | inr short ↦
        let le = ltb→le (length file) k short in
        rw (short, sub64_lem (length file) k fits le)
          (elim (Bool-cases (ltb (length file - k) r.off)) [
            | inl past ↦ rw past (inl (refl, ground arith))
            | inr inside ↦ rw inside (inr (refl, ground arith))
          ])
  ]

  Runs-require : (k : ℕ) → Runs file 0 (λ _. 0) (require file k)
  Runs-require k = record { apply = λ r v. go r v (require_cases k r v) }
    where
      go :
          (r : Reader)
          → Ready file r
          → ((require file k r ≡ err truncated) × (length file < r.off + k))
            ⊎ ((require file k r ≡ ok (tt, r)) × (r.off + k ≤ length file))
          → Outcome file 0 (λ _. 0) r (require file k r)
      go r v (inl (e, _)) = rw e (λ q. cc)
      go r v (inr (e, _)) = rw e (omega arith, v.inside, omega arith, omega arith)

  -- `require` and `fetch` of as many bytes: the pair that `read` and `str` are made of.
  fetch_some :
      (k : ℕ) (r : Reader)
      → r.off + k ≤ length file
      → (bs : Bytes) × (fetch file k r ≡ ok (bs, record r { off = r.off + k })) × (length bs ≡ k)
  unfolding fetch
  fetch_some k r h =
      let (bs, found, len) = bytes_at-some file r.off k h in
      (bs, ground (arith, found, add64_lem r.off k (omega (arith, fits))), len)

  pub Runs-read : (k : ℕ) → Runs file 0 (λ _. 0) (read file k)
  unfolding read
  Runs-read k = record { apply = λ r v. go r v (require_cases k r v) }
    where
      go :
          (r : Reader)
          → Ready file r
          → ((require file k r ≡ err truncated) × (length file < r.off + k))
            ⊎ ((require file k r ≡ ok (tt, r)) × (r.off + k ≤ length file))
          → Outcome file 0 (λ _. 0) r (read file k r)
      go r v (inl (e, _)) =
          subst (Outcome file 0 (λ _. 0) r) (sym (bind_err (require file k) _ r e)) (λ q. cc)
      go r v (inr (e, inside)) =
          let (bs, found, _) = fetch_some k r inside in
          subst (Outcome file 0 (λ _. 0) r)
            (sym (bind_ok (require file k) _ r e ∙ bind_ok (fetch file k) _ r found))
            (omega arith, omega arith, omega arith, omega arith)

  abbrev charged : Reader → ℕ → Reader
  charged r n = record r { heap_remaining = r.heap_remaining - n }

  charge_poor : (n : ℕ) (r : Reader) → ltb r.heap_remaining n ≡ true → charge file n r ≡ err budget
  unfolding charge
  charge_poor n r h = rw h refl

  charge_rich :
      (n : ℕ) (r : Reader)
      → Ready file r
      → ltb r.heap_remaining n ≡ false
      → charge file n r ≡ ok (tt, charged r n)
  unfolding charge
  charge_rich n r v h =
      rw (h, sub64_lem r.heap_remaining n v.word (ltb→le r.heap_remaining n h)) refl

  pub Runs-charge : (n : ℕ) → Runs file 0 (λ _. n) (charge file n)
  Runs-charge n = record { apply = λ r v. go r v (Bool-cases (ltb r.heap_remaining n)) }
    where
      go :
          (r : Reader)
          → Ready file r
          → (ltb r.heap_remaining n ≡ true) ⊎ (ltb r.heap_remaining n ≡ false)
          → Outcome file 0 (λ _. n) r (charge file n r)
      go r v (inl poor) = rw (charge_poor n r poor) (λ q. cc)
      go r v (inr rich) =
          let le = ltb→le r.heap_remaining n rich in
          rw (charge_rich n r v rich) (omega arith, v.inside, omega arith, omega arith)

  -- The tail of `str`, once the length is read and within the limits.
  Runs-take : (len : ℕ) → Runs file 0 length (do require file len; charge file len; fetch file len)
  Runs-take len = record {
    apply = λ r v. go r v (require_cases len r v) (Bool-cases (ltb r.heap_remaining len));
  }
    where
      go :
          (r : Reader)
          → Ready file r
          → ((require file len r ≡ err truncated) × (length file < r.off + len))
            ⊎ ((require file len r ≡ ok (tt, r)) × (r.off + len ≤ length file))
          → (ltb r.heap_remaining len ≡ true) ⊎ (ltb r.heap_remaining len ≡ false)
          → Outcome file 0 length r ((do require file len; charge file len; fetch file len) r)
      go r v (inl (e, _)) c =
          subst (Outcome file 0 length r) (sym (bind_err (require file len) _ r e)) (λ q. cc)
      go r v (inr (e, inside)) (inl poor) =
          subst (Outcome file 0 length r)
            (sym (
              bind_ok (require file len) _ r e
              ∙ bind_err (charge file len) _ r (charge_poor len r poor)))
            (λ q. cc)
      go r v (inr (e, inside)) (inr rich) =
          let (bs, found, size) = fetch_some len (charged r len) inside in
          let le = ltb→le r.heap_remaining len rich in
          subst (Outcome file 0 length r)
            (sym (
              bind_ok (require file len) _ r e
              ∙ bind_ok (charge file len) _ r (charge_rich len r v rich)
              ∙ found))
            (omega arith, omega arith, omega arith, omega arith)

  pub Runs-str : (limits : GgufParseLimits) → Runs file 0 length (str file limits)
  unfolding str
  Runs-str limits =
      Runs-bind (λ _. 0) (Runs-read 8)
        λ len.
          Runs-bind (λ _. 0) (Runs-check (ltb limits.max_string_bytes len) string_limit (λ q. cc))
            λ _.
              Runs-bind (λ _. 0)
                (Runs-check (ltb u64_max len) too_large_for_address_space (λ q. cc))
                λ _. Runs-take len
