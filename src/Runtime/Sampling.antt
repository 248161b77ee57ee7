-- ===== src/Runtime/Sampling.antt =====
-- src/runtime.cpp: what a run computes does not depend on the prefetching.
use mem_vanta.Prelude.{
  ℕ, zero, suc, ◌+◌, ◌<◌, ◌≡◌, refl, ap, sym, ◌∙◌, Option, some, List, ok-injective, arith, table,
  get_elem?, get_elem?-some, get_elem?-table, drop-get_elem?, drop_all, length, drop, add64,
  if-cases, if◌then◌else◌, u64_mod,
}
use mathlib.Core.Option.{some-injective}
use mem_vanta.Prelude.Float.{Double}
use mem_vanta.TensorStore.{TensorStore, TensorSlice, count}
use mem_vanta.TensorStore.Slices.{IsStore, count-few}
use mem_vanta.Prefetcher.{Prefetcher}
use mem_vanta.Runtime.{RunConfig, inflight_limit}
use mem_vanta.Runtime.Shared.{Run, pure, advise, bytes_in, bytes_of}
use mem_vanta.TensorCache.Coherence.{stored, contents}
use mem_vanta.Runtime.Hash.{hash}
use mem_vanta.Runtime.Triples.{relax, Triple, pure-Triple, bind-Triple, given-Triple, lift-Triple}
use mem_vanta.Runtime.Interleaving.{at-Triple, advise-Triple, bytes_in_lem, bytes_of_lem}
use mem_vanta.Runtime.Budget.{load-Good}
use mem_vanta.Runtime.Statistics.{clear, Sums, Look}
use mem_vanta.Runtime.Stream.{fetch, consume, item, items, pass, passes}
use mem_vanta.Runtime.LookAhead.{Ready, prepare-Keeps, end_item-Keeps, drop_requested-Keeps}
use mem_vanta.Runtime.Reference.{hash-mix_all, visit, visit_all, visit_passes}

module _ (F : Double) (store : TensorStore) (mapped : ℕ → ℕ) (cap : ℕ) (word : cap < u64_mod)
    (pace : ℕ → ℕ) (cfg : RunConfig F) (limit_word : inflight_limit F cfg < u64_mod)
    (v : IsStore store) where
  abbrev pub Kept : Prefetcher → Type 0
  Kept = Ready F store mapped cap word pace cfg

  abbrev pub Sampled : {A : Type 0} → (A → Type 0) → Run A → Type 0
  Sampled P m = Triple Kept m (λ a p. Kept p × P a)

  -- The copy of a slice has its bytes.
  buffer_lem :
      (i : ℕ) (s : TensorSlice) (buffer : List ℕ)
      → get_elem? store.slices i ≡ some s
      → buffer ≡ stored (bytes_of store mapped) (bytes_in store mapped) i
      → (j : ℕ) → j < s.bytes
      → get_elem? buffer j ≡ some (mapped (s.offset + j))
  buffer_lem i s buffer found same j h =
      let copied : buffer ≡ table (λ j. mapped (s.offset + j)) 0 s.bytes =
        same
        ∙ ap (λ src. contents src (bytes_in store mapped i))
            (bytes_of_lem store mapped cap pace i s found)
        ∙ ap (table (λ j. mapped (s.offset + j)) 0)
            (sym (bytes_in_lem store mapped cap pace i s found)) in
      ap (λ b. get_elem? b j) copied
      ∙ get_elem?-table (λ j. mapped (s.offset + j)) 0 s.bytes j h
      ∙ ap (λ k. some (mapped (s.offset + k))) (omega arith)

  -- The buffer that is read has the bytes of the slice.
  fetch-Sampled :
      (i : ℕ) (s : TensorSlice)
      → i < count store
      → get_elem? store.slices i ≡ some s
      → Sampled
          (λ u. (j : ℕ) → j < s.bytes → u j ≡ some (mapped (s.offset + j)))
          (fetch F store mapped pace cfg i s)
  unfolding fetch
  fetch-Sampled i s below found =
      if-cases (Sampled P) cfg.copy_cache _ _
        (λ copies.
          bind-Triple
            (load-Good store mapped cap word (inflight_limit F cfg) cfg.copy_cache pace i s.bytes
              (bytes_in_lem store mapped cap pace i s found))
            λ buffer. given-Triple λ same.
              bind-Triple (advise-Triple store mapped cap pace i below)
                λ done. pure-Triple _ λ p r. (r, buffer_lem i s buffer found same))
        λ maps.
          bind-Triple (advise-Triple store mapped cap pace i below)
            λ done. pure-Triple _ λ p r. (r, λ j h. refl)
    where
      P : (ℕ → Option ℕ) → Type 0
      P u = (j : ℕ) → j < s.bytes → u j ≡ some (mapped (s.offset + j))

  consume-Sampled :
      (i : ℕ) (s : TensorSlice) (sums : Sums)
      → i < count store
      → get_elem? store.slices i ≡ some s
      → Sampled (λ after. after ≡ visit mapped sums s) (consume F store mapped pace cfg i sums)
  unfolding consume visit
  consume-Sampled i s sums below found = bind-Triple (at-Triple store mapped cap pace i below) λ t.
      given-Triple λ found'. bind-Triple (fetch-Sampled i t below found') λ u. given-Triple λ there.
        let mixed =
          hash-mix_all t.bytes sums.checksum u (λ j. mapped (t.offset + j)) (v.small i t found')
            there in
        bind-Triple
          (lift-Triple (λ e. e) (hash t.bytes u sums.checksum)
            (λ p r c e. (r, ok-injective (sym e ∙ mixed))) λ e thrown. cc)
          λ c. given-Triple λ same. bind-Triple release λ done. pure-Triple _ λ p r. (
            r,
            ap (λ c. record { checksum = c; total = add64 sums.total t.bytes }) same
                ∙ ap (visit mapped sums) (some-injective _ _ (sym found' ∙ found)),
          )
    where
      release :
          Triple {A = Unit {0}}
            (Kept)
            (if cfg.copy_cache then pure tt else advise store mapped pace i)
            (λ done. Kept)
      release =
          if-cases (λ (m : Run (Unit {0})). Triple (Kept) m (λ done. Kept)) cfg.copy_cache _ _
            (λ copies. pure-Triple tt λ p r. r) λ maps. advise-Triple store mapped cap pace i below

  module _ (item_ms : ℕ → ℕ → F.D) where
    item-Sampled :
        (p i : ℕ) (s : TensorSlice) (state : Look F × Sums)
        → i < count store
        → get_elem? store.slices i ≡ some s
        → Sampled
            (λ next. next.1 ≡ visit mapped state.1 s)
            (item F store mapped pace cfg item_ms p i state)
    unfolding item
    item-Sampled p i s (l, sums) below found =
        bind-Triple (prepare-Keeps F store mapped cap word pace cfg limit_word i l) λ ahead.
          bind-Triple (consume-Sampled i s sums below found) λ after. given-Triple λ same.
            bind-Triple (end_item-Keeps F store mapped cap word pace cfg (item_ms p i) ahead)
              λ ended. pure-Triple _ λ w r. (r, same)

    items-Sampled :
        (n p i : ℕ) (state : Look F × Sums)
        → i + n ≡ length store.slices
        → Sampled
            (λ next. next.1 ≡ visit_all mapped state.1 (drop i store.slices))
            (items F store mapped pace cfg item_ms n p i state)
    unfolding items visit_all
    items-Sampled zero p i state h =
        pure-Triple state λ w r. (r, rw (drop_all store.slices i (omega (arith, h))) refl)
    items-Sampled (suc n) p i state h =
        let (s', found) = get_elem?-some store.slices i (omega (arith, h)) in
        bind-Triple (item-Sampled p i s' state (omega (arith, h, count-few store v.few)) found)
          λ next. given-Triple λ same.
            relax (items-Sampled n p (suc i) next (omega (arith, h))) λ end s r. (
              r.0,
              r.1
                  ∙ ap (λ sums. visit_all mapped sums (drop (suc i) store.slices)) same
                  ∙ rw (drop-get_elem? store.slices i s' found) refl,
            )

    pass-Sampled :
        (p : ℕ) (state : Look F × Sums)
        → Sampled
            (λ next. next.1 ≡ visit_all mapped state.1 store.slices)
            (pass F store mapped pace cfg item_ms p state)
    unfolding pass
    pass-Sampled p (l, sums) =
        bind-Triple
          (items-Sampled (count store) p 0 (clear F l, sums) (omega (arith, count-few store v.few)))
          λ done. given-Triple λ same.
            bind-Triple
              (drop_requested-Keeps F store mapped cap word pace cfg done.0.requested done.0)
              λ dropped. pure-Triple _ λ w r. (r, same)

    pub passes-Sampled :
        (n p : ℕ) (state : Look F × Sums)
        → Sampled
            (λ next. next.1 ≡ visit_passes mapped n state.1 store.slices)
            (passes F store mapped pace cfg item_ms n p state)
    unfolding passes visit_passes
    passes-Sampled zero p state = pure-Triple state λ w r. (r, refl)
    passes-Sampled (suc n) p state = bind-Triple (pass-Sampled p state) λ next. given-Triple λ same.
        relax (passes-Sampled n (suc p) next)
          λ end w r. (r.0, r.1 ∙ ap (λ sums. visit_passes mapped n sums store.slices) same)
