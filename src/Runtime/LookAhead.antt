-- ===== src/Runtime/LookAhead.antt =====
-- src/runtime.cpp: whatever the look-ahead does, it stays with the calls of the shared objects that
-- Runtime/Interleaving.antt knows, and never names a slice that is not there.
use mem_vanta.Prelude.{
  ℕ, zero, suc, ◌<◌, ◌≡◌, refl, Bool, true, false, Option, none, some, List, [], ◌∷◌, if-cases, leb,
  ◌&&◌, arith, add32, u64_mod,
}
use mem_vanta.Prelude.Dict.{find, contains}
use mem_vanta.Prelude.Float.{Double}
use mem_vanta.TensorStore.{TensorStore, count}
use mem_vanta.Runtime.{bad_window, RunConfig, inflight_limit}
use mem_vanta.Prefetcher.{Prefetcher}
use mem_vanta.Runtime.Shared.{
  Run, bytes_in, pure, reads, cache_contains, pending, pending_bytes, evictions,
}
use mem_vanta.Runtime.Triples.{
  Triple, is_defined, pure-Triple, bind-Triple, given-Triple, fact-Triple, relax, lift-Triple,
  reads-Triple,
}
use mem_vanta.Runtime.Interleaving.{at-Triple, advise-Triple, bytes_in_lem}
use mem_vanta.Runtime.Budget.{
  Good, Held, Good-IsStable, Held-IsStable, Held-word, Held-Good, Good-Held, Good-Held_mapped,
  request-Held, saturate-lt, fits_lem,
}
use mem_vanta.Runtime.Statistics.{Look, over_budget, saturate, count_item}
use mem_vanta.Runtime.Stream.{
  drop_arrived, drop_late, ready, meet, meet_request, reserved_bytes, on_its_way, ask, admit,
  consider, look_ahead, prepare, observe, end_item, drop_requested,
}

module _ (F : Double) (store : TensorStore) (mapped : ℕ → ℕ) (cap : ℕ) (word : cap < u64_mod)
    (pace : ℕ → ℕ) (cfg : RunConfig F) where
  abbrev pub Ready : Prefetcher → Type 0
  Ready = Good store mapped cap word (inflight_limit F cfg) cfg.copy_cache

  abbrev Reserving : ℕ → Prefetcher → Type 0
  Reserving = Held store mapped cap word (inflight_limit F cfg) cfg.copy_cache

  abbrev pub Keeps : {A : Type 0} → Run A → Type 0
  Keeps m = Triple Ready m (λ a. Ready)

  pub reads-Ready :
      {A : Type 0} {Q : A → Prefetcher → Type 0} (f : Prefetcher → A)
      → ((s : Prefetcher) → Ready s → Q (f s) s)
      → Triple Ready (reads store mapped pace f) Q
  reads-Ready f =
      reads-Triple store mapped pace
        (Good-IsStable store mapped cap word (inflight_limit F cfg) cfg.copy_cache) f

  pure-Keeps : {A : Type 0} (a : A) → Keeps (pure a)
  pure-Keeps a = pure-Triple a λ s r. r

  pub reads-Keeps : {A : Type 0} (f : Prefetcher → A) → Keeps (reads store mapped pace f)
  reads-Keeps f = reads-Ready f λ s r. r

  reads-Held :
      {A : Type 0} (r : ℕ) (f : Prefetcher → A)
      → Triple (Reserving r) (reads store mapped pace f) (λ a. Reserving r)
  reads-Held r f =
      reads-Triple store mapped pace
        (Held-IsStable store mapped cap word (inflight_limit F cfg) cfg.copy_cache r) f λ s h. h

  drop_arrived-Keeps : (m : List (ℕ × ℕ)) → Keeps (drop_arrived F store mapped pace cfg m)
  unfolding drop_arrived pending
  drop_arrived-Keeps [] = pure-Keeps []
  drop_arrived-Keeps ((id, bytes) ∷ m) =
      bind-Triple (reads-Keeps _) λ waits. bind-Triple (drop_arrived-Keeps m) λ rest. pure-Keeps _

  drop_late-Keeps : (l : Look F) → Keeps (drop_late F store mapped pace cfg l)
  unfolding drop_late
  drop_late-Keeps l =
      if-cases Keeps cfg.copy_cache _ _
        (λ copies. bind-Triple (drop_arrived-Keeps l.late_pending) λ m. pure-Keeps _)
        λ maps. pure-Keeps l

  meet-Keeps : (i bytes : ℕ) (l : Look F) → Keeps (meet F store mapped pace cfg i bytes l)
  unfolding meet ready cache_contains pending
  meet-Keeps i bytes l =
      bind-Triple
        (if-cases Keeps cfg.copy_cache _ _ (λ copies. reads-Keeps _) λ maps. pure-Keeps true)
        λ there.
          bind-Triple
            (if-cases Keeps there _ _ (λ useful. pure-Keeps _)
              λ late. bind-Triple (reads-Keeps _) λ waits. pure-Keeps _)
            λ met. pure-Keeps _

  meet_request-Keeps : (i : ℕ) (l : Look F) → Keeps (meet_request F store mapped pace cfg i l)
  unfolding meet_request
  meet_request-Keeps i l = go (find i l.requested)
    where
      go :
          (o : Option ℕ)
          → Keeps (elim o [ none ↦ pure l | some bytes ↦ meet F store mapped pace cfg i bytes l ])
      go none = pure-Keeps l
      go (some bytes) = meet-Keeps i bytes l

  -- A request reserves its bytes.
  ask-Held :
      (id bytes reserved : ℕ)
      → inflight_limit F cfg < u64_mod
      → id < count store
      → bytes ≡ bytes_in store mapped id
      → over_budget (inflight_limit F cfg) reserved bytes ≡ false
      → Triple
          (Reserving reserved)
          (ask F store mapped pace cfg id)
          (λ done. Reserving (saturate reserved bytes))
  unfolding ask
  ask-Held id bytes reserved limit_word h size fits =
      if-cases
        (λ (m : Run (Unit {0})).
          Triple (Reserving reserved) m (λ done. Reserving (saturate reserved bytes)))
        cfg.copy_cache _ _
        (λ copies.
          fact-Triple (λ s. Held-word store mapped cap word limit cfg.copy_cache s copies)
            λ small.
              request-Held store mapped cap word limit cfg.copy_cache pace copies reserved bytes
                (saturate reserved bytes) (saturate-lt reserved bytes)
                (λ n. fits_lem limit reserved bytes n limit_word small fits) id h size)
        λ maps. relax (advise-Triple store mapped cap pace id h) λ done s held.
          Good-Held_mapped store mapped cap word limit cfg.copy_cache (saturate reserved bytes) s
            maps (Held-Good store mapped cap word limit cfg.copy_cache reserved s held)
    where
      limit : ℕ
      limit = inflight_limit F cfg

  -- From one reservation to the next.
  abbrev Reserves : ℕ → Run (Look F × ℕ) → Type 0
  Reserves r m = Triple (Reserving r) m (λ next. Reserving next.1)

  module _ (limit_word : inflight_limit F cfg < u64_mod) where
    admit-Reserves :
        (id bytes : ℕ) (state : Look F × ℕ)
        → id < count store
        → bytes ≡ bytes_in store mapped id
        → Reserves state.1 (admit F store mapped pace cfg id bytes state)
    unfolding admit
    admit-Reserves id bytes (l, reserved) h size =
        if-cases (Reserves reserved) (over_budget (inflight_limit F cfg) reserved bytes) _ _
          (λ full. pure-Triple _ λ s held. held)
          λ fits.
            bind-Triple (ask-Held id bytes reserved limit_word h size fits)
              λ done. pure-Triple _ λ s held. held

    consider-Reserves :
        (id : ℕ) (state : Look F × ℕ)
        → id < count store
        → Reserves state.1 (consider F store mapped pace cfg id state)
    unfolding consider on_its_way cache_contains
    consider-Reserves id (l, reserved) h =
        if-cases (Reserves reserved) (contains id l.requested) _ _
          (λ asked. pure-Triple _ λ s held. held)
          λ new.
            bind-Triple
              (if-cases
                (λ (m : Run Bool). Triple (Reserving reserved) m (λ known. Reserving reserved))
                cfg.copy_cache _ _
                (λ copies.
                  bind-Triple (reads-Held reserved _) λ there. pure-Triple _ λ s held. held)
                λ maps. pure-Triple false λ s held. held)
              λ known.
                if-cases (Reserves reserved) known _ _ (λ yes. pure-Triple _ λ s held. held)
                  λ no. bind-Triple (at-Triple store mapped cap pace id h) λ s.
                    given-Triple λ found.
                      admit-Reserves id s.bytes (l, reserved) h
                        (bytes_in_lem store mapped cap pace id s found)

    look_ahead-Reserves :
        (n i d : ℕ) (state : Look F × ℕ)
        → Reserves state.1 (look_ahead F store mapped pace cfg n i d state)
    unfolding look_ahead
    look_ahead-Reserves zero i d state = pure-Triple state λ s held. held
    look_ahead-Reserves (suc n) i d state =
        if-cases (Reserves state.1) (leb (count store) (add32 i d)) _ _
          (λ past. pure-Triple state λ s held. held)
          λ there.
            bind-Triple (consider-Reserves (add32 i d) state (ground (arith, there)))
              λ next. look_ahead-Reserves n i (add32 d 1) next

    -- What is reserved when the look-ahead starts covers what is pending.
    reserved_bytes-Held :
        (l : Look F)
        → Triple Ready (reserved_bytes F store mapped pace cfg l) (λ reserved. Reserving reserved)
    unfolding reserved_bytes pending_bytes
    reserved_bytes-Held l =
        if-cases (λ (m : Run ℕ). Triple Ready m (λ reserved. Reserving reserved)) cfg.copy_cache _ _
          (λ copies.
            reads-Ready _ λ s good.
              Good-Held store mapped cap word (inflight_limit F cfg) cfg.copy_cache s good)
          λ maps. pure-Triple _ λ s good.
            Good-Held_mapped store mapped cap word (inflight_limit F cfg) cfg.copy_cache _ s maps
              good

    pub prepare-Keeps : (i : ℕ) (l : Look F) → Keeps (prepare F store mapped pace cfg i l)
    unfolding prepare
    prepare-Keeps i l = bind-Triple (drop_late-Keeps l) λ waiting.
        bind-Triple (meet_request-Keeps i waiting) λ met.
          bind-Triple (reserved_bytes-Held met) λ reserved.
            bind-Triple (look_ahead-Reserves met.depth i 1 _) λ ahead. pure-Triple ahead.0 λ s held.
              Held-Good store mapped cap word (inflight_limit F cfg) cfg.copy_cache _ s held

  pub end_item-Keeps : (ms : F.D) (l : Look F) → Keeps (end_item F store mapped pace cfg ms l)
  unfolding end_item observe evictions is_defined
  end_item-Keeps ms l =
      let timed = count_item F ms l in
      if-cases Keeps (cfg.adaptive_prefetch && leb cfg.adaptive_window timed.window.items) _ _
        (λ full. bind-Triple (reads-Keeps _) λ evicted.
          bind-Triple (lift-Triple bad_window _ (λ s r a e. r) λ e thrown. refl) λ d. pure-Keeps _)
        λ more. pure-Keeps _

  pub drop_requested-Keeps :
      (m : List (ℕ × ℕ)) (l : Look F) → Keeps (drop_requested F store mapped pace cfg m l)
  unfolding drop_requested pending
  drop_requested-Keeps [] l = pure-Keeps l
  drop_requested-Keeps ((id, bytes) ∷ m) l =
      bind-Triple
        (if-cases Keeps cfg.copy_cache _ _ (λ copies. reads-Keeps _) λ maps. pure-Keeps false)
        λ waits. drop_requested-Keeps m _
