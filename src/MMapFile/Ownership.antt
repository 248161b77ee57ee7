-- ===== src/MMapFile/Ownership.antt =====
-- The descriptor and the mapping of a file: each method gives back what it drops, once, and never
-- gives back what is not held.
use mem_vanta.Prelude.{
  ℕ, ◌≡◌, refl, sym, ap, ◌∙◌, ◌||◌, Option, none, some, List, [], ◌∷◌, ◌++◌, Result, ok, err, ltb,
  leb, ◌==◌, if◌then◌else◌, if-cases, u64_max,
}
use mem_vanta.Prelude.Int.{ℤ, pos, negsuc}
use mem_vanta.MMapFile.{
  MMapFile, empty, MMapError, open_failed, SystemCall, opens, closes, maps, Answers, close,
  advice_bounds, advise_pages, advise_range, madv_random, too_large, mmap_failed, fstat_failed,
  empty_file, give_up, map_file, size_file, open_file, move_assign, count_success, count_failure,
  is_null,
}
use mem_vanta.MMapFile.Replay.{Held, replay, with_file, replay-append, close-replay}

module _ (A : Answers) where
  -- Advice gives and takes nothing.
  record Advised (f : MMapFile) (r : MMapFile × List SystemCall) : Type 0 where
    fd_same : r.0.fd ≡ f.fd
    data_same : r.0.data_at ≡ f.data_at
    size_same : r.0.size ≡ f.size
    nothing : (h : Held) → replay r.1 h ≡ some h

  unadvised :
      (f g : MMapFile) → g.fd ≡ f.fd → g.data_at ≡ f.data_at → g.size ≡ f.size → Advised f (g, [])
  unadvised f g x y z = record { fd_same = x; data_same = y; size_same = z; nothing = λ h. refl }

  advise_pages-Advised :
      (f : MMapFile) (page off len advice : ℕ) → Advised f (advise_pages A f page off len advice)
  unfolding advise_pages count_success count_failure
  advise_pages-Advised f page off len advice =
      if-cases (Advised f)
        (leb (advice_bounds f.size page off len).1 (advice_bounds f.size page off len).0) _ _
        (λ _. unadvised f f refl refl refl)
        λ _. record {
          fd_same = if-cases (λ (g : MMapFile). g.fd ≡ f.fd) A.advised _ _ (λ _. refl) (λ _. refl);
          data_same =
              if-cases (λ (g : MMapFile). g.data_at ≡ f.data_at) A.advised _ _ (λ _. refl)
                (λ _. refl);
          size_same =
              if-cases (λ (g : MMapFile). g.size ≡ f.size) A.advised _ _ (λ _. refl) (λ _. refl);
          nothing = λ h. refl;
        }

  advise_range-Advised :
      (f : MMapFile) (off len advice : ℕ) → Advised f (advise_range A f off len advice)
  unfolding advise_range count_failure
  advise_range-Advised f off len advice =
      if-cases (Advised f) (is_null f.data_at || ((len == 0) || leb f.size off)) _ _
        (λ _. unadvised f f refl refl refl) λ _. go A.page_size
    where
      go :
          (p : ℤ)
          → Advised f (elim p as (λ _. MMapFile × List SystemCall) [
            | negsuc n ↦ (count_failure f, [])
            | pos page ↦
                if page == 0 then (count_failure f, []) else advise_pages A f page off len advice
          ])
      go (negsuc n) = unadvised f (count_failure f) refl refl refl
      go (pos page) =
          if-cases (Advised f) (page == 0) _ _ (λ _. unadvised f (count_failure f) refl refl refl)
            (λ _. advise_pages-Advised f page off len advice)

  -- How `open` ends, with what the process holds beside.
  abbrev pub Opened : Held → Option Held → MMapFile × Result MMapError (Unit {0}) → Type 0
  Opened rest after (f, err e) = (after ≡ some rest) × (f ≡ empty)
  Opened rest after (f, ok _) =
      (fd : ℕ) × (address : ℕ) × (A.opened ≡ some fd)
      × (A.mapped ≡ some address)
      × (A.stat_size ≡ some (pos f.size))
      × (f.fd ≡ some fd)
      × (f.data_at ≡ some address)
      × (after
          ≡ some (record { fds = fd ∷ rest.fds; mappings = (address, f.size) ∷ rest.mappings }))

  -- A file in the middle of `open`: a descriptor, and no mapping yet.
  abbrev opening : ℕ → ℕ → MMapFile
  opening fd size = record empty { fd = some fd; size = size }

  abbrev Ends : Held → Held → MMapFile × List SystemCall × Result MMapError (Unit {0}) → Type 0
  Ends rest h r = Opened rest (replay r.1 h) (r.0, r.2)

  module _ (h rest : Held) (fd : ℕ) (calls : List SystemCall)
      (so_far : replay calls h ≡ some (with_file (opening fd 0) rest))
      (opened : A.opened ≡ some fd) where
    give_up-Ends : (size : ℕ) (e : MMapError) → Ends rest h (give_up (opening fd size) calls e)
    unfolding give_up close
    give_up-Ends size e = (
      replay-append calls (closes fd ∷ []) h so_far
          ∙ unfold close in close-replay (opening fd 0) rest,
      refl,
    )

    map_file-Ends :
        (size : ℕ)
        → A.stat_size ≡ some (pos size)
        → Ends rest h (map_file A (opening fd 0) calls size)
    unfolding map_file
    map_file-Ends size stat =
        if-cases (Ends rest h) (ltb u64_max size) _ _ (λ _. give_up-Ends 0 too_large)
          λ _. go A.mapped refl
      where
        go :
            (m : Option ℕ)
            → A.mapped ≡ m
            → Ends rest h
                (elim m as (λ _. MMapFile × List SystemCall × Result MMapError (Unit {0})) [
                  | none ↦ give_up (record (opening fd 0) { size = size }) calls mmap_failed
                  | some address ↦
                      let (g, advice) =
                        advise_range A
                          (record (opening fd 0) { size = size; data_at = some address })
                          0
                          size
                          madv_random in
                      (g, calls ++ maps address size ∷ advice, ok tt)
                ])
        go none e = give_up-Ends size mmap_failed
        go (some address) e =
            let f = record (opening fd 0) { size = size; data_at = some address } in
            let advised = advise_range-Advised f 0 size madv_random in
            (
              fd,
              address,
              opened,
              e,
              stat ∙ ap (λ (n : ℕ). some (pos n)) (sym advised.size_same),
              advised.fd_same,
              advised.data_same,
              replay-append calls _ h so_far
                  ∙ advised.nothing _
                  ∙ ap
                      (λ (n : ℕ).
                        some
                          (record { fds = fd ∷ rest.fds; mappings = (address, n) ∷ rest.mappings }))
                      (sym advised.size_same),
            )

    size_file-Ends : Ends rest h (size_file A (opening fd 0) calls)
    unfolding size_file
    size_file-Ends = go A.stat_size refl
      where
        go :
            (s : Option ℤ)
            → A.stat_size ≡ s
            → Ends rest h
                (elim s as (λ _. MMapFile × List SystemCall × Result MMapError (Unit {0})) [
                  | none ↦ give_up (opening fd 0) calls fstat_failed
                  | some (negsuc n) ↦ give_up (opening fd 0) calls empty_file
                  | some (pos n) ↦
                      if n == 0
                      then give_up (opening fd 0) calls empty_file
                      else map_file A (opening fd 0) calls n
                ])
        go none e = give_up-Ends 0 fstat_failed
        go (some (negsuc n)) e = give_up-Ends 0 empty_file
        go (some (pos n)) e =
            if-cases (Ends rest h) (n == 0) _ _ (λ _. give_up-Ends 0 empty_file)
              (λ _. map_file-Ends n e)

  -- Whatever the system answers and whatever the file held before, if each call that `open` makes
  -- is carried out in order, none gives back what is not held, what the file held is given back,
  -- and at the end either `open` threw, the object is empty and nothing else is held than beside
  -- it, or it succeeded, and the object has the descriptor and the mapping, of the size that
  -- `fstat` gave, that are held beside the rest.
  pub open_file-Opened :
      (f : MMapFile) (rest : Held)
      → Opened rest
          (replay (open_file A f).1 (with_file f rest))
          ((open_file A f).0, (open_file A f).2)
  unfolding open_file
  open_file-Opened f rest = go A.opened refl
    where
      go :
          (o : Option ℕ)
          → A.opened ≡ o
          → Ends rest
              (with_file f rest)
              (elim o as (λ _. MMapFile × List SystemCall × Result MMapError (Unit {0})) [
                | none ↦ (empty, (close f).1, err open_failed)
                | some fd ↦ size_file A (opening fd 0) ((close f).1 ++ opens fd ∷ [])
              ])
      go none e = (close-replay f rest, refl)
      go (some fd) e =
          size_file-Ends (with_file f rest) rest fd _
            (replay-append (close f).1 (opens fd ∷ []) (with_file f rest) (close-replay f rest)) e

-- Assigning from another object gives back what this one held, once, leaves the other one without
-- anything, and makes this one what the other was.
pub move_assign-replay :
    (f o : MMapFile) (rest : Held)
    → let (g, left, calls) = move_assign f o in
      (replay calls (with_file f (with_file o rest)) ≡ some (with_file g rest))
      × (with_file left rest ≡ rest)
      × (g ≡ o)
unfolding move_assign
move_assign-replay f o rest = (close-replay f (with_file o rest), refl, refl)
