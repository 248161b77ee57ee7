-- ===== src/MMapFile/Replay.antt =====
-- What the process holds after some system calls.
use mem_vanta.Prelude.{
  ℕ, ◌≡◌, refl, ap, Bool, false, ◌&&◌, ◌||◌, Option, none, some, List, [], ◌∷◌, ◌++◌, ◌==◌,
  if◌then◌else◌, if-cases, erase, elem, ==_refl,
}
use mathlib.Core.Option.{some-injective}
use mem_vanta.MMapFile.{MMapFile, SystemCall, opens, closes, maps, unmaps, advises, close}

-- What the process holds: open descriptors, and mappings with their sizes.
pub record Held : Type 0 where
  pub fds : List ℕ
  pub mappings : List (ℕ × ℕ)

abbrev same_mapping : ℕ → ℕ → ℕ × ℕ → Bool
same_mapping address size m = (address == m.0) && (size == m.1)

abbrev holds_mapping : ℕ → ℕ → List (ℕ × ℕ) → Bool
holds_mapping address size [] = false
holds_mapping address size (m ∷ ms) = same_mapping address size m || holds_mapping address size ms

abbrev drop_mapping : ℕ → ℕ → List (ℕ × ℕ) → List (ℕ × ℕ)
drop_mapping address size [] = []
drop_mapping address size (m ∷ ms) =
    if same_mapping address size m then ms else m ∷ drop_mapping address size ms

-- What is held after some calls, or `none` if one gives back what is not held.
abbrev pub replay : List SystemCall → Held → Option Held
replay [] h = some h
replay (opens fd ∷ cs) h = replay cs (record h { fds = fd ∷ h.fds })
replay (closes fd ∷ cs) h =
    let rest = replay cs (record h { fds = erase fd h.fds }) in if elem fd h.fds then rest else none
replay (maps address size ∷ cs) h = replay cs (record h { mappings = (address, size) ∷ h.mappings })
replay (unmaps address size ∷ cs) h =
    let rest = replay cs (record h { mappings = drop_mapping address size h.mappings }) in
    if holds_mapping address size h.mappings then rest else none
replay (advises first len advice ∷ cs) h = replay cs h

abbrev held_fd : Option ℕ → List ℕ → List ℕ
held_fd none fds = fds
held_fd (some fd) fds = fd ∷ fds

abbrev held_mapping : Option ℕ → ℕ → List (ℕ × ℕ) → List (ℕ × ℕ)
held_mapping none size ms = ms
held_mapping (some address) size ms = (address, size) ∷ ms

-- What a file holds, beside the rest of the process.
abbrev pub with_file : MMapFile → Held → Held
with_file f rest = record {
  fds = held_fd f.fd rest.fds;
  mappings = held_mapping f.data_at f.size rest.mappings;
}

pub replay-append :
    (xs ys : List SystemCall) (h : Held) {k : Held}
    → replay xs h ≡ some k
    → replay (xs ++ ys) h ≡ replay ys k
replay-append [] ys h e = ap (replay ys) (some-injective _ _ e)
replay-append (opens fd ∷ xs) ys h e = replay-append xs ys _ e
replay-append (maps a n ∷ xs) ys h e = replay-append xs ys _ e
replay-append (advises a n b ∷ xs) ys h e = replay-append xs ys h e
replay-append (closes fd ∷ xs) ys h {k} e =
    if-cases P (elem fd h.fds) _ _ (λ there e'. rw there (replay-append xs ys _ e')) (λ _ e'. cc) e
  where
    P : Option Held → Type 0
    P r = r ≡ some k → replay ((closes fd ∷ xs) ++ ys) h ≡ replay ys k
replay-append (unmaps a n ∷ xs) ys h {k} e =
    if-cases P (holds_mapping a n h.mappings) _ _ (λ there e'. rw there (replay-append xs ys _ e'))
      (λ _ e'. cc) e
  where
    P : Option Held → Type 0
    P r = r ≡ some k → replay ((unmaps a n ∷ xs) ++ ys) h ≡ replay ys k

pub close-replay : (f : MMapFile) (rest : Held) → replay (close f).1 (with_file f rest) ≡ some rest
unfolding close
close-replay f rest = go f.fd f.data_at
  where
    go :
        (fd data_at : Option ℕ)
        → replay
            (close (record f { fd = fd; data_at = data_at })).1
            (with_file (record f { fd = fd; data_at = data_at }) rest)
          ≡ some rest
    go none none = refl
    go (some fd) none = rw (==_refl fd) refl
    go none (some a) = rw (==_refl a, ==_refl f.size) refl
    go (some fd) (some a) = rw (==_refl a, ==_refl f.size, ==_refl fd) refl
