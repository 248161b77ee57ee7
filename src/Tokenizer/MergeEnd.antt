-- ===== src/Tokenizer/MergeEnd.antt =====
-- The merges of a piece, against a description of which neighbours are joined.
use mem_vanta.Prelude.{
  ℕ, zero, suc, ◌+◌, ◌≤◌, ◌<◌, ◌≡◌, refl, sym, ap, ◌∙◌, Option, none, some, List, [], ◌∷◌, ◌++◌,
  arith, ltb, ltb→lt, ltb→le, length, Option-cases, ◌⊎◌, inl, inr, u64_max, if-cases,
}
use mathlib.Core.Option.{some-injective}
use mem_vanta.Gguf.Types.{Bytes}
use mem_vanta.Gguf.Tensors.{lookup}
use mem_vanta.Tokenizer.Bpe.{Index, rank_of, best_pair, merge_at, merge_loop}

module _ (ranks : Index) where
  -- The table has no rank below `bound` for two symbols side by side.
  unfoldable pub RankedFrom : ℕ → Bytes → Bytes → Type 0
  RankedFrom bound x y = (r : ℕ) → lookup (x ++ 0x1f ∷ y) ranks ≡ some r → bound ≤ r

  unfoldable pub AllFrom : ℕ → List Bytes → Type 0
  unfolding RankedFrom
  AllFrom bound [] = Unit {0}
  AllFrom bound (x ∷ []) = Unit {0}
  AllFrom bound (x ∷ y ∷ zs) = RankedFrom bound x y × AllFrom bound (y ∷ zs)

  -- The first of the pairs of the least rank, which is `r`, becomes one symbol.
  pub data Joins (r : ℕ) : List Bytes → List Bytes → Type 0 where
    here :
        (x y : Bytes) (zs : List Bytes)
        → lookup (x ++ 0x1f ∷ y) ranks ≡ some r
        → AllFrom r (y ∷ zs)
        → Joins r (x ∷ y ∷ zs) ((x ++ y) ∷ zs)
    there :
        (x y : Bytes) (zs ws : List Bytes)
        → RankedFrom (suc r) x y
        → Joins r (y ∷ zs) ws
        → Joins r (x ∷ y ∷ zs) (x ∷ ws)

  -- Such joins of ranks below the greatest 64-bit word, until there is none left.
  pub data Merges : List Bytes → List Bytes → Type 0 where
    ends : (xs : List Bytes) → AllFrom u64_max xs → Merges xs xs
    joins :
        (r : ℕ) (xs ys zs : List Bytes) → r < u64_max → Joins r xs ys → Merges ys zs → Merges xs zs

  -- What the search from the index `i` on finds, when the best rank before was `rank`.
  abbrev Found : ℕ → ℕ → Option ℕ → List Bytes → Option ℕ → Type 0
  Found i rank found xs o =
      ((o ≡ found) × AllFrom rank xs)
      ⊎ ((k : ℕ) × (r : ℕ) × (o ≡ some (i + k)) × (r < rank) × Joins r xs (merge_at k xs))

  passed :
      (i rank : ℕ) (found : Option ℕ) (x y : Bytes) (zs : List Bytes) {o : Option ℕ}
      → RankedFrom rank x y
      → Found (suc i) rank found (y ∷ zs) o
      → Found i rank found (x ∷ y ∷ zs) o
  unfolding merge_at RankedFrom AllFrom
  passed i rank found x y zs high (inl (same, above)) = inl (same, (high, above))
  passed i rank found x y zs high (inr (k, r, at, less, joined)) = inr (
    suc k,
    r,
    at ∙ ap some (omega arith),
    less,
    Joins.there x y zs (merge_at k (y ∷ zs)) (λ q e. omega (arith, high q e, less)) joined,
  )

  taken :
      (i rank r : ℕ) (found : Option ℕ) (x y : Bytes) (zs : List Bytes) {o : Option ℕ}
      → lookup (x ++ 0x1f ∷ y) ranks ≡ some r
      → r < rank
      → Found (suc i) r (some i) (y ∷ zs) o
      → Found i rank found (x ∷ y ∷ zs) o
  unfolding merge_at RankedFrom AllFrom
  taken i rank r found x y zs e less (inl (same, above)) =
      inr (0, r, same ∙ ap some (omega arith), less, Joins.here x y zs e above)
  taken i rank r found x y zs e less (inr (k, r', at, less', joined)) = inr (
    suc k,
    r',
    at ∙ ap some (omega arith),
    omega arith,
    Joins.there x y zs (merge_at k (y ∷ zs))
        (λ q e'. let same = some-injective _ _ (sym e ∙ e') in omega (arith, same)) joined,
  )

  best_pair-Found :
      (i rank : ℕ) (found : Option ℕ) (xs : List Bytes)
      → Found i rank found xs (best_pair ranks i rank found xs)
  unfolding best_pair rank_of
  best_pair-Found i rank found [] = inl (refl, unfold AllFrom in tt)
  best_pair-Found i rank found (x ∷ []) = inl (refl, unfold AllFrom in tt)
  best_pair-Found i rank found (x ∷ y ∷ zs) = elim (Option-cases (lookup (x ++ 0x1f ∷ y) ranks)) [
    | inl e ↦
        rw (best_pair, rank_of, e)
          (passed i rank found x y zs (unfold RankedFrom in λ q e'. absurd cc)
            (best_pair-Found (suc i) rank found (y ∷ zs)))
    | inr (r, e) ↦
        rw (best_pair, rank_of, e)
          (if-cases (Found i rank found (x ∷ y ∷ zs)) (ltb r rank)
            (best_pair ranks (suc i) r (some i) (y ∷ zs))
            (best_pair ranks (suc i) rank found (y ∷ zs))
            (λ h.
              taken i rank r found x y zs e (ltb→lt r rank h)
                (best_pair-Found (suc i) r (some i) (y ∷ zs)))
            λ h.
              passed i rank found x y zs
                (unfold RankedFrom in
                  λ q e'.
                    let same = some-injective _ _ (sym e ∙ e') in
                    omega (arith, same, ltb→le r rank h))
                (best_pair-Found (suc i) rank found (y ∷ zs)))
  ]

  length-Joins : {r : ℕ} {xs ys : List Bytes} → Joins r xs ys → suc (length ys) ≡ length xs
  length-Joins (Joins.here x y zs e above) = refl
  length-Joins (Joins.there x y zs ws high joined) = ap suc (length-Joins joined)

  -- With at least as much fuel as there are symbols, the loop over the merges joins two neighbours
  -- at a time, always the first pair of those with the least rank in the table, and ends when the
  -- table has no rank below the greatest 64-bit word for any two neighbours that are left.
  pub merge_loop-Merges :
      (fuel : ℕ) (syms : List Bytes) → length syms ≤ fuel → Merges syms (merge_loop ranks fuel syms)
  unfolding merge_loop
  merge_loop-Merges zero [] h = Merges.ends [] (unfold AllFrom in tt)
  merge_loop-Merges zero (x ∷ syms) h = absurd (omega arith)
  merge_loop-Merges (suc fuel) syms h =
      go (merge_loop-Merges fuel) (best_pair ranks 0 u64_max none syms)
        (best_pair-Found 0 u64_max none syms)
    where
      go :
          ((ys : List Bytes) → length ys ≤ fuel → Merges ys (merge_loop ranks fuel ys))
          → (o : Option ℕ) → Found 0 u64_max none syms o
          → Merges syms (elim o [ none ↦ syms | some i ↦ merge_loop ranks fuel (merge_at i syms) ])
      go others none (inl (e, above)) = Merges.ends syms above
      go others none (inr (k, r, at, less, joined)) = absurd cc
      go others (some i) (inl (e, above)) = absurd cc
      go others (some i) (inr (k, r, at, less, joined)) =
          let same : i ≡ k = some-injective _ _ at ∙ omega arith in
          rw same (
            Merges.joins r syms (merge_at k syms) _ less joined
              (others (merge_at k syms) (omega (arith, length-Joins joined))))
