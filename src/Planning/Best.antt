-- ===== src/Planning/Best.antt =====
-- backend/app/modules/planning/planner.py: the recipe that is picked is the best by its score.
use fridgefriend.Prelude.{
  ℕ, some-inj, sort_by-first, All, ◌≡◌, ap, ◌⊎◌, true, some, List, [], ◌∷◌, arith,
}
use fridgefriend.Scalar.{Float, IsOrdered}
use fridgefriend.Planning.Model.{NormalizedRecipe}
use fridgefriend.Planning.Scoring.{
  Remaining, pick_best_recipe, first_recipe, Score, score_recipe, score_ge, numbers_ge,
}

module _ {W : Type 0} ⦃f : Float W⦄ where
  numbers_ge_trans :
      (a b c : Score W) → numbers_ge a b ≡ true → numbers_ge b c ≡ true → numbers_ge a c ≡ true
  unfolding numbers_ge
  numbers_ge_trans a b c h k = ground arith

  score_ge_total : IsOrdered W → (a b : Score W) → (score_ge a b ≡ true) ⊎ (score_ge b a ≡ true)
  unfolding score_ge numbers_ge
  score_ge_total o a b = ground (arith, o.le_total a.urgent b.urgent)

  score_ge_trans :
      IsOrdered W
      → (a b c : Score W) → score_ge a b ≡ true
      → score_ge b c ≡ true
      → score_ge a c ≡ true
  unfolding score_ge
  score_ge_trans o a b c h k = ground (
    arith,
    o.le_trans a.urgent b.urgent c.urgent,
    o.le_trans c.urgent b.urgent a.urgent,
    o.le_trans b.urgent c.urgent a.urgent,
    o.le_trans c.urgent a.urgent b.urgent,
    o.le_trans a.urgent c.urgent b.urgent,
    o.le_trans b.urgent a.urgent c.urgent,
    o.le_total a.urgent b.urgent,
    o.le_total b.urgent c.urgent,
    numbers_ge_trans a b c,
  )

  first_some :
      (xs : List (NormalizedRecipe W)) (r : NormalizedRecipe W)
      → first_recipe xs ≡ some r
      → (rest : List (NormalizedRecipe W)) × (xs ≡ r ∷ rest)
  unfolding first_recipe
  first_some [] r e = cc
  first_some (x ∷ xs) r e = (xs, ap (λ y. y ∷ xs) (some-inj r e))

  -- If the floats are ordered, the recipe that is picked has a score that is at least that of every candidate.
  pub pick_best_recipe-best :
      IsOrdered W
      → (recipes : List (NormalizedRecipe W)) (remaining : Remaining W) (used : List ℕ) (now : ℕ)
        (factor : W) (r : NormalizedRecipe W)
      → pick_best_recipe recipes remaining used now factor ≡ some r
      → All
          (λ s.
            score_ge
              (score_recipe r remaining used now factor)
              (score_recipe s remaining used now factor)
            ≡ true)
          recipes
  unfolding pick_best_recipe
  pick_best_recipe-best o recipes remaining used now factor r e =
      let score : NormalizedRecipe W → Score W = λ s. score_recipe s remaining used now factor in
      let (rest, sorted) = first_some _ r e in
      sort_by-first _ (λ a b. score_ge_total o (score a) (score b))
        (λ a b c. score_ge_trans o (score a) (score b) (score c)) recipes r rest sorted
