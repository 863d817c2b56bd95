-- ===== src/Recommendations/Ranking.antt =====
-- backend/app/modules/recommendations: what is shown of the recipes, and what a recipe lacks.
use fridgefriend.Prelude.{
  ℕ, String, ◌≡◌, refl, sym, ap, ◌∙◌, inl, inr, Bool, true, false, not, ◌&&◌, List, [], ◌∷◌, ◌++◌,
  map, append_assoc, append-nil, if◌then◌else◌, Bool-cases, keep,
}
use fridgefriend.Scalar.{Float}
use fridgefriend.Text.{lower}
use fridgefriend.Inventory.Model.{InventoryItem}
use fridgefriend.Recommendations.Model.{FixtureRecipe, FixtureIngredient, contains}
use fridgefriend.Recommendations.Scorer.{
  Tally, score_breakdown, tally_ingredients, tally_ingredient, tally_available,
  available_substitutions, active_of, covered_by, names_of,
}

abbrev is_empty_list : List String → Bool
is_empty_list [] = true
is_empty_list (x ∷ xs) = false

-- An ingredient whose name is not covered and for which no substitute is in stock.
unfoldable pub is_missing : {W : Type 0} → List String → List String → FixtureIngredient W → Bool
is_missing covered names i =
    not (contains (lower i.canonical_name) covered)
    && is_empty_list (available_substitutions names (lower i.canonical_name))

module _ {W : Type 0} ⦃f : Float W⦄ where
  tally_available-missing :
      (available : List String) (i : FixtureIngredient W) (t : Tally W)
      → (tally_available available i t).missing_items ≡ (
          if is_empty_list available
          then t.missing_items ++ i.canonical_name ∷ []
          else t.missing_items)
  unfolding tally_available
  tally_available-missing [] i t = refl
  tally_available-missing (s ∷ ss) i t = refl

  tally_ingredient-missing :
      (covered names : List String) (i : FixtureIngredient W) (t : Tally W)
      → (tally_ingredient covered names i t).missing_items ≡ (
          if is_missing covered names i
          then t.missing_items ++ i.canonical_name ∷ []
          else t.missing_items)
  unfolding tally_ingredient is_missing
  tally_ingredient-missing covered names i t =
      elim (Bool-cases (contains (lower i.canonical_name) covered)) [
        | inl e ↦ rw e refl
        | inr e ↦
            rw e
              (tally_available-missing (available_substitutions names (lower i.canonical_name)) i t)
      ]

  tally_ingredients-missing :
      (covered names : List String) (is : List (FixtureIngredient W)) (t : Tally W)
      → (tally_ingredients covered names is t).missing_items
        ≡ t.missing_items ++ map (λ i. i.canonical_name) (keep (is_missing covered names) is)
  unfolding tally_ingredients keep
  tally_ingredients-missing covered names [] t = sym (append-nil t.missing_items)
  tally_ingredients-missing covered names (i ∷ is) t =
      let t' = tally_ingredient covered names i t in
      let rest = map (λ j. j.canonical_name) (keep (is_missing covered names) is) in
      let step = ap (λ xs. xs ++ rest) (tally_ingredient-missing covered names i t) in
      tally_ingredients-missing covered names is t'
      ∙ step
      ∙ elim (Bool-cases (is_missing covered names i)) [
        | inl e ↦ rw e (append_assoc t.missing_items (i.canonical_name ∷ []) rest)
        | inr e ↦ rw e refl
      ]

  -- The missing items of a recipe are the names, in order, of exactly those of its ingredients whose
  -- name is not covered by the stock and for which no substitute is in stock.
  pub score_breakdown-missing :
      {J : Type 0} (now : ℕ) (recipe : FixtureRecipe W J) (items : List (InventoryItem W))
      (preferences : List String)
      → (score_breakdown now recipe items preferences).missing_items
        ≡ map
            (λ i. i.canonical_name)
            (keep
              (is_missing (covered_by items recipe) (names_of (active_of items)))
              recipe.ingredients)
  unfolding score_breakdown
  score_breakdown-missing now recipe items preferences =
      tally_ingredients-missing _ _ recipe.ingredients _
