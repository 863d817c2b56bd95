-- ===== src/Recommendations/Scorer.antt =====
-- backend/app/modules/recommendations/scorer.py. A set is the list of its elements.
use fridgefriend.Prelude.{
  ℕ, String, Bool, not, ◌&&◌, ◌||◌, List, [], ◌∷◌, ◌++◌, map, if◌then◌else◌, length, keep,
}
use Prim.Native.String.{◌++◌ as append}
use fridgefriend.Scalar.{Float, nought, fmax, fmin, ◌⊕◌, ◌⊖◌, ◌⊗◌, ◌⊘◌}
use fridgefriend.Text.{lower, strip, ends_with, drop_end}
use fridgefriend.Expiry.Urgency.{
  UrgencyBucket, expired, today, this_week, safe_later, get_urgency_bucket,
}
use fridgefriend.Inventory.Model.{InventoryItem, is_gone}
use fridgefriend.Recommendations.Model.{
  FixtureIngredient, FixtureRecipe, substitutes_of, contains, distinct,
}

-- `_normalize_ingredient`
unfoldable pub normalize_ingredient : String → String
normalize_ingredient raw =
    let name = strip (lower raw) in
    if ends_with name "ies"
    then append (drop_end 3 name) "y"
    else if ends_with name "ves"
    then append (drop_end 3 name) "f"
    else if ends_with name "ses" || ends_with name "ches" || ends_with name "shes"
    then drop_end 2 name
    else if ends_with name "s" && not (ends_with name "ss")
    then drop_end 1 name
    else name

pub record ScoreBreakdown (W : Type 0) : Type 0 where
  pub coverage_pct : W
  pub use_soon_score : W
  pub prep_score : W
  pub dietary_fit_score : W
  pub substitution_score : W
  pub score : W
  pub missing_items : List String
  pub substitutions : List String

-- What the loop over the ingredients gathers.
pub record Tally (W : Type 0) : Type 0 where
  pub substitutions : List String
  pub missing_items : List String
  pub substitution_score : W

-- `ri in inventory_names or _normalize_ingredient(ri) in inventory_normalized`
unfoldable pub is_in_stock : List String → String → Bool
is_in_stock inventory_names name =
    contains name inventory_names
    || contains (normalize_ingredient name) (map normalize_ingredient inventory_names)

-- The same test of a substitute: `substitution.lower()` is looked up among the names.
unfoldable pub is_substitute_in_stock : List String → String → Bool
is_substitute_in_stock inventory_names substitution =
    contains (lower substitution) inventory_names
    || contains (normalize_ingredient substitution) (map normalize_ingredient inventory_names)

unfoldable pub available_substitutions : List String → String → List String
available_substitutions inventory_names ingredient_name =
    keep (is_substitute_in_stock inventory_names) (substitutes_of ingredient_name)

module _ {W : Type 0} where
  -- `{item.canonical_name.lower() for item in items}`
  unfoldable pub names_of : List (InventoryItem W) → List String
  names_of items = map (λ item. lower item.canonical_name) items

  unfoldable pub ingredient_names : {J : Type 0} → FixtureRecipe W J → List String
  ingredient_names recipe = map (λ i. lower i.canonical_name) recipe.ingredients

  -- The test of `_urgency_bonus` on an item.
  unfoldable pub is_used_by : List String → InventoryItem W → Bool
  is_used_by covered item =
      contains (lower item.canonical_name) covered
      || contains (normalize_ingredient (lower item.canonical_name))
          (map normalize_ingredient covered)

module _ {W : Type 0} ⦃f : Float W⦄ where
  -- The bonus after an item of the bucket.
  unfoldable pub add_bonus : UrgencyBucket → W → W
  add_bonus expired bonus = bonus ⊕ f.lit 3 1
  add_bonus today bonus = bonus ⊕ f.lit 3 1
  add_bonus this_week bonus = bonus ⊕ f.lit 15 2
  add_bonus safe_later bonus = bonus

  -- The loop of `_urgency_bonus`.
  unfoldable pub sum_bonus : ℕ → List String → W → List (InventoryItem W) → W
  sum_bonus now covered bonus [] = bonus
  sum_bonus now covered bonus (item ∷ items) =
      let next =
        if is_used_by covered item
        then add_bonus (get_urgency_bucket item.estimated_expiry_date now) bonus
        else bonus in
      sum_bonus now covered next items

  unfoldable pub urgency_bonus : ℕ → List (InventoryItem W) → List String → W
  urgency_bonus now items covered = fmin (sum_bonus now covered nought items) (f.lit 4 1)

  -- The bonus for normalised preferences, on the tags of the recipe.
  unfoldable pub preference_bonus : List String → List String → W
  preference_bonus [] recipe_tags = nought
  preference_bonus (tag ∷ tags) recipe_tags =
      let matched = keep (λ tag'. contains tag' recipe_tags) (tag ∷ tags) in
      fmin (f.lit 5 2 ⊗ f.lit (length matched) 0) (f.lit 2 1)

  unfoldable pub dietary_fit_bonus : {J : Type 0} → FixtureRecipe W J → List String → W
  dietary_fit_bonus recipe dietary_preferences =
      preference_bonus (distinct (map lower dietary_preferences)) (map lower recipe.dietary_tags)

  -- What the loop does with an ingredient that is not covered, given the substitutes in stock.
  unfoldable pub tally_available : List String → FixtureIngredient W → Tally W → Tally W
  tally_available [] ingredient t = record t {
    missing_items = t.missing_items ++ ingredient.canonical_name ∷ [];
  }
  tally_available (s ∷ ss) ingredient t = record t {
    substitutions = t.substitutions ++ s ∷ ss;
    substitution_score = t.substitution_score ⊕ f.lit 5 2 ⊗ f.lit (length (s ∷ ss)) 0;
  }

  unfoldable pub tally_ingredient :
      List String → List String → FixtureIngredient W → Tally W → Tally W
  tally_ingredient covered inventory_names ingredient t =
      let ingredient_name = lower ingredient.canonical_name in
      if contains ingredient_name covered
      then t
      else tally_available (available_substitutions inventory_names ingredient_name) ingredient t

  unfoldable pub tally_ingredients :
      List String → List String → List (FixtureIngredient W) → Tally W → Tally W
  tally_ingredients covered inventory_names [] t = t
  tally_ingredients covered inventory_names (i ∷ is) t =
      tally_ingredients covered inventory_names is (tally_ingredient covered inventory_names i t)

  -- `len(covered) / len(names) if names else 0.0`
  unfoldable pub coverage : List String → List String → W
  coverage covered [] = nought
  coverage covered (name ∷ names) = f.lit (length covered) 0 ⊘ f.lit (length (name ∷ names)) 0

  abbrev pub active_of : List (InventoryItem W) → List (InventoryItem W)
  active_of items = keep (λ item. not (is_gone item)) items

  -- The names of the recipe's ingredients that are in stock.
  unfoldable pub covered_by :
      {J : Type 0} → List (InventoryItem W) → FixtureRecipe W J → List String
  covered_by items recipe =
      keep (is_in_stock (names_of (active_of items))) (distinct (ingredient_names recipe))

  unfoldable pub prep_bonus : ℕ → W
  prep_bonus prep_minutes = fmax nought (f.lit 1 1 ⊖ f.lit prep_minutes 0 ⊘ f.lit 1000 0)

  unfoldable pub score_breakdown :
      {J : Type 0} → ℕ → FixtureRecipe W J → List (InventoryItem W) → List String → ScoreBreakdown W
  score_breakdown now recipe inventory_items dietary_preferences =
      let active_inventory = active_of inventory_items in
      let covered = covered_by inventory_items recipe in
      let coverage_pct = coverage covered (distinct (ingredient_names recipe)) in
      let use_soon_score = urgency_bonus now active_inventory covered in
      let prep_score = prep_bonus recipe.prep_minutes in
      let nothing : Tally W = record {
        substitutions = [];
        missing_items = [];
        substitution_score = nought;
      } in
      let t = tally_ingredients covered (names_of active_inventory) recipe.ingredients nothing in
      let dietary_fit_score = dietary_fit_bonus recipe dietary_preferences in
      let substitution_score = fmin t.substitution_score (f.lit 15 2) in
      record {
        coverage_pct = coverage_pct;
        use_soon_score = use_soon_score;
        prep_score = prep_score;
        dietary_fit_score = dietary_fit_score;
        substitution_score = substitution_score;
        score =
            coverage_pct ⊗ f.lit 5 1
            ⊕ use_soon_score
            ⊕ prep_score
            ⊕ dietary_fit_score
            ⊕ substitution_score;
        missing_items = t.missing_items;
        substitutions = distinct t.substitutions;
      }

  unfoldable pub score_of_recipe : {J : Type 0} → ℕ → FixtureRecipe W J → List (InventoryItem W) → W
  score_of_recipe now recipe inventory_items = (score_breakdown now recipe inventory_items []).score
