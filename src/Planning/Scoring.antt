-- ===== src/Planning/Scoring.antt =====
-- backend/app/modules/planning/planner.py: `_filter_recipes`, `_score_recipe` and `_pick_best_recipe`.
use fridgefriend.Prelude.{
  ℕ, sort_by, ◌+◌, ◌-◌, String, Bool, true, false, not, ◌&&◌, Option, none, some, List, [], ◌∷◌,
  map, str_eq, ltb, leb, ◌==◌, if◌then◌else◌, keep, exists,
}
use fridgefriend.Text.{lower}
use fridgefriend.Units.{convert_to_base, lookup}
use fridgefriend.Scalar.{Float, nought, ◌⊕◌, ◌⊗◌, ◌⊘◌, ◌≼◌, ◌≺◌}
use fridgefriend.Expiry.Urgency.{
  UrgencyBucket, expired, today, this_week, safe_later, get_urgency_bucket,
}
use fridgefriend.Planning.Model.{NormalizedIngredient, NormalizedRecipe, InventorySnapshot}

-- The tuple that recipes are compared by; `prep` stands for `-prep_minutes`, so less is more.
pub record Score (W : Type 0) : Type 0 where
  pub urgent : W
  pub complete : ℕ
  pub coverage : ℕ
  pub fresh : ℕ
  pub prep : ℕ

unfoldable pub all_in : List String → List String → Bool
all_in [] tags = true
all_in (x ∷ xs) tags = exists (str_eq x) tags && all_in xs tags

module _ {W : Type 0} where
  -- The conditions of `_filter_recipes` on a recipe.
  unfoldable pub fits : List String → Option ℕ → NormalizedRecipe W → Bool
  fits dietary_tags none recipe = all_in (map lower dietary_tags) recipe.dietary_tags
  fits dietary_tags (some max_prep_minutes) recipe =
      all_in (map lower dietary_tags) recipe.dietary_tags
      && leb recipe.prep_minutes max_prep_minutes

  unfoldable pub filter_recipes :
      List (NormalizedRecipe W) → List String → Option ℕ → List (NormalizedRecipe W)
  filter_recipes recipes dietary_tags max_prep_minutes =
      keep (fits dietary_tags max_prep_minutes) recipes

abbrev pub Remaining : Type 0 → Type 0
Remaining W = List (String × InventorySnapshot W)

module _ {W : Type 0} ⦃f : Float W⦄ where
  -- The points of a bucket.
  unfoldable pub bucket_points : UrgencyBucket → W
  bucket_points expired = f.lit 5 0
  bucket_points today = f.lit 4 0
  bucket_points this_week = f.lit 2 0
  bucket_points safe_later = f.lit 1 0

  -- `max(0.0, 30.0 - days_left) / 100.0`; the difference of the two whole numbers is exact.
  abbrev pub day_points : ℕ → ℕ → W
  day_points expiry_date now = f.lit (30 + now - expiry_date) 0 ⊘ f.lit 100 0

  -- What the two loops over the ingredients ask of an entry: its unit is the one required, and some
  -- of it is left.
  abbrev pub usable : InventorySnapshot W → String → Bool
  usable inventory_item required_unit =
      str_eq inventory_item.unit required_unit && not (inventory_item.quantity ≼ nought)

  abbrev pub required : W → NormalizedIngredient W → W × String
  required servings_factor ingredient =
      convert_to_base (ingredient.quantity ⊗ servings_factor) ingredient.unit

  unfoldable pub score_entry : W × String → ℕ → Option (InventorySnapshot W) → Score W → Score W
  score_entry wanted now none score = score
  score_entry (required_quantity, required_unit) now (some entry) score =
      if usable entry required_unit
      then record score {
        urgent =
            score.urgent
            ⊕ bucket_points (get_urgency_bucket entry.expiry_date now)
            ⊕ day_points entry.expiry_date now;
        coverage = score.coverage + 1;
        complete =
            if required_quantity ≼ entry.quantity then score.complete + 1 else score.complete;
      }
      else score

  unfoldable pub score_ingredients :
      List (NormalizedIngredient W) → Remaining W → ℕ → W → Score W → Score W
  score_ingredients [] remaining now factor score = score
  score_ingredients (ingredient ∷ rest) remaining now factor score =
      score_ingredients rest remaining now factor
        (score_entry (required factor ingredient) now (lookup ingredient.name remaining) score)

  unfoldable pub score_recipe : NormalizedRecipe W → Remaining W → List ℕ → ℕ → W → Score W
  score_recipe recipe remaining used_recipe_ids now factor =
      score_ingredients recipe.ingredients remaining now factor (record {
        urgent = nought;
        complete = 0;
        coverage = 0;
        fresh = if exists (λ i. i == recipe.id) used_recipe_ids then 0 else 1;
        prep = recipe.prep_minutes;
      })

  -- The comparison of the whole numbers of two tuples: `a >= b`.
  unfoldable pub numbers_ge : Score W → Score W → Bool
  numbers_ge a b =
      if not (a.complete == b.complete)
      then ltb b.complete a.complete
      else if not (a.coverage == b.coverage)
      then ltb b.coverage a.coverage
      else if not (a.fresh == b.fresh)
      then ltb b.fresh a.fresh
      else leb a.prep b.prep

  -- `a >= b` on tuples.
  unfoldable pub score_ge : Score W → Score W → Bool
  score_ge a b =
      if b.urgent ≺ a.urgent then true else if a.urgent ≺ b.urgent then false else numbers_ge a b

  -- The first one of `sorted(..., reverse=True)`, which keeps the order of equal recipes.
  unfoldable pub first_recipe : List (NormalizedRecipe W) → Option (NormalizedRecipe W)
  first_recipe [] = none
  first_recipe (recipe ∷ recipes) = some recipe

  unfoldable pub pick_best_recipe :
      List (NormalizedRecipe W) → Remaining W → List ℕ → ℕ → W → Option (NormalizedRecipe W)
  pick_best_recipe recipes remaining used_recipe_ids now factor = first_recipe (
      sort_by
        (λ a b.
          score_ge (score_recipe a remaining used_recipe_ids now factor)
            (score_recipe b remaining used_recipe_ids now factor))
        recipes)
