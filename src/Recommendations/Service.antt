-- ===== src/Recommendations/Service.antt =====
-- backend/app/modules/recommendations/service.py. A recipe source is a function of the names and the
-- count, whose `none` is an exception; it gives recipes of the schema.
use fridgefriend.Prelude.{
  ℕ, take, sort_by, String, Bool, true, false, not, ◌&&◌, Option, none, some, List, [], ◌∷◌, map,
  str_eq, leb, ◌==◌, if◌then◌else◌, opt_eq, keep, find, exists,
}
use fridgefriend.Scalar.{Float, nought, ◌≼◌}
use fridgefriend.Text.{lower, is_empty, str_le}
use fridgefriend.Inventory.Model.{InventoryItem, Db, is_gone}
use fridgefriend.Recommendations.Model.{
  FixtureRecipe, Recipe, RecommendationRequest, RecipeRecommendation, RecommendationSession,
  contains, distinct,
}
use fridgefriend.Recommendations.Scorer.{ScoreBreakdown, score_breakdown, ingredient_names}

-- What `get_recipe_detail` comes to: `None`, a `ValidationError`, or a recipe.
pub data Detail (W J : Type 0) : Type 0 where
  unknown_recipe validation_error : Detail W J
  detail : RecipeRecommendation W J → Detail W J

abbrev pub list_or_empty : {A : Type 0} → Option (List A) → List A
list_or_empty none = []
list_or_empty (some xs) = xs

-- The recipe source, the recipes of `MockRecipeSource`, and the list that replaces both.
pub record Sources (W J : Type 0) : Type 0 where
  pub search_recipes : List String → ℕ → Option (List (FixtureRecipe W J))
  pub mock_recipes : List (FixtureRecipe W J)
  pub overrides : Option (List (FixtureRecipe W J))

abbrev pub none_over : Option ℕ → ℕ → Bool
none_over none n = true
none_over (some m) n = leb n m

module _ {W : Type 0} where
  -- `list_inventory_items`
  unfoldable pub list_inventory_items : ℕ → Option ℕ → Db W → List (InventoryItem W)
  list_inventory_items user_id household_id db = elim household_id [
    | some h ↦ keep (λ item. opt_eq item.household_id h && not (is_gone item)) db.items
    | none ↦ keep (λ item. (item.user_id == user_id) && not (is_gone item)) db.items
  ]

  unfoldable pub searched_names : List (InventoryItem W) → List String
  searched_names items = sort_by str_le (
      distinct (
        map (λ item. lower item.canonical_name)
          (keep (λ item. not (is_empty item.canonical_name)) items)))

module _ {W J : Type 0} where
  -- `_build_recipe_recommendation` of a recipe with a breakdown.
  unfoldable pub build_recipe_recommendation :
      FixtureRecipe W J → ScoreBreakdown W → RecipeRecommendation W J
  build_recipe_recommendation recipe b = record {
    id = recipe.id;
    title = recipe.title;
    use_soon_score = b.use_soon_score;
    coverage_pct = b.coverage_pct;
    missing_items = b.missing_items;
    substitutions = b.substitutions;
    prep_minutes = recipe.prep_minutes;
    image_url = recipe.image_url;
    source_url = recipe.source_url;
    summary = recipe.summary;
    instructions = recipe.instructions;
    cuisines = recipe.cuisines;
    servings = recipe.servings;
    nutrition = recipe.nutrition;
    dietary_tags = recipe.dietary_tags;
    ingredients = recipe.ingredients;
    score = b.score;
  }

  -- The three tests of the loop.
  unfoldable pub has_tags : List String → FixtureRecipe W J → Bool
  has_tags normalized_tags recipe =
      not (exists (λ tag. not (contains tag (map lower recipe.dietary_tags))) normalized_tags)

  unfoldable pub has_none_of : List String → FixtureRecipe W J → Bool
  has_none_of excluded_ingredients recipe =
      not (exists (λ name. contains name excluded_ingredients) (ingredient_names recipe))

  unfoldable pub is_wanted : RecommendationRequest → FixtureRecipe W J → Bool
  is_wanted request recipe =
      has_tags (map lower request.dietary_tags) recipe
      && none_over request.max_prep_minutes recipe.prep_minutes
      && has_none_of (map lower request.excluded_ingredients) recipe

  -- `_load_recipes`, with the source that is reported.
  unfoldable pub load_recipes :
      Sources W J → List (InventoryItem W) → List (FixtureRecipe W J) × String
  load_recipes sources items = elim sources.overrides [
    | some recipes ↦ (recipes, "live")
    | none ↦ elim (sources.search_recipes (searched_names items) 10) [
      | some recipes ↦ (recipes, "live")
      | none ↦ (take 10 sources.mock_recipes, "mock")
    ]
  ]

  abbrev pub recorded :
      Option ℕ
      → RecommendationRequest
      → List (RecipeRecommendation W J)
      → Bool
      → List RecommendationSession
      → List RecommendationSession
  recorded none request shown commits sessions = sessions
  recorded (some h) request shown false sessions = sessions
  recorded (some h) request shown true sessions =
      record { household_id = h; request_params = request; recipes_shown = map (λ r. r.id) shown }
      ∷ sessions

module _ {W : Type 0} ⦃f : Float W⦄ where
  -- The breakdown that a user without a household is shown.
  unfoldable pub no_breakdown : ScoreBreakdown W
  no_breakdown = record {
    coverage_pct = nought;
    use_soon_score = nought;
    prep_score = nought;
    dietary_fit_score = nought;
    substitution_score = nought;
    score = nought;
    missing_items = [];
    substitutions = [];
  }

module _ {W J : Type 0} ⦃f : Float W⦄ where
  -- `recommendations.sort(key=..., reverse=True)` keeps the order of equal scores.
  abbrev pub scores_higher : RecipeRecommendation W J → RecipeRecommendation W J → Bool
  scores_higher a b = b.score ≼ a.score

  unfoldable pub recommend :
      ℕ
      → RecommendationRequest
      → List (InventoryItem W)
      → FixtureRecipe W J
      → RecipeRecommendation W J
  recommend now request items recipe =
      build_recipe_recommendation recipe (score_breakdown now recipe items request.dietary_tags)

  -- The loop over the recipes.
  unfoldable pub recommend_wanted :
      ℕ
      → RecommendationRequest
      → List (InventoryItem W)
      → List (FixtureRecipe W J)
      → List (RecipeRecommendation W J)
  recommend_wanted now request items [] = []
  recommend_wanted now request items (recipe ∷ recipes) =
      let rest = recommend_wanted now request items recipes in
      if is_wanted request recipe then recommend now request items recipe ∷ rest else rest

  unfoldable pub top_recommendations :
      ℕ
      → RecommendationRequest
      → List (InventoryItem W)
      → List (FixtureRecipe W J)
      → List (RecipeRecommendation W J)
  top_recommendations now request items recipes =
      take 10 (sort_by scores_higher (recommend_wanted now request items recipes))

  -- `get_recommendations_with_source`; `commits` says whether the session of the database takes the
  -- record.
  unfoldable pub get_recommendations_with_source :
      Sources W J
      → ℕ
      → ℕ
      → RecommendationRequest
      → Option ℕ
      → Bool
      → Db W × List RecommendationSession
      → (List (RecipeRecommendation W J) × String) × List RecommendationSession
  get_recommendations_with_source sources now user_id request household_id commits (db, sessions) =
      let items = list_inventory_items user_id household_id db in
      let (recipes, source) = load_recipes sources items in
      let shown = top_recommendations now request items recipes in
      ((shown, source), recorded household_id request shown commits sessions)

  unfoldable pub get_recommendations :
      Sources W J
      → ℕ
      → ℕ
      → RecommendationRequest
      → Option ℕ
      → Bool
      → Db W × List RecommendationSession
      → List (RecipeRecommendation W J) × List RecommendationSession
  get_recommendations sources now user_id request household_id commits s =
      let ((shown, source), sessions) =
        get_recommendations_with_source sources now user_id request household_id commits s in
      (shown, sessions)

  -- `recipe.instructions or []`, `recipe.cuisines or []`
  unfoldable pub or_empty : Recipe W J → FixtureRecipe W J
  or_empty recipe = record {
    id = recipe.id;
    title = recipe.title;
    prep_minutes = recipe.prep_minutes;
    image_url = recipe.image_url;
    source_url = recipe.source_url;
    summary = recipe.summary;
    instructions = list_or_empty recipe.instructions;
    cuisines = list_or_empty recipe.cuisines;
    servings = recipe.servings;
    nutrition = recipe.nutrition;
    dietary_tags = recipe.dietary_tags;
    ingredients = recipe.ingredients;
  }

  -- `FixtureRecipe.model_validate`: a null is no list.
  unfoldable pub validated : Recipe W J → Option (FixtureRecipe W J)
  validated recipe = elim recipe.instructions [
    | none ↦ none
    | some _ ↦ elim recipe.cuisines [ none ↦ none | some _ ↦ some (or_empty recipe) ]
  ]

  unfoldable pub detail_of :
      ℕ → Recipe W J → Option (FixtureRecipe W J) → List (InventoryItem W) → Detail W J
  detail_of now recipe none items = validation_error
  detail_of now recipe (some fixture) items =
      detail (build_recipe_recommendation (or_empty recipe) (score_breakdown now fixture items []))

  unfoldable pub get_recipe_detail :
      List (Recipe W J) → ℕ → String → ℕ → Option ℕ → Db W → Detail W J
  get_recipe_detail recipes now recipe_id user_id household_id db =
      elim (find (λ r. str_eq r.id recipe_id) recipes) [
        | none ↦ unknown_recipe
        | some recipe ↦ elim household_id [
          | none ↦ detail (build_recipe_recommendation (or_empty recipe) no_breakdown)
          | some h ↦
              detail_of now recipe (validated recipe) (list_inventory_items user_id (some h) db)
        ]
      ]
