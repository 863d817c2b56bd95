-- ===== src/Recommendations/Examples.antt =====
-- The theorems on recommendations at a concrete recipe and stock. A JSON object is a text.
use fridgefriend.Prelude.{ℕ, ◌^◌, String, ◌≡◌, true, none, some, [], ◌∷◌, map, arith, keep}
use fridgefriend.Scalar.{nano, nano-IsOrdered, nought, ◌≼◌}
use fridgefriend.Inventory.Examples.{pantry}
use fridgefriend.Recommendations.Model.{FixtureRecipe, Recipe, RecommendationRequest}
use fridgefriend.Recommendations.Scorer.{score_breakdown, covered_by, names_of, active_of}
use fridgefriend.Recommendations.Service.{
  Sources, is_wanted, recommend, load_recipes, list_inventory_items,
  get_recommendations_with_source,
}
use fridgefriend.Recommendations.Bounds.{HasLiterals, Within, score_breakdown-Within}
use fridgefriend.Recommendations.Ranking.{is_missing, score_breakdown-missing}
use fridgefriend.Recommendations.Top.{IsTopTen, get_recommendations-IsTopTen}

nano-HasLiterals : HasLiterals ℕ
nano-HasLiterals = record { lit_nonneg = λ n k. ground arith; div_nonneg = λ a b p q. ground arith }

abbrev pudding : FixtureRecipe ℕ String
pudding = record {
  id = "r1";
  title = "Rice pudding";
  prep_minutes = 40;
  image_url = none;
  source_url = none;
  summary = none;
  instructions = [];
  cuisines = [];
  servings = some 2;
  nutrition = none;
  dietary_tags = "vegetarian" ∷ [];
  ingredients =
      record { canonical_name = "Milk"; quantity = 10 ^ 9; unit = "l" }
      ∷ record { canonical_name = "Sugar"; quantity = 10 ^ 9; unit = "g" }
      ∷ [];
}

abbrev vegetarian : RecommendationRequest
vegetarian = record {
  servings = 2;
  dietary_tags = "Vegetarian" ∷ [];
  max_prep_minutes = some 60;
  excluded_ingredients = "nuts" ∷ [];
}

abbrev one_recipe : Sources ℕ String
one_recipe = record {
  search_recipes = λ names count. none;
  mock_recipes = pudding ∷ [];
  overrides = none;
}

score_breakdown-Within_example :
    let b = score_breakdown 105 pudding pantry.items ("vegetarian" ∷ []) in
    ((nought ≼ b.score) ≡ true)
    × ((nought ≼ b.coverage_pct) ≡ true)
    × Within b.use_soon_score (nano.lit 4 1)
    × Within b.prep_score (nano.lit 1 1)
    × Within b.dietary_fit_score (nano.lit 2 1)
    × Within b.substitution_score (nano.lit 15 2)
score_breakdown-Within_example =
    score_breakdown-Within nano-IsOrdered nano-HasLiterals 105 pudding pantry.items
      ("vegetarian" ∷ [])

score_breakdown-missing_example :
    (score_breakdown 105 pudding pantry.items []).missing_items
    ≡ map
        (λ i. i.canonical_name)
        (keep
          (is_missing (covered_by pantry.items pudding) (names_of (active_of pantry.items)))
          pudding.ingredients)
score_breakdown-missing_example = score_breakdown-missing 105 pudding pantry.items []

get_recommendations-IsTopTen_example :
    IsTopTen
      (map (recommend 105 vegetarian (list_inventory_items 1 (some 10) pantry)) (
        keep
          (is_wanted vegetarian)
          (load_recipes one_recipe (list_inventory_items 1 (some 10) pantry)).0))
      ((get_recommendations_with_source one_recipe 105 1 vegetarian (some 10) true (pantry, [])).0
        ).0
get_recommendations-IsTopTen_example =
    get_recommendations-IsTopTen nano-IsOrdered one_recipe 105 1 vegetarian (some 10) true pantry []

abbrev no_steps : Recipe ℕ String
no_steps = record {
  id = "r2";
  title = "Toast";
  prep_minutes = 5;
  image_url = none;
  source_url = none;
  summary = none;
  instructions = none;
  cuisines = none;
  servings = none;
  nutrition = none;
  dietary_tags = [];
  ingredients = [];
}
