-- ===== src/Planning/Examples.antt =====
-- The theorems on plans at concrete stock: milk and rice, and a recipe of each.
use fridgefriend.Planning.Refusal.{reserve_plan-ne-insufficient}
use fridgefriend.Expiry.Urgency.{get_urgency_bucket}
use fridgefriend.Text.{lower, normalize}
use fridgefriend.Prelude.{
  ℕ, insert_by, sort_by, All, ◌*◌, ◌^◌, ◌≡◌, refl, true, none, some, List, [], ◌∷◌, keep, exists,
  ◌≢◌,
}
use fridgefriend.Scalar.{nano, nano-IsOrdered, fmin, fmax}
use fridgefriend.Units.{convert_to_base, lookup, conversion_to_base, normalize_unit, unit_aliases}
use fridgefriend.Inventory.Examples.{milk, rice}
use fridgefriend.Planning.Model.{
  RecipeIngredient, PlanDay, PlanResult, MealPlan, NormalizedRecipe, ReservedIngredient, put,
}
use fridgefriend.Planning.Reservation
use fridgefriend.Planning.Reservation.{
  missing_day, progressed, Progress, done, insufficient_reservation, allocate_quantity,
  reserve_plan, Outcome, reserve_days, reserve_ingredient, refuses, day_by_key, candidates_of,
  allocate, reserved_quantities_by_item, sum_reserved,
}
use fridgefriend.Planning.Allocation.{IsShare, allocate_quantity-IsShare}
use fridgefriend.Planning.Scoring.{
  fits, pick_best_recipe, Remaining, score_ge, score_recipe, filter_recipes, first_recipe, all_in,
  score_ingredients, score_entry, numbers_ge, bucket_points,
}
use fridgefriend.Planning.Planner.{
  Planned, no_matching, invalid_day, feasible, accepts_day, generate_plan, reserve_ingredients,
  build_remaining_inventory, add_items, merged, plan_days,
}
use fridgefriend.Planning.Choice.{Days, generate_plan-Days}
use fridgefriend.Planning.Best.{pick_best_recipe-best}
use fridgefriend.Planning.Constraints.{Meets, IsOneOf}
use fridgefriend.Planning.Stock.{IsStocked, reserve_ingredients-IsStocked}

abbrev porridge : RecipeIngredient ℕ
porridge = record { ingredient_name = "Milk"; quantity = 5 * 10 ^ 8; unit = "l" }

abbrev breakfast : PlanDay ℕ
breakfast = record {
  date = 100;
  recipe_id = 3;
  recipe_title = "Porridge";
  prep_minutes = none;
  image_url = none;
  servings = 2;
  reserved_items = [];
  recipe_ingredients = porridge ∷ [];
}

abbrev a_plan : PlanResult ℕ
a_plan = record { plan_id = 1; days = breakfast ∷ []; shopping_list = [] }

abbrev stored_plan : MealPlan
stored_plan = record {
  id = 1;
  user_id = some 1;
  household_id = some 10;
  start_date = 100;
  end_date = 100;
  days = record { id = 50; recipe_id = 3; date = 100; servings = 2 } ∷ [];
}

abbrev nothing_yet : List (ReservedIngredient ℕ)
nothing_yet = []

allocate_quantity-IsShare_example :
    All
      (IsShare (λ i. 0) (convert_to_base {W = ℕ} 5 "l").1 (convert_to_base {W = ℕ} 5 "l").0)
      (allocate_quantity (milk ∷ rice ∷ []) 5 "l" (λ i. 0))
allocate_quantity-IsShare_example =
    allocate_quantity-IsShare nano-IsOrdered (milk ∷ rice ∷ []) 5 "l" (λ i. 0)

abbrev reserved_or : Outcome (Progress ℕ) → Progress ℕ
reserved_or (done state) = state
reserved_or insufficient_reservation = record { reserved = λ i. 0; rows = [] }
reserved_or missing_day = record { reserved = λ i. 0; rows = [] }

abbrev reserved : Progress ℕ
reserved = reserved_or (reserve_plan nothing_yet stored_plan a_plan (milk ∷ rice ∷ []))

reserves : reserve_plan nothing_yet stored_plan a_plan (milk ∷ rice ∷ []) ≡ done reserved
unfolding reserve_plan reserve_days Reservation.reserve_ingredients progressed reserve_ingredient
    refuses day_by_key candidates_of sort_by insert_by keep exists normalize allocate_quantity
    allocate convert_to_base lookup conversion_to_base normalize_unit unit_aliases fmin fmax
    reserved_quantities_by_item sum_reserved
reserves = refl

abbrev toast : NormalizedRecipe ℕ
toast = record {
  id = 4;
  title = "Milk toast";
  prep_minutes = 10;
  dietary_tags = "vegetarian" ∷ [];
  ingredients = record { name = "milk"; quantity = 2 * 10 ^ 8; unit = "l" } ∷ [];
}

abbrev stew : NormalizedRecipe ℕ
stew = record { id = 5; title = "Stew"; prep_minutes = 90; dietary_tags = []; ingredients = [] }

abbrev shelf : Remaining ℕ
shelf =
    ("milk", record { quantity = 2000 * 10 ^ 9; unit = "ml"; expiry_date = 107 })
    ∷ ("rice", record { quantity = 500 * 10 ^ 9; unit = "g"; expiry_date = 400 })
    ∷ []

reserve_ingredients-IsStocked_example :
    All IsStocked (reserve_ingredients toast.ingredients (10 ^ 9) ([], shelf)).1
reserve_ingredients-IsStocked_example =
    reserve_ingredients-IsStocked nano-IsOrdered toast.ingredients (10 ^ 9) [] shelf
      (refl, (refl, tt))

abbrev plan_or : Planned (PlanResult ℕ) → PlanResult ℕ
plan_or no_matching = a_plan
plan_or invalid_day = a_plan
plan_or (feasible plan) = plan

abbrev two_days : Planned (PlanResult ℕ)
two_days = generate_plan (milk ∷ []) 2 2 ("Vegetarian" ∷ []) (some 30) (stew ∷ toast ∷ []) 100 9

plans : two_days ≡ feasible (plan_or two_days)
unfolding generate_plan filter_recipes keep fits all_in exists lower build_remaining_inventory
    sort_by insert_by add_items put lookup normalize merged convert_to_base conversion_to_base
    normalize_unit unit_aliases plan_days accepts_day pick_best_recipe first_recipe score_recipe
    score_ingredients score_entry score_ge numbers_ge
plans = refl

generate_plan-Days_example :
    Days
      (λ r. Meets ("Vegetarian" ∷ []) (some 30) r × IsOneOf r (stew ∷ toast ∷ []))
      2
      100
      (plan_or two_days).days
generate_plan-Days_example =
    generate_plan-Days (milk ∷ []) 2 2 ("Vegetarian" ∷ []) (some 30) (stew ∷ toast ∷ []) 100 9
      (plan_or two_days) plans

picks_toast : pick_best_recipe (stew ∷ toast ∷ []) shelf [] 100 (10 ^ 9) ≡ some toast
unfolding pick_best_recipe first_recipe sort_by insert_by score_recipe score_ingredients score_entry
    score_ge numbers_ge exists lookup convert_to_base conversion_to_base normalize_unit unit_aliases
    normalize bucket_points get_urgency_bucket
picks_toast = refl

pick_best_recipe-best_example :
    All
      (λ s.
        score_ge (score_recipe toast shelf [] 100 (10 ^ 9)) (score_recipe s shelf [] 100 (10 ^ 9))
        ≡ true)
      (stew ∷ toast ∷ [])
pick_best_recipe-best_example =
    pick_best_recipe-best nano-IsOrdered (stew ∷ toast ∷ []) shelf [] 100 (10 ^ 9) toast picks_toast

reserve_plan-ne-insufficient_example :
    reserve_plan nothing_yet stored_plan a_plan (milk ∷ rice ∷ []) ≢ insufficient_reservation
reserve_plan-ne-insufficient_example =
    reserve_plan-ne-insufficient nano-IsOrdered nothing_yet stored_plan a_plan (milk ∷ rice ∷ [])
      (unfold keep in refl)
