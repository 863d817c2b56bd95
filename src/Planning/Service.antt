-- ===== src/Planning/Service.antt =====
-- backend/app/modules/planning/service.py. A method returns its result, or what it raises, and the
-- tables as it leaves them; a transaction that raises is rolled back.
use fridgefriend.Prelude.{ℕ, ◌+◌, String, Option, none, some, List, [], ◌∷◌, ◌++◌, map}
use fridgefriend.Scalar.{Float}
use fridgefriend.Inventory.Model.{InventoryItem}
use fridgefriend.Planning.Model.{RecipeIngredient, PlanDay, PlanResult, MealPlan, MealPlanDay}
use fridgefriend.Planning.Recipes.{
  IngredientPayload, RecipePayload, first_text, text_or, quantity_or_zero, normalize_recipes,
}
use fridgefriend.Planning.Reservation.{
  Progress, done, insufficient_reservation, missing_day, reserve_plan,
  reserved_quantities_by_ingredient,
}
use fridgefriend.Planning.Planner.{generate_plan, no_matching, invalid_day, feasible}
use fridgefriend.Planning.Shopping.{derive_shopping_list}
use fridgefriend.Planning.Tables.{
  RecipeRow, Tables, list_active_inventory, get_recipe, join_items, get_latest_meal_plan,
}

pub data Failure : Type 0 where
  no_matching_recipes insufficient_quantity_error unknown_day no_days : Failure
  meal_plan_not_found recipes_not_found integrity_error validation_error : Failure

pub data Result (A : Type 0) : Type 0 where
  ok : A → Result A
  err : Failure → Result A

pub record PlanRequest : Type 0 where
  pub days : ℕ
  pub servings : ℕ
  pub dietary_tags : List String
  pub max_prep_minutes : Option ℕ

pub record ShoppingListItemCreate (W : Type 0) : Type 0 where
  pub name : String
  pub quantity : Option W
  pub unit : Option String
  pub recipe_id : Option ℕ

module _ {W : Type 0} ⦃f : Float W⦄ where
  -- The dict that the planner is given of an ingredient.
  abbrev pub planner_ingredient : IngredientPayload W → IngredientPayload W
  planner_ingredient i = record {
    canonical_name = first_text i.canonical_name i.name;
    name = none;
    ingredient_name = none;
    quantity = some (quantity_or_zero i.quantity);
    unit = some (text_or "unit" i.unit);
  }

  unfoldable pub planner_input : List (RecipeRow W) → List (RecipePayload W)
  planner_input recipes =
      map
        (λ recipe. record {
          id = recipe.id;
          title = recipe.title;
          prep_minutes = recipe.prep_minutes;
          dietary_tags = recipe.dietary_tags;
          ingredients = map planner_ingredient recipe.ingredients;
        })
        recipes

  abbrev pub minutes_of : Option (RecipeRow W) → Option ℕ
  minutes_of none = none
  minutes_of (some recipe) = some recipe.prep_minutes

  abbrev pub image_of : Option (RecipeRow W) → Option String
  image_of none = none
  image_of (some recipe) = recipe.image_url

  -- `_build_plan_day`
  unfoldable pub build_plan_day :
      ℕ
      → ℕ
      → String
      → ℕ
      → List String
      → List (RecipeIngredient W)
      → Option (RecipeRow W)
      → PlanDay W
  build_plan_day date recipe_id recipe_title servings reserved_items recipe_ingredients recipe =
      record {
        date = date;
        recipe_id = recipe_id;
        recipe_title = recipe_title;
        prep_minutes = minutes_of recipe;
        image_url = image_of recipe;
        servings = servings;
        reserved_items = reserved_items;
        recipe_ingredients = recipe_ingredients;
      }

  -- The rows of the days of a plan; their identifiers are numbered from `next_id`.
  unfoldable pub plan_day_rows : ℕ → ℕ → List (PlanDay W) → List MealPlanDay
  plan_day_rows servings next_id [] = []
  plan_day_rows servings next_id (day ∷ days) =
      record { id = next_id; recipe_id = day.recipe_id; date = day.date; servings = servings }
      ∷ plan_day_rows servings (next_id + 1) days

  unfoldable pub last_date : ℕ → List (PlanDay W) → ℕ
  last_date date [] = date
  last_date date (day ∷ days) = last_date day.date days

  abbrev pub plan_row : ℕ → ℕ → ℕ → ℕ → ℕ → PlanDay W → List (PlanDay W) → MealPlan
  plan_row user_id h servings plan_id next_id day days = record {
    id = plan_id;
    user_id = some user_id;
    household_id = some h;
    start_date = day.date;
    end_date = last_date day.date days;
    days = plan_day_rows servings next_id (day ∷ days);
  }

  -- The tables after the commit of a plan with its reservations.
  abbrev pub committed : MealPlan → Progress W → Tables W → Tables W
  committed meal_plan progress t = record t {
    plans = meal_plan ∷ t.plans;
    reserved = t.reserved ++ progress.rows;
  }

  -- `reserved_by_others`, after the commit.
  abbrev pub reserved_by_others : ℕ → ℕ → Tables W → List (String × W)
  reserved_by_others h plan_id t =
      reserved_quantities_by_ingredient h (some plan_id) (join_items t.inventory t.reserved)

  -- What is answered after the commit.
  unfoldable pub plan_answer :
      ℕ → ℕ → ℕ → PlanResult W → List (InventoryItem W) → Tables W → PlanResult W
  plan_answer h servings plan_id planned items t = record {
    plan_id = plan_id;
    days =
        map
          (λ day.
            build_plan_day day.date day.recipe_id day.recipe_title servings day.reserved_items
              day.recipe_ingredients (get_recipe day.recipe_id t))
          planned.days;
    shopping_list = derive_shopping_list planned.days items (reserved_by_others h plan_id t);
  }

  -- `generate_plan` from the transaction on, for the days of the plan.
  unfoldable pub store_plan :
      ℕ
      → ℕ
      → ℕ
      → ℕ
      → ℕ
      → List (PlanDay W)
      → PlanResult W
      → Tables W
      → Result (PlanResult W) × Tables W
  store_plan user_id h servings plan_id next_id [] planned t = (err no_days, t)
  store_plan user_id h servings plan_id next_id (day ∷ days) planned t =
      let items = list_active_inventory h t in
      let meal_plan = plan_row user_id h servings plan_id next_id day days in
      elim (reserve_plan t.reserved meal_plan planned items) [
        | insufficient_reservation ↦ (err insufficient_quantity_error, t)
        | missing_day ↦ (err unknown_day, t)
        | done progress ↦
            let t' = committed meal_plan progress t in
            (ok (plan_answer h servings plan_id planned items t'), t')
      ]

  -- `PlanningService.generate_plan` on the day `now`.
  unfoldable pub generate_household_plan :
      ℕ → ℕ → PlanRequest → ℕ → ℕ → ℕ → Tables W → Result (PlanResult W) × Tables W
  generate_household_plan user_id h request now plan_id next_id t =
      elim (generate_plan (list_active_inventory h t) request.days request.servings
        request.dietary_tags request.max_prep_minutes (normalize_recipes (planner_input t.recipes))
        now plan_id) [
          | no_matching ↦ (err no_matching_recipes, t)
          | invalid_day ↦ (err validation_error, t)
          | feasible plan ↦ store_plan user_id h request.servings plan_id next_id plan.days plan t
        ]

  abbrev pub title_of : Option (RecipeRow W) → String
  title_of none = "Unknown Recipe"
  title_of (some recipe) = recipe.title

  abbrev pub payloads_of : Option (RecipeRow W) → List (IngredientPayload W)
  payloads_of none = []
  payloads_of (some recipe) = recipe.ingredients

  -- `_get_recipe_ingredient_name`
  unfoldable pub get_recipe_ingredient_name : IngredientPayload W → String
  get_recipe_ingredient_name i = text_or "" (first_text i.canonical_name i.name)

  -- A stored day as it is shown.
  unfoldable pub stored_day : List (RecipeIngredient W) → Tables W → MealPlanDay → PlanDay W
  stored_day recipe_ingredients t day =
      let recipe = get_recipe day.recipe_id t in
      build_plan_day day.date day.recipe_id (title_of recipe) day.servings
        (map get_recipe_ingredient_name (payloads_of recipe)) recipe_ingredients recipe

  abbrev pub latest_result : Tables W → Option MealPlan → Result (PlanResult W)
  latest_result t none = err meal_plan_not_found
  latest_result t (some meal_plan) = ok (record {
    plan_id = meal_plan.id;
    days = map (stored_day [] t) meal_plan.days;
    shopping_list = [];
  })

  unfoldable pub get_latest_plan : ℕ → Tables W → Result (PlanResult W)
  get_latest_plan h t = latest_result t (get_latest_meal_plan h t)
