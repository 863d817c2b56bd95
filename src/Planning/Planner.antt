-- ===== src/Planning/Planner.antt =====
-- backend/app/modules/planning/planner.py, after `_normalize_recipes`. Today's date and the
-- identifier of the plan come as arguments.
use fridgefriend.Prelude.{
  ℕ, sort_by, zero, suc, ◌+◌, String, Bool, true, false, not, ◌||◌, ◌&&◌, Option, none, some, List,
  [], ◌∷◌, ◌++◌, map, str_eq, ltb, if◌then◌else◌, keep,
}
use fridgefriend.Text.{normalize}
use fridgefriend.Units.{convert_to_base, lookup}
use fridgefriend.Scalar.{Float, nought, fmax, ◌⊕◌, ◌⊖◌, ◌⊗◌, ◌⊘◌, ◌≼◌}
use fridgefriend.Inventory.Model.{InventoryItem, is_gone}
use fridgefriend.Planning.Model.{
  PlanDay, PlanResult, NormalizedIngredient, NormalizedRecipe, InventorySnapshot, put,
  expires_before,
}
use fridgefriend.Planning.Shopping.{derive_shopping_list}
use fridgefriend.Planning.Scoring.{filter_recipes, Remaining, usable, required, pick_best_recipe}

-- What `generate_plan` comes to: a `NoMatchingRecipesError`, the `ValidationError` of a day, or a value.
pub data Planned (A : Type 0) : Type 0 where
  no_matching invalid_day : Planned A
  feasible : A → Planned A

module _ {W : Type 0} ⦃f : Float W⦄ where
  abbrev pub used_up : W → InventorySnapshot W → InventorySnapshot W
  used_up required_quantity entry = record entry {
    quantity = fmax nought (entry.quantity ⊖ required_quantity);
  }

  -- The names taken, and what remains.
  unfoldable pub reserve_entry :
      String
      → W × String
      → Option (InventorySnapshot W)
      → List String × Remaining W
      → List String × Remaining W
  reserve_entry name wanted none state = state
  reserve_entry name (required_quantity, required_unit) (some entry) (names, remaining) =
      if usable entry required_unit
      then (names ++ name ∷ [], put name (used_up required_quantity entry) remaining)
      else (names, remaining)

  unfoldable pub reserve_ingredients :
      List (NormalizedIngredient W) → W → List String × Remaining W → List String × Remaining W
  reserve_ingredients [] factor state = state
  reserve_ingredients (ingredient ∷ rest) factor state = reserve_ingredients rest factor (
      reserve_entry ingredient.name (required factor ingredient) (lookup ingredient.name state.1)
        state)

  unfoldable pub merged : ℕ → W × String → Option (InventorySnapshot W) → InventorySnapshot W
  merged expiry_date (base_quantity, base_unit) none = record {
    quantity = nought ⊕ base_quantity;
    unit = base_unit;
    expiry_date = expiry_date;
  }
  merged expiry_date (base_quantity, base_unit) (some entry) =
      if str_eq entry.unit base_unit
      then record entry {
        quantity = entry.quantity ⊕ base_quantity;
        expiry_date = if ltb expiry_date entry.expiry_date then expiry_date else entry.expiry_date;
      }
      else entry

  unfoldable pub add_items : List (InventoryItem W) → Remaining W → Remaining W
  add_items [] remaining = remaining
  add_items (item ∷ items) remaining =
      let key = normalize item.canonical_name in
      add_items items (
        put key
          (merged item.estimated_expiry_date (convert_to_base item.quantity item.unit)
            (lookup key remaining))
          remaining)

  unfoldable pub build_remaining_inventory : List (InventoryItem W) → Remaining W
  build_remaining_inventory inventory = add_items (sort_by expires_before inventory) []

  -- `PlanDay.model_validate` accepts the quantities of the ingredients.
  unfoldable pub accepts_day : W → List (NormalizedIngredient W) → Bool
  accepts_day factor [] = true
  accepts_day factor (ingredient ∷ ingredients) =
      (nought ≼ (ingredient.quantity ⊗ factor)) && accepts_day factor ingredients

  -- A day that is accepted.
  unfoldable pub planned_day : ℕ → ℕ → W → NormalizedRecipe W → List String → PlanDay W
  planned_day date servings factor recipe reserved_items = record {
    date = date;
    recipe_id = recipe.id;
    recipe_title = recipe.title;
    prep_minutes = none;
    image_url = none;
    servings = servings;
    reserved_items = reserved_items;
    recipe_ingredients =
        map
          (λ ingredient. record {
            ingredient_name = ingredient.name;
            quantity = ingredient.quantity ⊗ factor;
            unit = ingredient.unit;
          })
          recipe.ingredients;
  }

  abbrev pub with_day : PlanDay W → Planned (List (PlanDay W)) → Planned (List (PlanDay W))
  with_day day no_matching = no_matching
  with_day day invalid_day = invalid_day
  with_day day (feasible days) = feasible (day ∷ days)

  -- The loop of `generate_plan` over `n` more days from `date` on; `now` is the first day.
  unfoldable pub plan_days :
      ℕ
      → ℕ
      → ℕ
      → ℕ
      → W
      → List (NormalizedRecipe W)
      → Remaining W
      → List ℕ
      → Planned (List (PlanDay W))
  plan_days zero date now servings factor recipes remaining used = feasible []
  plan_days (suc n) date now servings factor recipes remaining used =
      elim (pick_best_recipe recipes remaining used now factor) [
        | none ↦ no_matching
        | some recipe ↦
            let (names, left) = reserve_ingredients recipe.ingredients factor ([], remaining) in
            let rest = plan_days n (date + 1) now servings factor recipes left (recipe.id ∷ used) in
            if accepts_day factor recipe.ingredients
            then with_day (planned_day date servings factor recipe names) rest
            else invalid_day
      ]

  abbrev pub or_all :
      List (NormalizedRecipe W) → List (NormalizedRecipe W) → List (NormalizedRecipe W)
  or_all [] recipes = recipes
  or_all (recipe ∷ filtered) recipes = recipe ∷ filtered

  -- `recipes and (dietary_tags or max_prep_minutes is not None) and not filtered_recipes`
  abbrev pub no_match : List (NormalizedRecipe W) → List String → Option ℕ → Bool
  no_match [] [] none = false
  no_match [] dietary_tags max_prep_minutes = true
  no_match (recipe ∷ filtered) dietary_tags max_prep_minutes = false

  abbrev pub not_any : List (NormalizedRecipe W) → Bool
  not_any [] = true
  not_any (recipe ∷ recipes) = false

  abbrev pub with_shopping_list :
      ℕ → List (InventoryItem W) → Planned (List (PlanDay W)) → Planned (PlanResult W)
  with_shopping_list plan_id inventory no_matching = no_matching
  with_shopping_list plan_id inventory invalid_day = invalid_day
  with_shopping_list plan_id inventory (feasible days) = feasible (record {
    plan_id = plan_id;
    days = days;
    shopping_list = derive_shopping_list days inventory [];
  })

  -- `generate_plan`.
  unfoldable pub generate_plan :
      List (InventoryItem W)
      → ℕ
      → ℕ
      → List String
      → Option ℕ
      → List (NormalizedRecipe W)
      → ℕ
      → ℕ
      → Planned (PlanResult W)
  generate_plan user_inventory days servings dietary_tags max_prep_minutes recipes now plan_id =
      let remaining =
        build_remaining_inventory (keep (λ item. not (is_gone item)) user_inventory) in
      let filtered = filter_recipes recipes dietary_tags max_prep_minutes in
      let candidates = or_all filtered recipes in
      let factor = f.lit servings 0 ⊘ f.lit 2 0 in
      if not_any recipes || no_match filtered dietary_tags max_prep_minutes
      then no_matching
      else with_shopping_list plan_id user_inventory
          (plan_days days now now servings factor candidates remaining [])
