-- ===== src/Planning/ShoppingService.antt =====
-- backend/app/modules/planning/service.py: the shopping list of a household, its manual items, and
-- the deletion of plans.
use fridgefriend.Prelude.{
  ℕ, ◌+◌, String, Bool, true, false, not, ◌&&◌, ◌||◌, Option, none, some, List, [], ◌∷◌, ◌++◌, map,
  str_eq, ◌==◌, if◌then◌else◌, opt_eq, keep, find, exists,
}
use fridgefriend.Scalar.{Float, nought, ◌⊗◌, ◌⊘◌, ◌≼◌}
use fridgefriend.Text.{strip}
use fridgefriend.Planning.Model.{
  RecipeIngredient, PlanDay, ShoppingItem, manual_item, MealPlanDay, MealPlan,
}
use fridgefriend.Planning.Recipes.{IngredientPayload, text_or, quantity_or_zero}
use fridgefriend.Planning.Shopping.{derive_shopping_list, merge_shopping_list_items}
use fridgefriend.Planning.Keys.{item_key}
use fridgefriend.Planning.Tables.{
  ShoppingListItem, Tables, list_active_inventory, list_manual_shopping_items,
  list_manual_items_by_idempotency, get_latest_meal_plan, get_recipe,
}
use fridgefriend.Planning.Service.{
  Result, ok, err, validation_error, meal_plan_not_found, recipes_not_found, integrity_error,
  ShoppingListItemCreate, stored_day, payloads_of, reserved_by_others,
}

-- `AliasChoices`: the first of the keys that the dict has.
abbrev pub first_key : Option String → Option String → Option String
first_key none b = b
first_key (some a) b = some a

abbrev pub prepend : {A : Type 0} → Option A → Option (List A) → Option (List A)
prepend none as' = none
prepend (some a) none = none
prepend (some a) (some as') = some (a ∷ as')

-- Two keys are equal; a null is equal to nothing.
abbrev pub same_key : Option String → Option String → Bool
same_key none k = false
same_key (some j) none = false
same_key (some j) (some k) = str_eq j k

abbrev pub is_plan_of : ℕ → ℕ → ℕ → MealPlan → Bool
is_plan_of plan_id user_id h p =
    p.id == plan_id && opt_eq p.user_id user_id && opt_eq p.household_id h

module _ {W : Type 0} ⦃f : Float W⦄ where
  unfoldable pub checked_ingredient :
      Option String → Option String → W → Option (RecipeIngredient W)
  checked_ingredient none unit quantity = none
  checked_ingredient (some name) none quantity = none
  checked_ingredient (some name) (some unit) quantity =
      if nought ≼ quantity
      then some (record { ingredient_name = strip name; quantity = quantity; unit = strip unit })
      else none

  -- `RecipeIngredient.model_validate` of an ingredient, scaled for the servings; `none` is a
  -- `ValidationError`.
  unfoldable pub scaled_ingredient : ℕ → IngredientPayload W → Option (RecipeIngredient W)
  scaled_ingredient servings i =
      checked_ingredient (first_key i.ingredient_name (first_key i.canonical_name i.name)) i.unit
        (quantity_or_zero i.quantity ⊗ (f.lit servings 0 ⊘ f.lit 2 0))

  unfoldable pub scaled_ingredients :
      ℕ → List (IngredientPayload W) → Option (List (RecipeIngredient W))
  scaled_ingredients servings [] = some []
  scaled_ingredients servings (i ∷ is) =
      prepend (scaled_ingredient servings i) (scaled_ingredients servings is)

  abbrev pub shown_day :
      Tables W → MealPlanDay → Option (List (RecipeIngredient W)) → Option (PlanDay W)
  shown_day t day none = none
  shown_day t day (some ingredients) = some (stored_day ingredients t day)

  -- The days of the latest plan with their ingredients.
  unfoldable pub scaled_days : Tables W → List MealPlanDay → Option (List (PlanDay W))
  scaled_days t [] = some []
  scaled_days t (day ∷ days) =
      let scaled = scaled_ingredients day.servings (payloads_of (get_recipe day.recipe_id t)) in
      prepend (shown_day t day scaled) (scaled_days t days)

  unfoldable pub manual_shopping_item : ShoppingListItem W → ShoppingItem W
  manual_shopping_item item = record {
    ingredient_name = item.name;
    quantity = quantity_or_zero item.quantity;
    unit = text_or "" item.unit;
    reason = manual_item;
  }

  unfoldable pub derived_items : ℕ → ℕ → Tables W → List (PlanDay W) → List (ShoppingItem W)
  derived_items h plan_id t days =
      derive_shopping_list days (list_active_inventory h t) (reserved_by_others h plan_id t)

  abbrev pub merged_items :
      ℕ
      → ℕ
      → Tables W
      → List (ShoppingItem W)
      → Option (List (PlanDay W))
      → Result (List (ShoppingItem W))
  merged_items h plan_id t manual none = err validation_error
  merged_items h plan_id t manual (some days) =
      ok (merge_shopping_list_items (derived_items h plan_id t days) manual)

  unfoldable pub get_shopping_list : ℕ → Tables W → Result (List (ShoppingItem W))
  get_shopping_list h t =
      let manual = map manual_shopping_item (list_manual_shopping_items h t) in
      elim (get_latest_meal_plan h t) [
        | none ↦ ok manual
        | some meal_plan ↦ merged_items h meal_plan.id t manual (scaled_days t meal_plan.days)
      ]

module _ {W : Type 0} where
  -- The rows of new items; their identifiers are numbered from `next_id`.
  unfoldable pub manual_rows :
      ℕ → ℕ → String → ℕ → ℕ → List (ShoppingListItemCreate W) → List (ShoppingListItem W)
  manual_rows h user_id idempotency_key next_id index [] = []
  manual_rows h user_id idempotency_key next_id index (item ∷ items) =
      record {
        id = next_id;
        household_id = h;
        name = item.name;
        quantity = item.quantity;
        unit = item.unit;
        recipe_id = item.recipe_id;
        created_by_user_id = some user_id;
        is_purchased = false;
        idempotency_key = some (item_key idempotency_key index);
      }
      ∷ manual_rows h user_id idempotency_key (next_id + 1) (index + 1) items

  abbrev pub has_recipe : Tables W → Option ℕ → Bool
  has_recipe t none = true
  has_recipe t (some i) = exists (λ r. r.id == i) t.recipes

  -- The constraint of the table: no two rows of a household have one key.
  unfoldable pub conflicts : List (ShoppingListItem W) → List (ShoppingListItem W) → Bool
  conflicts [] stored = false
  conflicts (x ∷ xs) stored =
      exists
        (λ y. (y.household_id == x.household_id) && same_key x.idempotency_key y.idempotency_key)
        (xs ++ stored)
      || conflicts xs stored

  -- The commit of the new rows; when the constraint refuses them the stored ones are read again.
  abbrev pub reread :
      List (ShoppingListItem W) → Tables W → Result (List (ShoppingListItem W)) × Tables W
  reread [] t = (err integrity_error, t)
  reread (x ∷ xs) t = (ok (x ∷ xs), t)

  unfoldable pub store_manual_items :
      ℕ
      → String
      → List (ShoppingListItem W)
      → Tables W
      → Result (List (ShoppingListItem W)) × Tables W
  store_manual_items h idempotency_key created t =
      if conflicts created t.shopping
      then reread (list_manual_items_by_idempotency h idempotency_key t) t
      else (ok created, record t { shopping = t.shopping ++ created })

  unfoldable pub add_new_items :
      List (ShoppingListItemCreate W)
      → ℕ
      → ℕ
      → String
      → ℕ
      → List (ShoppingListItem W)
      → Tables W
      → Result (List (ShoppingListItem W)) × Tables W
  add_new_items items h user_id idempotency_key next_id (x ∷ xs) t = (ok (x ∷ xs), t)
  add_new_items items h user_id idempotency_key next_id [] t =
      let created = manual_rows h user_id idempotency_key next_id 0 items in
      if exists (λ item. not (has_recipe t item.recipe_id)) items
      then (err recipes_not_found, t)
      else store_manual_items h idempotency_key created t

  unfoldable pub add_manual_shopping_list_items :
      List (ShoppingListItemCreate W)
      → ℕ
      → ℕ
      → String
      → ℕ
      → Tables W
      → Result (List (ShoppingListItem W)) × Tables W
  add_manual_shopping_list_items items h user_id idempotency_key next_id t =
      add_new_items items h user_id idempotency_key next_id
        (list_manual_items_by_idempotency h idempotency_key t) t

  -- The plan's days and reservations go with it.
  unfoldable pub delete_found : ℕ → Tables W → Option MealPlan → Result (Unit {0}) × Tables W
  delete_found plan_id t none = (err meal_plan_not_found, t)
  delete_found plan_id t (some _) = (
    ok tt,
    record t {
      plans = keep (λ p. not (p.id == plan_id)) t.plans;
      reserved = keep (λ r. not (r.meal_plan_id == plan_id)) t.reserved;
    },
  )

  unfoldable pub delete_plan : ℕ → ℕ → ℕ → Tables W → Result (Unit {0}) × Tables W
  delete_plan plan_id user_id h t =
      delete_found plan_id t (find (is_plan_of plan_id user_id h) t.plans)
