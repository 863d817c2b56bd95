-- ===== src/Planning/ServiceExamples.antt =====
-- The theorems on plans and manual items at concrete tables.
use fridgefriend.Planning.Model.{PlanResult}
use fridgefriend.Prelude.{ℕ, ◌^◌, ◌≡◌, refl, ◌⊎◌, false, none, some, [], ◌∷◌, keep, exists, count}
use fridgefriend.Scalar.{nano, nano-IsOrdered}
use fridgefriend.Inventory.Examples.{milk}
use fridgefriend.Planning.Stored.{IsStored, delete_plan-generate_household_plan}
use fridgefriend.Planning.Planner.{generate_plan, feasible}
use fridgefriend.Planning.Recipes.{normalize_recipes}
use fridgefriend.Planning.Keys.{item_key}
use fridgefriend.Planning.Tables.{
  RecipeRow, ShoppingListItem, Tables, list_active_inventory, list_manual_items_by_idempotency,
}
use fridgefriend.Planning.Service.{
  Failure, ok, err, planner_input, PlanRequest, ShoppingListItemCreate, generate_household_plan,
}
use fridgefriend.Planning.ShoppingService.{
  manual_rows, add_manual_shopping_list_items, add_new_items, store_manual_items, conflicts,
}
use fridgefriend.Planning.Transactions.{add_manual_shopping_list_items_prefix}

abbrev latte : RecipeRow ℕ
latte = record {
  id = 3;
  title = "Latte";
  prep_minutes = 5;
  image_url = none;
  dietary_tags = [];
  ingredients =
      record {
        canonical_name = some "milk";
        name = none;
        ingredient_name = none;
        quantity = some (10 ^ 8);
        unit = some "l";
      }
      ∷ [];
}

abbrev kitchen : Tables ℕ
kitchen = record {
  inventory = milk ∷ [];
  recipes = latte ∷ [];
  plans = [];
  reserved = [];
  shopping = [];
}

abbrev three_days : PlanRequest
three_days = record { days = 3; servings = 2; dietary_tags = []; max_prep_minutes = none }

delete_plan-generate_household_plan_example :
    let x = generate_household_plan 1 10 three_days 100 9 50 kitchen in
    ((e : Failure) × (x ≡ (err e, kitchen)))
    ⊎ ((made : PlanResult ℕ) × (generate_plan
            (list_active_inventory 10 kitchen)
            3
            2
            []
            none
            (normalize_recipes (planner_input (latte ∷ [])))
            100
            9
          ≡ feasible made)
        × IsStored 1 10 9 50 kitchen 2 made x)
delete_plan-generate_household_plan_example =
    delete_plan-generate_household_plan nano-IsOrdered 1 10 9 50 kitchen (unfold count in refl)
      (unfold count in refl) three_days 100

abbrev sponges : ShoppingListItemCreate ℕ
sponges = record { name = "Sponges"; quantity = none; unit = none; recipe_id = none }

abbrev sponges_row : ShoppingListItem ℕ
sponges_row = record {
  id = 70;
  household_id = 10;
  name = "Sponges";
  quantity = none;
  unit = none;
  recipe_id = none;
  created_by_user_id = some 1;
  is_purchased = false;
  idempotency_key = some (item_key "k" 0);
}

sponges_added :
    add_manual_shopping_list_items (sponges ∷ []) 10 1 "k" 70 kitchen
    ≡ (ok (sponges_row ∷ []), record kitchen { shopping = sponges_row ∷ [] })
unfolding add_manual_shopping_list_items list_manual_items_by_idempotency keep add_new_items exists
    store_manual_items manual_rows conflicts
sponges_added = refl

add_manual_shopping_list_items_prefix_example :
    let after = add_manual_shopping_list_items (sponges ∷ []) 10 1 "k" 70 kitchen in
    (add_manual_shopping_list_items (sponges ∷ []) 10 2 (item_key "k" 0) 80 after.1).1 ≡ after.1
add_manual_shopping_list_items_prefix_example =
    add_manual_shopping_list_items_prefix sponges [] (sponges ∷ []) 10 1 2 70 80 "k" kitchen
      (unfold manual_rows in sponges_added)
