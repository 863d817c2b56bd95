-- ===== src/Planning/Tables.antt =====
-- backend/app/models: the tables that planning/service.py reads and writes, and its queries. The
-- identifiers of new rows come as arguments.
use fridgefriend.Planning.Keys.{key_matches}
use fridgefriend.Prelude.{
  ℕ, sort_by, String, Bool, not, ◌&&◌, Option, none, some, List, [], ◌∷◌, ◌++◌, ◌==◌, opt_eq, keep,
  find,
}
use fridgefriend.Inventory.Model.{InventoryItem, in_household, is_gone}
use fridgefriend.Planning.Model.{MealPlan, ReservedIngredient, expires_before}
use fridgefriend.Planning.Recipes.{IngredientPayload}

-- A row of `recipes`, with the columns that plans use.
pub record RecipeRow (W : Type 0) : Type 0 where
  pub id : ℕ
  pub title : String
  pub prep_minutes : ℕ
  pub image_url : Option String
  pub dietary_tags : List String
  pub ingredients : List (IngredientPayload W)

pub record ShoppingListItem (W : Type 0) : Type 0 where
  pub id : ℕ
  pub household_id : ℕ
  pub name : String
  pub quantity : Option W
  pub unit : Option String
  pub recipe_id : Option ℕ
  pub created_by_user_id : Option ℕ
  pub is_purchased : Bool
  pub idempotency_key : Option String

-- Plans and inventory items are stored with the newest first, the other tables with the oldest first.
pub record Tables (W : Type 0) : Type 0 where
  pub inventory : List (InventoryItem W)
  pub recipes : List (RecipeRow W)
  pub plans : List MealPlan
  pub reserved : List (ReservedIngredient W)
  pub shopping : List (ShoppingListItem W)

-- The list from its end.
unfoldable pub reversed : {A : Type 0} → List A → List A
reversed [] = []
reversed (x ∷ xs) = reversed xs ++ x ∷ []

module _ {W : Type 0} where
  -- `_list_active_inventory`: by expiry, and by creation.
  unfoldable pub list_active_inventory : ℕ → Tables W → List (InventoryItem W)
  list_active_inventory h t =
      sort_by expires_before
        (reversed (keep (λ item. in_household h item && not (is_gone item)) t.inventory))

  unfoldable pub list_manual_shopping_items : ℕ → Tables W → List (ShoppingListItem W)
  list_manual_shopping_items h t =
      keep (λ x. (x.household_id == h) && not x.is_purchased) t.shopping

  unfoldable pub list_manual_items_by_idempotency :
      ℕ → String → Tables W → List (ShoppingListItem W)
  list_manual_items_by_idempotency h key t =
      keep (λ x. (x.household_id == h) && key_matches key x.idempotency_key) t.shopping

  -- `_get_latest_meal_plan`; `none` is `MealPlanNotFoundError`.
  unfoldable pub get_latest_meal_plan : ℕ → Tables W → Option MealPlan
  get_latest_meal_plan h t = find (λ plan. opt_eq plan.household_id h) t.plans

  unfoldable pub get_recipe : ℕ → Tables W → Option (RecipeRow W)
  get_recipe i t = find (λ r. r.id == i) t.recipes

  -- The rows of the join in `reserved_quantities_by_ingredient`.
  unfoldable pub join_items :
      List (InventoryItem W)
      → List (ReservedIngredient W)
      → List (ReservedIngredient W × InventoryItem W)
  join_items items [] = []
  join_items items (row ∷ rows) =
      let rest = join_items items rows in
      elim (find (λ item. item.id == row.inventory_item_id) items) [
        | none ↦ rest
        | some item ↦ (row, item) ∷ rest
      ]
