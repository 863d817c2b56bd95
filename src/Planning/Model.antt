-- ===== src/Planning/Model.antt =====
-- backend/app/modules/planning/schemas.py, backend/app/models/reserved_ingredient.py and the classes
-- of planner.py. A dict with text keys is a list of pairs in insertion order.
use fridgefriend.Prelude.{Option, ℕ, String, Bool, List, [], ◌∷◌, str_eq, leb, if◌then◌else◌}
use fridgefriend.Inventory.Model.{InventoryItem}

pub record RecipeIngredient (W : Type 0) : Type 0 where
  pub ingredient_name : String
  pub quantity : W
  pub unit : String

-- `recipe_id` is a number; its text form stands for it.
pub record PlanDay (W : Type 0) : Type 0 where
  pub date : ℕ
  pub recipe_id : ℕ
  pub recipe_title : String
  pub prep_minutes : Option ℕ
  pub image_url : Option String
  pub servings : ℕ
  pub reserved_items : List String
  pub recipe_ingredients : List (RecipeIngredient W)

pub data Reason : Type 0 where
  not_in_inventory insufficient_quantity manual_item : Reason

pub record ShoppingItem (W : Type 0) : Type 0 where
  pub ingredient_name : String
  pub quantity : W
  pub unit : String
  pub reason : Reason

pub record PlanResult (W : Type 0) : Type 0 where
  pub plan_id : ℕ
  pub days : List (PlanDay W)
  pub shopping_list : List (ShoppingItem W)

pub record ReservedIngredient (W : Type 0) : Type 0 where
  pub meal_plan_id : ℕ
  pub meal_plan_day_id : ℕ
  pub inventory_item_id : ℕ
  pub quantity_reserved : W
  pub unit : String

pub record MealPlanDay : Type 0 where
  pub id : ℕ
  pub recipe_id : ℕ
  pub date : ℕ
  pub servings : ℕ

pub record MealPlan : Type 0 where
  pub id : ℕ
  pub user_id : Option ℕ
  pub household_id : Option ℕ
  pub start_date : ℕ
  pub end_date : ℕ
  pub days : List MealPlanDay

-- `_NormalizedIngredient`, `_NormalizedRecipe` and `_InventorySnapshot`.
pub record NormalizedIngredient (W : Type 0) : Type 0 where
  pub name : String
  pub quantity : W
  pub unit : String

pub record NormalizedRecipe (W : Type 0) : Type 0 where
  pub id : ℕ
  pub title : String
  pub prep_minutes : ℕ
  pub dietary_tags : List String
  pub ingredients : List (NormalizedIngredient W)

pub record InventorySnapshot (W : Type 0) : Type 0 where
  pub quantity : W
  pub unit : String
  pub expiry_date : ℕ

-- `d[key] = v`: an old key keeps its place, a new one goes to the end.
unfoldable pub put : {V : Type 0} → String → V → List (String × V) → List (String × V)
put k v [] = (k, v) ∷ []
put k v ((j, w) ∷ m) = let rest = put k v m in if str_eq j k then (j, v) ∷ m else (j, w) ∷ rest

abbrev pub expires_before : {W : Type 0} → InventoryItem W → InventoryItem W → Bool
expires_before x y = leb x.estimated_expiry_date y.estimated_expiry_date
