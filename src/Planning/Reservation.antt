-- ===== src/Planning/Reservation.antt =====
-- backend/app/modules/planning/reservation.py. A dict from item to quantity, read by
-- `get(item, 0.0)`, is a function. The rows that are added are returned, oldest first.
use fridgefriend.Prelude.{
  ℕ, sort_by, String, not, ◌&&◌, ◌||◌, Option, none, some, List, [], ◌∷◌, ◌++◌, map, str_eq, ◌==◌,
  if◌then◌else◌, keep, exists, Bool, opt_eq,
}
use fridgefriend.Text.{normalize}
use fridgefriend.Units.{lookup, convert_to_base}
use fridgefriend.Scalar.{Float, nought, fmax, fmin, ◌⊕◌, ◌⊖◌, ◌≼◌, ◌≺◌}
use fridgefriend.Inventory.Model.{InventoryItem, is_gone, in_household}
use fridgefriend.Planning.Model.{
  RecipeIngredient, PlanDay, PlanResult, ReservedIngredient, MealPlan, MealPlanDay, expires_before,
  put,
}

pub data Outcome (A : Type 0) : Type 0 where
  done : A → Outcome A
  insufficient_reservation missing_day : Outcome A

-- What the loops carry: `reserved_by_item` and the rows added.
pub record Progress (W : Type 0) : Type 0 where
  pub reserved : ℕ → W
  pub rows : List (ReservedIngredient W)

-- `day_by_key[(date, recipe_id)]`: of two days with one key the last wins.
unfoldable pub day_by_key : ℕ → ℕ → List MealPlanDay → Option ℕ
day_by_key date recipe_id [] = none
day_by_key date recipe_id (day ∷ days) = elim (day_by_key date recipe_id days) [
  | some id ↦ some id
  | none ↦ if day.date == date && day.recipe_id == recipe_id then some day.id else none
]

module _ {W : Type 0} ⦃f : Float W⦄ where
  -- `1e-9`
  abbrev pub tiny : W
  tiny = f.lit 1 9

  abbrev pub free_base : (ℕ → W) → InventoryItem W → W
  free_base reserved_by_item item =
      fmax nought ((convert_to_base item.quantity item.unit).0 ⊖ reserved_by_item item.id)

  -- The loop of `_allocate_quantity` with `remaining_required`.
  unfoldable pub allocate :
      (ℕ → W) → String → W → List (InventoryItem W) → List (InventoryItem W × W)
  allocate reserved_by_item base_unit remaining_required [] = []
  allocate reserved_by_item base_unit remaining_required (item ∷ items) =
      let allocation_base = fmin (free_base reserved_by_item item) remaining_required in
      let remaining = remaining_required ⊖ allocation_base in
      let skipped = allocate reserved_by_item base_unit remaining_required items in
      let further = allocate reserved_by_item base_unit remaining items in
      if not (str_eq (convert_to_base item.quantity item.unit).1 base_unit)
        || (free_base reserved_by_item item ≼ nought)
        || (allocation_base ≼ nought)
      then skipped
      else (item, allocation_base) ∷ (if remaining ≼ tiny then [] else further)

  unfoldable pub allocate_quantity :
      List (InventoryItem W) → W → String → (ℕ → W) → List (InventoryItem W × W)
  allocate_quantity candidates required_quantity required_unit reserved_by_item =
      let (required_base, required_base_unit) = convert_to_base required_quantity required_unit in
      allocate reserved_by_item required_base_unit required_base candidates

  unfoldable pub sum_reserved : ℕ → W → List (ReservedIngredient W) → W
  sum_reserved i acc [] = acc
  sum_reserved i acc (row ∷ rows) =
      sum_reserved i (if row.inventory_item_id == i then acc ⊕ row.quantity_reserved else acc) rows

  unfoldable pub reserved_quantities_by_item : ℕ → List (ReservedIngredient W) → ℕ → W
  reserved_quantities_by_item exclude_plan_id rows i =
      sum_reserved i nought (keep (λ row. not (row.meal_plan_id == exclude_plan_id)) rows)

  -- `inventory_by_name.get(name, [])`
  unfoldable pub candidates_of : String → List (InventoryItem W) → List (InventoryItem W)
  candidates_of name inventory_items =
      keep (λ item. not (is_gone item) && str_eq (normalize item.canonical_name) name)
        (sort_by expires_before inventory_items)

  abbrev pub to_row : ℕ → ℕ → String → InventoryItem W × W → ReservedIngredient W
  to_row plan_id day_id base_unit (item, quantity) = record {
    meal_plan_id = plan_id;
    meal_plan_day_id = day_id;
    inventory_item_id = item.id;
    quantity_reserved = quantity;
    unit = base_unit;
  }

  -- `reserved_by_item[item.id] = reserved_by_item.get(item.id, 0.0) + quantity` for each allocation.
  unfoldable pub add_reserved : (ℕ → W) → List (InventoryItem W × W) → ℕ → W
  add_reserved reserved [] = reserved
  add_reserved reserved ((item, quantity) ∷ allocations) =
      add_reserved (λ i. if item.id == i then reserved i ⊕ quantity else reserved i) allocations

  abbrev pub quantity_of : InventoryItem W × W → W
  quantity_of (item, quantity) = quantity

  -- `_allocate_quantity` for an ingredient; no candidates give no allocations.
  abbrev pub allocations_for :
      List (InventoryItem W) → RecipeIngredient W → (ℕ → W) → List (InventoryItem W × W)
  allocations_for inventory_items ingredient reserved_by_item =
      allocate_quantity (candidates_of (normalize ingredient.ingredient_name) inventory_items)
        ingredient.quantity ingredient.unit reserved_by_item

  -- The candidates have reservations of other plans, and the allocations do not suffice.
  unfoldable pub refuses :
      (ℕ → W) → List (InventoryItem W) → RecipeIngredient W → List (InventoryItem W × W) → Bool
  refuses external inventory_items ingredient allocations =
      exists (λ item. nought ≺ external item.id)
        (candidates_of (normalize ingredient.ingredient_name) inventory_items)
      && (f.total (map quantity_of allocations) ⊕ tiny
          ≺ (convert_to_base ingredient.quantity ingredient.unit).0)

  unfoldable pub progressed :
      ℕ → ℕ → RecipeIngredient W → List (InventoryItem W × W) → Progress W → Progress W
  progressed plan_id day_id ingredient allocations state = record {
    reserved = add_reserved state.reserved allocations;
    rows =
        state.rows
        ++ map (to_row plan_id day_id (convert_to_base ingredient.quantity ingredient.unit).1)
            allocations;
  }

  unfoldable pub reserve_ingredient :
      (ℕ → W)
      → List (InventoryItem W)
      → ℕ
      → ℕ
      → RecipeIngredient W
      → Progress W
      → Outcome (Progress W)
  reserve_ingredient external inventory_items plan_id day_id ingredient state =
      let allocations = allocations_for inventory_items ingredient state.reserved in
      if refuses external inventory_items ingredient allocations
      then insufficient_reservation
      else done (progressed plan_id day_id ingredient allocations state)

  unfoldable pub reserve_ingredients :
      (ℕ → W)
      → List (InventoryItem W)
      → ℕ
      → ℕ
      → List (RecipeIngredient W)
      → Progress W
      → Outcome (Progress W)
  reserve_ingredients external inventory_items plan_id day_id [] state = done state
  reserve_ingredients external inventory_items plan_id day_id (ingredient ∷ rest) state =
      elim (reserve_ingredient external inventory_items plan_id day_id ingredient state) [
        | done state' ↦ reserve_ingredients external inventory_items plan_id day_id rest state'
        | insufficient_reservation ↦ insufficient_reservation
        | missing_day ↦ missing_day
      ]

  unfoldable pub reserve_days :
      (ℕ → W)
      → List (InventoryItem W)
      → MealPlan
      → List (PlanDay W)
      → Progress W
      → Outcome (Progress W)
  reserve_days external inventory_items meal_plan [] state = done state
  reserve_days external inventory_items meal_plan (day ∷ days) state =
      elim (day_by_key day.date day.recipe_id meal_plan.days) [
        | none ↦ missing_day
        | some day_id ↦
            elim (reserve_ingredients external inventory_items meal_plan.id day_id
              day.recipe_ingredients state) [
                | done state' ↦ reserve_days external inventory_items meal_plan days state'
                | insufficient_reservation ↦ insufficient_reservation
                | missing_day ↦ missing_day
              ]
      ]

  -- `reserve_plan`, with the rows of `reserved_ingredients` that are there before it.
  unfoldable pub reserve_plan :
      List (ReservedIngredient W)
      → MealPlan
      → PlanResult W
      → List (InventoryItem W)
      → Outcome (Progress W)
  reserve_plan table meal_plan plan_result inventory_items =
      let external = reserved_quantities_by_item meal_plan.id table in
      reserve_days external inventory_items meal_plan plan_result.days
        (record { reserved = external; rows = [] })

  abbrev pub or_nought : Option W → W
  or_nought none = nought
  or_nought (some q) = q

  -- `reserved_quantities_by_ingredient` on the joined rows of the query, which have the reserved
  -- ingredient and its item.
  unfoldable pub sum_by_name :
      List (ReservedIngredient W × InventoryItem W) → List (String × W) → List (String × W)
  sum_by_name [] reserved = reserved
  sum_by_name ((row, item) ∷ rows) reserved =
      let key = normalize item.canonical_name in
      sum_by_name rows (put key (or_nought (lookup key reserved) ⊕ row.quantity_reserved) reserved)

  unfoldable pub reserved_quantities_by_ingredient :
      ℕ → Option ℕ → List (ReservedIngredient W × InventoryItem W) → List (String × W)
  reserved_quantities_by_ingredient household_id exclude_plan_id rows =
      sum_by_name
        (keep (λ e. in_household household_id e.1 && not (opt_eq exclude_plan_id e.0.meal_plan_id))
          rows)
        []
