-- ===== src/Planning/Refusal.antt =====
-- backend/app/modules/planning/reservation.py: the rows of a reservation, and when a plan is refused.
use fridgefriend.Prelude.{
  ℕ, All-append, All, ◌≡◌, refl, ◌≢◌, inl, inr, Bool, true, false, not, List, [], ◌∷◌, arith, ◌==◌,
  if◌then◌else◌, Option-cases, keep, exists,
}
use fridgefriend.Text.{normalize}
use fridgefriend.Scalar.{Float, IsOrdered, nought, ◌≼◌, ◌≺◌}
use fridgefriend.Inventory.Model.{InventoryItem}
use fridgefriend.Planning.Model.{
  RecipeIngredient, PlanDay, PlanResult, ReservedIngredient, MealPlan,
}
use fridgefriend.Planning.Reservation.{
  Outcome, done, insufficient_reservation, missing_day, Progress, reserve_ingredient,
  reserve_ingredients, reserve_days, reserve_plan, reserved_quantities_by_item, sum_reserved,
  day_by_key, candidates_of, allocations_for, refuses, progressed,
}
use fridgefriend.Planning.Allocation.{IsRow, rows_of, allocate_quantity-IsShare}

module _ {W : Type 0} ⦃f : Float W⦄ (o : IsOrdered W) where
  -- The outcome has `P` of the progress made, and `R` if it is a refusal.
  abbrev Ends : (Progress W → Type 0) → Type 0 → Outcome (Progress W) → Type 0
  Ends P R (done state) = P state
  Ends P R insufficient_reservation = R
  Ends P R missing_day = Unit

  module _ (P : Progress W → Type 0) (R : Type 0) where
    Ends-if :
        (refuse : Bool) (state : Progress W)
        → (refuse ≡ true → R)
        → P state
        → Ends P R (if refuse then insufficient_reservation else done state)
    Ends-if true state r h = r refl
    Ends-if false state r h = h

    Ends-then :
        (r : Outcome (Progress W)) (k : Progress W → Outcome (Progress W))
        → Ends P R r
        → ((state : Progress W) → P state → Ends P R (k state))
        → Ends P R (elim r [
          | done state ↦ k state
          | insufficient_reservation ↦ insufficient_reservation
          | missing_day ↦ missing_day
        ])
    Ends-then (done state) k h next = next state h
    Ends-then insufficient_reservation k h next = h
    Ends-then missing_day k h next = tt

    module _ (external : ℕ → W) (items : List (InventoryItem W)) (plan : MealPlan) where
      -- What each ingredient keeps is kept by the loops over ingredients and days.
      module _
          (step : (day_id : ℕ) (ingredient : RecipeIngredient W) (state : Progress W)
            → P state
            → Ends P R (reserve_ingredient external items plan.id day_id ingredient state)) where
        ingredients-Ends :
            (day_id : ℕ) (ingredients : List (RecipeIngredient W)) (state : Progress W)
            → P state
            → Ends P R (reserve_ingredients external items plan.id day_id ingredients state)
        unfolding reserve_ingredients
        ingredients-Ends day_id [] state h = h
        ingredients-Ends day_id (x ∷ xs) state h =
            Ends-then _ _ (step day_id x state h) (ingredients-Ends day_id xs)

        days-Ends :
            (days : List (PlanDay W)) (state : Progress W)
            → P state
            → Ends P R (reserve_days external items plan days state)
        unfolding reserve_days
        days-Ends [] state h = h
        days-Ends (day ∷ days) state h =
            elim (Option-cases (day_by_key day.date day.recipe_id plan.days)) [
              | inl missing ↦ rw (missing, reserve_days) tt
              | inr (day_id, found) ↦
                  rw (found, reserve_days)
                    (Ends-then _ _ (ingredients-Ends day_id day.recipe_ingredients state h)
                      (days-Ends days))
            ]

  ingredient-rows :
      (external : ℕ → W) (items : List (InventoryItem W)) (plan_id day_id : ℕ)
      (ingredient : RecipeIngredient W) (state : Progress W)
      → All (IsRow plan_id) state.rows
      → Ends
          (λ s. All (IsRow plan_id) s.rows)
          Unit
          (reserve_ingredient external items plan_id day_id ingredient state)
  unfolding reserve_ingredient
  ingredient-rows external items plan_id day_id ingredient state h =
      let allocations = allocations_for items ingredient state.reserved in
      Ends-if (λ s. All (IsRow plan_id) s.rows) Unit (refuses external items ingredient allocations)
        (progressed plan_id day_id ingredient allocations state) (λ r. tt)
        (unfold progressed in
          All-append (IsRow plan_id) state.rows _ h (
            rows_of plan_id day_id _ state.reserved _ _ (
              allocate_quantity-IsShare o
                (candidates_of (normalize ingredient.ingredient_name) items) ingredient.quantity
                ingredient.unit state.reserved)))

  nothing_reserved :
      (table : List (ReservedIngredient W)) (plan_id : ℕ)
      → keep (λ row. not (row.meal_plan_id == plan_id)) table ≡ []
      → (i : ℕ) → (reserved_quantities_by_item plan_id table i ≼ nought) ≡ true
  unfolding reserved_quantities_by_item sum_reserved
  nothing_reserved table plan_id e i = rw (e, reserved_quantities_by_item) (o.le_refl nought)

  never :
      (external : ℕ → W) (items : List (InventoryItem W))
      → ((i : ℕ) → (external i ≼ nought) ≡ true)
      → exists (λ item. nought ≺ external item.id) items ≡ false
  unfolding exists
  never external [] h = refl
  never external (item ∷ items) h = ground (arith, h item.id, never external items h)

  ingredient-free :
      (external : ℕ → W)
      → ((i : ℕ) → (external i ≼ nought) ≡ true)
      → (items : List (InventoryItem W)) (plan_id day_id : ℕ) (ingredient : RecipeIngredient W)
        (state : Progress W)
      → Ends (λ s. Unit) ⊥ (reserve_ingredient external items plan_id day_id ingredient state)
  unfolding reserve_ingredient
  ingredient-free external h items plan_id day_id ingredient state =
      let allocations = allocations_for items ingredient state.reserved in
      let candidates = candidates_of (normalize ingredient.ingredient_name) items in
      Ends-if (λ s. Unit) ⊥ (refuses external items ingredient allocations)
        (progressed plan_id day_id ingredient allocations state)
        (λ r. unfold refuses in ground (arith, r, never external candidates h)) tt

  -- If the floats are ordered, every row that a reservation adds is a row of the plan, with a positive quantity.
  pub reserve_plan-IsRow :
      (table : List (ReservedIngredient W)) (plan : MealPlan) (result : PlanResult W)
      (items : List (InventoryItem W)) (state : Progress W)
      → reserve_plan table plan result items ≡ done state
      → All (IsRow plan.id) state.rows
  unfolding reserve_plan
  reserve_plan-IsRow table plan result items state e =
      let external = reserved_quantities_by_item plan.id table in
      let P : Progress W → Type 0 = λ state. All (IsRow plan.id) state.rows in
      let h =
        days-Ends P Unit external items plan (ingredient-rows external items plan.id) result.days
          (record { reserved = external; rows = [] }) tt in
      rw e at h

  -- If the floats are ordered, a plan is not refused for lack of free quantity if no other plan has reserved anything.
  pub reserve_plan-ne-insufficient :
      (table : List (ReservedIngredient W)) (plan : MealPlan) (result : PlanResult W)
      (items : List (InventoryItem W))
      → keep (λ row. not (row.meal_plan_id == plan.id)) table ≡ []
      → reserve_plan table plan result items ≢ insufficient_reservation
  unfolding reserve_plan
  reserve_plan-ne-insufficient table plan result items none_other e =
      let external = reserved_quantities_by_item plan.id table in
      let h =
        days-Ends (λ state. Unit) ⊥ external items plan
          (λ day_id ingredient state p.
            ingredient-free external (nothing_reserved table plan.id none_other) items plan.id
              day_id ingredient state)
          result.days (record { reserved = external; rows = [] }) tt in
      rw e at h
