-- ===== src/Planning/Allocation.antt =====
-- backend/app/modules/planning/reservation.py: what is reserved of the stock, and when a plan is
-- refused.
use fridgefriend.Prelude.{
  ℕ, All, String, ◌≡◌, refl, inl, inr, Bool, true, false, not, ◌||◌, List, [], ◌∷◌, map, arith,
  str_eq, eq_iff, if◌then◌else◌, Bool-cases,
}
use fridgefriend.Units.{convert_to_base}
use fridgefriend.Scalar.{Float, IsOrdered, nought, fmin, fmin-le_left, fmin-le_right, ◌⊖◌, ◌≼◌}
use fridgefriend.Inventory.Model.{InventoryItem}
use fridgefriend.Planning.Model.{ReservedIngredient}
use fridgefriend.Planning.Reservation.{allocate, allocate_quantity, free_base, tiny, to_row}

module _ {W : Type 0} ⦃f : Float W⦄ where
  -- A share of the item's free quantity, at most `limit`, in the unit `base_unit`.
  abbrev pub IsShare : (ℕ → W) → String → W → InventoryItem W × W → Type 0
  IsShare reserved base_unit limit (item, q) =
      ((q ≼ nought) ≡ false)
      × ((q ≼ free_base reserved item) ≡ true)
      × ((q ≼ limit) ≡ true)
      × ((convert_to_base item.quantity item.unit).1 ≡ base_unit)

  -- A row of the plan with a positive quantity.
  abbrev pub IsRow : ℕ → ReservedIngredient W → Type 0
  IsRow plan_id row = (row.meal_plan_id ≡ plan_id) × ((row.quantity_reserved ≼ nought) ≡ false)

  pub rows_of :
      (plan_id day_id : ℕ) (u : String) (reserved : ℕ → W) (limit : W)
      (xs : List (InventoryItem W × W))
      → All (IsShare reserved u limit) xs
      → All (IsRow plan_id) (map (to_row plan_id day_id u) xs)
  rows_of plan_id day_id u reserved limit [] h = tt
  rows_of plan_id day_id u reserved limit ((item, q) ∷ xs) h =
      ((refl, h.0.0), rows_of plan_id day_id u reserved limit xs h.1)

module _ {W : Type 0} ⦃f : Float W⦄ (o : IsOrdered W) where
  All-unless :
      (P : InventoryItem W × W → Type 0) (b : Bool) (xs : List (InventoryItem W × W))
      → All P xs
      → All P (if b then [] else xs)
  All-unless P true xs h = tt
  All-unless P false xs h = h

  weaken :
      (reserved : ℕ → W) (u : String) (a b : W) (xs : List (InventoryItem W × W))
      → (a ≼ b) ≡ true
      → All (IsShare reserved u a) xs
      → All (IsShare reserved u b) xs
  weaken reserved u a b [] h k = tt
  weaken reserved u a b ((item, q) ∷ xs) h k =
      ((k.0.0, k.0.1, o.le_trans q a b k.0.2 h, k.0.3), weaken reserved u a b xs h k.1)

  allocate-IsShare :
      (reserved : ℕ → W) (u : String) (limit : W) (items : List (InventoryItem W))
      → All (IsShare reserved u limit) (allocate reserved u limit items)
  unfolding allocate
  allocate-IsShare reserved u limit [] = tt
  allocate-IsShare reserved u limit (item ∷ items) =
      let free = free_base reserved item in
      let q = fmin free limit in
      let skip =
        not (str_eq (convert_to_base item.quantity item.unit).1 u)
        || (free ≼ nought)
        || (q ≼ nought) in
      elim (Bool-cases skip) [
        | inl skips ↦ rw skips (allocate-IsShare reserved u limit items)
        | inr takes ↦
            let positive : ((q ≼ nought) ≡ false)
                × ((convert_to_base item.quantity item.unit).1 ≡ u) =
              ground (arith, takes, eq_iff (convert_to_base item.quantity item.unit).1 u) in
            let less : (limit ⊖ q ≼ limit) ≡ true =
              o.sub_le q limit (ground (arith, positive.0, o.le_total nought q)) in
            rw takes (
              (positive.0, fmin-le_left o free limit, fmin-le_right o free limit, positive.1),
              All-unless (IsShare reserved u limit) (limit ⊖ q ≼ tiny) _ (
                  weaken reserved u (limit ⊖ q) limit _ less
                    (allocate-IsShare reserved u (limit ⊖ q) items)),
            )
      ]

  -- If the floats are ordered: whatever is asked for, each item that takes part gives a quantity that is positive, and at most
  -- what is asked for and what is free of that item; and its base unit is the one asked for.
  pub allocate_quantity-IsShare :
      (candidates : List (InventoryItem W)) (quantity : W) (unit : String) (reserved : ℕ → W)
      → All
          (IsShare reserved (convert_to_base quantity unit).1 (convert_to_base quantity unit).0)
          (allocate_quantity candidates quantity unit reserved)
  unfolding allocate_quantity
  allocate_quantity-IsShare candidates quantity unit reserved =
      allocate-IsShare reserved _ _ candidates
