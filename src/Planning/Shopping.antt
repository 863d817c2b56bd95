-- ===== src/Planning/Shopping.antt =====
-- backend/app/modules/planning/shopping_list.py. The reserved quantities are the pairs of a dict.
use fridgefriend.Prelude.{
  sort_by, String, Bool, ◌&&◌, Option, none, some, List, [], ◌∷◌, ◌++◌, if◌then◌else◌,
}
use fridgefriend.Text.{normalize, str_le}
use fridgefriend.Units.{convert_to_base, lookup}
use fridgefriend.Scalar.{Float, nought, fmax, ◌⊕◌, ◌⊖◌, ◌⊘◌, ◌≼◌, ◌≺◌}
use fridgefriend.Inventory.Model.{InventoryItem, is_gone}
use fridgefriend.Planning.Model.{
  RecipeIngredient, PlanDay, ShoppingItem, not_in_inventory, insufficient_quantity, put,
}

-- Quantities in base units by name.
abbrev pub Amounts : Type 0 → Type 0
Amounts W = List (String × (W × String))

-- `_IngredientRequirement`
pub record Requirement (W : Type 0) : Type 0 where
  pub base_quantity : W
  pub base_unit : String
  pub display_unit : String

module _ {W : Type 0} ⦃f : Float W⦄ where
  -- `d.get(key, (0.0, ""))[0]`
  abbrev pub amount_or_zero : Option (W × String) → W
  amount_or_zero none = nought
  amount_or_zero (some (quantity, _)) = quantity

  unfoldable pub add_amounts : List (InventoryItem W) → Amounts W → Amounts W
  add_amounts [] amounts = amounts
  add_amounts (item ∷ items) amounts =
      let key = normalize item.canonical_name in
      let (base_quantity, base_unit) = convert_to_base item.quantity item.unit in
      let further =
        add_amounts items
          (put key (amount_or_zero (lookup key amounts) ⊕ base_quantity, base_unit) amounts) in
      let same = add_amounts items amounts in if is_gone item then same else further

  unfoldable pub subtract_one : String → W → Option (W × String) → Amounts W → Amounts W
  subtract_one key reserved none amounts = amounts
  subtract_one key reserved (some (quantity, unit)) amounts =
      put key (fmax nought (quantity ⊖ (convert_to_base reserved unit).0), unit) amounts

  unfoldable pub subtract_reserved : List (String × W) → Amounts W → Amounts W
  subtract_reserved [] amounts = amounts
  subtract_reserved ((name, reserved) ∷ rest) amounts =
      subtract_reserved rest
        (subtract_one (normalize name) reserved (lookup (normalize name) amounts) amounts)

  unfoldable pub raised : RecipeIngredient W → Option (Requirement W) → Requirement W
  raised ingredient none =
      let (base_quantity, base_unit) = convert_to_base ingredient.quantity ingredient.unit in
      record {
        base_quantity = nought ⊕ base_quantity;
        base_unit = base_unit;
        display_unit = ingredient.unit;
      }
  raised ingredient (some requirement) = record requirement {
    base_quantity =
        requirement.base_quantity ⊕ (convert_to_base ingredient.quantity ingredient.unit).0;
  }

  unfoldable pub require_all :
      List (RecipeIngredient W) → List (String × Requirement W) → List (String × Requirement W)
  require_all [] requirements = requirements
  require_all (ingredient ∷ rest) requirements =
      let key = normalize ingredient.ingredient_name in
      require_all rest (put key (raised ingredient (lookup key requirements)) requirements)

  unfoldable pub require_days :
      List (PlanDay W) → List (String × Requirement W) → List (String × Requirement W)
  require_days [] requirements = requirements
  require_days (day ∷ days) requirements =
      require_days days (require_all day.recipe_ingredients requirements)

  -- The gap in the unit to display.
  unfoldable pub gap_display : W → String → W
  gap_display gap_base display_unit =
      let one_unit_in_base = (convert_to_base (f.lit 1 0) display_unit).0 in
      if nought ≺ one_unit_in_base then gap_base ⊘ one_unit_in_base else gap_base

  abbrev pub is_zero : W → Bool
  is_zero q = (q ≼ nought) && (nought ≼ q)

  unfoldable pub shopping_items :
      Amounts W → Amounts W → List (String × Requirement W) → List (ShoppingItem W)
  shopping_items available total [] = []
  shopping_items available total ((name, requirement) ∷ rest) =
      let have = amount_or_zero (lookup name available) in
      let items = shopping_items available total rest in
      if requirement.base_quantity ≼ have
      then items
      else record {
        ingredient_name = name;
        quantity =
            f.round3 (gap_display (requirement.base_quantity ⊖ have) requirement.display_unit);
        unit = requirement.display_unit;
        reason =
            if is_zero (amount_or_zero (lookup name total))
            then not_in_inventory
            else insufficient_quantity;
      }
        ∷ items

  unfoldable pub derive_shopping_list :
      List (PlanDay W) → List (InventoryItem W) → List (String × W) → List (ShoppingItem W)
  derive_shopping_list days inventory reserved_quantities =
      let total = add_amounts inventory [] in
      shopping_items (subtract_reserved reserved_quantities total) total
        (sort_by (λ a b. str_le a.0 b.0) (require_days days []))

  unfoldable pub merge_shopping_list_items :
      List (ShoppingItem W) → List (ShoppingItem W) → List (ShoppingItem W)
  merge_shopping_list_items derived_items manual_items = derived_items ++ manual_items
