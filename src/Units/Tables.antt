-- ===== src/Units/Tables.antt =====
-- The two dict literals of backend/app/core/units.py.
use fridgefriend.Prelude.{String, List, [], ◌∷◌}
use fridgefriend.Scalar.{Float}

unfoldable pub unit_aliases : List (String × String)
unit_aliases =
    ("g", "g")
    ∷ ("gram", "g")
    ∷ ("grams", "g")
    ∷ ("kg", "kg")
    ∷ ("kilogram", "kg")
    ∷ ("kilograms", "kg")
    ∷ ("ml", "ml")
    ∷ ("milliliter", "ml")
    ∷ ("milliliters", "ml")
    ∷ ("millilitre", "ml")
    ∷ ("millilitres", "ml")
    ∷ ("l", "l")
    ∷ ("liter", "l")
    ∷ ("liters", "l")
    ∷ ("litre", "l")
    ∷ ("litres", "l")
    ∷ ("oz", "oz")
    ∷ ("ounce", "oz")
    ∷ ("ounces", "oz")
    ∷ ("lb", "lb")
    ∷ ("lbs", "lb")
    ∷ ("pound", "lb")
    ∷ ("pounds", "lb")
    ∷ ("cup", "cup")
    ∷ ("cups", "cup")
    ∷ ("tbsp", "tbsp")
    ∷ ("tablespoon", "tbsp")
    ∷ ("tablespoons", "tbsp")
    ∷ ("tsp", "tsp")
    ∷ ("teaspoon", "tsp")
    ∷ ("teaspoons", "tsp")
    ∷ ("gallon", "gallon")
    ∷ ("gallons", "gallon")
    ∷ ("pint", "pint")
    ∷ ("pints", "pint")
    ∷ ("piece", "piece")
    ∷ ("pieces", "piece")
    ∷ ("unit", "unit")
    ∷ ("units", "unit")
    ∷ ("pack", "pack")
    ∷ ("packs", "pack")
    ∷ ("pk", "pack")
    ∷ ("bunch", "bunch")
    ∷ ("can", "can")
    ∷ ("cans", "can")
    ∷ ("bottle", "bottle")
    ∷ ("bottles", "bottle")
    ∷ ("slice", "slice")
    ∷ ("slices", "slice")
    ∷ []

module _ {W : Type 0} ⦃f : Float W⦄ where
  unfoldable pub conversion_to_base : List (String × (String × W))
  conversion_to_base =
      ("g", ("g", f.lit 1 0))
      ∷ ("kg", ("g", f.lit 1000 0))
      ∷ ("oz", ("g", f.lit 283495 4))
      ∷ ("lb", ("g", f.lit 453592 3))
      ∷ ("ml", ("ml", f.lit 1 0))
      ∷ ("l", ("ml", f.lit 1000 0))
      ∷ ("gallon", ("ml", f.lit 378541 2))
      ∷ ("pint", ("ml", f.lit 473176 3))
      ∷ ("cup", ("ml", f.lit 236588 3))
      ∷ ("tbsp", ("ml", f.lit 14787 3))
      ∷ ("tsp", ("ml", f.lit 4929 3))
      ∷ []
