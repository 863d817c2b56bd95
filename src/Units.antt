-- ===== src/Units.antt =====
-- backend/app/core/units.py: aliases of units, and conversion to the base units g and ml.
mod Tables
pub mod Laws
mod Examples
unfoldable pub use Tables.{unit_aliases, conversion_to_base}
use fridgefriend.Prelude.{
  ℕ, String, Bool, true, false, List, [], ◌∷◌, Option, none, some, str_eq, if◌then◌else◌,
}
use fridgefriend.Scalar.{Float, ◌⊗◌, ◌⊘◌}
use fridgefriend.Text.{normalize}

-- `d.get(k)` on a dict literal.
unfoldable pub lookup {ℓ} : {V : Type ℓ} → String → List (String × V) → Option V
lookup k [] = none
lookup k ((j, v) ∷ m) = if str_eq j k then some v else lookup k m

abbrev pub get_or : Option String → String → String
get_or none d = d
get_or (some v) d = v

unfoldable pub normalize_unit : String → String
normalize_unit raw_unit = get_or (lookup (normalize raw_unit) unit_aliases) (normalize raw_unit)

module _ {W : Type 0} ⦃f : Float W⦄ where
  unfoldable pub convert_to_base : W → String → W × String
  convert_to_base quantity unit = elim (lookup (normalize_unit unit) conversion_to_base) [
    | some (base_unit, factor) ↦ (quantity ⊗ factor, base_unit)
    | none ↦ (quantity, normalize_unit unit)
  ]

  -- `base_a[0] == base_b[0]`, false if either is missing.
  abbrev pub same_base : Option (String × W) → Option (String × W) → Bool
  same_base (some (a, _)) (some (b, _)) = str_eq a b
  same_base _ _ = false

  -- The second half of `convert_quantity`: `None` if a factor is missing or the bases differ.
  abbrev pub convert_between : W → Option (String × W) → Option (String × W) → Option W
  convert_between quantity (some (a, factor)) (some (b, factor')) =
      if str_eq a b then some (quantity ⊗ factor ⊘ factor') else none
  convert_between quantity _ _ = none

  unfoldable pub convert_quantity : W → String → String → Option W
  convert_quantity quantity from_unit to_unit =
      let norm_from = normalize_unit from_unit in
      let norm_to = normalize_unit to_unit in
      if str_eq norm_from norm_to
      then some quantity
      else convert_between quantity (lookup norm_from conversion_to_base)
          (lookup norm_to conversion_to_base)

module _ (W : Type 0) ⦃f : Float W⦄ where
  unfoldable pub are_units_compatible : String → String → Bool
  are_units_compatible unit_a unit_b =
      let norm_a = normalize_unit unit_a in
      let norm_b = normalize_unit unit_b in
      if str_eq norm_a norm_b
      then true
      else same_base (lookup norm_a (conversion_to_base {W = W})) (lookup norm_b conversion_to_base)
