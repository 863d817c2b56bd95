-- ===== src/Units/Examples.antt =====
-- The theorems on units at concrete units, over fixed-point numbers.
use fridgefriend.Prelude.{ℕ, ◌≡◌, ◌≢◌, ◌↔◌, true, none, str_eq}
use fridgefriend.Scalar.{nano}
use fridgefriend.Units.{convert_quantity, convert_to_base, are_units_compatible}
use fridgefriend.Units.Laws.{compatible-eq-same_base, convert_quantity-ne-none_iff}

compatible-eq-same_base_example :
    are_units_compatible ℕ "kg" "oz"
    ≡ str_eq (convert_to_base {W = ℕ} 3 "kg").1 (convert_to_base {W = ℕ} 5 "oz").1
compatible-eq-same_base_example = compatible-eq-same_base ℕ 3 5 "kg" "oz"

convert_quantity-ne-none_iff_example :
    (convert_quantity {W = ℕ} 7 "cup" "gram" ≢ none) ↔ (are_units_compatible ℕ "cup" "gram" ≡ true)
convert_quantity-ne-none_iff_example = convert_quantity-ne-none_iff ℕ 7 "cup" "gram"
