-- ===== src/Catalog/Examples.antt =====
-- The theorem on barcodes at a concrete product, and names that are normalised.
use fridgefriend.Prelude.{none, some, [], ◌∷◌, ◌≡◌, refl, arith, count}
use fridgefriend.Text.{strip, lstrip, rstrip, is_space, lower, lower_char, replace_char}
use fridgefriend.Units.{lookup}
use fridgefriend.Catalog.Names.{
  Patterns, normalize_ingredient_name, exact_or_generic, without_brand, after_prefix, dash_to_space,
}
use fridgefriend.Catalog.{
  CanonicalIngredient, BarcodeResult, Db, has_barcode, resolve_canonical,
  lookup_barcode_with_canonical,
}
use fridgefriend.Catalog.Laws.{is_linked, lookup_barcode_with_canonical_linked}

abbrev untouched : Patterns
untouched = record { without_parens = λ s. s; without_quantity = λ s. s; single_spaced = λ s. s }

branded_ketchup : normalize_ingredient_name untouched " Heinz Tomato-Ketchup" ≡ "ketchup"
unfolding normalize_ingredient_name exact_or_generic without_brand after_prefix dash_to_space strip
    lstrip rstrip is_space lower lower_char replace_char lookup
branded_ketchup = refl

abbrev tomato_result : BarcodeResult
tomato_result = record {
  barcode = "42";
  display_name = "Tesco Tomato";
  canonical_name = "Tesco Tomato";
  brand = "Tesco";
  unit = "unit";
}

abbrev shelf : Db
shelf = record {
  ingredients = [];
  barcodes =
      record {
        id = 7;
        barcode = "42";
        canonical_ingredient_id = 0;
        display_name = "";
        brand = none;
      }
      ∷ [];
}

lookup_barcode_with_canonical_linked_example :
    (canonical : CanonicalIngredient) × (after : Db) × (lookup_barcode_with_canonical untouched
        (λ barcode. some tomato_result)
        "42"
        1
        2
        (some shelf)
      ≡ (some (tomato_result, some canonical), some after))
    × (canonical.name ≡ normalize_ingredient_name untouched "Tesco Tomato")
    × (count (has_barcode "42") after.barcodes ≡ 1)
    × (count (is_linked tomato_result canonical) after.barcodes ≡ 1)
    × (resolve_canonical untouched "Tesco Tomato" 3 (some after) ≡ (some canonical, some after))
lookup_barcode_with_canonical_linked_example =
    lookup_barcode_with_canonical_linked untouched (λ barcode. some tomato_result) "42"
      tomato_result 1 2 3 shelf refl (unfold count has_barcode in omega arith)
