-- ===== src/Catalog.antt =====
-- backend/app/modules/catalog: names of ingredients, and the tables of canonical ingredients and of
-- barcodes of service.py. The barcode service that is asked is a parameter. The oldest row of a table
-- comes first.
pub mod Names
pub mod Laws
mod Examples
use fridgefriend.Prelude.{
  ℕ, String, Bool, Option, none, some, List, [], ◌∷◌, ◌++◌, map, str_eq, find, if◌then◌else◌,
}
use fridgefriend.Catalog.Names.{Patterns, normalize_ingredient_name}

pub record CanonicalIngredient : Type 0 where
  pub id : ℕ
  pub name : String
  pub category : String
  pub aliases : List String

pub record ProductBarcode : Type 0 where
  pub id : ℕ
  pub barcode : String
  pub canonical_ingredient_id : ℕ
  pub display_name : String
  pub brand : Option String

pub record BarcodeResult : Type 0 where
  pub barcode : String
  pub display_name : String
  pub canonical_name : String
  pub brand : String
  pub unit : String

pub record Db : Type 0 where
  pub ingredients : List CanonicalIngredient
  pub barcodes : List ProductBarcode

unfoldable pub has_name : String → CanonicalIngredient → Bool
has_name name c = str_eq c.name name

unfoldable pub has_barcode : String → ProductBarcode → Bool
has_barcode barcode row = str_eq row.barcode barcode

abbrev pub new_ingredient : String → ℕ → CanonicalIngredient
new_ingredient name new_id = record {
  id = new_id;
  name = name;
  category = "uncategorized";
  aliases = [];
}

-- `resolve_canonical` with a session and a name that is normalised.
unfoldable pub resolve_in : String → ℕ → Db → CanonicalIngredient × Db
resolve_in name new_id db = elim (find (has_name name) db.ingredients) [
  | some existing ↦ (existing, db)
  | none ↦
      let ingredient = new_ingredient name new_id in
      (ingredient, record db { ingredients = db.ingredients ++ ingredient ∷ [] })
]

-- `_db_session` is `none` where the service has no session.
unfoldable pub resolve_canonical :
    Patterns → String → ℕ → Option Db → Option CanonicalIngredient × Option Db
resolve_canonical patterns name new_id none = (none, none)
resolve_canonical patterns name new_id (some db) =
    let (ingredient, db') = resolve_in (normalize_ingredient_name patterns name) new_id db in
    (some ingredient, some db')

-- The row of the barcode after it is found.
unfoldable pub relinked : BarcodeResult → CanonicalIngredient → ProductBarcode → ProductBarcode
relinked result canonical row =
    if has_barcode result.barcode row
    then record row {
      canonical_ingredient_id = canonical.id;
      display_name = result.display_name;
      brand = some result.brand;
    }
    else row

unfoldable pub linked :
    BarcodeResult → CanonicalIngredient → ℕ → List ProductBarcode → List ProductBarcode
linked result canonical new_id rows = elim (find (has_barcode result.barcode) rows) [
  | some existing ↦ map (relinked result canonical) rows
  | none ↦
      rows
      ++ record {
        id = new_id;
        barcode = result.barcode;
        canonical_ingredient_id = canonical.id;
        display_name = result.display_name;
        brand = some result.brand;
      }
        ∷ []
]

unfoldable pub upsert_product_barcode :
    BarcodeResult → CanonicalIngredient → ℕ → Option Db → Option Db
upsert_product_barcode result canonical new_id none = none
upsert_product_barcode result canonical new_id (some db) =
    some (record db { barcodes = linked result canonical new_id db.barcodes })

unfoldable pub link_result :
    BarcodeResult
    → ℕ
    → Option CanonicalIngredient × Option Db
    → Option (BarcodeResult × Option CanonicalIngredient) × Option Db
link_result result new_id (none, session) = (some (result, none), session)
link_result result new_id (some canonical, session) =
    (some (result, some canonical), upsert_product_barcode result canonical new_id session)

unfoldable pub lookup_barcode_with_canonical :
    Patterns
    → (String → Option BarcodeResult)
    → String
    → ℕ
    → ℕ
    → Option Db
    → Option (BarcodeResult × Option CanonicalIngredient) × Option Db
lookup_barcode_with_canonical patterns barcode_api barcode ingredient_id row_id session =
    elim (barcode_api barcode) [
      | none ↦ (none, session)
      | some result ↦
          link_result result row_id
            (resolve_canonical patterns result.canonical_name ingredient_id session)
    ]
