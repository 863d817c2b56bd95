-- ===== src/Inventory/Repository.antt =====
-- backend/app/modules/inventory/repository.py. A row is written by its primary key.
use fridgefriend.Prelude.{
  ℕ, ◌+◌, Bool, false, not, ◌&&◌, Option, none, some, List, ◌∷◌, map, ◌==◌, if◌then◌else◌, opt_eq,
  keep, find, exists, true, ◌||◌,
}
use fridgefriend.Inventory.Model.{
  InventoryItem, InventoryEvent, InventoryStatus, Db, ItemUpdate, Field, unset, null, value, has_id,
  in_household, is_gone,
}

-- What a service call raises: item not found, stale version, or the database's refusal of a row.
pub data Error : Type 0 where
  not_found stale_data integrity : Error

pub data Result (A : Type 0) : Type 0 where
  ok : A → Result A
  err : Error → Result A

-- `setattr` of a column, for the fields that the payload sets.
abbrev pub set_column : {A : Type 0} → Field A → A → A
set_column unset old = old
set_column null old = old
set_column (value new) old = new

abbrev pub set_nullable : Field ℕ → Option ℕ → Option ℕ
set_nullable unset old = old
set_nullable null old = none
set_nullable (value new) old = some new

abbrev pub is_null : {A : Type 0} → Field A → Bool
is_null unset = false
is_null null = true
is_null (value _) = false

module _ {W : Type 0} where
  unfoldable pub get_by_id : ℕ → ℕ → Db W → Option (InventoryItem W)
  get_by_id item_id household_id db =
      find (λ x. has_id item_id x && in_household household_id x) db.items

  unfoldable pub list_active : ℕ → Db W → List (InventoryItem W)
  list_active household_id db = keep (λ x. in_household household_id x && not (is_gone x)) db.items

  unfoldable pub create : InventoryItem W → Db W → Db W
  create item db = record db { items = item ∷ db.items }

  unfoldable pub replace : InventoryItem W → InventoryItem W → InventoryItem W
  replace new x = if has_id new.id x then new else x

  -- The commit of a changed row.
  unfoldable pub write : InventoryItem W → Db W → Db W
  write new db = record db { items = map (replace new) db.items }

  abbrev pub version_differs : Option ℕ → InventoryItem W → Bool
  version_differs none item = false
  version_differs (some expected_version) item = not (item.version == expected_version)

  -- The payload sets a column to null that may not be null. `dumps_extra` says whether `model_dump`
  -- lists a key that the payload's model does not declare.
  unfoldable pub refused : Bool → ItemUpdate W → Bool
  refused dumps_extra data' =
      is_null data'.display_name
      || is_null data'.quantity
      || is_null data'.unit
      || is_null data'.storage_location
      || is_null data'.canonical_name
      || is_null data'.estimated_expiry_date
      || (dumps_extra && is_null data'.confidence)

  unfoldable pub assigned : Bool → ItemUpdate W → InventoryItem W → InventoryItem W
  assigned dumps_extra data' item = record item {
    display_name = set_column data'.display_name item.display_name;
    quantity = set_column data'.quantity item.quantity;
    unit = set_column data'.unit item.unit;
    storage_location = set_column data'.storage_location item.storage_location;
    canonical_name = set_column data'.canonical_name item.canonical_name;
    canonical_ingredient_id =
        set_nullable data'.canonical_ingredient_id item.canonical_ingredient_id;
    estimated_expiry_date = set_column data'.estimated_expiry_date item.estimated_expiry_date;
    confidence =
        if dumps_extra then set_column data'.confidence item.confidence else item.confidence;
    version = item.version + 1;
  }

  -- The assignments of `update` and its commit.
  unfoldable pub assign : Bool → ItemUpdate W → InventoryItem W → Option (InventoryItem W)
  assign dumps_extra data' item =
      if refused dumps_extra data' then none else some (assigned dumps_extra data' item)

  abbrev pub commit : Option (InventoryItem W) → Db W → Result (InventoryItem W) × Db W
  commit none db = (err integrity, db)
  commit (some item) db = (ok item, write item db)

  -- `update`; an item that is not there is reported by the caller as not found.
  unfoldable pub update : Bool → ℕ → ℕ → ItemUpdate W → Db W → Result (InventoryItem W) × Db W
  update dumps_extra item_id household_id data' db = elim (get_by_id item_id household_id db) [
    | none ↦ (err not_found, db)
    | some item ↦
        if version_differs data'.version item
        then (err stale_data, db)
        else commit (assign dumps_extra data' item) db
  ]

  unfoldable pub update_status :
      ℕ → ℕ → InventoryStatus → Option ℕ → Db W → Result (InventoryItem W) × Db W
  update_status item_id household_id status expected_version db =
      elim (get_by_id item_id household_id db) [
        | none ↦ (err not_found, db)
        | some item ↦
            let item' = record item { status = status; version = item.version + 1 } in
            if version_differs expected_version item
            then (err stale_data, db)
            else (ok item', write item' db)
      ]

  unfoldable pub detach : ℕ → InventoryEvent W → InventoryEvent W
  detach item_id e = if opt_eq e.item_id item_id then record e { item_id = none } else e

  -- A row of `reserved_ingredients` refers to the item.
  abbrev pub is_reserved : ℕ → Db W → Bool
  is_reserved item_id db = exists (λ k. k == item_id) db.reserved

  -- The events of the item lose their reference to it, and the row goes, in one transaction. The
  -- database refuses to delete a row that a reservation refers to.
  unfoldable pub delete : ℕ → ℕ → Db W → Result (InventoryItem W) × Db W
  delete item_id household_id db = elim (get_by_id item_id household_id db) [
    | none ↦ (err not_found, db)
    | some item ↦ if is_reserved item.id db then (err integrity, db) else (
      ok item,
      record db {
        items = keep (λ x. not (has_id item.id x)) db.items;
        events = map (detach item.id) db.events;
      },
    )
  ]
