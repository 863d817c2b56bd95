-- ===== src/Inventory/Service.antt =====
-- backend/app/modules/inventory/service.py. The catalogue, today's date and the identifier of a new
-- row come as arguments.
use fridgefriend.Prelude.{
  ℕ, String, Bool, true, false, not, ◌&&◌, ◌||◌, Option, none, some, List, str_eq, if◌then◌else◌,
}
use fridgefriend.Scalar.{Float, nought, fmax}
use fridgefriend.Text.{is_empty}
use fridgefriend.Units.{normalize_unit}
use fridgefriend.Expiry.Rules.{Table}
use fridgefriend.Expiry.Service.{calculate_expiry}
use fridgefriend.Inventory.Model.{
  InventoryItem, InventorySource, manual, barcode, photo, InventoryStatus, active, Snapshot, Db,
  ItemCreate, ItemUpdate, Field, unset, null, value, given, added, updated, status_updated, removed,
  Action,
}
use fridgefriend.Inventory.Repository.{Result, ok, err, not_found, get_by_id, list_active}
use fridgefriend.Inventory.Repository
use fridgefriend.Inventory.Events.{snapshot_item, log_event, undo_last, or_not_found}

-- What `CatalogService.resolve_canonical` returns.
pub record Canonical : Type 0 where
  pub id : ℕ
  pub name : String

-- What a service is made with: the catalogue, if any, the shelf-life rules, and whether the dump of a
-- payload lists undeclared keys.
pub record Config (W : Type 0) : Type 0 where
  pub resolve_canonical : String → Option Canonical
  pub rules : Table W
  pub default_life : ℕ × W
  pub dumps_extra : Bool

-- `a or b` on an optional text.
abbrev pub or_text : Option String → String → String
or_text none d = d
or_text (some s) d = if is_empty s then d else s

abbrev pub name_of : Option Canonical → String → String
name_of none d = d
name_of (some c) d = c.name

-- `source in {BARCODE, PHOTO}`
abbrev pub is_scanned : InventorySource → Bool
is_scanned s = elim s [ manual ↦ false | barcode ↦ true | photo ↦ true ]

abbrev pub id_of : Option Canonical → Option ℕ → Option ℕ
id_of none d = d
id_of (some c) d = some c.id

abbrev pub canonical_id : Option Canonical → Field ℕ
canonical_id none = null
canonical_id (some c) = value c.id

abbrev pub map_field : {A : Type 0} → (A → A) → Field A → Field A
map_field g unset = unset
map_field g null = null
map_field g (value a) = value (g a)

abbrev pub changes : Option String → String → Bool
changes none old = false
changes (some new) old = not (str_eq new old)

abbrev pub is_none : Option ℕ → Bool
is_none none = true
is_none (some _) = false

module _ {W : Type 0} where
  -- The event of a call that wrote a row; one that failed logs nothing.
  unfoldable pub logged :
      ℕ
      → ℕ
      → Action
      → Option (Snapshot W)
      → Result (InventoryItem W) × Db W
      → Result (InventoryItem W) × Db W
  logged household_id user_id action previous_state (ok item, db) = (
    ok item,
    log_event household_id user_id (some item.id) action previous_state (some (snapshot_item item))
        db,
  )
  logged household_id user_id action previous_state (err e, db) = (err e, db)

module _ {W : Type 0} ⦃f : Float W⦄ where
  -- `max(0.0, round(quantity, 3))`
  unfoldable pub normalize_quantity : W → W
  normalize_quantity quantity = fmax nought (f.round3 quantity)

  -- The expiry date and the confidence of a new item.
  unfoldable pub new_expiry : Config W → ItemCreate W → String → ℕ → Option ℕ → ℕ × W
  new_expiry config data' canonical_name today (some expiry_date) = (expiry_date, data'.confidence)
  new_expiry config data' canonical_name today none =
      let (expiry_date, expiry_confidence) =
        calculate_expiry config.rules config.default_life canonical_name data'.storage_location
          today in
      (expiry_date, if is_scanned data'.source then data'.confidence else expiry_confidence)

  -- The row of `create_item`; the defaults of the columns give the status and the version.
  unfoldable pub new_item : Config W → ℕ → ℕ → ItemCreate W → ℕ → ℕ → InventoryItem W
  new_item config user_id household_id data' today new_id =
      let wanted = or_text data'.canonical_name data'.display_name in
      let canonical = config.resolve_canonical wanted in
      let canonical_name = name_of canonical wanted in
      let (expiry_date, confidence) =
        new_expiry config data' canonical_name today data'.estimated_expiry_date in
      record {
        id = new_id;
        user_id = user_id;
        household_id = some household_id;
        display_name = data'.display_name;
        quantity = normalize_quantity data'.quantity;
        unit = normalize_unit data'.unit;
        storage_location = data'.storage_location;
        estimated_expiry_date = expiry_date;
        confidence = confidence;
        status = active;
        source = data'.source;
        canonical_name = canonical_name;
        canonical_ingredient_id = id_of canonical data'.canonical_ingredient_id;
        version = 1;
      }

  unfoldable pub create_item :
      Config W → ℕ → ℕ → ItemCreate W → ℕ → ℕ → Db W → Result (InventoryItem W) × Db W
  create_item config user_id household_id data' today new_id db =
      let item = new_item config user_id household_id data' today new_id in
      (
        ok item,
        log_event household_id user_id (some new_id) added none (some (snapshot_item item))
            (Repository.create item db),
      )

  -- A new display name is looked up in the catalogue again.
  unfoldable pub with_canonical : Config W → ItemUpdate W → ItemUpdate W
  with_canonical config data' = elim (given data'.display_name) [
    | none ↦ data'
    | some display_name ↦
        let wanted = or_text (given data'.canonical_name) display_name in
        let canonical = config.resolve_canonical wanted in
        record data' {
          canonical_name = value (name_of canonical wanted);
          canonical_ingredient_id = canonical_id canonical;
        }
  ]

  unfoldable pub with_measures : ItemUpdate W → ItemUpdate W
  with_measures data' = record data' {
    unit = map_field normalize_unit data'.unit;
    quantity = map_field normalize_quantity data'.quantity;
  }

  -- A new name or storage location without an expiry date gives a new expiry estimate.
  unfoldable pub with_expiry : Config W → InventoryItem W → ℕ → ItemUpdate W → ItemUpdate W
  with_expiry config existing today data' =
      let expiry_fields_changed =
        changes (given data'.display_name) existing.display_name
        || changes (given data'.storage_location) existing.storage_location in
      let resolved_name = or_text (given data'.canonical_name) (
        or_text (some existing.canonical_name)
          (or_text (given data'.display_name) existing.display_name)) in
      let resolved_storage = or_text (given data'.storage_location) existing.storage_location in
      let (new_expiry, new_confidence) =
        calculate_expiry config.rules config.default_life resolved_name resolved_storage today in
      if is_none (given data'.estimated_expiry_date) && expiry_fields_changed
      then record data' {
        estimated_expiry_date = value new_expiry;
        confidence = value new_confidence;
      }
      else data'

  unfoldable pub completed : Config W → InventoryItem W → ℕ → ItemUpdate W → ItemUpdate W
  completed config existing today data' =
      with_expiry config existing today (with_measures (with_canonical config data'))

  unfoldable pub update_item :
      Config W → ℕ → ℕ → ℕ → ItemUpdate W → ℕ → Db W → Result (InventoryItem W) × Db W
  update_item config item_id user_id household_id data' today db =
      elim (get_by_id item_id household_id db) [
        | none ↦ (err not_found, db)
        | some existing ↦ logged household_id user_id updated (some (snapshot_item existing)) (
            Repository.update config.dumps_extra item_id household_id
              (completed config existing today data') db)
      ]

module _ {W : Type 0} where
  unfoldable pub list_active_items : ℕ → Db W → List (InventoryItem W)
  list_active_items household_id db = list_active household_id db

  unfoldable pub get_item : ℕ → ℕ → Db W → Result (InventoryItem W)
  get_item item_id household_id db = or_not_found (get_by_id item_id household_id db)

  unfoldable pub delete_item : ℕ → ℕ → ℕ → Db W → Result (InventoryItem W) × Db W
  delete_item item_id user_id household_id db = elim (get_by_id item_id household_id db) [
    | none ↦ (err not_found, db)
    | some existing ↦ Repository.delete item_id household_id (
        log_event household_id user_id (some item_id) removed (some (snapshot_item existing)) none
          db)
  ]

  unfoldable pub undo_last_event : ℕ → ℕ → ℕ → Db W → Result (InventoryItem W) × Db W
  undo_last_event item_id user_id household_id db = undo_last item_id user_id household_id db

  unfoldable pub update_status :
      ℕ → ℕ → ℕ → InventoryStatus → Option ℕ → Db W → Result (InventoryItem W) × Db W
  update_status item_id user_id household_id status version db =
      elim (get_by_id item_id household_id db) [
        | none ↦ (err not_found, db)
        | some existing ↦
            logged household_id user_id status_updated (some (snapshot_item existing))
              (Repository.update_status item_id household_id status version db)
      ]
