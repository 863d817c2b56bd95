-- ===== src/Inventory/Effects.antt =====
-- What the calls of backend/app/modules/inventory/service.py can do to the item table: a call leaves
-- it alone, adds a row, rewrites the row that it has read, or deletes that row, or only logs that.
use fridgefriend.Prelude.{ℕ, All, ◌+◌, ◌≤◌, ◌≡◌, true, false, Option, none, some, count}
use fridgefriend.Inventory.Restore.{removed_rows}
use fridgefriend.Inventory.Repository.{create, get_by_id, write, is_reserved}
use fridgefriend.Units.{normalize_unit}
use fridgefriend.Inventory.Events.{snapshot_item, log_event}
use fridgefriend.Scalar.{Float, nought, ◌≼◌}
use fridgefriend.Inventory.Model.{
  InventoryStatus, Db, ItemCreate, ItemUpdate, InventoryItem, Snapshot, InventoryEvent, has_id,
  Action, removed,
}
use fridgefriend.Inventory.Service.{
  Config, create_item, update_item, update_status, delete_item, undo_last_event,
}

-- One call of the service by the user `u` in the household `h`.
pub data Call (W : Type 0) ⦃f : Float W⦄ : Type 0 where
  creates : Config W → ItemCreate W → ℕ → ℕ → Call W
  updates : Config W → ℕ → ItemUpdate W → ℕ → Call W
  changes_status : ℕ → InventoryStatus → Option ℕ → Call W
  deletes : ℕ → Call W
  undoes : ℕ → Call W

module _ {W : Type 0} ⦃f : Float W⦄ where
  unfoldable pub run : ℕ → ℕ → Call W → Db W → Db W
  run u h (creates config data' today new_id) db = (create_item config u h data' today new_id db).1
  run u h (updates config i data' today) db = (update_item config i u h data' today db).1
  run u h (changes_status i status version) db = (update_status i u h status version db).1
  run u h (deletes i) db = (delete_item i u h db).1
  run u h (undoes i) db = (undo_last_event i u h db).1

module _ {W : Type 0} ⦃f : Float W⦄ where
  -- A row with a normalised unit and a quantity that is not negative.
  abbrev pub IsClean : InventoryItem W → Type 0
  IsClean x = (normalize_unit x.unit ≡ x.unit) × ((nought ≼ x.quantity) ≡ true)

  -- A snapshot of a clean row of the household; the empty dict is one too.
  abbrev pub IsStateOf : ℕ → Option (Snapshot W) → Type 0
  IsStateOf h none = Unit
  IsStateOf h (some s) =
      (s.household_id ≡ some h) × (normalize_unit s.unit ≡ s.unit) × ((nought ≼ s.quantity) ≡ true)

  abbrev pub IsRecord : InventoryEvent W → Type 0
  IsRecord e = IsStateOf e.household_id e.previous_state × IsStateOf e.household_id e.new_state

  -- The invariant of the tables.
  pub record IsSound (db : Db W) : Type 0 where
    pub unique : (i : ℕ) → count (has_id i) db.items ≤ 1
    pub clean : All IsClean db.items
    pub records : All IsRecord db.events

  -- What a call in the household `h` may do to the tables; `marked` is the removal of a reserved
  -- item, which is logged before the database refuses it.
  pub data Effect (h : ℕ) (db db' : Db W) : Type 0 where
    untouched : db' ≡ db → Effect h db db'
    inserted :
        (u : ℕ) (a : Action) (y : InventoryItem W) (p : Option (Snapshot W))
        → count (has_id y.id) db.items ≡ 0
        → y.household_id ≡ some h
        → IsClean y
        → IsStateOf h p
        → db' ≡ log_event h u (some y.id) a p (some (snapshot_item y)) (create y db)
        → Effect h db db'
    rewrote :
        (u i : ℕ) (a : Action) (x y : InventoryItem W) (p : Option (Snapshot W))
        → get_by_id i h db ≡ some x
        → y.id ≡ i
        → y.household_id ≡ some h
        → y.version ≡ x.version + 1
        → IsClean y
        → IsStateOf h p
        → db' ≡ log_event h u (some i) a p (some (snapshot_item y)) (write y db)
        → Effect h db db'
    dropped :
        (u i : ℕ) (x : InventoryItem W)
        → get_by_id i h db ≡ some x
        → is_reserved i db ≡ false
        → db' ≡ removed_rows i u h x db
        → Effect h db db'
    marked :
        (u i : ℕ) (x : InventoryItem W)
        → get_by_id i h db ≡ some x
        → is_reserved i db ≡ true
        → db' ≡ log_event h u (some i) removed (some (snapshot_item x)) none db
        → Effect h db db'

  -- The snapshot of a clean row of the household is one.
  pub snapshot-IsStateOf :
      (h : ℕ) (y : InventoryItem W)
      → y.household_id ≡ some h
      → IsClean y
      → IsStateOf h (some (snapshot_item y))
  unfolding snapshot_item
  snapshot-IsStateOf h y e c = (e, c.0, c.1)

-- `uuid4` draws an identifier that no row has.
abbrev pub Fresh : {W : Type 0} ⦃f : Float W⦄ → Call W → Db W → Type 0
Fresh (creates config data' today new_id) db = count (has_id new_id) db.items ≡ 0
Fresh (updates config i data' today) db = Unit
Fresh (changes_status i status version) db = Unit
Fresh (deletes i) db = Unit
Fresh (undoes i) db = Unit
