-- ===== src/Inventory/Events.antt =====
-- backend/app/modules/inventory/event_service.py: snapshots, the event log and undo.
use fridgefriend.Prelude.{
  ℕ, ◌+◌, max, Bool, true, false, ◌&&◌, ◌||◌, Option, none, some, ◌∷◌, ◌==◌, if◌then◌else◌, opt_eq,
  find, exists,
}
use fridgefriend.Inventory.Model.{
  InventoryItem, InventoryEvent, Snapshot, Action, removed, undone, Db, has_id,
}
use fridgefriend.Inventory.Repository.{
  Result, ok, err, not_found, integrity, get_by_id, create, write,
}

abbrev pub is_removed : Action → Bool
is_removed a = elim a [ removed ↦ true | _ ↦ false ]

module _ {W : Type 0} where
  unfoldable pub snapshot_item : InventoryItem W → Snapshot W
  snapshot_item item = record {
    id = item.id;
    user_id = item.user_id;
    household_id = item.household_id;
    display_name = item.display_name;
    quantity = item.quantity;
    unit = item.unit;
    storage_location = item.storage_location;
    estimated_expiry_date = item.estimated_expiry_date;
    confidence = item.confidence;
    status = item.status;
    source = item.source;
    canonical_name = item.canonical_name;
    canonical_ingredient_id = item.canonical_ingredient_id;
    version = item.version;
  }

  -- The event is stored, and then published.
  unfoldable pub log_event :
      ℕ → ℕ → Option ℕ → Action → Option (Snapshot W) → Option (Snapshot W) → Db W → Db W
  log_event household_id user_id item_id action previous_state new_state db =
      let event : InventoryEvent W = record {
        household_id = household_id;
        user_id = user_id;
        item_id = item_id;
        action = action;
        previous_state = previous_state;
        new_state = new_state;
      } in
      record db { events = event ∷ db.events; published = event ∷ db.published }

  -- `state.get("id") == str(item_id)`
  abbrev pub state_has_id : Option (Snapshot W) → ℕ → Bool
  state_has_id none item_id = false
  state_has_id (some s) item_id = s.id == item_id

  -- An event of this user in this household that is about the item.
  unfoldable pub is_about : ℕ → ℕ → ℕ → InventoryEvent W → Bool
  is_about item_id user_id household_id e =
      (e.user_id == user_id && e.household_id == household_id)
      && (opt_eq e.item_id item_id
          || state_has_id e.previous_state item_id
          || state_has_id e.new_state item_id)

  abbrev pub version_or_0 : Option (Snapshot W) → ℕ
  version_or_0 none = 0
  version_or_0 (some s) = s.version

  -- A new row from the snapshot of a removed item; it belongs to the user who undoes.
  unfoldable pub restored_item : ℕ → ℕ → Snapshot W → Option (Snapshot W) → InventoryItem W
  restored_item item_id user_id previous new_state = record {
    id = item_id;
    user_id = user_id;
    household_id = previous.household_id;
    display_name = previous.display_name;
    quantity = previous.quantity;
    unit = previous.unit;
    storage_location = previous.storage_location;
    estimated_expiry_date = previous.estimated_expiry_date;
    confidence = previous.confidence;
    status = previous.status;
    source = previous.source;
    canonical_name = previous.canonical_name;
    canonical_ingredient_id = previous.canonical_ingredient_id;
    version = max previous.version (version_or_0 new_state) + 1;
  }

  -- The assignments to a row that is still there.
  unfoldable pub reverted_item : InventoryItem W → Snapshot W → InventoryItem W
  reverted_item item previous = record item {
    household_id = previous.household_id;
    display_name = previous.display_name;
    quantity = previous.quantity;
    unit = previous.unit;
    storage_location = previous.storage_location;
    estimated_expiry_date = previous.estimated_expiry_date;
    confidence = previous.confidence;
    status = previous.status;
    source = previous.source;
    canonical_name = previous.canonical_name;
    canonical_ingredient_id = previous.canonical_ingredient_id;
    version = item.version + 1;
  }

  abbrev pub or_not_found : Option (InventoryItem W) → Result (InventoryItem W)
  or_not_found none = err not_found
  or_not_found (some item) = ok item

  -- Undoing a removal. The row is refused if the primary key is taken.
  unfoldable pub undo_removal :
      ℕ → ℕ → ℕ → Option (Snapshot W) → InventoryEvent W → Db W → Result (InventoryItem W) × Db W
  undo_removal item_id user_id household_id none e db = (err not_found, db)
  undo_removal item_id user_id household_id (some previous) e db =
      let item = restored_item item_id user_id previous e.new_state in
      if exists (has_id item_id) db.items then (err integrity, db) else (
        ok item,
        log_event household_id user_id (some item_id) undone e.new_state (some (snapshot_item item))
            (create item db),
      )

  -- Undoing any other event; with no row, or no previous state, nothing changes.
  unfoldable pub undo_change :
      ℕ
      → ℕ
      → ℕ
      → Option (InventoryItem W)
      → Option (Snapshot W)
      → InventoryEvent W
      → Db W
      → Result (InventoryItem W) × Db W
  undo_change item_id user_id household_id none previous_state e db = (err not_found, db)
  undo_change item_id user_id household_id (some item) none e db = (ok item, db)
  undo_change item_id user_id household_id (some item) (some previous) e db =
      let item' = reverted_item item previous in
      (
        ok item',
        log_event household_id user_id (some item_id) undone e.new_state
            (some (snapshot_item item')) (write item' db),
      )

  -- `undo_last`, whose `None` the service reports as not found.
  unfoldable pub undo_last : ℕ → ℕ → ℕ → Db W → Result (InventoryItem W) × Db W
  undo_last item_id user_id household_id db =
      elim (find (is_about item_id user_id household_id) db.events) [
        | none ↦ (err not_found, db)
        | some e ↦
            if is_removed e.action
            then undo_removal item_id user_id household_id e.previous_state e db
            else undo_change item_id user_id household_id (get_by_id item_id household_id db)
                e.previous_state e db
      ]
