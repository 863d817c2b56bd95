-- ===== src/Inventory/Undo.antt =====
-- backend/app/modules/inventory/event_service.py: undo takes back the last call on an item.
use fridgefriend.Inventory.Success.{
  update_status-eq, with_status, update_item-eq, payload, outcome, assign_keeps,
}
use fridgefriend.Scalar.{Float}
use fridgefriend.Inventory.Service.{undo_last_event, Config, update_status, update_item}
use fridgefriend.Inventory.Rows.{get_by_id-is_row, get_by_id-write}
use fridgefriend.Prelude.{
  ℕ, ◌≡◌, refl, false, Option, some, arith, ==_self, find, ◌+◌, sym, ◌∙◌, inl, inr, Bool, true,
  none, if◌then◌else◌, Bool-cases,
}
use fridgefriend.Inventory.Model.{
  InventoryItem, Snapshot, Action, undone, Db, InventoryEvent, InventoryStatus, ItemUpdate,
  status_updated, updated,
}
use fridgefriend.Inventory.Repository.{
  ok, get_by_id, write, version_differs, assign, err, stale_data,
}
use fridgefriend.Inventory.Events.{
  snapshot_item, log_event, is_about, reverted_item, is_removed, undo_change, undo_last,
}

module _ {W : Type 0} (i u h : ℕ) where
  module _ (a : Action) (s : Snapshot W) (n : Option (Snapshot W)) (db : Db W) where
    abbrev written : Db W
    written = log_event h u (some i) a (some s) n db

    abbrev event : InventoryEvent W
    event = record {
      household_id = h;
      user_id = u;
      item_id = some i;
      action = a;
      previous_state = some s;
      new_state = n;
    }

    newest : find (is_about i u h) written.events ≡ some event
    unfolding log_event find is_about
    newest = ground (arith, ==_self u, ==_self h, ==_self i)

    same_rows : get_by_id i h written ≡ get_by_id i h db
    unfolding log_event get_by_id
    same_rows = refl

    -- Undoing the newest event of the user on a row that is there.
    undo_logged :
        (x : InventoryItem W)
        → is_removed a ≡ false
        → get_by_id i h db ≡ some x
        → undo_last i u h written ≡ (
          ok (reverted_item x s),
          log_event h u
              (some i)
              undone
              n
              (some (snapshot_item (reverted_item x s)))
              (write (reverted_item x s) written),
        )
    unfolding undo_last undo_change
    undo_logged x kind found =
        rw (newest, undo_last) (rw (kind, same_rows, found, undo_change) refl)

  get_by_id-log_event :
      (a : Action) (s n : Option (Snapshot W)) (db : Db W)
      → get_by_id i h (log_event h u (some i) a s n db) ≡ get_by_id i h db
  unfolding log_event get_by_id
  get_by_id-log_event a s n db = refl

  -- The item as it was, two versions on.
  abbrev pub bumped : InventoryItem W → InventoryItem W
  bumped item = record item { version = item.version + 1 + 1 }

  -- A row that one call has changed and logged is put back by undo.
  module _ (a : Action) (item y : InventoryItem W) (db : Db W) where
    abbrev changed : Db W
    changed =
        log_event h u (some i) a (some (snapshot_item item)) (some (snapshot_item y)) (write y db)

    undo_changed :
        is_removed a ≡ false
        → get_by_id i h db ≡ some item
        → y.id ≡ item.id
        → y.household_id ≡ item.household_id
        → reverted_item y (snapshot_item item) ≡ bumped item
        → ((undo_last i u h changed).0 ≡ ok (bumped item))
          × (get_by_id i h (undo_last i u h changed).1 ≡ some (bumped item))
    undo_changed kind found same_id same_household reverted =
        let row = get_by_id-is_row i h db item found in
        let there =
          get_by_id-write i h db item y found (same_id ∙ row.0) (same_household ∙ row.1) in
        let s = snapshot_item item in
        let n = some (snapshot_item y) in
        let back = undo_logged a s n (write y db) y kind there in
        let kept = get_by_id-log_event a (some s) n (write y db) ∙ there in
        let read = get_by_id-write i h changed y (bumped item) kept row.0 row.1 in
        rw (back, reverted)
          (
            refl,
            get_by_id-log_event undone n (some (snapshot_item (bumped item)))
                  (write (bumped item) changed)
                ∙ read,
          )

  -- After a successful change of status, undo by the same user returns the item with every field as
  -- it was before the change and the version two higher, and that is then the stored row.
  pub undo-update_status :
      (status : InventoryStatus) (version : Option ℕ) (item y : InventoryItem W) (db : Db W)
      → get_by_id i h db ≡ some item
      → (update_status i u h status version db).0 ≡ ok y
      → let after = (update_status i u h status version db).1 in
        ((undo_last_event i u h after).0 ≡ ok (bumped item))
        × (get_by_id i h (undo_last_event i u h after).1 ≡ some (bumped item))
  unfolding undo_last_event reverted_item snapshot_item
  undo-update_status status version item y db found done =
      elim (Bool-cases (version_differs version item)) [
        | inl stale ↦
            absurd
              (ground (arith, stale, done, update_status-eq i u h item db found status version))
        | inr fresh ↦
            rw (update_status-eq i u h item db found status version, fresh)
              (undo_changed status_updated item (with_status i u h item db found status) db refl
                found refl refl refl)
      ]

  -- The outcome of an update, whether refused or written, with an undo behind it.
  undone_outcome :
      (dumps_extra stale : Bool) (data' : ItemUpdate W) (item y : InventoryItem W) (db : Db W)
      (found : get_by_id i h db ≡ some item) (o : Option (InventoryItem W))
      → o ≡ assign dumps_extra data' item
      → (if stale then (err stale_data, db) else outcome i u h item db found o).0 ≡ ok y
      → let after = (if stale then (err stale_data, db) else outcome i u h item db found o).1 in
        ((undo_last i u h after).0 ≡ ok (bumped item))
        × (get_by_id i h (undo_last i u h after).1 ≡ some (bumped item))
  undone_outcome dumps_extra true data' item y db found o e done = cc
  undone_outcome dumps_extra false data' item y db found none e done = cc
  undone_outcome dumps_extra false data' item y db found (some z) e done =
      let keeps = assign_keeps i u h item db found dumps_extra data' z (sym e) in
      undo_changed updated item z db refl found keeps.0 keeps.2
        (unfold reverted_item snapshot_item in ground (arith, keeps))

  -- After a successful update, undo by the same user returns the item with every field as it was
  -- before the update and the version two higher, and that is then the stored row.
  pub undo-update_item :
      ⦃f : Float W⦄ (config : Config W) (data' : ItemUpdate W) (today : ℕ)
      (item y : InventoryItem W) (db : Db W)
      → get_by_id i h db ≡ some item
      → (update_item config i u h data' today db).0 ≡ ok y
      → let after = (update_item config i u h data' today db).1 in
        ((undo_last_event i u h after).0 ≡ ok (bumped item))
        × (get_by_id i h (undo_last_event i u h after).1 ≡ some (bumped item))
  unfolding undo_last_event
  undo-update_item config data' today item y db found done =
      rw (update_item-eq i u h item db found config data' today) (
        undone_outcome config.dumps_extra
          (version_differs (payload i u h item db found config data' today).version item)
          (payload i u h item db found config data' today) item y db found _ refl
          (rw (update_item-eq i u h item db found config data' today) at done))
