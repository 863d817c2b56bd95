-- ===== src/Inventory/Restore.antt =====
-- backend/app/modules/inventory/service.py and event_service.py: undo brings a removed item back.
use fridgefriend.Prelude.{
  ℕ, Bool, true, false, opt_eq_iff, ◌+◌, ◌≡◌, refl, ap, not, none, some, ◌∷◌, map, arith, ==_iff,
  ==_self, keep, find,
}
use fridgefriend.Inventory.Model.{InventoryItem, InventoryEvent, removed, undone, Db, has_id}
use fridgefriend.Inventory.Repository
use fridgefriend.Inventory.Repository.{ok, err, integrity, get_by_id, detach, create, is_reserved}
use fridgefriend.Inventory.Events.{
  snapshot_item, log_event, is_about, restored_item, undo_removal, undo_last,
}
use fridgefriend.Inventory.Service.{delete_item, undo_last_event}
use fridgefriend.Inventory.Rows.{get_by_id-is_row, get_by_id_deleted, exists_deleted}

-- The event of a removal.
abbrev pub removal : {W : Type 0} → ℕ → ℕ → ℕ → InventoryItem W → InventoryEvent W
removal i u h item = record {
  household_id = h;
  user_id = u;
  item_id = some i;
  action = removed;
  previous_state = some (snapshot_item item);
  new_state = none;
}

-- The tables after the removal of the rows with the identifier `i`.
abbrev pub removed_rows : {W : Type 0} → ℕ → ℕ → ℕ → InventoryItem W → Db W → Db W
removed_rows i u h item db = record db {
  items = keep (λ x. not (has_id i x)) db.items;
  events = map (detach i) (removal i u h item ∷ db.events);
  published = removal i u h item ∷ db.published;
}

module _ {W : Type 0} (i u h : ℕ) (item : InventoryItem W) (db : Db W)
    (found : get_by_id i h db ≡ some item) where
  abbrev after_removal : Db W
  after_removal = removed_rows i u h item db

  -- The rows named by `k` are gone, and the log has the removal of `i`.
  abbrev rows_without : ℕ → Db W
  rows_without k = record after_removal {
    items = keep (λ x. not (has_id k x)) db.items;
    events = map (detach k) (removal i u h item ∷ db.events);
  }

  logged_found :
      get_by_id i h (log_event h u (some i) removed (some (snapshot_item item)) none db) ≡ some item
  unfolding log_event get_by_id
  logged_found = found

  reserved_item : (b : Bool) → is_reserved i db ≡ b → is_reserved item.id db ≡ b
  reserved_item b e = rw (get_by_id-is_row i h db item found).0 e

  -- The tables after a removal that is logged and then refused.
  abbrev pub marked_removed : Db W
  marked_removed = log_event h u (some i) removed (some (snapshot_item item)) none db

  pub delete_item_reserved :
      is_reserved i db ≡ true → delete_item i u h db ≡ (err integrity, marked_removed)
  unfolding delete_item log_event Repository.delete
  delete_item_reserved taken =
      rw (found, delete_item) (rw (logged_found, reserved_item true taken, Repository.delete) refl)

  pub delete_item-eq : is_reserved i db ≡ false → delete_item i u h db ≡ (ok item, after_removal)
  unfolding delete_item log_event Repository.delete
  delete_item-eq free =
      rw (found, delete_item)
        (rw (logged_found, reserved_item false free, Repository.delete)
          (ap (λ (k : ℕ). (ok item, rows_without k)) (get_by_id-is_row i h db item found).0))

  abbrev newest_event : InventoryEvent W
  newest_event = record (removal i u h item) { item_id = none }

  newest : find (is_about i u h) after_removal.events ≡ some newest_event
  unfolding find is_about detach snapshot_item
  newest = ground (arith, ==_self u, ==_self h, ==_self i, (get_by_id-is_row i h db item found).0)

  -- The removed item, owned by the user who undoes, one version on.
  abbrev pub restored : InventoryItem W
  restored = record item { user_id = u; version = item.version + 1 }

  restored-eq : restored_item i u (snapshot_item item) none ≡ restored
  unfolding restored_item snapshot_item
  restored-eq = ground (arith, (get_by_id-is_row i h db item found).0)

  undo_removed : undo_last i u h after_removal ≡ (
    ok restored,
    log_event h u
        (some i)
        undone
        none
        (some (snapshot_item restored))
        (create restored after_removal),
  )
  unfolding undo_last undo_removal
  undo_removed =
      rw (newest, undo_last) (rw (exists_deleted i db.items, undo_removal) (rw restored-eq refl))

  -- A removal of an item that is there and that no plan has reserved takes it away. Undo by the same
  -- user then returns it under its identifier with
  -- every field as it was but the user, who is the one that undoes, and the version, which is one
  -- higher, and that is the stored row.
  pub undo-delete_item :
      is_reserved i db ≡ false
      → let after = (delete_item i u h db).1 in
        (get_by_id i h after ≡ none)
        × ((undo_last_event i u h after).0 ≡ ok restored)
        × (get_by_id i h (undo_last_event i u h after).1 ≡ some restored)
  unfolding undo_last_event get_by_id
  undo-delete_item free =
      rw (delete_item-eq free, undo_removed) (get_by_id_deleted i h db.items, refl, read)
    where
      read :
          get_by_id i h (
            log_event h u
              (some i)
              undone
              none
              (some (snapshot_item restored))
              (create restored after_removal))
          ≡ some restored
      read =
          let row = get_by_id-is_row i h db item found in
          unfold get_by_id log_event create find in
          ground (arith, row, ==_iff item.id i, opt_eq_iff item.household_id h)
