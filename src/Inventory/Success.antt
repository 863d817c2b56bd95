-- ===== src/Inventory/Success.antt =====
-- backend/app/modules/inventory/service.py: what a call that succeeds has read, written and logged.
use fridgefriend.Inventory.Rows.{get_by_id-is_row}
use fridgefriend.Prelude.{
  ℕ, ◌+◌, ◌≡◌, refl, ap, ◌∙◌, inl, inr, Bool, Option, none, some, arith, if◌then◌else◌, Bool-cases,
}
use fridgefriend.Scalar.{Float}
use fridgefriend.Inventory.Model.{
  InventoryItem, InventoryStatus, Action, updated, status_updated, Db, ItemUpdate,
}
use fridgefriend.Inventory.Repository
use fridgefriend.Inventory.Repository.{
  Result, ok, err, get_by_id, write, assign, version_differs, assigned, refused,
}
use fridgefriend.Inventory.Events.{snapshot_item, log_event}
use fridgefriend.Inventory.Service.{Config, update_item, update_status, logged, completed}

module _ {W : Type 0} (i u h : ℕ) (item : InventoryItem W) (db : Db W)
    (found : get_by_id i h db ≡ some item) where
  -- The state after `item` is replaced by `y` and that is logged.
  abbrev pub logged_change : Action → InventoryItem W → Db W
  logged_change a y =
      log_event h u (some i) a (some (snapshot_item item)) (some (snapshot_item y)) (write y db)

  abbrev pub with_status : InventoryStatus → InventoryItem W
  with_status status = record item { status = status; version = item.version + 1 }

  update_status_row :
      (status : InventoryStatus) (version : Option ℕ)
      → Repository.update_status i h status version db ≡ (
          if version_differs version item
          then (err Repository.stale_data, db)
          else (ok (with_status status), write (with_status status) db))
  unfolding Repository.update_status
  update_status_row status version = rw (found, Repository.update_status)

  -- A change of status succeeds unless the version expected is another one.
  pub update_status-eq :
      (status : InventoryStatus) (version : Option ℕ)
      → update_status i u h status version db ≡ (
          if version_differs version item
          then (err Repository.stale_data, db)
          else (ok (with_status status), logged_change status_updated (with_status status)))
  unfolding update_status
  update_status-eq status version =
      rw (found, update_status)
        (rw (update_status_row status version)
          (unfold logged in ground (arith, (get_by_id-is_row i h db item found).0)))

  assigned_keeps :
      (dumps_extra : Bool) (data' : ItemUpdate W)
      → let y = assigned dumps_extra data' item in
        (y.id ≡ item.id)
        × (y.user_id ≡ item.user_id)
        × (y.household_id ≡ item.household_id)
        × (y.status ≡ item.status)
        × (y.source ≡ item.source)
        × (y.version ≡ item.version + 1)
  unfolding assigned
  assigned_keeps dumps_extra data' = (refl, refl, refl, refl, refl, refl)

  -- A row with its columns assigned keeps what an update may not touch.
  pub assign_keeps :
      (dumps_extra : Bool) (data' : ItemUpdate W) (y : InventoryItem W)
      → assign dumps_extra data' item ≡ some y
      → (y.id ≡ item.id)
        × (y.user_id ≡ item.user_id)
        × (y.household_id ≡ item.household_id)
        × (y.status ≡ item.status)
        × (y.source ≡ item.source)
        × (y.version ≡ item.version + 1)
  unfolding assign
  assign_keeps dumps_extra data' y e = elim (Bool-cases (refused dumps_extra data')) [
    | inl bad ↦ ground (arith, bad)
    | inr good ↦ ground (arith, good, assigned_keeps dumps_extra data')
  ]

  abbrev pub outcome : Option (InventoryItem W) → Result (InventoryItem W) × Db W
  outcome none = (err Repository.integrity, db)
  outcome (some y) = (ok y, logged_change updated y)

  logged_row :
      (r : Option (InventoryItem W))
      → ((y : InventoryItem W) → r ≡ some y → y.id ≡ i)
      → logged h u updated (some (snapshot_item item)) (Repository.commit r db) ≡ outcome r
  unfolding logged
  logged_row none same = refl
  logged_row (some y) same =
      ap
        (λ (k : ℕ). (
          ok y,
          log_event h u (some k) updated (some (snapshot_item item)) (some (snapshot_item y))
              (write y db),
        ))
        (same y refl)

  module _ ⦃f : Float W⦄ (config : Config W) (data' : ItemUpdate W) (today : ℕ) where
    abbrev pub payload : ItemUpdate W
    payload = completed config item today data'

    -- An update succeeds unless the version expected is another one, or a column gets a null that
    -- may not have one.
    pub update_item-eq : update_item config i u h data' today db ≡ (
        if version_differs payload.version item
        then (err Repository.stale_data, db)
        else outcome (assign config.dumps_extra payload item))
    unfolding update_item logged Repository.update
    update_item-eq =
        rw (found, update_item) (ap (logged h u updated (some (snapshot_item item))) row ∙ after)
      where
        row : Repository.update config.dumps_extra i h payload db ≡ (
            if version_differs payload.version item
            then (err Repository.stale_data, db)
            else Repository.commit (assign config.dumps_extra payload item) db)
        row = rw (found, Repository.update) refl

        same_id : (y : InventoryItem W) → assign config.dumps_extra payload item ≡ some y → y.id ≡ i
        same_id y e =
            (assign_keeps config.dumps_extra payload y e).0 ∙ (get_by_id-is_row i h db item found).0

        after :
            logged h u updated (some (snapshot_item item)) (
              if version_differs payload.version item
              then (err Repository.stale_data, db)
              else Repository.commit (assign config.dumps_extra payload item) db)
            ≡ (if version_differs payload.version item
                then (err Repository.stale_data, db)
                else outcome (assign config.dumps_extra payload item))
        after = elim (Bool-cases (version_differs payload.version item)) [
          | inl stale ↦ rw stale refl
          | inr fresh ↦ rw fresh (logged_row _ same_id)
        ]
