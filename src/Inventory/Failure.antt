-- ===== src/Inventory/Failure.antt =====
-- backend/app/modules/inventory/router.py: what a request that fails leaves.
use fridgefriend.Http.Failures.{without_body_failed}
use fridgefriend.Http.Failures.{without_body_failed}
use fridgefriend.Inventory.Retry.{
  post_item, patch_item, put_item, erase_item, post_status, post_undo, Endpoint,
}
use fridgefriend.Inventory.Router.{ItemResponse}
use fridgefriend.Idempotency.Backend.{Backend}
use fridgefriend.Http.{Stored}
use fridgefriend.Prelude.{ℕ, ◌≡◌, none, some, if◌then◌else◌}
use fridgefriend.Scalar.{Float}
use fridgefriend.Inventory.Model.{InventoryItem, Db, removed}
use fridgefriend.Inventory.Repository.{Error, Result, err, get_by_id, is_reserved}
use fridgefriend.Inventory.Events.{log_event, snapshot_item}

module _ {W : Type 0} where
  -- An error leaves the tables `db` as they are.
  abbrev pub IsAtomic : Db W → Result (InventoryItem W) × Db W → Type 0
  IsAtomic db r = (e : Error) → r.0 ≡ err e → r.1 ≡ db

module _ {W : Type 0} ⦃f : Float W⦄ (u h i : ℕ) (db : Db W) where
  -- The tables after a removal that fails: that of a reserved item has been logged.
  abbrev pub after_refusal : Db W
  after_refusal = elim (get_by_id i h db) [
    | none ↦ db
    | some item ↦
        if is_reserved i db
        then log_event h u (some i) removed (some (snapshot_item item)) none db
        else db
  ]

module _ {W S : Type 0} ⦃f : Float W⦄ (b : Backend S (Stored (ItemResponse W))) (u h : ℕ) where
  -- The tables after a request that fails.
  abbrev pub after_failure : Endpoint W → Db W → Db W
  after_failure (erase_item i) db = after_refusal u h i db
  after_failure (post_item config payload today new_id) db = db
  after_failure (patch_item config i payload today) db = db
  after_failure (put_item config i payload today) db = db
  after_failure (post_status i status version) db = db
  after_failure (post_undo i) db = db
