-- ===== src/Inventory/Router.antt =====
-- backend/app/modules/inventory/router.py. The user, their active household, the catalogue and the
-- date, which FastAPI's dependencies give, come as arguments. `S` is the state of the caches.
use fridgefriend.Prelude.{ℕ, String, Option, List, map}
use fridgefriend.Scalar.{Float}
use fridgefriend.Inventory.Model.{
  InventoryItem, InventorySource, InventoryStatus, ItemCreate, ItemUpdate, Db,
}
use fridgefriend.Inventory.Repository.{Error, Result, ok, err, not_found, stale_data, integrity}
use fridgefriend.Inventory.Service.{
  Config, create_item, list_active_items, get_item, update_item, delete_item, update_status,
  undo_last_event,
}
use fridgefriend.Idempotency.Backend.{Backend}
use fridgefriend.Http.{
  Request, Failure, http_exception, uncaught, Outcome, returns, raises, Answer, answered, failed,
  Stored, with_body, without_body,
}

-- `ItemResponse`, without the time stamps.
pub record ItemResponse (W : Type 0) : Type 0 where
  pub id : ℕ
  pub user_id : ℕ
  pub display_name : String
  pub quantity : W
  pub unit : String
  pub storage_location : String
  pub estimated_expiry_date : ℕ
  pub confidence : W
  pub status : InventoryStatus
  pub source : InventorySource
  pub canonical_name : String
  pub canonical_ingredient_id : Option ℕ
  pub version : ℕ

-- `_raise_not_found`
abbrev pub raise_not_found : Failure
raise_not_found = http_exception 404 "Item not found"

-- `_raise_version_conflict`
abbrev pub raise_version_conflict : Failure
raise_version_conflict = http_exception 409 "Item version conflict"

-- Both `except` clauses of an endpoint that writes a row.
unfoldable pub except_not_found_or_stale : Error → Failure
except_not_found_or_stale not_found = raise_not_found
except_not_found_or_stale stale_data = raise_version_conflict
except_not_found_or_stale integrity = uncaught

-- The one `except` clause of the others.
unfoldable pub except_not_found : Error → Failure
except_not_found not_found = raise_not_found
except_not_found stale_data = uncaught
except_not_found integrity = uncaught

module _ {W : Type 0} where
  -- `ItemResponse.model_validate`
  unfoldable pub item_response : InventoryItem W → ItemResponse W
  item_response item = record {
    id = item.id;
    user_id = item.user_id;
    display_name = item.display_name;
    quantity = item.quantity;
    unit = item.unit;
    storage_location = item.storage_location;
    estimated_expiry_date = item.estimated_expiry_date;
    confidence = item.confidence;
    status = item.status;
    source = item.source;
    canonical_name = item.canonical_name;
    canonical_ingredient_id = item.canonical_ingredient_id;
    version = item.version;
  }

  unfoldable pub respond :
      (Error → Failure) → Result (InventoryItem W) × Db W → Outcome (ItemResponse W) × Db W
  respond except (ok item, db) = (returns (item_response item), db)
  respond except (err e, db) = (raises (except e), db)

  unfoldable pub respond_empty :
      (Error → Failure) → Result (InventoryItem W) × Db W → Outcome (Unit {0}) × Db W
  respond_empty except (ok item, db) = (returns tt, db)
  respond_empty except (err e, db) = (raises (except e), db)

  unfoldable pub list_items_endpoint : ℕ → Db W → List (ItemResponse W)
  list_items_endpoint household_id db = map item_response (list_active_items household_id db)

  unfoldable pub get_item_endpoint : ℕ → ℕ → Db W → Answer (ItemResponse W)
  get_item_endpoint item_id household_id db = elim (get_item item_id household_id db) [
    | ok item ↦ answered (item_response item)
    | err e ↦ failed (except_not_found e)
  ]

module _ {W S : Type 0} ⦃f : Float W⦄ (b : Backend S (Stored (ItemResponse W))) (r : Request)
    (u h : ℕ) where
  unfoldable pub create_item_endpoint :
      Config W → ItemCreate W → ℕ → ℕ → Db W × S → Answer (ItemResponse W) × (Db W × S)
  create_item_endpoint config payload today new_id =
      with_body b r (λ db. respond (λ e. uncaught) (create_item config u h payload today new_id db))

  unfoldable pub update_item_endpoint :
      Config W → ℕ → ItemUpdate W → ℕ → Db W × S → Answer (ItemResponse W) × (Db W × S)
  update_item_endpoint config item_id payload today =
      with_body b r
        (λ db. respond except_not_found_or_stale (update_item config item_id u h payload today db))

  unfoldable pub replace_item_endpoint :
      Config W → ℕ → ItemUpdate W → ℕ → Db W × S → Answer (ItemResponse W) × (Db W × S)
  replace_item_endpoint config item_id payload today =
      update_item_endpoint config item_id payload today

module _ {W S : Type 0} (b : Backend S (Stored (ItemResponse W))) (r : Request) (u h : ℕ) where
  unfoldable pub delete_item_endpoint : ℕ → Db W × S → Answer (ItemResponse W) × (Db W × S)
  delete_item_endpoint item_id =
      without_body b r (λ db. respond_empty except_not_found (delete_item item_id u h db))

  unfoldable pub update_item_status_endpoint :
      ℕ → InventoryStatus → Option ℕ → Db W × S → Answer (ItemResponse W) × (Db W × S)
  update_item_status_endpoint item_id status version =
      with_body b r
        (λ db. respond except_not_found_or_stale (update_status item_id u h status version db))

  unfoldable pub undo_item_event_endpoint : ℕ → Db W × S → Answer (ItemResponse W) × (Db W × S)
  undo_item_event_endpoint item_id =
      with_body b r (λ db. respond except_not_found (undo_last_event item_id u h db))
