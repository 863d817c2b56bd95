-- ===== src/Inventory/Model.antt =====
-- backend/app/models/inventory_item.py, backend/app/models/events.py and the payloads of
-- backend/app/modules/inventory/schemas.py. Identifiers are numbers, dates are ordinals.
use fridgefriend.Prelude.{ℕ, String, Bool, true, false, List, Option, none, some, ◌==◌, opt_eq}

pub data InventoryStatus : Type 0 where
  active used discarded frozen : InventoryStatus

pub data InventorySource : Type 0 where
  manual barcode photo : InventorySource

pub record InventoryItem (W : Type 0) : Type 0 where
  pub id : ℕ
  pub user_id : ℕ
  pub household_id : Option ℕ
  pub display_name : String
  pub quantity : W
  pub unit : String
  pub storage_location : String
  pub estimated_expiry_date : ℕ
  pub confidence : W
  pub status : InventoryStatus
  pub source : InventorySource
  pub canonical_name : String
  pub canonical_ingredient_id : Option ℕ
  pub version : ℕ

-- The dict that `snapshot_item` makes. The texts of identifiers, dates and enum values stand for
-- what they are parsed back to.
pub record Snapshot (W : Type 0) : Type 0 where
  pub id : ℕ
  pub user_id : ℕ
  pub household_id : Option ℕ
  pub display_name : String
  pub quantity : W
  pub unit : String
  pub storage_location : String
  pub estimated_expiry_date : ℕ
  pub confidence : W
  pub status : InventoryStatus
  pub source : InventorySource
  pub canonical_name : String
  pub canonical_ingredient_id : Option ℕ
  pub version : ℕ

pub data Action : Type 0 where
  added updated status_updated removed undone : Action

-- `none` is the empty dict.
pub record InventoryEvent (W : Type 0) : Type 0 where
  pub household_id : ℕ
  pub user_id : ℕ
  pub item_id : Option ℕ
  pub action : Action
  pub previous_state : Option (Snapshot W)
  pub new_state : Option (Snapshot W)

-- The two tables, the newest row first, what was handed to the event bus, the newest first, and the
-- `inventory_item_id` of each row of `reserved_ingredients`, which refers to a row of the first.
pub record Db (W : Type 0) : Type 0 where
  pub items : List (InventoryItem W)
  pub events : List (InventoryEvent W)
  pub published : List (InventoryEvent W)
  pub reserved : List ℕ

pub record ItemCreate (W : Type 0) : Type 0 where
  pub display_name : String
  pub quantity : W
  pub unit : String
  pub storage_location : String
  pub source : InventorySource
  pub canonical_name : Option String
  pub canonical_ingredient_id : Option ℕ
  pub estimated_expiry_date : Option ℕ
  pub confidence : W

-- A field of a partial update: absent from the payload, `null`, or a value.
pub data Field (A : Type 0) : Type 0 where
  unset null : Field A
  value : A → Field A

-- `confidence` is no field of the payload; `model_copy` may put it in.
pub record ItemUpdate (W : Type 0) : Type 0 where
  pub display_name : Field String
  pub quantity : Field W
  pub unit : Field String
  pub storage_location : Field String
  pub canonical_name : Field String
  pub canonical_ingredient_id : Field ℕ
  pub estimated_expiry_date : Field ℕ
  pub confidence : Field W
  pub version : Option ℕ

abbrev pub given : {A : Type 0} → Field A → Option A
given (value a) = some a
given unset = none
given null = none

module _ {W : Type 0} where
  abbrev pub has_id : ℕ → InventoryItem W → Bool
  has_id i x = x.id == i

  abbrev pub in_household : ℕ → InventoryItem W → Bool
  in_household h x = opt_eq x.household_id h

  -- `item.status in {USED, DISCARDED}`
  abbrev pub is_gone : InventoryItem W → Bool
  is_gone x = elim x.status [ used ↦ true | discarded ↦ true | active ↦ false | frozen ↦ false ]
