-- ===== src/Inventory/Examples.antt =====
-- The theorems on undo at concrete tables: two items of household 10, put there by user 1.
use fridgefriend.Inventory.Refinement.{run-Effect}
use fridgefriend.Inventory.Soundness.{run_others, run-IsSound}
use fridgefriend.Units.{unit_aliases, lookup}
use fridgefriend.Units.{normalize_unit, unit_aliases}
use fridgefriend.Inventory.Effects.{Effect, IsSound, run, changes_status, deletes, updates}
use fridgefriend.Text.{normalize}
use fridgefriend.Expiry.Service.{calculate_expiry}
use fridgefriend.Prelude.{
  ℕ, ◌*◌, ◌^◌, ◌≡◌, refl, false, none, some, [], ◌∷◌, find, exists, arith, keep, count,
}
use fridgefriend.Scalar.{nano, fmax, nano-IsOrdered}
use fridgefriend.Expiry.Rules.{
  default_shelf_life, shelf_life_days, get_shelf_life_days, find_exact, find_name, or_else,
}
use fridgefriend.Inventory.Model.{
  InventoryItem, Db, active, used, manual, ItemUpdate, value, unset, in_household,
}
use fridgefriend.Inventory.Repository
use fridgefriend.Inventory.Repository.{ok, get_by_id, assign, refused, assigned}
use fridgefriend.Inventory.Service.{
  Config, update_item, update_status, delete_item, undo_last_event, logged, completed,
  with_canonical, with_measures, with_expiry, normalize_quantity,
}
use fridgefriend.Inventory.Undo.{undo-update_item, bumped, undo-update_status}
use fridgefriend.Inventory.Restore.{undo-delete_item, restored}

abbrev pub milk : InventoryItem ℕ
milk = record {
  id = 7;
  user_id = 1;
  household_id = some 10;
  display_name = "Milk";
  quantity = 2 * 10 ^ 9;
  unit = "l";
  storage_location = "fridge";
  estimated_expiry_date = 107;
  confidence = 95 * 10 ^ 7;
  status = active;
  source = manual;
  canonical_name = "milk";
  canonical_ingredient_id = none;
  version = 1;
}

abbrev pub rice : InventoryItem ℕ
rice = record milk { id = 8; display_name = "Rice"; canonical_name = "rice" }

abbrev pub pantry : Db ℕ
pantry = record { items = rice ∷ milk ∷ []; events = []; published = []; reserved = [] }

abbrev pub no_catalog : Config ℕ
no_catalog = record {
  resolve_canonical = λ name. none;
  rules = shelf_life_days;
  default_life = default_shelf_life;
  dumps_extra = false;
}

-- Half a litre, moved to the freezer; the client has seen version 1.
abbrev pub moved : ItemUpdate ℕ
moved = record {
  display_name = unset;
  quantity = value (5 * 10 ^ 8);
  unit = unset;
  storage_location = value "freezer";
  canonical_name = unset;
  canonical_ingredient_id = unset;
  estimated_expiry_date = unset;
  confidence = unset;
  version = some 1;
}

there : get_by_id 7 10 pantry ≡ some milk
unfolding get_by_id find
there = refl

undo-delete_item_example :
    (get_by_id 7 10 (delete_item 7 2 10 pantry).1 ≡ none)
    × ((undo_last_event 7 2 10 (delete_item 7 2 10 pantry).1).0
        ≡ ok (restored 7 2 10 milk pantry there))
    × (get_by_id 7 10 (undo_last_event 7 2 10 (delete_item 7 2 10 pantry).1).1
        ≡ some (restored 7 2 10 milk pantry there))
unfolding exists
undo-delete_item_example = undo-delete_item 7 2 10 milk pantry there refl

abbrev pub moved_milk : InventoryItem ℕ
moved_milk = record milk {
  quantity = 5 * 10 ^ 8;
  storage_location = "freezer";
  estimated_expiry_date = 190;
  version = 2;
}

pub milk_moved : (update_item no_catalog 7 2 10 moved 100 pantry).0 ≡ ok moved_milk
unfolding update_item Repository.update completed with_canonical with_measures with_expiry
    calculate_expiry get_shelf_life_days find_exact find_name or_else shelf_life_days
    default_shelf_life normalize normalize_quantity fmax assign refused assigned logged get_by_id
    find
milk_moved = refl

undo-update_item_example :
    ((undo_last_event 7 2 10 (update_item no_catalog 7 2 10 moved 100 pantry).1).0
      ≡ ok (bumped 7 2 10 milk))
    × (get_by_id 7 10 (undo_last_event 7 2 10 (update_item no_catalog 7 2 10 moved 100 pantry).1).1
        ≡ some (bumped 7 2 10 milk))
undo-update_item_example =
    undo-update_item 7 2 10 no_catalog moved 100 milk moved_milk pantry there milk_moved

pantry-IsSound : IsSound pantry
unfolding count normalize_unit unit_aliases lookup normalize
pantry-IsSound = record {
  unique = λ i. ground arith;
  clean = ((refl, refl), ((refl, refl), tt));
  records = tt;
}

run-Effect_example : Effect 10 pantry (run 2 10 (changes_status 7 used (some 1)) pantry)
run-Effect_example =
    run-Effect nano-IsOrdered 2 10 (changes_status 7 used (some 1)) pantry pantry-IsSound tt

run-IsSound_example : IsSound (run 2 10 (deletes 7) pantry)
run-IsSound_example = run-IsSound nano-IsOrdered 2 10 (deletes 7) pantry pantry-IsSound tt

run_others_example :
    keep (in_household 11) (run 2 10 (updates no_catalog 7 moved 100) pantry).items
    ≡ keep (in_household 11) pantry.items
run_others_example =
    run_others nano-IsOrdered 2 10 11 (updates no_catalog 7 moved 100) pantry pantry-IsSound tt
      (λ e. omega arith)

undo-update_status_example :
    ((undo_last_event 7 2 10 (update_status 7 2 10 used (some 1) pantry).1).0
      ≡ ok (bumped 7 2 10 milk))
    × (get_by_id 7 10 (undo_last_event 7 2 10 (update_status 7 2 10 used (some 1) pantry).1).1
        ≡ some (bumped 7 2 10 milk))
undo-update_status_example =
    undo-update_status 7 2 10 used (some 1) milk (record milk { status = used; version = 2 }) pantry
      there (unfold update_status Repository.update_status logged get_by_id find in refl)
