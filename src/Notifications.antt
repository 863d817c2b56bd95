-- ===== src/Notifications.antt =====
-- backend/app/modules/notifications/tasks.py: quiet hours and the items to remind a user of. A time
-- of day is a number, a date its ordinal; the tables of items and memberships are arguments.
pub mod Reminders
pub mod Service
pub mod Tasks
pub mod Tokens
pub mod Router
mod Examples
use fridgefriend.Prelude.{
  ℕ, sort_by, ◌+◌, ◌-◌, ◌/◌, Bool, true, false, not, ◌&&◌, ◌||◌, Option, none, some, List, [], ltb,
  leb, ◌==◌, if◌then◌else◌, keep, exists,
}
use fridgefriend.Text.{str_le}
use fridgefriend.Household.Model.{HouseholdMember, of_user}
use fridgefriend.Inventory.Model.{InventoryItem, is_gone, in_household}

-- `_is_within_quiet_hours`
unfoldable pub is_within_quiet_hours : ℕ → Option ℕ → Option ℕ → Bool
is_within_quiet_hours current none end = false
is_within_quiet_hours current (some start) none = false
is_within_quiet_hours current (some start) (some end) =
    if start == end
    then true
    else if ltb start end
    then leb start current && ltb current end
    else leb start current || ltb current end

module _ {W : Type 0} where
  -- The condition of the query of `_collect_due_items`.
  unfoldable pub is_due : List HouseholdMember → ℕ → ℕ → InventoryItem W → Bool
  is_due memberships current_date threshold_date item =
      (exists (λ m. in_household m.household_id item) memberships && not (is_gone item))
      && (leb current_date item.estimated_expiry_date
          && leb item.estimated_expiry_date threshold_date)

  -- The order of the query: by date, then by name.
  abbrev pub due_before : InventoryItem W → InventoryItem W → Bool
  due_before a b =
      if a.estimated_expiry_date == b.estimated_expiry_date
      then str_le a.display_name b.display_name
      else ltb a.estimated_expiry_date b.estimated_expiry_date

  unfoldable pub collect_due_items :
      List HouseholdMember → List (InventoryItem W) → ℕ → ℕ → ℕ → List (InventoryItem W)
  collect_due_items members items user_id reminder_days_before current_date = sort_by due_before (
      keep
        (is_due (keep (of_user user_id) members) current_date (current_date + reminder_days_before))
        items)
