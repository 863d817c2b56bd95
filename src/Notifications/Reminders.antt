-- ===== src/Notifications/Reminders.antt =====
-- backend/app/modules/notifications/tasks.py: what quiet hours mean, and which items are due.
use fridgefriend.Prelude.{
  ℕ, All-sort_by, All, ◌+◌, ◌≤◌, ◌≡◌, inl, inr, true, false, List, [], ◌∷◌, arith, Bool-cases, keep,
  exists,
}
use fridgefriend.Household.Model.{HouseholdMember, of_user}
use fridgefriend.Inventory.Model.{InventoryItem, is_gone, in_household}
use fridgefriend.Notifications.{is_due, collect_due_items}

module _ {W : Type 0} where
  -- The item is in a household of the user, is not used or discarded, and expires in the days from
  -- `today` to `last`.
  abbrev pub IsDue : List HouseholdMember → ℕ → ℕ → ℕ → InventoryItem W → Type 0
  IsDue members user_id today last item =
      (exists (λ m. in_household m.household_id item) (keep (of_user user_id) members) ≡ true)
      × (is_gone item ≡ false)
      × (today ≤ item.estimated_expiry_date)
      × (item.estimated_expiry_date ≤ last)

  kept-IsDue :
      (members : List HouseholdMember) (user_id today last : ℕ) (items : List (InventoryItem W))
      → All
          (IsDue members user_id today last)
          (keep (is_due (keep (of_user user_id) members) today last) items)
  unfolding keep is_due
  kept-IsDue members user_id today last [] = tt
  kept-IsDue members user_id today last (x ∷ xs) =
      elim (Bool-cases (is_due (keep (of_user user_id) members) today last x)) [
        | inl e ↦ rw e (ground (arith, e), kept-IsDue members user_id today last xs)
        | inr e ↦ rw e (kept-IsDue members user_id today last xs)
      ]

  -- Every item that a user is reminded of is in a household of theirs, is not used or discarded, and
  -- expires between today and the day that the reminder looks ahead to.
  pub collect_due_items-IsDue :
      (members : List HouseholdMember) (items : List (InventoryItem W)) (user_id ahead today : ℕ)
      → All
          (IsDue members user_id today (today + ahead))
          (collect_due_items members items user_id ahead today)
  unfolding collect_due_items
  collect_due_items-IsDue members items user_id ahead today =
      All-sort_by _ (IsDue members user_id today (today + ahead)) _
        (kept-IsDue members user_id today (today + ahead) items)
