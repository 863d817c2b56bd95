-- ===== src/Notifications/Tasks.antt =====
-- backend/app/modules/notifications/tasks.py: the reminders that are sent, and to whom.
use fridgefriend.Prelude.{
  ℕ, All-each, All-append, All-sort_by, All, ◌+◌, ◌≤◌, String, ◌≡◌, refl, inl, inr, Bool, true,
  false, not, ◌||◌, Option, none, some, List, [], ◌∷◌, ◌++◌, map, arith, ◌==◌, if◌then◌else◌,
  Bool-cases, length, keep, exists, count,
}
use fridgefriend.Household.Model.{HouseholdMember, of_user}
use fridgefriend.Inventory.Model.{InventoryItem}
use fridgefriend.Planning.Keys.{concat_text, decimal}
use fridgefriend.Notifications.{is_within_quiet_hours, collect_due_items, is_due}
use fridgefriend.Notifications.Service.{NotificationPreference, DeviceToken, Db, find_preferences}

-- A call of the push service.
pub record Push : Type 0 where
  pub user_id : ℕ
  pub token : String
  pub title : String
  pub body : String

-- The time and the date at which the task runs.
pub record Now : Type 0 where
  pub time : ℕ
  pub date : ℕ

module _ {W : Type 0} where
  unfoldable pub reminder_body : ℕ → InventoryItem W → String
  reminder_body item_count first_item =
      concat_text (decimal item_count)
        (concat_text " item(s) need attention. Next up: " (concat_text first_item.display_name "."))

  -- What a user's tokens are sent for the items that are due.
  unfoldable pub pushes_for : ℕ → List DeviceToken → List (InventoryItem W) → List Push
  pushes_for u tokens [] = []
  pushes_for u tokens (item ∷ items) =
      map
        (λ x. record {
          user_id = u;
          token = x.token;
          title = "Items expiring soon";
          body = reminder_body (length (item ∷ items)) item;
        })
        tokens

  -- The body of the loop over the users. A preference that is not stored has null in its columns,
  -- since the defaults are set when a row is inserted: the test for it fails.
  unfoldable pub remind :
      List HouseholdMember
      → List (InventoryItem W)
      → Db
      → Now
      → ℕ
      → Option NotificationPreference
      → List Push
  remind members items db now u none = []
  remind members items db now u (some p) =
      if not p.expiry_reminder_enabled
        || is_within_quiet_hours now.time p.quiet_hours_start p.quiet_hours_end
      then []
      else pushes_for u (keep (λ x. x.user_id == u) db.tokens)
          (collect_due_items members items u p.reminder_days_before now.date)

  -- The loop over the users.
  unfoldable pub remind_all :
      List HouseholdMember → List (InventoryItem W) → Db → Now → List ℕ → List Push
  remind_all members items db now [] = []
  remind_all members items db now (u ∷ users) =
      remind members items db now u (find_preferences u db) ++ remind_all members items db now users

  -- `send_expiry_reminders`: the calls of the push service, and how many it accepts.
  unfoldable pub send_expiry_reminders :
      (String → String → String → Bool)
      → List HouseholdMember
      → List (InventoryItem W)
      → Db
      → Now
      → List ℕ
      → List Push × ℕ
  send_expiry_reminders send members items db now users =
      let pushes = remind_all members items db now users in
      (pushes, count (λ p. send p.token p.title p.body) pushes)

  -- The user of the push has a stored preference with reminders enabled, it is not in its quiet hours,
  -- and an item of the inventory is due for the user in the days that it looks ahead.
  pub record IsWanted (members : List HouseholdMember) (items : List (InventoryItem W)) (db : Db)
      (now : Now) (push : Push) : Type 0 where
    pub preference : NotificationPreference
    pub stored : find_preferences push.user_id db ≡ some preference
    pub enabled : preference.expiry_reminder_enabled ≡ true
    pub awake :
        is_within_quiet_hours now.time preference.quiet_hours_start preference.quiet_hours_end
        ≡ false
    pub due :
        exists
          (is_due
            (keep (of_user push.user_id) members)
            now.date
            (now.date + preference.reminder_days_before))
          items
        ≡ true

count-length : {A : Type 0} (p : A → Bool) (xs : List A) → count p xs ≤ length xs
unfolding count
count-length p [] = omega arith
count-length p (x ∷ xs) = ground (arith, count-length p xs)

-- If an element passes a test, then some element does.
keep-exists : {A : Type 0} (p : A → Bool) (xs : List A) → All (λ x. exists p xs ≡ true) (keep p xs)
unfolding keep exists
keep-exists p [] = tt
keep-exists p (x ∷ xs) = elim (Bool-cases (p x)) [
  | inl e ↦ rw e (refl, All-each (keep p xs) (λ a h. refl) (keep-exists p xs))
  | inr e ↦ rw e (keep-exists p xs)
]

All-const :
    {A B : Type 0} (P : B → Type 0) (g : A → B) (xs : List A)
    → ((a : A) → P (g a))
    → All P (map g xs)
All-const P g [] h = tt
All-const P g (x ∷ xs) h = (h x, All-const P g xs h)

module _ {W : Type 0} (members : List HouseholdMember) (items : List (InventoryItem W)) (db : Db)
    (now : Now) where
  pushes-IsWanted :
      (u : ℕ) (tokens : List DeviceToken) (p : NotificationPreference)
      (due : List (InventoryItem W))
      → find_preferences u db ≡ some p
      → p.expiry_reminder_enabled ≡ true
      → is_within_quiet_hours now.time p.quiet_hours_start p.quiet_hours_end ≡ false
      → All
          (λ x.
            exists
              (is_due (keep (of_user u) members) now.date (now.date + p.reminder_days_before))
              items
            ≡ true)
          due
      → All (IsWanted members items db now) (pushes_for u tokens due)
  unfolding pushes_for
  pushes-IsWanted u tokens p [] stored enabled awake all = tt
  pushes-IsWanted u tokens p (x ∷ xs) stored enabled awake all =
      All-const (IsWanted members items db now) _ tokens (λ token. record {
        preference = p;
        stored = stored;
        enabled = enabled;
        awake = awake;
        due = all.0;
      })

  collected_due :
      (u ahead : ℕ)
      → All
          (λ x. exists (is_due (keep (of_user u) members) now.date (now.date + ahead)) items ≡ true)
          (collect_due_items members items u ahead now.date)
  unfolding collect_due_items
  collected_due u ahead = All-sort_by _ _ _ (keep-exists _ items)

  remind-IsWanted :
      (u : ℕ) (preference : Option NotificationPreference)
      → find_preferences u db ≡ preference
      → All (IsWanted members items db now) (remind members items db now u preference)
  unfolding remind
  remind-IsWanted u none stored = tt
  remind-IsWanted u (some p) stored =
      elim (Bool-cases (
        not p.expiry_reminder_enabled
        || is_within_quiet_hours now.time p.quiet_hours_start p.quiet_hours_end)) [
          | inl e ↦ rw e tt
          | inr e ↦ rw e (
              pushes-IsWanted u _ p _ stored (ground (arith, e)) (ground (arith, e))
                (collected_due u p.reminder_days_before))
        ]

  remind_all-IsWanted :
      (users : List ℕ) → All (IsWanted members items db now) (remind_all members items db now users)
  unfolding remind_all
  remind_all-IsWanted [] = tt
  remind_all-IsWanted (u ∷ users) =
      All-append _ _ _ (remind-IsWanted u (find_preferences u db) refl) (remind_all-IsWanted users)

  -- Whatever is pushed is pushed to a user with a stored preference that enables reminders, outside of
  -- its quiet hours, for whom an item is due in the days that it looks ahead; and no more pushes are
  -- counted than are made.
  pub send_expiry_reminders-IsWanted :
      (send : String → String → String → Bool) (users : List ℕ)
      → let result = send_expiry_reminders send members items db now users in
        All (IsWanted members items db now) result.0 × (result.1 ≤ length result.0)
  unfolding send_expiry_reminders
  send_expiry_reminders-IsWanted send users =
      (remind_all-IsWanted users, count-length _ (remind_all members items db now users))
