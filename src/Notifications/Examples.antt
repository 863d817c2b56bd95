-- ===== src/Notifications/Examples.antt =====
-- The theorems on reminders at concrete times and items.
use fridgefriend.Prelude.{All, ◌≡◌, true, some, [], ◌∷◌, arith, ◌≤◌, ◌&&◌, ◌==◌, length, count}
use fridgefriend.Notifications.Service.{
  Db, DeviceToken, NotificationPreference, register_device_token, has_token,
}
use fridgefriend.Notifications.Tasks.{
  Now, send_expiry_reminders, send_expiry_reminders-IsWanted, IsWanted,
}
use fridgefriend.Notifications.Tokens.{HasUniqueTokens, register_device_token_unique}
use fridgefriend.Household.Model.{HouseholdMember, owner}
use fridgefriend.Inventory.Examples.{milk}

abbrev cook : HouseholdMember
cook = record { household_id = 10; user_id = 1; role = owner; is_active = true }

abbrev phone : DeviceToken
phone = record { id = 4; user_id = 1; token = "t"; platform = "ios" }

abbrev awake_cook : NotificationPreference
awake_cook = record {
  user_id = 1;
  expiry_reminder_enabled = true;
  reminder_days_before = 3;
  quiet_hours_start = some 22;
  quiet_hours_end = some 7;
}

abbrev one_phone : Db
one_phone = record { preferences = awake_cook ∷ []; tokens = phone ∷ [] }

abbrev noon : Now
noon = record { time = 12; date = 105 }

send_expiry_reminders-IsWanted_example :
    let result =
      send_expiry_reminders
        (λ token title body. true)
        (cook ∷ [])
        (milk ∷ [])
        one_phone
        noon
        (1 ∷ []) in
    All (IsWanted (cook ∷ []) (milk ∷ []) one_phone noon) result.0 × (result.1 ≤ length result.0)
send_expiry_reminders-IsWanted_example =
    send_expiry_reminders-IsWanted (cook ∷ []) (milk ∷ []) one_phone noon (λ token title body. true)
      (1 ∷ [])

one_phone-HasUniqueTokens : HasUniqueTokens one_phone
unfolding count
one_phone-HasUniqueTokens token = ground arith

register_device_token_unique_example :
    let after =
      (register_device_token 2 (record { token = "t"; platform = "android" }) 5 one_phone).1 in
    HasUniqueTokens after × (count (λ x. has_token "t" x && x.user_id == 2) after.tokens ≡ 1)
register_device_token_unique_example =
    register_device_token_unique 2 (record { token = "t"; platform = "android" }) 5 one_phone
      one_phone-HasUniqueTokens
