-- ===== src/Notifications/Router.antt =====
-- backend/app/modules/notifications/router.py. The responses are the rows, without the time stamps.
-- `S` is the state of the caches.
use fridgefriend.Prelude.{ℕ, Option, none, some}
use fridgefriend.Idempotency.Backend.{Backend}
use fridgefriend.Http.{
  Request, http_exception, uncaught, Outcome, returns, raises, Answer, Stored, with_body,
  without_body,
}
use fridgefriend.Notifications.Service.{
  NotificationPreference, NotificationPreferenceUpdate, DeviceToken, DeviceTokenCreate, Db, Result,
  ok, integrity, device_token_not_found, get_preferences, update_preferences, register_device_token,
  unregister_device_token,
}

-- The one `except` clause is of `unregister_device_token`.
unfoldable pub respond_result : {A : Type 0} → Result A × Db → Outcome A × Db
respond_result (ok a, db) = (returns a, db)
respond_result (integrity, db) = (raises uncaught, db)
respond_result (device_token_not_found, db) =
    (raises (http_exception 404 "Device token not found"), db)

-- `scalar_one` raises when there is no row.
unfoldable pub respond_row : Option DeviceToken × Db → Outcome DeviceToken × Db
respond_row (some x, db) = (returns x, db)
respond_row (none, db) = (raises uncaught, db)

unfoldable pub get_notification_preferences : ℕ → Db → NotificationPreference × Db
get_notification_preferences u db = get_preferences u db

module _ {S : Type 0} (r : Request) (u : ℕ) where
  unfoldable pub update_notification_preferences :
      Backend S (Stored NotificationPreference)
      → NotificationPreferenceUpdate
      → Db × S
      → Answer NotificationPreference × (Db × S)
  update_notification_preferences b payload =
      with_body b r (λ db. respond_result (update_preferences u payload db))

  unfoldable pub register_device_token_endpoint :
      Backend S (Stored DeviceToken)
      → DeviceTokenCreate
      → ℕ
      → Db × S
      → Answer DeviceToken × (Db × S)
  register_device_token_endpoint b payload new_id =
      with_body b r (λ db. respond_row (register_device_token u payload new_id db))

  unfoldable pub unregister_device_token_endpoint :
      Backend S (Stored DeviceToken) → ℕ → Db × S → Answer DeviceToken × (Db × S)
  unregister_device_token_endpoint b token_id =
      without_body b r (λ db. respond_result (unregister_device_token u token_id db))
