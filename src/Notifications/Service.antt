-- ===== src/Notifications/Service.antt =====
-- backend/app/modules/notifications/repository.py and service.py, with the rows of
-- backend/app/models/notification.py. The identifiers of new rows come as arguments.
use fridgefriend.Prelude.{
  ℕ, String, Bool, true, not, ◌&&◌, ◌||◌, Option, none, some, List, [], ◌∷◌, ◌++◌, map, str_eq,
  ◌==◌, if◌then◌else◌, keep, find, exists,
}
use fridgefriend.Inventory.Model.{Field}
use fridgefriend.Inventory.Repository.{set_column, set_nullable, is_null}

pub record NotificationPreference : Type 0 where
  pub user_id : ℕ
  pub expiry_reminder_enabled : Bool
  pub reminder_days_before : ℕ
  pub quiet_hours_start : Option ℕ
  pub quiet_hours_end : Option ℕ

pub record DeviceToken : Type 0 where
  pub id : ℕ
  pub user_id : ℕ
  pub token : String
  pub platform : String

-- The tables, in the order of `created_at`.
pub record Db : Type 0 where
  pub preferences : List NotificationPreference
  pub tokens : List DeviceToken

pub record NotificationPreferenceUpdate : Type 0 where
  pub expiry_reminder_enabled : Field Bool
  pub reminder_days_before : Field ℕ
  pub quiet_hours_start : Field ℕ
  pub quiet_hours_end : Field ℕ

pub record DeviceTokenCreate : Type 0 where
  pub token : String
  pub platform : String

pub data Result (A : Type 0) : Type 0 where
  ok : A → Result A
  integrity device_token_not_found : Result A

abbrev pub is_preference_of : ℕ → NotificationPreference → Bool
is_preference_of u p = p.user_id == u

abbrev pub has_token : String → DeviceToken → Bool
has_token token x = str_eq x.token token

-- The repository.
unfoldable pub find_preferences : ℕ → Db → Option NotificationPreference
find_preferences u db = find (is_preference_of u) db.preferences

-- The defaults of the columns.
abbrev pub default_preferences : ℕ → NotificationPreference
default_preferences u = record {
  user_id = u;
  expiry_reminder_enabled = true;
  reminder_days_before = 1;
  quiet_hours_start = none;
  quiet_hours_end = none;
}

unfoldable pub create_default_preferences : ℕ → Db → NotificationPreference × Db
create_default_preferences u db = (
  default_preferences u,
  record db { preferences = db.preferences ++ default_preferences u ∷ [] },
)

abbrev pub changed_preferences :
    NotificationPreferenceUpdate → NotificationPreference → NotificationPreference
changed_preferences payload p = record p {
  expiry_reminder_enabled = set_column payload.expiry_reminder_enabled p.expiry_reminder_enabled;
  reminder_days_before = set_column payload.reminder_days_before p.reminder_days_before;
  quiet_hours_start = set_nullable payload.quiet_hours_start p.quiet_hours_start;
  quiet_hours_end = set_nullable payload.quiet_hours_end p.quiet_hours_end;
}

abbrev pub rewrite_preferences :
    NotificationPreference → NotificationPreference → NotificationPreference
rewrite_preferences new p = if is_preference_of new.user_id p then new else p

-- The first two columns may not be null.
unfoldable pub change_preferences :
    NotificationPreference → NotificationPreferenceUpdate → Db → Result NotificationPreference × Db
change_preferences preference payload db =
    let new = changed_preferences payload preference in
    if is_null payload.expiry_reminder_enabled || is_null payload.reminder_days_before
    then (integrity, db)
    else (ok new, record db { preferences = map (rewrite_preferences new) db.preferences })

unfoldable pub get_device_token : ℕ → ℕ → Db → Option DeviceToken
get_device_token u token_id db = find (λ x. x.id == token_id && x.user_id == u) db.tokens

-- `on_conflict_do_update` on the row of the token.
abbrev pub taken_over : ℕ → DeviceTokenCreate → DeviceToken → DeviceToken
taken_over u payload x =
    if has_token payload.token x then record x { user_id = u; platform = payload.platform } else x

unfoldable pub upserted : ℕ → DeviceTokenCreate → ℕ → List DeviceToken → List DeviceToken
upserted u payload new_id tokens =
    if exists (has_token payload.token) tokens
    then map (taken_over u payload) tokens
    else tokens
      ++ record { id = new_id; user_id = u; token = payload.token; platform = payload.platform }
        ∷ []

unfoldable pub upsert_device_token : ℕ → DeviceTokenCreate → ℕ → Db → Option DeviceToken × Db
upsert_device_token u payload new_id db =
    let tokens = upserted u payload new_id db.tokens in
    (find (has_token payload.token) tokens, record db { tokens = tokens })

unfoldable pub delete_device_token : DeviceToken → Db → Db
delete_device_token x db = record db { tokens = keep (λ y. not (y.id == x.id)) db.tokens }

-- The service.
unfoldable pub get_preferences : ℕ → Db → NotificationPreference × Db
get_preferences u db = elim (find_preferences u db) [
  | some preference ↦ (preference, db)
  | none ↦ create_default_preferences u db
]

unfoldable pub update_preferences :
    ℕ → NotificationPreferenceUpdate → Db → Result NotificationPreference × Db
update_preferences u payload db =
    let (preference, db') = get_preferences u db in change_preferences preference payload db'

unfoldable pub register_device_token : ℕ → DeviceTokenCreate → ℕ → Db → Option DeviceToken × Db
register_device_token u payload new_id db = upsert_device_token u payload new_id db

unfoldable pub unregister_device_token : ℕ → ℕ → Db → Result (Unit {0}) × Db
unregister_device_token u token_id db = elim (get_device_token u token_id db) [
  | none ↦ (device_token_not_found, db)
  | some x ↦ (ok tt, delete_device_token x db)
]
