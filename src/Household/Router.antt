-- ===== src/Household/Router.antt =====
-- backend/app/modules/households/router.py, with activity_service.py. The user comes as an argument,
-- and so does what the service draws. `S` is the state of the caches.
use fridgefriend.Prelude.{
  ℕ, take, String, Bool, false, Option, none, some, List, map, ◌==◌, drop, keep, find,
}
use fridgefriend.Household.Model.{Db, Household, HouseholdMember, HouseholdRole, of_user}
use fridgefriend.Household.Repository.{members_of}
use fridgefriend.Household.Service.{
  Error, Result, ok, err, household_not_found, household_access, invite_code_unknown,
  create_household, get_household, update_household, join_household, leave_household, remove_member,
  list_households,
}
use fridgefriend.Inventory.Model.{InventoryEvent, Db as InventoryDb}
use fridgefriend.Idempotency.Backend.{Backend}
use fridgefriend.Http.{
  Request, Failure, http_exception, uncaught, Outcome, returns, raises, Answer, answered, failed,
  Stored, with_body, without_body,
}

-- A member is named by the user.
pub record HouseholdMemberResponse : Type 0 where
  pub user_id : ℕ
  pub email : String
  pub role : HouseholdRole

-- `HouseholdResponse`, without the time stamps.
pub record HouseholdResponse : Type 0 where
  pub id : ℕ
  pub name : String
  pub invite_code : String
  pub is_active : Bool
  pub members : List HouseholdMemberResponse

-- `current_membership.is_active if current_membership is not None else False`
abbrev pub active_flag : Option HouseholdMember → Bool
active_flag none = false
active_flag (some m) = m.is_active

-- `_serialize_household`; the members are stored in the order of `created_at`.
unfoldable pub serialize_household : (ℕ → String) → ℕ → Db → Household → HouseholdResponse
serialize_household email_of current_user_id db household =
    let members = members_of household.id db in
    record {
      id = household.id;
      name = household.name;
      invite_code = household.invite_code;
      is_active = active_flag (find (of_user current_user_id) members);
      members =
          map (λ m. record { user_id = m.user_id; email = email_of m.user_id; role = m.role })
            members;
    }

-- `_raise_not_found`
abbrev pub raise_not_found : Failure
raise_not_found = http_exception 404 "Household not found"

-- The endpoints without an `except` clause.
unfoldable pub except_nothing : Error → Failure
except_nothing e = uncaught

-- `except HouseholdNotFoundError`
unfoldable pub except_not_found : Error → Failure
except_not_found household_not_found = raise_not_found
except_not_found e = uncaught

-- `except HouseholdInviteCodeError`, with `_raise_invalid_invite_code`
unfoldable pub except_invite_code : Error → Failure
except_invite_code invite_code_unknown = http_exception 404 "Invite code not found"
except_invite_code e = uncaught

-- Both `except` clauses of a removal, with `_raise_forbidden`
unfoldable pub except_not_found_or_access : Error → Failure
except_not_found_or_access household_not_found = raise_not_found
except_not_found_or_access household_access = http_exception 403 "Forbidden"
except_not_found_or_access e = uncaught

-- A household as the user sees it, or what an error of the service is answered with.
unfoldable pub respond_household :
    (Error → Failure) → (ℕ → String) → ℕ → Result Household × Db → Outcome HouseholdResponse × Db
respond_household except email_of u (ok household, db) =
    (returns (serialize_household email_of u db household), db)
respond_household except email_of u (err e, db) = (raises (except e), db)

unfoldable pub respond_done : (Error → Failure) → Result (Unit {0}) × Db → Outcome (Unit {0}) × Db
respond_done except (ok _, db) = (returns tt, db)
respond_done except (err e, db) = (raises (except e), db)

unfoldable pub answer_households :
    (ℕ → String) → ℕ → Result (List Household) × Db → Answer (List HouseholdResponse) × Db
answer_households email_of u (ok households, db) =
    (answered (map (serialize_household email_of u db) households), db)
answer_households email_of u (err e, db) = (failed (except_nothing e), db)

unfoldable pub list_households_endpoint :
    (ℕ → String) → ℕ → List String → ℕ → Db → Answer (List HouseholdResponse) × Db
list_households_endpoint email_of u draws new_id db =
    answer_households email_of u (list_households u (email_of u) draws new_id db)

unfoldable pub get_household_detail : (ℕ → String) → ℕ → ℕ → Db → Answer HouseholdResponse
get_household_detail email_of u h db = elim (get_household u h db) [
  | ok household ↦ answered (serialize_household email_of u db household)
  | err e ↦ failed (except_not_found e)
]

-- `list_household_activity`: events are stored with the newest first.
unfoldable pub list_household_activity :
    {W : Type 0} → ℕ → ℕ → ℕ → InventoryDb W → List (InventoryEvent W)
list_household_activity h limit offset db =
    take limit (drop offset (keep (λ e. e.household_id == h) db.events))

-- An event is shown with all its fields.
unfoldable pub get_household_activity :
    {W : Type 0} → ℕ → ℕ → ℕ → ℕ → Db → InventoryDb W → Answer (List (InventoryEvent W))
get_household_activity u h limit offset db inventory = elim (get_household u h db) [
  | ok household ↦ answered (list_household_activity household.id limit offset inventory)
  | err e ↦ failed (except_not_found e)
]

module _ {S : Type 0} (b : Backend S (Stored HouseholdResponse)) (r : Request)
    (email_of : ℕ → String) (u : ℕ) where
  unfoldable pub create_household_endpoint :
      String → List String → ℕ → Db × S → Answer HouseholdResponse × (Db × S)
  create_household_endpoint name draws new_id =
      with_body b r (λ db.
        respond_household except_nothing email_of u (create_household u name draws new_id db))

  unfoldable pub update_household_endpoint :
      ℕ → Option String → Bool → Db × S → Answer HouseholdResponse × (Db × S)
  update_household_endpoint h name is_active =
      with_body b r (λ db.
        respond_household except_not_found email_of u (update_household u h name is_active db))

  unfoldable pub join_household_endpoint : String → Db × S → Answer HouseholdResponse × (Db × S)
  join_household_endpoint invite_code =
      with_body b r
        (λ db. respond_household except_invite_code email_of u (join_household u invite_code db))

module _ {S : Type 0} (b : Backend S (Stored HouseholdResponse)) (r : Request) (u : ℕ) where
  unfoldable pub leave_household_endpoint : ℕ → Db × S → Answer HouseholdResponse × (Db × S)
  leave_household_endpoint h =
      without_body b r (λ db. respond_done except_not_found (leave_household u h db))

  unfoldable pub remove_household_member : ℕ → ℕ → Db × S → Answer HouseholdResponse × (Db × S)
  remove_household_member h user_id =
      without_body b r
        (λ db. respond_done except_not_found_or_access (remove_member u h user_id db))
