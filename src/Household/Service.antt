-- ===== src/Household/Service.antt =====
-- backend/app/modules/households/service.py. A method returns its result, or the exception that it
-- raises, and the tables as it leaves them. What `secrets` and `uuid4` draw comes as arguments.
use fridgefriend.Prelude.{
  ℕ, String, Bool, not, ◌&&◌, List, [], ◌∷◌, Option, none, some, keep, find, exists, if◌then◌else◌,
}
use Prim.Native.String.{◌++◌}
use fridgefriend.Household.Model.{Db, Household, HouseholdMember, owner, of_user, is_owner}
use fridgefriend.Household.Repository.{
  get_by_id, get_membership, get_for_user, list_memberships_for_user, list_for_user, members_of,
  get_by_invite_code, create, add_member, update_name, remove_membership, delete_household,
  update_member_role, set_active_membership,
}

pub data Error : Type 0 where
  household_not_found household_access invite_code_unknown draws_exhausted : Error

pub data Result (A : Type 0) : Type 0 where
  ok : A → Result A
  err : Error → Result A

abbrev pub or_not_found : Option Household → Result Household
or_not_found (some household) = ok household
or_not_found none = err household_not_found

-- `_generate_invite_code`: the first draw that no household has.
unfoldable pub generate_invite_code : List String → Db → Option String
generate_invite_code [] db = none
generate_invite_code (draw ∷ draws) db = elim (get_by_invite_code draw db) [
  | none ↦ some draw
  | some _ ↦ generate_invite_code draws db
]

unfoldable pub create_named : String → Option String → ℕ → ℕ → Db → Result Household × Db
create_named name none u new_id db = (err draws_exhausted, db)
create_named name (some invite_code) u new_id db =
    let db' = set_active_membership u new_id (create name invite_code u new_id db) in
    (or_not_found (get_by_id new_id db'), db')

unfoldable pub create_household : ℕ → String → List String → ℕ → Db → Result Household × Db
create_household u name draws new_id db =
    create_named name (generate_invite_code draws db) u new_id db

unfoldable pub get_household : ℕ → ℕ → Db → Result Household
get_household u h db = or_not_found (get_for_user h u db)

-- `if payload.name is not None:`
unfoldable pub renamed : ℕ → Option String → Db → Db
renamed h none db = db
renamed h (some name) db = update_name h name db

unfoldable pub update_household : ℕ → ℕ → Option String → Bool → Db → Result Household × Db
update_household u h name is_active db = elim (get_for_user h u db) [
  | none ↦ (err household_not_found, db)
  | some _ ↦
      let db' =
        if is_active then set_active_membership u h (renamed h name db) else renamed h name db in
      (or_not_found (get_by_id h db'), db')
]

-- `join_household` once the invite code has led to the household `h`.
unfoldable pub join_found : ℕ → ℕ → Option HouseholdMember → Db → Result Household × Db
join_found u h (some _) db =
    let db' = set_active_membership u h db in (or_not_found (get_by_id h db'), db')
join_found u h none db =
    let db' = set_active_membership u h (add_member h u db) in (or_not_found (get_by_id h db'), db')

unfoldable pub join_household : ℕ → String → Db → Result Household × Db
join_household u invite_code db = elim (get_by_invite_code invite_code db) [
  | none ↦ (err invite_code_unknown, db)
  | some household ↦ join_found u household.id (get_membership household.id u db) db
]

-- `if was_active:` the first membership that the user has left becomes the active one.
unfoldable pub reactivate_first : ℕ → List HouseholdMember → Db → Db
reactivate_first u [] db = db
reactivate_first u (m ∷ _) db = set_active_membership u m.household_id db

unfoldable pub reactivate : Bool → ℕ → Db → Db
reactivate was_active u db =
    if was_active then reactivate_first u (list_memberships_for_user u db) db else db

-- The first of the remaining members becomes an owner if the one that left was the last owner.
unfoldable pub promote_first : ℕ → List HouseholdMember → Db → Db
promote_first h [] db = db
promote_first h (m ∷ _) db = elim (get_membership h m.user_id db) [
  | none ↦ db
  | some _ ↦ update_member_role h m.user_id owner db
]

unfoldable pub promote : Bool → ℕ → List HouseholdMember → Db → Db
promote was_owner h remaining db =
    if was_owner && not (exists is_owner remaining) then promote_first h remaining db else db

-- The rest of `leave_household` when members remain.
unfoldable pub leave_remaining : HouseholdMember → ℕ → ℕ → List HouseholdMember → Db → Db
leave_remaining membership u h remaining db =
    promote (is_owner membership) h remaining (reactivate membership.is_active u db)

unfoldable pub left_by : HouseholdMember → ℕ → ℕ → List HouseholdMember → Db → Db
left_by membership u h [] db = delete_household h (remove_membership h u db)
left_by membership u h (m ∷ ms) db =
    leave_remaining membership u h (m ∷ ms) (remove_membership h u db)

unfoldable pub leave_member : HouseholdMember → ℕ → ℕ → Db → Db
leave_member membership u h db =
    left_by membership u h (keep (λ m. not (of_user u m)) (members_of h db)) db

unfoldable pub leave_household : ℕ → ℕ → Db → Result (Unit {0}) × Db
leave_household u h db = elim (get_for_user h u db) [
  | none ↦ (err household_not_found, db)
  | some _ ↦ elim (get_membership h u db) [
    | none ↦ (err household_not_found, db)
    | some membership ↦ (ok tt, leave_member membership u h db)
  ]
]

-- The end of `remove_member`, after the row is gone and the user has an active household again.
unfoldable pub settled : Bool → ℕ → List HouseholdMember → Db → Db
settled was_owner h [] db = delete_household h db
settled was_owner h (m ∷ ms) db = promote was_owner h (m ∷ ms) db

unfoldable pub settle_household : Bool → ℕ → Db → Db
settle_household was_owner h db = elim (get_by_id h db) [
  | none ↦ db
  | some _ ↦ settled was_owner h (members_of h db) db
]

unfoldable pub expel : HouseholdMember → ℕ → ℕ → Db → Db
expel membership u h db =
    settle_household (is_owner membership) h
      (reactivate membership.is_active u (remove_membership h u db))

unfoldable pub remove_member : ℕ → ℕ → ℕ → Db → Result (Unit {0}) × Db
remove_member actor h u db = elim (get_membership h actor db) [
  | none ↦ (err household_not_found, db)
  | some actor_membership ↦
      if is_owner actor_membership
      then elim (get_membership h u db) [
        | none ↦ (err household_not_found, db)
        | some membership ↦ (ok tt, expel membership u h db)
      ]
      else (err household_access, db)
]

-- `next((m for m in memberships if m.is_active), memberships[0])`
unfoldable pub active_or_first : HouseholdMember → List HouseholdMember → HouseholdMember
active_or_first m ms = elim (find (λ x. x.is_active) (m ∷ ms)) [ some x ↦ x | none ↦ m ]

-- The household of the active membership; a user with none gets a household of their own.
unfoldable pub ensure_default_household : ℕ → String → List String → ℕ → Db → Result Household × Db
ensure_default_household u email draws new_id db = elim (list_memberships_for_user u db) [
  | [] ↦ create_household u (email ++ "'s Kitchen") draws new_id db
  | m ∷ ms ↦ (or_not_found (get_by_id (active_or_first m ms).household_id db), db)
]

abbrev pub id_of : Result Household × Db → Result ℕ × Db
id_of (ok household, db) = (ok household.id, db)
id_of (err e, db) = (err e, db)

unfoldable pub get_active_household_id : ℕ → String → List String → ℕ → Db → Result ℕ × Db
get_active_household_id u email draws new_id db = elim (list_memberships_for_user u db) [
  | [] ↦ id_of (ensure_default_household u email draws new_id db)
  | m ∷ ms ↦ (ok (active_or_first m ms).household_id, db)
]

abbrev pub listed : ℕ → Result Household × Db → Result (List Household) × Db
listed u (ok _, db) = (ok (list_for_user u db), db)
listed u (err e, db) = (err e, db)

unfoldable pub list_households : ℕ → String → List String → ℕ → Db → Result (List Household) × Db
list_households u email draws new_id db =
    listed u (ensure_default_household u email draws new_id db)
