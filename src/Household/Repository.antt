-- ===== src/Household/Repository.antt =====
-- backend/app/modules/households/repository.py. A query is a function of the tables, a command
-- returns the tables that it commits. The identifier of a new row is an argument.
use fridgefriend.Prelude.{
  ℕ, ◌+◌, String, true, not, List, [], ◌∷◌, ◌++◌, map, Option, none, some, str_eq, keep, find,
  exists, if◌then◌else◌,
}
use fridgefriend.Household.Model.{
  Db, Household, HouseholdMember, HouseholdRole, owner, member, of_user, of_household, member_of,
  has_id,
}

unfoldable pub get_by_id : ℕ → Db → Option Household
get_by_id h db = find (has_id h) db.households

unfoldable pub get_membership : ℕ → ℕ → Db → Option HouseholdMember
get_membership h u db = find (member_of h u) db.members

-- The join of the household with the memberships of the user.
unfoldable pub get_for_user : ℕ → ℕ → Db → Option Household
get_for_user h u db = if exists (member_of h u) db.members then get_by_id h db else none

unfoldable pub list_memberships_for_user : ℕ → Db → List HouseholdMember
list_memberships_for_user u db = keep (of_user u) db.members

-- `household.members`
unfoldable pub members_of : ℕ → Db → List HouseholdMember
members_of h db = keep (of_household h) db.members

unfoldable pub households_of : List HouseholdMember → Db → List Household
households_of [] db = []
households_of (m ∷ ms) db = elim (get_by_id m.household_id db) [
  | some x ↦ x ∷ households_of ms db
  | none ↦ households_of ms db
]

unfoldable pub list_for_user : ℕ → Db → List Household
list_for_user u db = households_of (list_memberships_for_user u db) db

unfoldable pub get_by_invite_code : String → Db → Option Household
get_by_invite_code code db = find (λ x. str_eq x.invite_code code) db.households

unfoldable pub insert_member : ℕ → ℕ → HouseholdRole → Db → Db
insert_member h u r db = record db {
  members = db.members ++ record { household_id = h; user_id = u; role = r; is_active = true } ∷ [];
}

-- The new household with its owner; the default of `version` is 1.
unfoldable pub create : String → String → ℕ → ℕ → Db → Db
create name invite_code owner_user_id new_id db =
    insert_member new_id owner_user_id owner (record db {
      households =
          db.households
          ++ record { id = new_id; name = name; invite_code = invite_code; version = 1 } ∷ [];
    })

unfoldable pub add_member : ℕ → ℕ → Db → Db
add_member h u db = insert_member h u member db

unfoldable pub rename : ℕ → String → Household → Household
rename h name x = if has_id h x then record x { name = name; version = x.version + 1 } else x

unfoldable pub update_name : ℕ → String → Db → Db
update_name h name db = record db { households = map (rename h name) db.households }

unfoldable pub remove_membership : ℕ → ℕ → Db → Db
remove_membership h u db = record db { members = keep (λ m. not (member_of h u m)) db.members }

-- The cascade deletes the memberships of the household with it.
unfoldable pub delete_household : ℕ → Db → Db
delete_household h db = record db {
  households = keep (λ x. not (has_id h x)) db.households;
  members = keep (λ m. not (of_household h m)) db.members;
}

unfoldable pub with_role : ℕ → ℕ → HouseholdRole → HouseholdMember → HouseholdMember
with_role h u r m = if member_of h u m then record m { role = r } else m

unfoldable pub update_member_role : ℕ → ℕ → HouseholdRole → Db → Db
update_member_role h u r db = record db { members = map (with_role h u r) db.members }

unfoldable pub activate : ℕ → ℕ → HouseholdMember → HouseholdMember
activate u h m = if of_user u m then record m { is_active = of_household h m } else m

-- Of the memberships of the user exactly those of the household are set active.
unfoldable pub set_active_membership : ℕ → ℕ → Db → Db
set_active_membership u h db = record db { members = map (activate u h) db.members }
