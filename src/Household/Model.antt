-- ===== src/Household/Model.antt =====
-- backend/app/models/household.py: the rows of the two tables.
use fridgefriend.Prelude.{ℕ, String, Bool, true, false, ◌&&◌, List, ◌==◌}

pub data HouseholdRole : Type 0 where
  owner member : HouseholdRole

-- A row of `household_members`. The service keeps at most one row for a household and a user, and a
-- row is named by that pair.
pub record HouseholdMember : Type 0 where
  pub household_id : ℕ
  pub user_id : ℕ
  pub role : HouseholdRole
  pub is_active : Bool

pub record Household : Type 0 where
  pub id : ℕ
  pub name : String
  pub invite_code : String
  pub version : ℕ

-- The tables in the order of `created_at`.
pub record Db : Type 0 where
  pub households : List Household
  pub members : List HouseholdMember

abbrev pub is_owner : HouseholdMember → Bool
is_owner m = elim m.role [ owner ↦ true | member ↦ false ]

abbrev pub of_user : ℕ → HouseholdMember → Bool
of_user u m = m.user_id == u

abbrev pub of_household : ℕ → HouseholdMember → Bool
of_household h m = m.household_id == h

abbrev pub member_of : ℕ → ℕ → HouseholdMember → Bool
member_of h u m = m.household_id == h && m.user_id == u

abbrev pub has_id : ℕ → Household → Bool
has_id h x = x.id == h
