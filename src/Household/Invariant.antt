-- ===== src/Household/Invariant.antt =====
-- The invariant of the two tables, and what each repository command does to its parts.
use fridgefriend.Prelude.{
  ℕ, ◌≤◌, ◌<◌, ◌≡◌, ◌≢◌, arith, count, count-le, ◌∙◌, refl, ◌-◌, ◌⊎◌, Bool, true, none, [],
}
pub mod Active
pub mod Owners
pub mod Joining
pub mod Deleting
pub mod Leaving
pub mod Departure
use Prim.Native.Nat.{min, ℕ, ◌<◌}
use fridgefriend.Household.Model.{
  Db, HouseholdRole, of_user, of_household, member_of, has_id, HouseholdMember,
}
use fridgefriend.Household.Repository.{
  with_role, update_member_role, activate, set_active_membership,
}
use fridgefriend.Household.Counts.{
  Kind, active_of, owner_of, count-set_active_membership, active-set_active_membership,
  count-update_member_role,
}

-- A user is in a household at most once.
abbrev pub Distinct : Db → Type 0
Distinct db = (h u : ℕ) → count (member_of h u) db.members ≤ 1

-- A user with memberships has exactly one active one, or is among the `lost` and has none.
abbrev pub OneActive : (ℕ → Bool) → ℕ → Db → Type 0
OneActive lost u db =
    (count (active_of u) db.members ≡ min 1 (count (of_user u) db.members))
    ⊎ ((lost u ≡ true) × (count (active_of u) db.members ≡ 0))

-- A household with members has an owner.
abbrev pub Owned : ℕ → Db → Type 0
Owned h db = 0 < count (of_household h) db.members → 0 < count (owner_of h) db.members

-- There is a row for a household exactly when it has members.
abbrev pub Housed : ℕ → Db → Type 0
Housed h db =
    (0 < count (has_id h) db.households → 0 < count (of_household h) db.members)
    × (0 < count (of_household h) db.members → 0 < count (has_id h) db.households)

pub record IsValid (lost : ℕ → Bool) (db : Db) : Type 0 where
  pub distinct : Distinct db
  pub one_active : (u : ℕ) → OneActive lost u db
  pub owned : (h : ℕ) → Owned h db
  pub housed : (h : ℕ) → Housed h db

-- Two states whose memberships differ in `is_active` alone.
pub record SamePeople (a b : Db) : Type 0 where
  pub users : (v : ℕ) → count (of_user v) a.members ≡ count (of_user v) b.members
  pub households : (g : ℕ) → count (of_household g) a.members ≡ count (of_household g) b.members
  pub pairs : (g v : ℕ) → count (member_of g v) a.members ≡ count (member_of g v) b.members

pub SamePeople-trans : {a b c : Db} → SamePeople a b → SamePeople b c → SamePeople a c
SamePeople-trans s t = record {
  users = λ v. s.users v ∙ t.users v;
  households = λ g. s.households g ∙ t.households g;
  pairs = λ g v. s.pairs g v ∙ t.pairs g v;
}

pub SamePeople-refl : (a : Db) → SamePeople a a
SamePeople-refl a = record { users = λ v. refl; households = λ g. refl; pairs = λ g v. refl }

module _ (u h : ℕ) (db : Db) where
  pub SamePeople-set_active_membership : SamePeople (set_active_membership u h db) db
  SamePeople-set_active_membership = record {
    users = λ v. kept (of_user v) (λ m. unfold activate in ground arith);
    households = λ g. kept (of_household g) (λ m. unfold activate in ground arith);
    pairs = λ g v. kept (member_of g v) (λ m. unfold activate in ground arith);
  }
    where
      kept :
          (p : Kind)
          → ((m : HouseholdMember) → p (activate u h m) ≡ p m)
          → count p (set_active_membership u h db).members ≡ count p db.members
      kept = count-set_active_membership h u db

  pub owners-set_active_membership :
      (g : ℕ)
      → count (owner_of g) (set_active_membership u h db).members ≡ count (owner_of g) db.members
  owners-set_active_membership g =
      count-set_active_membership h u db (owner_of g) (λ m. unfold activate in ground arith)

  -- A user whose one membership in `h` is chosen has exactly one active membership.
  pub OneActive-set_active_membership :
      (lost : ℕ → Bool)
      → Distinct db
      → 0 < count (member_of h u) db.members
      → ((v : ℕ) → v ≢ u → OneActive lost v db)
      → (v : ℕ) → OneActive lost v (set_active_membership u h db)
  OneActive-set_active_membership lost d here others v = ground (
    arith,
    d h u,
    others v,
    active-set_active_membership h u db v,
    SamePeople-set_active_membership.users v,
    count-le (member_of h u) (of_user u) (λ m e. ground arith) db.members,
  )

  pub SamePeople-update_member_role :
      (r : HouseholdRole) → SamePeople (update_member_role h u r db) db
  SamePeople-update_member_role r = record {
    users = λ v. kept (of_user v) (λ m. unfold with_role in ground arith);
    households = λ g. kept (of_household g) (λ m. unfold with_role in ground arith);
    pairs = λ g v. kept (member_of g v) (λ m. unfold with_role in ground arith);
  }
    where
      kept :
          (p : Kind)
          → ((m : HouseholdMember) → p (with_role h u r m) ≡ p m)
          → count p (update_member_role h u r db).members ≡ count p db.members
      kept = count-update_member_role h u db r

  pub active-update_member_role :
      (r : HouseholdRole) (v : ℕ)
      → count (active_of v) (update_member_role h u r db).members ≡ count (active_of v) db.members
  active-update_member_role r v =
      count-update_member_role h u db r (active_of v) (λ m. unfold with_role in ground arith)
