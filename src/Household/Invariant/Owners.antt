-- ===== src/Household/Invariant/Owners.antt =====
-- `promote` of backend/app/modules/households/service.py: a household whose last owner left has an
-- owner again.
use fridgefriend.Prelude.{
  ℕ, ◌≤◌, ◌≡◌, refl, inl, inr, Bool, not, ◌&&◌, Option, none, some, List, [], ◌∷◌, arith,
  Bool-cases, exists, count, false, ◌<◌, true, Option-cases, find-none,
}
use fridgefriend.Household.Model.{Db, owner, is_owner}
use fridgefriend.Household.Repository.{get_membership, update_member_role}
use fridgefriend.Household.Service.{promote, promote_first}
use fridgefriend.Household.Counts.{active_of, owner_of, owners-update_member_role}
use fridgefriend.Household.Invariant.{
  SamePeople, SamePeople-refl, SamePeople-update_member_role, active-update_member_role,
  HouseholdMember, member_of,
}

module _ (h : ℕ) (db : Db) where
  -- What a promotion keeps, whoever the first remaining member is.
  pub record Promoted (db' : Db) : Type 0 where
    pub people : SamePeople db' db
    pub active : (v : ℕ) → count (active_of v) db'.members ≡ count (active_of v) db.members
    pub owners : (g : ℕ) → count (owner_of g) db.members ≤ count (owner_of g) db'.members
    pub rows : db'.households ≡ db.households

  Promoted-refl : Promoted db
  Promoted-refl = record {
    people = SamePeople-refl db;
    active = λ v. refl;
    owners = λ g. omega arith;
    rows = refl;
  }

  Promoted-promote_first : (ms : List HouseholdMember) → Promoted (promote_first h ms db)
  unfolding promote_first
  Promoted-promote_first [] = Promoted-refl
  Promoted-promote_first (m ∷ ms) = go (get_membership h m.user_id db)
    where
      go :
          (o : Option HouseholdMember)
          → Promoted (elim o [ none ↦ db | some _ ↦ update_member_role h m.user_id owner db ])
      go none = Promoted-refl
      go (some _) = record {
        people = SamePeople-update_member_role m.user_id h db owner;
        active = active-update_member_role m.user_id h db owner;
        owners = λ g. (owners-update_member_role h m.user_id db g).0;
        rows = unfold update_member_role in refl;
      }

  pub Promoted-promote : (b : Bool) (ms : List HouseholdMember) → Promoted (promote b h ms db)
  unfolding promote
  Promoted-promote b ms = elim (Bool-cases (b && not (exists is_owner ms))) [
    | inl yes' ↦ rw yes' (Promoted-promote_first ms)
    | inr no' ↦ rw no' Promoted-refl
  ]

  -- The first remaining member, found again, is made an owner.
  promote_first-Owned :
      (m : HouseholdMember) (ms : List HouseholdMember)
      → 0 < count (member_of h m.user_id) db.members
      → 0 < count (owner_of h) (promote_first h (m ∷ ms) db).members
  unfolding promote_first
  promote_first-Owned m ms here = elim (Option-cases (get_membership h m.user_id db)) [
    | inl e ↦ absurd (omega (arith, absent e))
    | inr (x, e) ↦
        rw (e, promote_first) (omega (arith, (owners-update_member_role h m.user_id db h).1))
  ]
    where
      absent : get_membership h m.user_id db ≡ none → count (member_of h m.user_id) db.members ≡ 0
      absent e = find-none (member_of h m.user_id) db.members (unfold get_membership in e)

  -- After the promotion there is an owner, if there was one unless an owner left.
  pub promote-Owned :
      (b : Bool) (m : HouseholdMember) (ms : List HouseholdMember)
      → (b ≡ false → 0 < count (owner_of h) db.members)
      → (exists is_owner (m ∷ ms) ≡ true → 0 < count (owner_of h) db.members)
      → 0 < count (member_of h m.user_id) db.members
      → 0 < count (owner_of h) (promote b h (m ∷ ms) db).members
  unfolding promote
  promote-Owned false m ms kept left here = kept refl
  promote-Owned true m ms kept left here = elim (Bool-cases (exists is_owner (m ∷ ms))) [
    | inl e ↦ rw e (left e)
    | inr e ↦ rw e (promote_first-Owned m ms here)
  ]
