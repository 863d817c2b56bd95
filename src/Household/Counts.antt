-- ===== src/Household/Counts.antt =====
-- How the commands on the membership table change the numbers of memberships of each kind.
use fridgefriend.Prelude.{
  ℕ, ◌+◌, ◌≤◌, ◌≡◌, Bool, true, not, ◌&&◌, arith, ◌==◌, count, count-append, count-keep, count-map,
  count-ext, if◌then◌else◌, ◌∙◌, count_split, Bool-cases, count-le, inl, inr,
}
use fridgefriend.Household.Model.{
  Db, HouseholdMember, owner, of_user, of_household, member_of, is_owner, HouseholdRole,
}
use fridgefriend.Household.Repository.{
  insert_member, remove_membership, with_role, update_member_role, activate, set_active_membership,
}

abbrev pub active_of : ℕ → HouseholdMember → Bool
active_of u m = of_user u m && m.is_active

abbrev pub owner_of : ℕ → HouseholdMember → Bool
owner_of h m = of_household h m && is_owner m

abbrev pub Kind : Type 0
Kind = HouseholdMember → Bool

module _ (h u : ℕ) (db : Db) where
  -- What a test counts when the memberships of `u` in `h` are gone.
  pub count-remove_membership :
      (p : Kind)
      → count p (remove_membership h u db).members + count (λ m. member_of h u m && p m) db.members
        ≡ count p db.members
  unfolding remove_membership
  count-remove_membership p = omega (
    arith,
    count-keep p (λ m. not (member_of h u m)) db.members,
    count_split p (member_of h u) db.members,
  )

  pub count-insert_member :
      (r : HouseholdRole) (p : Kind)
      → count p (insert_member h u r db).members
        ≡ count p db.members
          + (if p (record { household_id = h; user_id = u; role = r; is_active = true })
              then 1
              else 0)
  unfolding insert_member count
  count-insert_member r p = omega (arith, count-append p db.members _)

  -- A test that does not read `is_active` counts the same after a choice of the active household.
  pub count-set_active_membership :
      (p : Kind)
      → ((m : HouseholdMember) → p (activate u h m) ≡ p m)
      → count p (set_active_membership u h db).members ≡ count p db.members
  unfolding set_active_membership
  count-set_active_membership p same =
      count-map p (activate u h) db.members ∙ count-ext _ p same db.members

  -- The user's active memberships are then those of the household; other users' are as before.
  pub active-set_active_membership :
      (v : ℕ)
      → count (active_of v) (set_active_membership u h db).members
        ≡ (if v == u then count (member_of h u) db.members else count (active_of v) db.members)
  unfolding set_active_membership activate
  active-set_active_membership v =
      count-map (active_of v) (activate u h) db.members ∙ elim (Bool-cases (v == u)) [
        | inl same ↦ rw same (
            count-ext (λ m. active_of v (activate u h m)) (member_of h u) (λ m. ground arith)
              db.members)
        | inr other ↦ rw other (
            count-ext (λ m. active_of v (activate u h m)) (active_of v) (λ m. ground arith)
              db.members)
      ]

  -- A test that does not read the role counts the same after a change of role.
  pub count-update_member_role :
      (r : HouseholdRole) (p : Kind)
      → ((m : HouseholdMember) → p (with_role h u r m) ≡ p m)
      → count p (update_member_role h u r db).members ≡ count p db.members
  unfolding update_member_role
  count-update_member_role r p same =
      count-map p (with_role h u r) db.members ∙ count-ext _ p same db.members

  -- A promotion takes no owner from any household, and gives one to `h` if `u` is a member.
  pub owners-update_member_role :
      (g : ℕ)
      → (count (owner_of g) db.members
          ≤ count (owner_of g) (update_member_role h u owner db).members)
        × (count (member_of h u) db.members
            ≤ count (owner_of h) (update_member_role h u owner db).members)
  unfolding update_member_role with_role
  owners-update_member_role g = (
    rw (count-map (owner_of g) (with_role h u owner) db.members)
        (count-le _ _ (λ m e. ground arith) db.members),
    rw (count-map (owner_of h) (with_role h u owner) db.members)
        (count-le _ _ (λ m e. ground arith) db.members),
  )
