-- ===== src/Household/Invariant/Leaving.antt =====
-- `leave_household` and `remove_member` of backend/app/modules/households/service.py keep the
-- invariant: a membership goes, and with the last one of a household its row.
use fridgefriend.Household.Invariant.Owners.{Promoted-promote, promote-Owned}
use fridgefriend.Household.Counts.{Kind, owner_of, count-remove_membership, active_of}
use fridgefriend.Household.Service.{reactivate, promote}
use fridgefriend.Household.Invariant.Active.{
  reactivate-OneActive, owners-reactivate, households-reactivate, SamePeople-reactivate,
}
use fridgefriend.Household.Repository.{get_membership, remove_membership}
use fridgefriend.Prelude.{
  ℕ, ◌+◌, ◌≡◌, ◌≢◌, inl, inr, Bool, true, false, some, arith, ◌==◌, if◌then◌else◌, Bool-cases,
  count, count-le, find-some, count_of_find, ◌<◌, ap, List, ◌∷◌, ==_iff, exists,
}
use fridgefriend.Household.Model.{
  Db, HouseholdMember, of_user, of_household, member_of, has_id, is_owner,
}
use fridgefriend.Household.Invariant.{
  IsValid, Distinct, OneActive, Owned, Housed, Kind, owner_of, SamePeople,
}

-- The state after the membership `m` of `u` in `h` is deleted.
module _ (h u : ℕ) (m : HouseholdMember) {lost : ℕ → Bool} {db : Db} (v : IsValid lost db)
    (e : get_membership h u db ≡ some m) where
  abbrev pub gone : Db
  gone = remove_membership h u db

  abbrev pub recovered : Db
  recovered = reactivate m.is_active u gone

  pub removed : (p : Kind) → count p gone.members + (if p m then 1 else 0) ≡ count p db.members
  unfolding get_membership
  removed p = omega (
    arith,
    count-remove_membership h u db p,
    count_of_find (member_of h u) p db.members m e (v.distinct h u),
  )

  pub is_member : member_of h u m ≡ true
  unfolding get_membership
  is_member = (find-some (member_of h u) (member_of h u) db.members m e).0

  pub gone-Distinct : Distinct gone
  gone-Distinct g w = omega (arith, removed (member_of g w), v.distinct g w)

  pub one_active_gone : m.is_active ≡ true → count (active_of u) gone.members ≡ 0
  one_active_gone was = ground (arith, is_member, removed (active_of u), v.one_active u)

  pub still_active : m.is_active ≡ false → OneActive lost u gone
  still_active was_not = ground (
    arith,
    is_member,
    removed (active_of u),
    removed (of_user u),
    v.one_active u,
    count-le (active_of u) (of_user u) (λ x a. ground arith) gone.members,
  )

  pub others_active : (w : ℕ) → w ≢ u → OneActive lost w gone
  others_active w ne =
      ground (arith, is_member, removed (active_of w), removed (of_user w), v.one_active w)

  pub recovered-OneActive : (w : ℕ) → OneActive lost w recovered
  recovered-OneActive =
      reactivate-OneActive u gone lost m.is_active gone-Distinct one_active_gone still_active
        others_active

  pub people : SamePeople recovered gone
  people = SamePeople-reactivate u gone m.is_active

  pub owners : (g : ℕ) → count (owner_of g) recovered.members ≡ count (owner_of g) gone.members
  owners = owners-reactivate u gone m.is_active

  pub rows : (g : ℕ) → count (has_id g) recovered.households ≡ count (has_id g) db.households
  unfolding remove_membership
  rows g = ap (count (has_id g)) (households-reactivate u gone m.is_active)

  -- Every other household keeps its members, its owners and its row.
  pub gone-Owned : (g : ℕ) → g ≢ h → Owned g gone
  gone-Owned g ne =
      ground (arith, is_member, removed (of_household g), removed (owner_of g), v.owned g)

  pub gone-Housed : (g : ℕ) → g ≢ h → Housed g gone
  unfolding remove_membership
  gone-Housed g ne = ground (arith, is_member, removed (of_household g), v.housed g)

  pub other-Owned : (g : ℕ) → g ≢ h → Owned g recovered
  other-Owned g ne = ground (arith, people.households g, owners g, gone-Owned g)

  pub other-Housed : (g : ℕ) → g ≢ h → Housed g recovered
  other-Housed g ne =
      ground (arith, is_member, removed (of_household g), people.households g, rows g, v.housed g)

  here-Housed : 0 < count (of_household h) recovered.members → Housed h recovered
  here-Housed left =
      ground (arith, is_member, removed (of_household h), people.households h, rows h, v.housed h)

  pub recovered-Distinct : Distinct recovered
  recovered-Distinct g w = ground (arith, people.pairs g w, gone-Distinct g w)

  -- The household of the membership has a row.
  pub row_found : 0 < count (has_id h) recovered.households
  row_found = ground (arith, is_member, removed (of_household h), rows h, v.housed h)

  -- If a member that was no owner left, an owner is left.
  owner_left : is_owner m ≡ false → 0 < count (owner_of h) recovered.members
  owner_left no_owner =
      ground (arith, is_member, removed (of_household h), removed (owner_of h), owners h, v.owned h)

  -- The invariant after the promotion, when a member `x` is left.
  pub promoted-IsValid :
      (x : HouseholdMember) (xs : List HouseholdMember)
      → (exists is_owner (x ∷ xs) ≡ true → 0 < count (owner_of h) recovered.members)
      → 0 < count (member_of h x.user_id) recovered.members
      → IsValid lost (promote (is_owner m) h (x ∷ xs) recovered)
  promoted-IsValid x xs left here =
      let p = Promoted-promote h recovered (is_owner m) (x ∷ xs) in
      record {
        distinct = λ g w. ground (arith, p.people.pairs g w, people.pairs g w, gone-Distinct g w);
        one_active = λ w. ground (arith, p.people.users w, p.active w, recovered-OneActive w);
        owned = λ g. elim (Bool-cases (g == h)) [
          | inl same ↦ λ _.
              rw ((==_iff g h).0 same)
                (promote-Owned h recovered (is_owner m) x xs owner_left left here)
          | inr other ↦ ground (arith, p.people.households g, p.owners g, other-Owned g, ==_iff g h)
        ];
        housed = λ g. ground (
          arith,
          ap (count (has_id g)) p.rows,
          p.people.households g,
          other-Housed g,
          here-Housed,
          count-le (member_of h x.user_id) (of_household h) (λ y a. ground arith) recovered.members,
        );
      }
