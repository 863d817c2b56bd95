-- ===== src/Household/Examples.antt =====
-- The theorems on households at concrete tables: user 1 owns household 10 and is in household 20,
-- which user 3 owns; user 2 is a member of household 10.
use fridgefriend.Prelude.{
  ℕ, ◌<◌, ◌≡◌, refl, inl, inr, true, false, ◌&&◌, [], ◌∷◌, arith, find, exists, count, some,
}
use fridgefriend.Household.Model.{
  Db, owner, member, of_user, member_of, is_owner, Household, HouseholdMember,
}
use fridgefriend.Household.Service.{
  ok, create_household, join_household, leave_household, remove_member, generate_invite_code,
  get_active_household_id,
}
use fridgefriend.Household.Repository.{get_by_id, get_by_invite_code, get_for_user, get_membership}
use fridgefriend.Household.Counts.{active_of}
use fridgefriend.Household.Invariant.{IsValid}
use fridgefriend.Household.Invariant.Departure.{leave_household-IsValid}
use fridgefriend.Household.Reach.{start, next, creates, joins, leaves, Reach-IsValid}
use fridgefriend.Household.Behaviour.{
  remove_member_authorised, generate_invite_code_first, get_active_household_id-active,
  leave_last_unsettled, in_use,
}

abbrev home : Household
home = record { id = 10; name = "Home"; invite_code = "AAAA"; version = 1 }

abbrev cabin : Household
cabin = record { id = 20; name = "Cabin"; invite_code = "BBBB"; version = 1 }

abbrev first_member : HouseholdMember
first_member = record { household_id = 10; user_id = 1; role = owner; is_active = true }

abbrev pub kitchens : Db
kitchens = record {
  households = home ∷ cabin ∷ [];
  members =
      first_member
      ∷ record { household_id = 10; user_id = 2; role = member; is_active = true }
      ∷ record { household_id = 20; user_id = 3; role = owner; is_active = true }
      ∷ record { household_id = 20; user_id = 1; role = member; is_active = false }
      ∷ [];
}

-- As `kitchens`, without user 2.
abbrev alone : Db
alone = record {
  households = home ∷ cabin ∷ [];
  members =
      first_member
      ∷ record { household_id = 20; user_id = 3; role = owner; is_active = true }
      ∷ record { household_id = 20; user_id = 1; role = member; is_active = false }
      ∷ [];
}

kitchens-IsValid : IsValid (λ _. false) kitchens
unfolding count
kitchens-IsValid = record {
  distinct = λ h u. ground arith;
  one_active = λ u. inl (ground arith);
  owned = λ h. ground arith;
  housed = λ h. ground arith;
}

alone-IsValid : IsValid (λ _. false) alone
unfolding count
alone-IsValid = record {
  distinct = λ h u. ground arith;
  one_active = λ u. inl (ground arith);
  owned = λ h. ground arith;
  housed = λ h. ground arith;
}

leave_household-IsValid_example : IsValid (λ _. false) (leave_household 1 10 kitchens).1
leave_household-IsValid_example =
    leave_household-IsValid kitchens-IsValid 1 10 (inr (unfold count in omega arith))

abbrev no_tables : Db
no_tables = record { households = []; members = [] }

abbrev created : Db
created = (create_household 1 "Home" ("AAAA" ∷ []) 10 no_tables).1

abbrev joined : Db
joined = (join_household 2 "AAAA" created).1

Reach-IsValid_example : IsValid (λ _. true) (leave_household 1 10 joined).1
Reach-IsValid_example = Reach-IsValid (
    next
      (next (next start (creates 1 "Home" ("AAAA" ∷ []) 10 no_tables (unfold count in refl)))
        (joins 2 "AAAA" created))
      (leaves 1 10 joined))

remove_member_authorised_example :
    (0 < count (λ m. member_of 10 1 m && is_owner m) kitchens.members)
    × (0 < count (member_of 10 2) kitchens.members)
remove_member_authorised_example =
    remove_member_authorised 1 10 2 kitchens (unfold remove_member get_membership find in refl)

generate_invite_code_first_example :
    generate_invite_code ("AAAA" ∷ "BBBB" ∷ "CCCC" ∷ "DDDD" ∷ []) kitchens ≡ some "CCCC"
generate_invite_code_first_example =
    generate_invite_code_first ("AAAA" ∷ "BBBB" ∷ []) "CCCC" ("DDDD" ∷ []) kitchens
      (unfold get_by_invite_code find in ((λ e. cc), ((λ e. cc), tt)))
      (unfold get_by_invite_code find in refl)

get_active_household_id-active_example :
    (h : ℕ) × (get_active_household_id 1 "a@b.c" [] 40 kitchens ≡ (ok h, kitchens))
    × (0 < count (in_use kitchens-IsValid 1 h) kitchens.members)
get_active_household_id-active_example =
    get_active_household_id-active kitchens-IsValid 1 "a@b.c" [] 40 refl
      (unfold count in omega arith)

leave_last_unsettled_example :
    (count (active_of 1) (leave_household 1 10 alone).1.members ≡ 0)
    × (0 < count (of_user 1) (leave_household 1 10 alone).1.members)
leave_last_unsettled_example =
    leave_last_unsettled alone-IsValid 1 10 first_member home
      (unfold get_for_user exists find get_by_id in refl) (unfold get_membership find in refl) refl
      (unfold count in refl) (unfold count in omega arith)
