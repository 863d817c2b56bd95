-- ===== src/Household/Behaviour.antt =====
-- backend/app/modules/households/service.py: who may do what, what an error leaves, invite codes,
-- and the choice of the active household.
use fridgefriend.Household.Invariant.Deleting.{count-delete_household}
use fridgefriend.Household.Invariant.Leaving.{is_member, removed, one_active_gone}
use fridgefriend.Household.Invariant.Departure.{remaining, remaining_members, nobody}
use fridgefriend.Household.Counts.{active_of}
use fridgefriend.Prelude.{
  ℕ, ◌<◌, String, ◌≡◌, refl, sym, ◌∙◌, ◌≢◌, inl, inr, Bool, true, false, ◌&&◌, none, some, List, [],
  ◌∷◌, arith, Option-cases, keep, find, count, count-keep, find-none, find-some, keep_nil,
  find-keep, keep_none, All, ◌++◌,
}
use fridgefriend.Household.Model.{Db, Household, HouseholdMember, of_user, member_of, is_owner}
use fridgefriend.Household.Repository.{
  get_membership, get_by_invite_code, remove_membership, list_memberships_for_user, get_for_user,
  delete_household,
}
use fridgefriend.Household.Service.{
  Error, ok, err, generate_invite_code, leave_household, leave_member, left_by, remove_member,
  active_or_first, get_active_household_id,
}
use fridgefriend.Household.Invariant.{IsValid}

-- Removing a member succeeds only for an actor who is an owner of that household, and for a target
-- who is a member of it.
pub remove_member_authorised :
    (actor h u : ℕ) (db : Db)
    → (remove_member actor h u db).0 ≡ ok tt
    → (0 < count (λ m. member_of h actor m && is_owner m) db.members)
      × (0 < count (member_of h u) db.members)
unfolding remove_member get_membership
remove_member_authorised actor h u db done =
    elim (Option-cases (find (member_of h actor) db.members)) [
      | inl miss ↦ ground (arith, miss)
      | inr (a, hit) ↦ elim (Option-cases (find (member_of h u) db.members)) [
        | inl miss ↦ ground (arith, hit, miss)
        | inr (b, found) ↦ ground (
          arith,
          hit,
          found,
          find-some (member_of h actor) (λ m. member_of h actor m && is_owner m) db.members a hit,
          find-some (member_of h u) (member_of h u) db.members b found,
        )
      ]
    ]

-- A removal that fails leaves the tables as they were.
pub remove_member_error :
    (actor h u : ℕ) (db : Db) (e : Error)
    → (remove_member actor h u db).0 ≡ err e
    → (remove_member actor h u db).1 ≡ db
unfolding remove_member
remove_member_error actor h u db e failed = ground arith

-- The draw that is chosen is the code of no household.
pub generated_fresh :
    (draws : List String) (db : Db) (code : String)
    → generate_invite_code draws db ≡ some code
    → get_by_invite_code code db ≡ none
unfolding generate_invite_code
generated_fresh [] db code e = cc
generated_fresh (d ∷ ds) db code e = ground (arith, generated_fresh ds db code)

-- The draws are taken in turn until the first that is the code of no household, which is chosen.
pub generate_invite_code_first :
    (taken : List String) (code : String) (later : List String) (db : Db)
    → All (λ d. get_by_invite_code d db ≢ none) taken
    → get_by_invite_code code db ≡ none
    → generate_invite_code (taken ++ code ∷ later) db ≡ some code
unfolding generate_invite_code
generate_invite_code_first [] code later db used free = ground (arith, free)
generate_invite_code_first (d ∷ ds) code later db used free =
    let rest = generate_invite_code_first ds code later db used.1 free in
    elim (Option-cases (get_by_invite_code d db)) [
      | inl e ↦ absurd (used.0 e)
      | inr (h, e) ↦ ground (arith, rest, e)
    ]

module _ {lost : ℕ → Bool} {db : Db} (v : IsValid lost db) (u : ℕ) where
  abbrev pub in_use : ℕ → HouseholdMember → Bool
  in_use h m = member_of h u m && m.is_active

  -- Among the memberships of the user the search for an active one succeeds.
  first_active :
      lost u ≡ false
      → 0 < count (of_user u) db.members
      → (x : HouseholdMember) × (find (λ m. m.is_active) (keep (of_user u) db.members) ≡ some x)
        × (0 < count (in_use x.household_id) db.members)
  first_active kept some_membership =
      elim (Option-cases (find (λ m. m.is_active) (keep (of_user u) db.members))) [
        | inl miss ↦ absurd (
            ground (
              arith,
              v.one_active u,
              find-none (λ m. m.is_active) (keep (of_user u) db.members) miss,
              count-keep (λ m. m.is_active) (of_user u) db.members,
            ))
        | inr (x, hit) ↦
            let e = sym (find-keep (λ m. m.is_active) (of_user u) db.members) ∙ hit in
            let h = find-some (active_of u) (in_use x.household_id) db.members x e in
            (x, hit, h.1 (ground (arith, h.0)))
      ]

  -- In tables with the invariant, a user with memberships who is not among the `lost` gets the household of an active membership
  -- of theirs, and nothing is written.
  pub get_active_household_id-active :
      (email : String) (draws : List String) (new_id : ℕ)
      → lost u ≡ false
      → 0 < count (of_user u) db.members
      → (h : ℕ) × (get_active_household_id u email draws new_id db ≡ (ok h, db))
        × (0 < count (in_use h) db.members)
  unfolding get_active_household_id
  get_active_household_id-active email draws new_id kept some_membership =
      let (x, hit, active) = first_active kept some_membership in
      (x.household_id, go x hit (keep (of_user u) db.members) refl, active)
    where
      go :
          (x : HouseholdMember)
          → find (λ m. m.is_active) (keep (of_user u) db.members) ≡ some x
          → (ms : List HouseholdMember) → keep (of_user u) db.members ≡ ms
          → get_active_household_id u email draws new_id db ≡ (ok x.household_id, db)
      go x hit [] e = absurd (omega (arith, keep_nil (of_user u) db.members e))
      go x hit (m ∷ ms) e =
          let listed : list_memberships_for_user u db ≡ m ∷ ms =
            unfold list_memberships_for_user in e in
          let chosen : find (λ y. y.is_active) (m ∷ ms) ≡ some x = rw e at hit in
          rw (listed, get_active_household_id)
            (unfold active_or_first in rw (chosen, active_or_first))

-- In tables with the invariant, the last member of a household that is their active one, and who is
-- in other households too, is left without an active household when they leave.
pub leave_last_unsettled :
    {db : Db} (v : IsValid (λ _. false) db) (u h : ℕ) (m : HouseholdMember) (x : Household)
    → get_for_user h u db ≡ some x
    → get_membership h u db ≡ some m
    → m.is_active ≡ true
    → count (remaining h u) db.members ≡ 0
    → 1 < count (of_user u) db.members
    → (count (active_of u) (leave_household u h db).1.members ≡ 0)
      × (0 < count (of_user u) (leave_household u h db).1.members)
leave_last_unsettled {db} v u h m x hit e active alone others = rw (left) (
    ground (
      arith,
      is_member h u m v e,
      removed h u m v e (of_user u),
      one_active_gone h u m v e active,
      count-delete_household h gone_db (nobody v h u m e none_left) (active_of u),
      count-delete_household h gone_db (nobody v h u m e none_left) (of_user u),
    ))
  where
    gone_db : Db
    gone_db = remove_membership h u db

    none_left : keep (remaining h u) db.members ≡ []
    none_left = keep_none (remaining h u) db.members alone

    left : (leave_household u h db).1 ≡ delete_household h gone_db
    left =
        unfold leave_household leave_member left_by in
        rw (hit, e, leave_household, remaining_members h u db, none_left, left_by) refl
