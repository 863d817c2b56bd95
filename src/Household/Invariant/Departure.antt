-- ===== src/Household/Invariant/Departure.antt =====
-- `leave_household` and `remove_member` of backend/app/modules/households/service.py keep the
-- invariant, on every branch.
use fridgefriend.Household.Invariant.Leaving.{
  owners, people, gone-Owned, recovered-Distinct, row_found, one_active_gone, gone-Housed,
  still_active, others_active,
}
use fridgefriend.Household.Invariant.Deleting.{IsValid-delete_household}
use fridgefriend.Household.Invariant.Leaving.{
  promoted-IsValid, gone-Distinct, owners, recovered, is_member, recovered-OneActive, removed,
  other-Owned, people, other-Housed,
}
use fridgefriend.Household.Service.{
  leave_remaining, expel, settle_household, settled, leave_member, leave_household, remove_member,
  left_by,
}
use fridgefriend.Household.Invariant.{IsValid, of_user, member_of, OneActive, has_id}
use fridgefriend.Household.Counts.{Kind}
use fridgefriend.Household.Repository.{
  members_of, remove_membership, get_membership, delete_household, get_by_id, get_for_user,
}
use fridgefriend.Prelude.{
  ℕ, keep-keep, ◌<◌, ◌≡◌, refl, sym, ap, ◌∙◌, ◌⊎◌, inl, inr, Bool, true, not, ◌&&◌, none, some,
  List, [], ◌∷◌, arith, ◌==◌, ==_iff, Bool-cases, Option-cases, keep, count, count-keep, count-ext,
  count-le, exists→count, find-none, keep_head, keep_nil,
}
use fridgefriend.Household.Model.{
  Db, HouseholdMember, of_household, member_of, of_user, is_owner, has_id,
}

abbrev pub remaining : ℕ → ℕ → Kind
remaining h u m = of_household h m && not (of_user u m)

-- Deleting `u` from `h` leaves the members of `h` that are not `u`.
module _ (h u : ℕ) (db : Db) where
  count-remaining :
      (p : Kind)
      → count (λ m. remaining h u m && p m) db.members
        ≡ count (λ m. of_household h m && p m) (remove_membership h u db).members
  unfolding remove_membership
  count-remaining p = sym (
      count-keep (λ m. of_household h m && p m) (λ m. not (member_of h u m)) db.members
      ∙ count-ext (λ m. not (member_of h u m) && (of_household h m && p m))
          (λ m. remaining h u m && p m) (λ m. ground arith) db.members)

  pub remaining_members :
      keep (λ m. not (of_user u m)) (members_of h db) ≡ keep (remaining h u) db.members
  unfolding members_of
  remaining_members = keep-keep (λ m. not (of_user u m)) (of_household h) db.members

-- `u` is among the `lost`, or is not the last member of `h`.
abbrev pub MayLeave : (ℕ → Bool) → ℕ → ℕ → Db → Type 0
MayLeave lost u h db =
    (lost u ≡ true) ⊎ (0 < count (λ m. of_household h m && not (of_user u m)) db.members)

module _ {lost : ℕ → Bool} {db : Db} (v : IsValid lost db) where
  module _ (h u : ℕ) (m : HouseholdMember) (e : get_membership h u db ≡ some m) where
    pub nobody :
        keep (remaining h u) db.members ≡ []
        → count (of_household h) (remove_membership h u db).members ≡ 0
    nobody none_left =
        let twice = λ (x : HouseholdMember). of_household h x && of_household h x in
        omega (
          arith,
          keep_nil (remaining h u) db.members none_left,
          count-remaining h u db (of_household h),
          count-le (λ x. remaining h u x && of_household h x) (remaining h u) (λ x a. ground arith)
              db.members,
          count-le (of_household h) twice (λ x a. ground arith) (remove_membership h u db).members,
        )

    -- No household is left to `u`, or it may be without an active one.
    gone_active :
        MayLeave lost u h db
        → keep (remaining h u) db.members ≡ []
        → (w : ℕ) → OneActive lost w (remove_membership h u db)
    gone_active may none_left w = elim (Bool-cases (w == u)) [
      | inl same ↦ rw ((==_iff w u).0 same) (elim (Bool-cases m.is_active) [
        | inl was ↦ inr (
          ground (arith, may, keep_nil (remaining h u) db.members none_left),
          one_active_gone h u m v e was,
        )
        | inr was_not ↦ still_active h u m v e was_not
      ])
      | inr other ↦ others_active h u m v e w (ground (arith, ==_iff w u))
    ]

    deserted-IsValid :
        MayLeave lost u h db
        → keep (remaining h u) db.members ≡ []
        → IsValid lost (delete_household h (remove_membership h u db))
    deserted-IsValid may none_left =
        IsValid-delete_household h (remove_membership h u db) (nobody none_left)
          (gone-Distinct h u m v e) (gone_active may none_left) (gone-Owned h u m v e)
          (gone-Housed h u m v e)

    left_behind-IsValid :
        (x : HouseholdMember) (xs : List HouseholdMember)
        → keep (remaining h u) db.members ≡ x ∷ xs
        → IsValid lost (leave_remaining m u h (x ∷ xs) (remove_membership h u db))
    unfolding leave_remaining
    left_behind-IsValid x xs left =
        let found = keep_head (remaining h u) (member_of h x.user_id) db.members x xs left in
        promoted-IsValid h u m v e x xs
          (λ o. omega (
            arith,
            exists→count is_owner (x ∷ xs) o,
            ap (count is_owner) left,
            count-keep is_owner (remaining h u) db.members,
            count-remaining h u db is_owner,
            owners h u m v e h,
          ))
          (ground (
            arith,
            found.0,
            found.1,
            is_member h u m v e,
            removed h u m v e (member_of h x.user_id),
            (people h u m v e).pairs h x.user_id,
          ))

    settled-IsValid :
        (ms : List HouseholdMember)
        → members_of h (recovered h u m v e) ≡ ms
        → IsValid lost (settled (is_owner m) h ms (recovered h u m v e))
    unfolding settled members_of
    settled-IsValid [] none_left =
        IsValid-delete_household h (recovered h u m v e)
          (keep_nil (of_household h) (recovered h u m v e).members none_left)
          (recovered-Distinct h u m v e) (recovered-OneActive h u m v e) (other-Owned h u m v e)
          (other-Housed h u m v e)
    settled-IsValid (x ∷ xs) left =
        let there = (recovered h u m v e).members in
        let found = keep_head (of_household h) (member_of h x.user_id) there x xs left in
        promoted-IsValid h u m v e x xs
          (λ o. omega (
            arith,
            exists→count is_owner (x ∷ xs) o,
            ap (count is_owner) left,
            count-keep is_owner (of_household h) there,
          ))
          (ground (arith, found.0, found.1))

    expel-IsValid : IsValid lost (expel m u h db)
    unfolding expel settle_household
    expel-IsValid = elim (Option-cases (get_by_id h (recovered h u m v e))) [
      | inl miss ↦ absurd (row_missing miss)
      | inr (x, hit) ↦ rw (hit, settle_household) (settled-IsValid _ refl)
    ]
      where
        row_missing : get_by_id h (recovered h u m v e) ≡ none → ⊥
        row_missing miss =
            let there = (recovered h u m v e).households in
            omega
              (arith, row_found h u m v e, find-none (has_id h) there (unfold get_by_id in miss))

    leave_member-IsValid : MayLeave lost u h db → IsValid lost (leave_member m u h db)
    unfolding leave_member
    leave_member-IsValid may =
        rw (remaining_members h u db) (go (keep (remaining h u) db.members) refl)
      where
        go :
            (ms : List HouseholdMember)
            → keep (remaining h u) db.members ≡ ms
            → IsValid lost (left_by m u h ms db)
        go [] none_left = unfold left_by in deserted-IsValid may none_left
        go (x ∷ xs) left = unfold left_by in left_behind-IsValid x xs left

  -- Leaving a household keeps the invariant: the household keeps an owner, or is deleted with its
  -- last member, and the user that leaves has an active household again.
  pub leave_household-IsValid :
      (u h : ℕ) → MayLeave lost u h db → IsValid lost (leave_household u h db).1
  unfolding leave_household
  leave_household-IsValid u h may = elim (Option-cases (get_for_user h u db)) [
    | inl miss ↦ rw (miss, leave_household) v
    | inr (x, hit) ↦ elim (Option-cases (get_membership h u db)) [
      | inl none' ↦ rw (hit, none', leave_household) v
      | inr (m, e) ↦ rw (hit, e, leave_household) (leave_member-IsValid h u m e may)
    ]
  ]

  -- Removing a member, allowed or not, keeps the invariant.
  pub remove_member-IsValid : (actor h u : ℕ) → IsValid lost (remove_member actor h u db).1
  unfolding remove_member
  remove_member-IsValid actor h u = elim (Option-cases (get_membership h actor db)) [
    | inl miss ↦ rw (miss, remove_member) v
    | inr (a, hit) ↦ elim (Bool-cases (is_owner a)) [
      | inr not_owner ↦ rw (hit, not_owner, remove_member) v
      | inl an_owner ↦ elim (Option-cases (get_membership h u db)) [
        | inl none' ↦ rw (hit, an_owner, none', remove_member) v
        | inr (m, e) ↦ rw (hit, an_owner, e, remove_member) (expel-IsValid h u m e)
      ]
    ]
  ]
