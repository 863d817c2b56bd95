-- ===== src/Household/Invariant/Deleting.antt =====
-- `delete_household` of backend/app/modules/households/repository.py, where no member is left.
use fridgefriend.Household.Counts.{Kind, owner_of, active_of}
use fridgefriend.Household.Repository.{delete_household}
use fridgefriend.Prelude.{
  ℕ, ◌≡◌, ◌∙◌, ◌≢◌, inl, inr, Bool, false, not, ◌&&◌, arith, ◌==◌, if◌then◌else◌, Bool-cases, count,
  count-keep, count-ext, count-le, count_split, count-false,
}
use fridgefriend.Household.Model.{Db, of_user, of_household, member_of, has_id}
use fridgefriend.Household.Invariant.{IsValid, Distinct, OneActive, Owned, Housed, Kind, owner_of}

-- A household with no member left is deleted.
module _ (h : ℕ) (db : Db) (empty : count (of_household h) db.members ≡ 0) where
  pub count-delete_household :
      (p : Kind) → count p (delete_household h db).members ≡ count p db.members
  unfolding delete_household
  count-delete_household p = omega (
    arith,
    count-keep p (λ m. not (of_household h m)) db.members,
    count_split p (of_household h) db.members,
    count-le (λ m. of_household h m && p m) (of_household h) (λ m a. ground arith) db.members,
  )

  rows-delete_household :
      (g : ℕ)
      → count (has_id g) (delete_household h db).households
        ≡ (if g == h then 0 else count (has_id g) db.households)
  unfolding delete_household
  rows-delete_household g = elim (Bool-cases (g == h)) [
    | inl same ↦ rw same (
        omega (
          arith,
          count-keep (has_id g) (λ x. not (has_id h x)) db.households,
          count-le (λ x. not (has_id h x) && has_id g x) (λ x. false) (λ x a. ground arith)
              db.households,
          count-false db.households,
        ))
    | inr other ↦ rw other (
        count-keep (has_id g) (λ x. not (has_id h x)) db.households
        ∙ count-ext (λ x. not (has_id h x) && has_id g x) (has_id g) (λ x. ground arith)
            db.households)
  ]

  pub IsValid-delete_household :
      {lost : ℕ → Bool}
      → Distinct db
      → ((w : ℕ) → OneActive lost w db)
      → ((g : ℕ) → g ≢ h → Owned g db)
      → ((g : ℕ) → g ≢ h → Housed g db)
      → IsValid lost (delete_household h db)
  IsValid-delete_household d active owned housed = record {
    distinct = λ g w. ground (arith, count-delete_household (member_of g w), d g w);
    one_active = λ w.
        ground (
          arith,
          count-delete_household (active_of w),
          count-delete_household (of_user w),
          active w,
        );
    owned = λ g. ground (
      arith,
      count-delete_household (of_household g),
      count-delete_household (owner_of g),
      owned g,
      empty_of g,
    );
    housed = λ g. ground (
      arith,
      count-delete_household (of_household g),
      rows-delete_household g,
      housed g,
      empty_of g,
    );
  }
    where
      empty_of : (g : ℕ) → g ≡ h → count (of_household g) db.members ≡ 0
      empty_of g same = rw same empty
