-- ===== src/Household/Invariant/Active.antt =====
-- `reactivate` of backend/app/modules/households/service.py: a user that lost the active membership
-- has an active one again.
use fridgefriend.Prelude.{
  ℕ, ◌≡◌, refl, ◌≢◌, Bool, true, false, List, [], ◌∷◌, arith, count, keep_head, keep_nil, inl, inr,
  ◌==◌, ==_iff, Bool-cases,
}
use fridgefriend.Household.Model.{Db, of_user, member_of}
use fridgefriend.Household.Repository.{set_active_membership, list_memberships_for_user}
use fridgefriend.Household.Service.{reactivate, reactivate_first}
use fridgefriend.Household.Counts.{active_of, owner_of}
use fridgefriend.Household.Invariant.{
  Distinct, OneActive, SamePeople, SamePeople-refl, SamePeople-set_active_membership,
  owners-set_active_membership, OneActive-set_active_membership, HouseholdMember,
}

module _ (u : ℕ) (db : Db) where
  -- What `reactivate` leaves alone, by cases on the memberships of the user.
  pub SamePeople-reactivate : (b : Bool) → SamePeople (reactivate b u db) db
  unfolding reactivate
  SamePeople-reactivate false = SamePeople-refl db
  SamePeople-reactivate true = go (list_memberships_for_user u db)
    where
      go : (ms : List HouseholdMember) → SamePeople (reactivate_first u ms db) db
      go [] = unfold reactivate_first in SamePeople-refl db
      go (m ∷ ms) = unfold reactivate_first in SamePeople-set_active_membership u m.household_id db

  pub owners-reactivate :
      (b : Bool) (g : ℕ)
      → count (owner_of g) (reactivate b u db).members ≡ count (owner_of g) db.members
  unfolding reactivate reactivate_first
  owners-reactivate false g = refl
  owners-reactivate true g = go (list_memberships_for_user u db)
    where
      go :
          (ms : List HouseholdMember)
          → count (owner_of g) (reactivate_first u ms db).members ≡ count (owner_of g) db.members
      go [] = refl
      go (m ∷ ms) = owners-set_active_membership u m.household_id db g

  pub households-reactivate : (b : Bool) → (reactivate b u db).households ≡ db.households
  unfolding reactivate reactivate_first set_active_membership
  households-reactivate b = ground arith

  module _ (lost : ℕ → Bool) where
    reactivate_first-OneActive :
        (ms : List HouseholdMember)
        → list_memberships_for_user u db ≡ ms
        → Distinct db
        → count (active_of u) db.members ≡ 0
        → ((v : ℕ) → v ≢ u → OneActive lost v db)
        → (v : ℕ) → OneActive lost v (reactivate_first u ms db)
    unfolding reactivate_first list_memberships_for_user
    reactivate_first-OneActive [] e d gone others v = elim (Bool-cases (v == u)) [
      | inl same ↦
          rw ((==_iff v u).0 same) (inl (ground (arith, keep_nil (of_user u) db.members e)))
      | inr other ↦ others v (ground (arith, ==_iff v u))
    ]
    reactivate_first-OneActive (m ∷ ms) e d gone others v =
        let h = keep_head (of_user u) (member_of m.household_id u) db.members m ms e in
        OneActive-set_active_membership u m.household_id db lost d (h.1 (ground (arith, h.0)))
          others v

    pub reactivate-OneActive :
        (b : Bool)
        → Distinct db
        → (b ≡ true → count (active_of u) db.members ≡ 0)
        → (b ≡ false → OneActive lost u db)
        → ((v : ℕ) → v ≢ u → OneActive lost v db)
        → (v : ℕ) → OneActive lost v (reactivate b u db)
    unfolding reactivate
    reactivate-OneActive true d gone kept others v =
        reactivate_first-OneActive _ refl d (gone refl) others v
    reactivate-OneActive false d gone kept others v = elim (Bool-cases (v == u)) [
      | inl same ↦ rw ((==_iff v u).0 same) (kept refl)
      | inr other ↦ others v (ground (arith, ==_iff v u))
    ]
