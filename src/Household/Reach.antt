-- ===== src/Household/Reach.antt =====
-- The histories of the household tables: any sequence of calls of
-- backend/app/modules/households/service.py, from empty tables.
use Prim.Native.String.{◌++◌ as append}
use fridgefriend.Household.Invariant.Departure.{leave_household-IsValid, remove_member-IsValid}
use fridgefriend.Household.Invariant.Joining.{
  create_household-IsValid, join_household-IsValid, update_household-IsValid,
}
use fridgefriend.Prelude.{
  ℕ, String, ◌≡◌, refl, sym, subst, [], ◌∷◌, inl, Bool, true, Option, List, arith, count,
}
use fridgefriend.Household.Model.{Db, Household, HouseholdMember, has_id}
use fridgefriend.Household.Repository.{list_memberships_for_user, get_by_id}
use fridgefriend.Household.Invariant.{IsValid}
use fridgefriend.Household.Service.{
  Result, ok, err, create_household, join_household, update_household, leave_household,
  remove_member, list_households, get_active_household_id, ensure_default_household,
  active_or_first, id_of, listed, or_not_found,
}

-- One call. `uuid4` draws an identifier that no household has.
pub data Step : Db → Db → Type 0 where
  creates :
      (u : ℕ) (name : String) (draws : List String) (new_id : ℕ) (db : Db)
      → count (has_id new_id) db.households ≡ 0
      → Step db (create_household u name draws new_id db).1
  joins : (u : ℕ) (invite_code : String) (db : Db) → Step db (join_household u invite_code db).1
  updates :
      (u h : ℕ) (name : Option String) (is_active : Bool) (db : Db)
      → Step db (update_household u h name is_active db).1
  leaves : (u h : ℕ) (db : Db) → Step db (leave_household u h db).1
  lists :
      (u : ℕ) (email : String) (draws : List String) (new_id : ℕ) (db : Db)
      → count (has_id new_id) db.households ≡ 0
      → Step db (list_households u email draws new_id db).1
  asks_active :
      (u : ℕ) (email : String) (draws : List String) (new_id : ℕ) (db : Db)
      → count (has_id new_id) db.households ≡ 0
      → Step db (get_active_household_id u email draws new_id db).1
  removes : (actor h u : ℕ) (db : Db) → Step db (remove_member actor h u db).1

pub data Reach : Db → Type 0 where
  start : Reach (record { households = []; members = [] })
  next : {db db' : Db} → Reach db → Step db db' → Reach db'

-- The tables after a call that makes a household for a user who has none.
ensure_default_household-IsValid :
    {db : Db}
    → IsValid (λ _. true) db
    → (u : ℕ) (email : String) (draws : List String) (new_id : ℕ)
    → count (has_id new_id) db.households ≡ 0
    → IsValid (λ _. true) (ensure_default_household u email draws new_id db).1
unfolding ensure_default_household
ensure_default_household-IsValid {db} v u email draws new_id fresh =
    go (list_memberships_for_user u db)
  where
    go :
        (ms : List HouseholdMember)
        → IsValid
            (λ _. true)
            (elim ms as (λ _. Result Household × Db) [
              | [] ↦ create_household u (append email "'s Kitchen") draws new_id db
              | m ∷ ms ↦ (or_not_found (get_by_id (active_or_first m ms).household_id db), db)
            ]).1
    go [] = create_household-IsValid v u (append email "'s Kitchen") draws new_id fresh
    go (m ∷ ms) = v

id_of-tables : (x : Result Household × Db) → (id_of x).1 ≡ x.1
id_of-tables (ok household, db) = refl
id_of-tables (err e, db) = refl

listed-tables : (u : ℕ) (x : Result Household × Db) → (listed u x).1 ≡ x.1
listed-tables u (ok household, db) = refl
listed-tables u (err e, db) = refl

get_active_household_id-IsValid :
    {db : Db}
    → IsValid (λ _. true) db
    → (u : ℕ) (email : String) (draws : List String) (new_id : ℕ)
    → count (has_id new_id) db.households ≡ 0
    → IsValid (λ _. true) (get_active_household_id u email draws new_id db).1
unfolding get_active_household_id
get_active_household_id-IsValid {db} v u email draws new_id fresh =
    go (list_memberships_for_user u db)
  where
    made : Result Household × Db
    made = ensure_default_household u email draws new_id db

    go :
        (ms : List HouseholdMember)
        → IsValid
            (λ _. true)
            (elim ms as (λ _. Result ℕ × Db) [
              | [] ↦ id_of (ensure_default_household u email draws new_id db)
              | m ∷ ms ↦ (ok (active_or_first m ms).household_id, db)
            ]).1
    go [] =
        subst (IsValid (λ _. true)) (sym (id_of-tables made))
          (ensure_default_household-IsValid v u email draws new_id fresh)
    go (m ∷ ms) = v

Step-IsValid : {db db' : Db} → Step db db' → IsValid (λ _. true) db → IsValid (λ _. true) db'
Step-IsValid (creates u name draws new_id db fresh) v =
    create_household-IsValid v u name draws new_id fresh
Step-IsValid (joins u invite_code db) v = join_household-IsValid v u invite_code
Step-IsValid (updates u h name is_active db) v = update_household-IsValid v u h name is_active
Step-IsValid (leaves u h db) v = leave_household-IsValid v u h (inl refl)
Step-IsValid (lists u email draws new_id db fresh) v =
    unfold list_households in
    subst (IsValid (λ _. true))
      (sym (listed-tables u (ensure_default_household u email draws new_id db)))
      (ensure_default_household-IsValid v u email draws new_id fresh)
Step-IsValid (asks_active u email draws new_id db fresh) v =
    get_active_household_id-IsValid v u email draws new_id fresh
Step-IsValid (removes actor h u db) v = remove_member-IsValid v actor h u

empty-IsValid : IsValid (λ _. true) (record { households = []; members = [] })
unfolding count
empty-IsValid = record {
  distinct = λ h u. omega arith;
  one_active = λ u. inl (omega arith);
  owned = λ h p. p;
  housed = λ h. (λ p. p, λ p. p);
}

-- After any calls, from empty tables: nobody is in a household twice, nobody has two active
-- households, every household with members has an owner, and exactly those households have a row.
pub Reach-IsValid : {db : Db} → Reach db → IsValid (λ _. true) db
Reach-IsValid start = empty-IsValid
Reach-IsValid (next r s) = Step-IsValid s (Reach-IsValid r)
