-- ===== src/Household/Invariant/Joining.antt =====
-- `create_household`, `join_household` and `update_household` of
-- backend/app/modules/households/service.py keep the invariant.
use fridgefriend.Household.Service.{
  join_found, join_household, create_named, create_household, renamed, update_household,
}
use fridgefriend.Prelude.{
  ℕ, ◌+◌, ◌<◌, ◌≡◌, ◌≢◌, ◌⊎◌, Bool, true, arith, if◌then◌else◌, count, count-le, String, Option,
  List, Option-cases, some, find-some, inl, ◌++◌, inr, ◌∷◌, ==_self, [], find-none, refl, ◌==◌,
  count-append, ◌∙◌, false, none, str_eq, exists, count-ext, exists→count, count-map,
}
use fridgefriend.Household.Model.{
  Db, HouseholdRole, owner, of_user, of_household, member_of, has_id, Household, member,
}
use fridgefriend.Household.Repository.{
  insert_member, set_active_membership, get_membership, get_by_invite_code, add_member, create,
  update_name, rename, get_for_user,
}
use fridgefriend.Household.Counts.{active_of, owner_of, count-insert_member}
use fridgefriend.Household.Invariant.{
  IsValid, Distinct, OneActive, Owned, Housed, SamePeople-set_active_membership,
  owners-set_active_membership, OneActive-set_active_membership, HouseholdMember, count-le,
}

-- After a choice of the active household the invariant holds if all but that choice was in order.
pub IsValid-set_active_membership :
    (u h : ℕ) (db : Db) {lost : ℕ → Bool}
    → Distinct db
    → 0 < count (member_of h u) db.members
    → ((v : ℕ) → v ≢ u → OneActive lost v db)
    → ((g : ℕ) → Owned g db)
    → ((g : ℕ) → Housed g db)
    → IsValid lost (set_active_membership u h db)
IsValid-set_active_membership u h db {lost} d here others owned housed =
    let same = SamePeople-set_active_membership u h db in
    record {
      distinct = λ g v. ground (arith, same.pairs g v, d g v);
      one_active = OneActive-set_active_membership u h db lost d here others;
      owned =
          λ g. ground (arith, same.households g, owners-set_active_membership u h db g, owned g);
      housed = λ g. unfold set_active_membership in ground (arith, same.households g, housed g);
    }

-- A new membership of `u` in `h`, then made the active one.
module _ (h u : ℕ) (r : HouseholdRole) (db : Db) where
  abbrev entered : Db
  entered = insert_member h u r db

  entered_count :
      (p : HouseholdMember → Bool)
      → count p entered.members
        ≡ count p db.members
          + (if p (record { household_id = h; user_id = u; role = r; is_active = true })
              then 1
              else 0)
  entered_count p = count-insert_member h u db r p

  IsValid-insert_member :
      {lost : ℕ → Bool}
      → Distinct db
      → count (member_of h u) db.members ≡ 0
      → ((v : ℕ) → OneActive lost v db)
      → ((g : ℕ) → g ≢ h → Owned g db)
      → (r ≡ owner) ⊎ (0 < count (owner_of h) db.members)
      → ((g : ℕ) → g ≢ h → Housed g db)
      → 0 < count (has_id h) db.households
      → IsValid lost (set_active_membership u h entered)
  IsValid-insert_member d fresh active owned o housed row =
      IsValid-set_active_membership u h entered
        (λ g v. ground (arith, entered_count (member_of g v), d g v))
        (ground (arith, entered_count (member_of h u)))
        (λ v ne. ground (arith, entered_count (active_of v), entered_count (of_user v), active v))
        (λ g.
          ground (arith, entered_count (of_household g), entered_count (owner_of g), owned g, o))
        (λ g. unfold insert_member in ground (arith, entered_count (of_household g), housed g))

pub member_of-get_for_user :
    (h u : ℕ) (db : Db) (x : Household)
    → get_for_user h u db ≡ some x
    → exists (member_of h u) db.members ≡ true
unfolding get_for_user
member_of-get_for_user h u db x e = ground arith

members-renamed :
    (h : ℕ) (name : Option String) (db : Db) → (renamed h name db).members ≡ db.members
unfolding renamed update_name
members-renamed h none db = refl
members-renamed h (some name) db = refl

module _ {lost : ℕ → Bool} {db : Db} (v : IsValid lost db) where
  -- An identifier without a household has no members.
  unused : (h u : ℕ) → count (has_id h) db.households ≡ 0 → count (member_of h u) db.members ≡ 0
  unused h u fresh = ground (
    arith,
    v.housed h,
    count-le (member_of h u) (of_household h) (λ m e. ground arith) db.members,
  )

  create_named-IsValid :
      (name : String) (code : Option String) (u new_id : ℕ)
      → count (has_id new_id) db.households ≡ 0
      → IsValid lost (create_named name code u new_id db).1
  unfolding create_named
  create_named-IsValid name none u new_id fresh = v
  create_named-IsValid name (some code) u new_id fresh =
      unfold create in
      IsValid-insert_member new_id u owner _ v.distinct (unused new_id u fresh) v.one_active
        (λ g ne. v.owned g) (inl refl) (λ g ne. ground (arith, v.housed g, rows g))
        (ground (arith, rows new_id))
    where
      row : Household
      row = record { id = new_id; name = name; invite_code = code; version = 1 }

      rows :
          (g : ℕ)
          → count (has_id g) (db.households ++ row ∷ [])
            ≡ count (has_id g) db.households + (if new_id == g then 1 else 0)
      rows g = unfold count in omega (arith, count-append (has_id g) db.households (row ∷ []))

  -- Creating a household under an identifier that no household has keeps the invariant.
  pub create_household-IsValid :
      (u : ℕ) (name : String) (draws : List String) (new_id : ℕ)
      → count (has_id new_id) db.households ≡ 0
      → IsValid lost (create_household u name draws new_id db).1
  unfolding create_household
  create_household-IsValid u name draws new_id fresh = create_named-IsValid name _ u new_id fresh

  join_found-IsValid :
      (u h : ℕ) (o : Option HouseholdMember)
      → get_membership h u db ≡ o
      → 0 < count (has_id h) db.households
      → IsValid lost (join_found u h o db).1
  unfolding join_found get_membership
  join_found-IsValid u h (some m) e row =
      IsValid-set_active_membership u h db v.distinct
        (let found = find-some (member_of h u) (member_of h u) db.members m e in found.1 found.0)
        (λ w _. v.one_active w) v.owned v.housed
  join_found-IsValid u h none e row =
      unfold add_member in
      IsValid-insert_member h u member db v.distinct (find-none (member_of h u) db.members e)
        v.one_active (λ g _. v.owned g) (inr (v.owned h ((v.housed h).0 row))) (λ g _. v.housed g)
        row

  -- Joining by an invite code, known or not, keeps the invariant.
  pub join_household-IsValid :
      (u : ℕ) (invite_code : String) → IsValid lost (join_household u invite_code db).1
  unfolding join_household
  join_household-IsValid u invite_code = elim (Option-cases (get_by_invite_code invite_code db)) [
    | inl e ↦ rw (e, join_household) v
    | inr (x, e) ↦
        rw (e, join_household)
          (join_found-IsValid u x.id _ refl (
            (find-some (λ y. str_eq y.invite_code invite_code) (has_id x.id) db.households x
                (unfold get_by_invite_code in e)).1
              (==_self x.id)))
  ]

  renamed_rows :
      (h g : ℕ) (name : String)
      → count (has_id g) (update_name h name db).households ≡ count (has_id g) db.households
  unfolding update_name rename
  renamed_rows h g name =
      count-map (has_id g) (rename h name) db.households
      ∙ count-ext (λ x. has_id g (rename h name x)) (has_id g) (λ x. ground arith) db.households

  renamed-IsValid : (h : ℕ) (name : Option String) → IsValid lost (renamed h name db)
  unfolding renamed update_name
  renamed-IsValid h none = v
  renamed-IsValid h (some name) = record {
    distinct = v.distinct;
    one_active = v.one_active;
    owned = v.owned;
    housed = λ g. ground (arith, renamed_rows h g name, v.housed g);
  }

  activated-IsValid :
      (u h : ℕ) (name : Option String) (is_active : Bool)
      → exists (member_of h u) db.members ≡ true
      → IsValid lost
          (if is_active then set_active_membership u h (renamed h name db) else renamed h name db)
  activated-IsValid u h name false e = renamed-IsValid h name
  activated-IsValid u h name true e =
      let w = renamed-IsValid h name in
      IsValid-set_active_membership u h (renamed h name db) w.distinct
        (rw (members-renamed h name db) (exists→count (member_of h u) db.members e))
        (λ x _. w.one_active x) w.owned w.housed

  -- Renaming and activating a household, allowed or not, keeps the invariant.
  pub update_household-IsValid :
      (u h : ℕ) (name : Option String) (is_active : Bool)
      → IsValid lost (update_household u h name is_active db).1
  unfolding update_household
  update_household-IsValid u h name is_active = elim (Option-cases (get_for_user h u db)) [
    | inl miss ↦ rw (miss, update_household) v
    | inr (x, hit) ↦
        rw (hit, update_household)
          (activated-IsValid u h name is_active (member_of-get_for_user h u db x hit))
  ]
