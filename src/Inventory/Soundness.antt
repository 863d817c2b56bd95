-- ===== src/Inventory/Soundness.antt =====
-- backend/app/modules/inventory/service.py: what each of the effects of a call keeps.
use fridgefriend.Inventory.Restore.{removal}
use fridgefriend.Inventory.Refinement.{run-Effect}
use fridgefriend.Inventory.Events.{log_event}
use fridgefriend.Inventory.Effects.{
  inserted, rewrote, dropped, marked, untouched, IsSound, IsClean, Call, Fresh, IsRecord, run,
  Effect, snapshot-IsStateOf,
}
use fridgefriend.Scalar.{Float, IsOrdered}
use fridgefriend.Prelude.{
  ℕ, opt_eq_iff, ◌≤◌, ◌≡◌, refl, ◌∙◌, ◌≢◌, not, some, List, [], ◌∷◌, map, arith, ==_iff, keep, find,
  count, count-ext, find-some, count-map, All-keep, All-map, All-find, inl, inr, Bool-cases, opt_eq,
  count-keep, count_split,
}
use fridgefriend.Inventory.Model.{InventoryItem, has_id, in_household, Db, InventoryEvent}
use fridgefriend.Inventory.Repository.{replace, get_by_id, detach, create, write}
use fridgefriend.Inventory.Rows.{is_row, get_by_id-is_row}

module _ {W : Type 0} where
  count-replace :
      (y : InventoryItem W) (k : ℕ) (xs : List (InventoryItem W))
      → count (has_id k) (map (replace y) xs) ≡ count (has_id k) xs
  unfolding replace
  count-replace y k xs =
      count-map (has_id k) (replace y) xs
      ∙ count-ext (λ x. has_id k (replace y x)) (has_id k) (λ x. ground (arith, ==_iff x.id y.id))
          xs

  -- A row that is not there is not rewritten.
  replace_absent :
      (y : InventoryItem W) (xs : List (InventoryItem W))
      → count (has_id y.id) xs ≡ 0
      → map (replace y) xs ≡ xs
  unfolding replace count
  replace_absent y [] h = refl
  replace_absent y (x ∷ xs) h = ground (arith, replace_absent y xs)

  drop_absent :
      (i : ℕ) (xs : List (InventoryItem W))
      → count (has_id i) xs ≡ 0
      → keep (λ x. not (has_id i x)) xs ≡ xs
  unfolding keep count
  drop_absent i [] h = refl
  drop_absent i (x ∷ xs) h = ground (arith, drop_absent i xs)

  -- If at most one row has the identifier, and it is in the household `h`, then rewriting it within
  -- `h`, or deleting it, keeps the rows of another household.
  module _ (i h g : ℕ) (y x : InventoryItem W) (apart : g ≢ h) (same : y.id ≡ i)
      (inside : y.household_id ≡ some h) where
    others-replace :
        (xs : List (InventoryItem W))
        → count (has_id i) xs ≤ 1
        → find (is_row i h) xs ≡ some x
        → keep (in_household g) (map (replace y) xs) ≡ keep (in_household g) xs
    unfolding keep count find replace
    others-replace [] u e = refl
    others-replace (z ∷ zs) u e = ground (
      arith,
      others-replace zs,
      find-some (is_row i h) (has_id i) zs x,
      replace_absent y zs,
      opt_eq_iff z.household_id h,
      opt_eq_iff z.household_id g,
      opt_eq_iff y.household_id g,
    )

    others_dropped :
        (xs : List (InventoryItem W))
        → count (has_id i) xs ≤ 1
        → find (is_row i h) xs ≡ some x
        → keep (in_household g) (keep (λ z. not (has_id i z)) xs) ≡ keep (in_household g) xs
    unfolding keep count find
    others_dropped [] u e = refl
    others_dropped (z ∷ zs) u e = ground (
      arith,
      others_dropped zs,
      find-some (is_row i h) (has_id i) zs x,
      drop_absent i zs,
      opt_eq_iff z.household_id h,
      opt_eq_iff z.household_id g,
    )

module _ {W : Type 0} ⦃f : Float W⦄ where
  -- A row that is read is clean.
  read-IsClean :
      {db : Db W}
      → IsSound db
      → (i h : ℕ) (x : InventoryItem W) → get_by_id i h db ≡ some x
      → IsClean x
  unfolding get_by_id
  read-IsClean {db} s i h x e = All-find IsClean (is_row i h) db.items x s.clean e

  replace-IsClean : (y x : InventoryItem W) → IsClean y → IsClean x → IsClean (replace y x)
  unfolding replace
  replace-IsClean y x c d = elim (Bool-cases (has_id y.id x)) [ inl e ↦ rw e c | inr e ↦ rw e d ]

  detach-IsRecord : (i : ℕ) (e : InventoryEvent W) → IsRecord e → IsRecord (detach i e)
  unfolding detach
  detach-IsRecord i e r = elim (Bool-cases (opt_eq e.item_id i)) [ inl c ↦ rw c r | inr c ↦ rw c r ]

module _ {W : Type 0} ⦃f : Float W⦄ {h : ℕ} {db db' : Db W} (s : IsSound db) where
  Effect-IsSound : Effect h db db' → IsSound db'
  unfolding create write log_event
  Effect-IsSound (untouched e) = rw e s
  Effect-IsSound (inserted u a y p fresh inside clean state e) = rw e (record {
    unique = λ i. unfold count in ground (arith, s.unique i, fresh, ==_iff y.id i);
    clean = (clean, s.clean);
    records = ((state, snapshot-IsStateOf h y inside clean), s.records);
  })
  Effect-IsSound (rewrote u i a x y p found same inside next clean state e) = rw e (record {
    unique = λ k. rw (count-replace y k db.items) (s.unique k);
    clean = All-map IsClean (replace y) (λ z. replace-IsClean y z clean) db.items s.clean;
    records = ((state, snapshot-IsStateOf h y inside clean), s.records);
  })
  Effect-IsSound (marked u i x found taken e) =
      let row = get_by_id-is_row i h db x found in
      let state = snapshot-IsStateOf h x row.1 (read-IsClean s i h x found) in
      rw e (record { unique = s.unique; clean = s.clean; records = ((state, tt), s.records) })
  Effect-IsSound (dropped u i x found free e) =
      let row = get_by_id-is_row i h db x found in
      let state = snapshot-IsStateOf h x row.1 (read-IsClean s i h x found) in
      rw e (record {
        unique = λ k. omega (
          arith,
          s.unique k,
          count_split (has_id k) (λ z. not (has_id i z)) db.items,
          count-keep (has_id k) (λ z. not (has_id i z)) db.items,
        );
        clean = All-keep IsClean (λ z. not (has_id i z)) db.items s.clean;
        records =
            All-map IsRecord (detach i) (detach-IsRecord i) (removal i u h x ∷ db.events)
              ((state, tt), s.records);
      })

  Effect-others :
      (g : ℕ)
      → g ≢ h
      → Effect h db db'
      → keep (in_household g) db'.items ≡ keep (in_household g) db.items
  unfolding create write log_event
  Effect-others g apart (untouched e) = rw e refl
  Effect-others g apart (inserted u a y p fresh inside clean state e) =
      rw e (unfold keep in ground (arith, opt_eq_iff y.household_id g))
  Effect-others g apart (rewrote u i a x y p found same inside next clean state e) =
      rw e (
        others-replace i h g y x apart same inside db.items (s.unique i)
          (unfold get_by_id in found))
  Effect-others g apart (marked u i x found taken e) = rw e refl
  Effect-others g apart (dropped u i x found free e) =
      let row = get_by_id-is_row i h db x found in
      rw e (
        others_dropped i h g x x apart row.0 row.1 db.items (s.unique i)
          (unfold get_by_id in found))

module _ {W : Type 0} ⦃f : Float W⦄ (o : IsOrdered W) where
  -- If the floats are ordered, a call with a fresh identifier for a new row keeps the tables sound: no
  -- two rows have one identifier, every row has a normalised unit and a quantity that is not negative,
  -- and every recorded state is one of such a row in the event's household.
  pub run-IsSound :
      (u h : ℕ) (call : Call W) (db : Db W) → IsSound db → Fresh call db → IsSound (run u h call db)
  run-IsSound u h call db s fresh = Effect-IsSound s (run-Effect o u h call db s fresh)

  -- If the floats are ordered and the tables are sound, a call in one household, with a fresh
  -- identifier for a new row, leaves the items of every other household as they are.
  pub run_others :
      (u h g : ℕ) (call : Call W) (db : Db W)
      → IsSound db
      → Fresh call db
      → g ≢ h
      → keep (in_household g) (run u h call db).items ≡ keep (in_household g) db.items
  run_others u h g call db s fresh apart =
      Effect-others s g apart (run-Effect o u h call db s fresh)
