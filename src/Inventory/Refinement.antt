-- ===== src/Inventory/Refinement.antt =====
-- backend/app/modules/inventory/service.py: every call has one of the effects of `Effect`.
use fridgefriend.Units.{normalize_unit}
use fridgefriend.Prelude.{
  ℕ, All-find, ◌≡◌, refl, inl, inr, true, Option, none, some, Bool-cases, Option-cases, count,
  some-inj, subst, String, ◌∙◌, arith, find, exists, find-some, count_not_exists,
}
use fridgefriend.Scalar.{Float, IsOrdered, nought, fmax_nonneg, ◌≼◌}
use fridgefriend.Units.Laws.{normalize_unit_idem}
use fridgefriend.Inventory.Model.{
  null, unset, value, InventoryItem, InventoryStatus, Db, ItemCreate, has_id, status_updated, added,
  Field, ItemUpdate, InventoryEvent, Snapshot, value, undone, updated,
}
use fridgefriend.Inventory.Repository.{
  get_by_id, is_reserved, version_differs, assign, set_column, assigned, refused,
}
use fridgefriend.Inventory.Events.{
  snapshot_item, is_about, undo_removal, undo_change, undo_last, restored_item, reverted_item,
  is_removed,
}
use fridgefriend.Inventory.Service.{
  Config, create_item, update_status, delete_item, new_item, normalize_quantity, completed,
  with_expiry, update_item, undo_last_event, map_field, with_measures, with_canonical,
}
use fridgefriend.Inventory.Rows.{get_by_id-is_row, is_row}
use fridgefriend.Inventory.Success.{
  update_status-eq, with_status, payload, update_item-eq, assign_keeps,
}
use fridgefriend.Inventory.Restore.{delete_item-eq, delete_item_reserved}
use fridgefriend.Inventory.Effects.{
  IsClean, IsSound, Effect, untouched, inserted, rewrote, dropped, marked, snapshot-IsStateOf, run,
  IsStateOf, Call, IsRecord, Fresh, creates, updates, changes_status, deletes, undoes,
}

module _ {W : Type 0} ⦃f : Float W⦄ (o : IsOrdered W) where
  normalize_quantity_nonneg : (q : W) → (nought ≼ normalize_quantity q) ≡ true
  unfolding normalize_quantity
  normalize_quantity_nonneg q = fmax_nonneg o _

  create_item-Effect :
      (config : Config W) (u h : ℕ) (data' : ItemCreate W) (today new_id : ℕ) (db : Db W)
      → count (has_id new_id) db.items ≡ 0
      → Effect h db (create_item config u h data' today new_id db).1
  unfolding create_item new_item
  create_item-Effect config u h data' today new_id db fresh =
      inserted u added (new_item config u h data' today new_id) none fresh refl
        (normalize_unit_idem data'.unit, normalize_quantity_nonneg data'.quantity) tt refl

  module _ {db : Db W} (s : IsSound db) (u h i : ℕ) where
    found-IsClean : (x : InventoryItem W) → get_by_id i h db ≡ some x → IsClean x
    unfolding get_by_id
    found-IsClean x e = All-find IsClean (is_row i h) db.items x s.clean e

    update_status-Effect :
        (status : InventoryStatus) (version : Option ℕ)
        → Effect h db (update_status i u h status version db).1
    update_status-Effect status version = elim (Option-cases (get_by_id i h db)) [
      | inl miss ↦ unfold update_status in rw (miss, update_status) (untouched refl)
      | inr (x, e) ↦
          rw (update_status-eq i u h x db e status version)
            (elim (Bool-cases (version_differs version x)) [
              | inl stale ↦ rw stale (untouched refl)
              | inr fresh ↦
                  let row = get_by_id-is_row i h db x e in
                  let clean = found-IsClean x e in
                  rw fresh (
                    rewrote u i status_updated x (with_status i u h x db e status)
                      (some (snapshot_item x)) e row.0 row.1 refl clean
                      (snapshot-IsStateOf h x row.1 clean) refl)
            ])
    ]

    delete_item-Effect : Effect h db (delete_item i u h db).1
    delete_item-Effect = elim (Option-cases (get_by_id i h db)) [
      | inl miss ↦ unfold delete_item in rw (miss, delete_item) (untouched refl)
      | inr (x, e) ↦ elim (Bool-cases (is_reserved i db)) [
        | inl taken ↦ rw (delete_item_reserved i u h x db e taken) (marked u i x e taken refl)
        | inr free ↦ rw (delete_item-eq i u h x db e free) (dropped u i x e free refl)
      ]
    ]

    set_unit :
        (d : Field String) (old : String)
        → normalize_unit old ≡ old
        → let new = set_column (map_field normalize_unit d) old in normalize_unit new ≡ new
    set_unit unset old e = e
    set_unit null old e = e
    set_unit (value new) old e = normalize_unit_idem new

    set_quantity :
        (d : Field W) (old : W)
        → (nought ≼ old) ≡ true
        → (nought ≼ set_column (map_field normalize_quantity d) old) ≡ true
    set_quantity unset old e = e
    set_quantity null old e = e
    set_quantity (value new) old e = normalize_quantity_nonneg new

    expiry_measures :
        (config : Config W) (x : InventoryItem W) (today : ℕ) (data' : ItemUpdate W)
        → ((with_expiry config x today data').unit ≡ data'.unit)
          × ((with_expiry config x today data').quantity ≡ data'.quantity)
    unfolding with_expiry
    expiry_measures config x today data' = ground arith

    -- The payload of an update has its unit and quantity normalised.
    completed_measures :
        (config : Config W) (x : InventoryItem W) (today : ℕ) (data' : ItemUpdate W)
        → let full = completed config x today data' in
          let named = with_canonical config data' in
          (full.unit ≡ map_field normalize_unit named.unit)
          × (full.quantity ≡ map_field normalize_quantity named.quantity)
    unfolding completed with_measures
    completed_measures config x today data' =
        expiry_measures config x today (with_measures (with_canonical config data'))

    assign-IsClean :
        (config : Config W) (x y : InventoryItem W) (today : ℕ) (data' : ItemUpdate W)
        → IsClean x
        → assign config.dumps_extra (completed config x today data') x ≡ some y
        → IsClean y
    unfolding assign assigned
    assign-IsClean config x y today data' clean e =
        let full = completed config x today data' in
        let named = with_canonical config data' in
        let m = completed_measures config x today data' in
        elim (Bool-cases (refused config.dumps_extra full)) [
          | inl bad ↦ ground (arith, bad)
          | inr good ↦
              let written : some (assigned config.dumps_extra full x) ≡ some y = rw good at e in
              subst IsClean (some-inj y written) (
                rw (m.0, m.1)
                  (
                    set_unit named.unit x.unit clean.0,
                    set_quantity named.quantity x.quantity clean.1,
                  ))
        ]

    update_item-Effect :
        (config : Config W) (data' : ItemUpdate W) (today : ℕ)
        → Effect h db (update_item config i u h data' today db).1
    update_item-Effect config data' today = elim (Option-cases (get_by_id i h db)) [
      | inl miss ↦ unfold update_item in rw (miss, update_item) (untouched refl)
      | inr (x, e) ↦
          let full = payload i u h x db e config data' today in
          rw (update_item-eq i u h x db e config data' today)
            (elim (Bool-cases (version_differs full.version x)) [
              | inl stale ↦ rw stale (untouched refl)
              | inr fresh ↦ rw fresh (elim (Option-cases (assign config.dumps_extra full x)) [
                | inl refuses ↦ rw refuses (untouched refl)
                | inr (y, done) ↦
                    let row = get_by_id-is_row i h db x e in
                    let keeps = assign_keeps i u h x db e config.dumps_extra full y done in
                    let clean = found-IsClean x e in
                    rw done (
                      rewrote u i updated x y (some (snapshot_item x)) e (keeps.0 ∙ row.0)
                        (keeps.2 ∙ row.1) keeps.5 (assign-IsClean config x y today data' clean done)
                        (snapshot-IsStateOf h x row.1 clean) refl)
              ])
            ])
    ]

    -- The state that an event of the household has is one of a clean row of it.
    found_state :
        (e : InventoryEvent W)
        → find (is_about i u h) db.events ≡ some e
        → IsStateOf h e.previous_state × IsStateOf h e.new_state
    unfolding is_about
    found_state e hit =
        let about = (find-some (is_about i u h) (is_about i u h) db.events e hit).0 in
        let same : e.household_id ≡ h = ground (arith, about) in
        subst (λ g. IsStateOf g e.previous_state × IsStateOf g e.new_state) same
          (All-find IsRecord (is_about i u h) db.events e s.records hit)

    undo_removal-Effect :
        (e : InventoryEvent W) (previous : Option (Snapshot W))
        → IsStateOf h previous
        → IsStateOf h e.new_state
        → Effect h db (undo_removal i u h previous e db).1
    unfolding undo_removal restored_item
    undo_removal-Effect e none p n = untouched refl
    undo_removal-Effect e (some previous) p n = elim (Bool-cases (exists (has_id i) db.items)) [
      | inl taken ↦ rw taken (untouched refl)
      | inr free ↦ rw free (
          inserted u undone (restored_item i u previous e.new_state) e.new_state
            (count_not_exists (has_id i) db.items free) p.0 (p.1, p.2) n refl)
    ]

    undo_change-Effect :
        (e : InventoryEvent W) (previous : Option (Snapshot W)) (row : Option (InventoryItem W))
        → get_by_id i h db ≡ row
        → IsStateOf h previous
        → IsStateOf h e.new_state
        → Effect h db (undo_change i u h row previous e db).1
    unfolding undo_change reverted_item
    undo_change-Effect e previous none r p n = untouched refl
    undo_change-Effect e none (some x) r p n = untouched refl
    undo_change-Effect e (some previous) (some x) r p n =
        rewrote u i undone x (reverted_item x previous) e.new_state r
          (get_by_id-is_row i h db x r).0 p.0 refl (p.1, p.2) n refl

    undo_last-Effect : Effect h db (undo_last i u h db).1
    unfolding undo_last
    undo_last-Effect = elim (Option-cases (find (is_about i u h) db.events)) [
      | inl miss ↦ rw (miss, undo_last) (untouched refl)
      | inr (e, hit) ↦
          let states = found_state e hit in
          elim (Bool-cases (is_removed e.action)) [
            | inl r ↦
                rw (hit, r, undo_last) (undo_removal-Effect e e.previous_state states.0 states.1)
            | inr c ↦
                rw (hit, c, undo_last)
                  (undo_change-Effect e e.previous_state _ refl states.0 states.1)
          ]
    ]

  -- If the floats are ordered and the tables are sound, every call in the household, with a fresh
  -- identifier for a new row, has one of the effects that `Effect` allows: it leaves the tables alone,
  -- or it adds a clean row of the household, rewrites one of its rows to a clean one with the next
  -- version, or deletes one that no plan has reserved, and logs just that; or it logs the removal of
  -- one that a plan has reserved and keeps it.
  pub run-Effect :
      (u h : ℕ) (call : Call W) (db : Db W)
      → IsSound db
      → Fresh call db
      → Effect h db (run u h call db)
  unfolding run undo_last_event
  run-Effect u h (creates config data' today new_id) db s fresh =
      create_item-Effect config u h data' today new_id db fresh
  run-Effect u h (updates config i data' today) db s fresh =
      update_item-Effect s u h i config data' today
  run-Effect u h (changes_status i status version) db s fresh =
      update_status-Effect s u h i status version
  run-Effect u h (deletes i) db s fresh = delete_item-Effect s u h i
  run-Effect u h (undoes i) db s fresh = undo_last-Effect s u h i
