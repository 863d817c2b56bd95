-- ===== src/Planning/Stored.antt =====
-- backend/app/modules/planning/service.py: a plan is stored as a whole or not at all, and deleting it
-- undoes that.
use fridgefriend.Prelude.{
  ℕ, All, ◌≡◌, refl, sym, ap, ◌∙◌, ◌⊎◌, inl, inr, Bool, not, some, List, [], ◌∷◌, ◌++◌, arith, ◌==◌,
  ==_iff, ==_self, keep, find, count,
}
use fridgefriend.Scalar.{Float, IsOrdered}
use fridgefriend.Planning.Model.{PlanDay, PlanResult, MealPlan, ReservedIngredient}
use fridgefriend.Planning.Allocation.{IsRow}
use fridgefriend.Planning.Reservation.{
  Progress, Outcome, done, reserve_plan, insufficient_reservation, missing_day,
}
use fridgefriend.Planning.Refusal.{reserve_plan-IsRow}
use fridgefriend.Planning.Tables.{Tables, list_active_inventory}
use fridgefriend.Planning.Service.{
  Failure, Result, ok, err, PlanRequest, generate_household_plan, store_plan, plan_row, committed,
  plan_answer, insufficient_quantity_error, unknown_day, no_days, no_matching_recipes,
  planner_input, validation_error, plan_day_rows,
}
use fridgefriend.Planning.Planner.{Planned, no_matching, invalid_day, feasible, generate_plan}
use fridgefriend.Planning.Recipes.{normalize_recipes}
use fridgefriend.Planning.ShoppingService.{delete_plan, is_plan_of, delete_found}

module _ {W : Type 0} ⦃f : Float W⦄ (user_id h plan_id next_id : ℕ) (t : Tables W) where
  -- The plan is stored with its days and with the rows that its reservation makes, and is answered,
  -- and deleting it gives the tables `t` back.
  pub record IsStored (servings : ℕ) (made : PlanResult W) (x : Result (PlanResult W) × Tables W)
      : Type 0 where
    pub plan : MealPlan
    pub progress : Progress W
    pub reserving : reserve_plan t.reserved plan made (list_active_inventory h t) ≡ done progress
    pub named : plan.id ≡ plan_id
    pub days : plan.days ≡ plan_day_rows servings next_id made.days
    pub answered : x.0 ≡ ok (plan_answer h servings plan_id made (list_active_inventory h t) x.1)
    pub stored : x.1 ≡ record t { plans = plan ∷ t.plans; reserved = t.reserved ++ progress.rows }
    pub undone : delete_plan plan_id user_id h x.1 ≡ (ok tt, t)

-- Dropping what fails a test drops nothing where nothing fails it.
keep_all :
    {A : Type 0} (p : A → Bool) (xs : List A) → count p xs ≡ 0 → keep (λ x. not (p x)) xs ≡ xs
unfolding count keep
keep_all p [] h = refl
keep_all p (x ∷ xs) h = ground (arith, keep_all p xs)

module _ {W : Type 0} ⦃f : Float W⦄ where
  keep_rows :
      (plan_id : ℕ) (old rows : List (ReservedIngredient W))
      → count (λ r. r.meal_plan_id == plan_id) old ≡ 0
      → All (IsRow plan_id) rows
      → keep (λ r. not (r.meal_plan_id == plan_id)) (old ++ rows) ≡ old
  unfolding count keep
  keep_rows plan_id [] [] h a = refl
  keep_rows plan_id [] (r ∷ rows) h a =
      let rest = keep_rows plan_id [] rows h a.1 in
      ground (arith, rest, a.0.0, ==_iff r.meal_plan_id plan_id)
  keep_rows plan_id (x ∷ xs) rows h a = ground (arith, keep_rows plan_id xs rows)

  module _ (o : IsOrdered W) (user_id h plan_id next_id : ℕ) (t : Tables W)
      (new_plan : count (λ p. p.id == plan_id) t.plans ≡ 0)
      (new_rows : count (λ r. r.meal_plan_id == plan_id) t.reserved ≡ 0) where
    abbrev IsUndone : ℕ → PlanResult W → Result (PlanResult W) × Tables W → Type 0
    IsUndone servings made x =
        ((e : Failure) × (x ≡ (err e, t))) ⊎ IsStored user_id h plan_id next_id t servings made x

    delete-committed :
        (plan : MealPlan) (progress : Progress W)
        → plan.id ≡ plan_id
        → plan.user_id ≡ some user_id
        → plan.household_id ≡ some h
        → All (IsRow plan_id) progress.rows
        → delete_plan plan_id user_id h (committed plan progress t) ≡ (ok tt, t)
    delete-committed plan progress a b c rows =
        let hit : find (is_plan_of plan_id user_id h) (plan ∷ t.plans) ≡ some plan =
          unfold find in ground (arith, a, b, c, ==_self plan_id, ==_self user_id, ==_self h) in
        let plans' : keep (λ p. not (p.id == plan_id)) (plan ∷ t.plans) ≡ t.plans =
          unfold keep in
          ground (arith, a, ==_self plan_id, keep_all (λ p. p.id == plan_id) t.plans new_plan) in
        let rows' = keep_rows plan_id t.reserved progress.rows new_rows rows in
        let left = keep (λ r. not (r.meal_plan_id == plan_id)) (t.reserved ++ progress.rows) in
        unfold delete_plan delete_found in
        ap (delete_found plan_id (committed plan progress t)) hit
        ∙ ap (λ ps. (ok tt, record t { plans = ps; reserved = left })) plans'
        ∙ ap (λ rs. (ok tt, record t { reserved = rs })) rows'

    -- The end of the transaction on the outcome of the reservation.
    outcome-IsUndone :
        (servings : ℕ) (plan : MealPlan) (made : PlanResult W) (outcome : Outcome (Progress W))
        → reserve_plan t.reserved plan made (list_active_inventory h t) ≡ outcome
        → plan.id ≡ plan_id
        → plan.user_id ≡ some user_id
        → plan.household_id ≡ some h
        → plan.days ≡ plan_day_rows servings next_id made.days
        → ((progress : Progress W) → outcome ≡ done progress → All (IsRow plan_id) progress.rows)
        → IsUndone servings made (elim outcome [
          | insufficient_reservation ↦ (err insufficient_quantity_error, t)
          | missing_day ↦ (err unknown_day, t)
          | done progress ↦
              let t' = committed plan progress t in
              (ok (plan_answer h servings plan_id made (list_active_inventory h t) t'), t')
        ])
    outcome-IsUndone servings plan made insufficient_reservation r a b c d rows =
        inl (insufficient_quantity_error, refl)
    outcome-IsUndone servings plan made missing_day r a b c d rows = inl (unknown_day, refl)
    outcome-IsUndone servings plan made (done progress) r a b c d rows = inr (record {
      plan = plan;
      progress = progress;
      reserving = r;
      named = a;
      days = d;
      answered = refl;
      stored = refl;
      undone = delete-committed plan progress a b c (rows progress refl);
    })

    store_plan-IsUndone :
        (servings : ℕ) (days : List (PlanDay W)) (made : PlanResult W)
        → made.days ≡ days
        → IsUndone servings made (store_plan user_id h servings plan_id next_id days made t)
    unfolding store_plan
    store_plan-IsUndone servings [] made e = inl (no_days, refl)
    store_plan-IsUndone servings (day ∷ days) made e =
        let plan = plan_row user_id h servings plan_id next_id day days in
        outcome-IsUndone servings plan made _ refl refl refl refl
          (ap (plan_day_rows servings next_id) (sym e))
          (reserve_plan-IsRow o t.reserved plan made (list_active_inventory h t))

    abbrev finish : ℕ → Planned (PlanResult W) → Result (PlanResult W) × Tables W
    finish servings plan = elim plan [
      | no_matching ↦ (err no_matching_recipes, t)
      | invalid_day ↦ (err validation_error, t)
      | feasible made ↦ store_plan user_id h servings plan_id next_id made.days made t
    ]

    -- What a plan that is made, or not, comes to.
    feasible-IsUndone :
        (servings : ℕ) (plan : Planned (PlanResult W))
        → ((e : Failure) × (finish servings plan ≡ (err e, t)))
          ⊎ ((made : PlanResult W) × (plan ≡ feasible made)
              × IsStored user_id h plan_id next_id t servings made (finish servings plan))
    feasible-IsUndone servings no_matching = inl (no_matching_recipes, refl)
    feasible-IsUndone servings invalid_day = inl (validation_error, refl)
    feasible-IsUndone servings (feasible made) =
        elim (store_plan-IsUndone servings made.days made refl) [
          | inl failed ↦ inl failed
          | inr stored ↦ inr (made, refl, stored)
        ]

    -- If the floats are ordered, and the identifier of a new plan is that of no plan and no
    -- reservation, then making a plan raises and leaves the tables as they are, or the planner has made
    -- a plan, which is answered and stored with a row for each of its days and with the rows that
    -- `reserve_plan` makes of it, and deleting it by the same user gives back the tables.
    pub delete_plan-generate_household_plan :
        (request : PlanRequest) (now : ℕ)
        → let x = generate_household_plan user_id h request now plan_id next_id t in
          ((e : Failure) × (x ≡ (err e, t)))
          ⊎ ((made : PlanResult W) × (generate_plan
                  (list_active_inventory h t)
                  request.days
                  request.servings
                  request.dietary_tags
                  request.max_prep_minutes
                  (normalize_recipes (planner_input t.recipes))
                  now
                  plan_id
                ≡ feasible made)
              × IsStored user_id h plan_id next_id t request.servings made x)
    unfolding generate_household_plan
    delete_plan-generate_household_plan request now = feasible-IsUndone request.servings _
