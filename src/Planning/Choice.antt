-- ===== src/Planning/Choice.antt =====
-- backend/app/modules/planning/planner.py: the recipe that is picked, and the days of a plan.
use fridgefriend.Planning.Constraints.{Meets, IsOneOf, kept-Meets}
use fridgefriend.Prelude.{
  ℕ, All-sort_by, All, zero, suc, ◌+◌, String, ◌≡◌, refl, sym, ap, ◌∙◌, inl, inr, Bool, true, false,
  if◌then◌else◌, not, ◌||◌, Option, none, some, List, [], ◌∷◌, arith, Bool-cases, Option-cases,
  keep, subst, some-inj,
}
use fridgefriend.Scalar.{Float, ◌⊘◌}
use fridgefriend.Inventory.Model.{InventoryItem, is_gone}
use fridgefriend.Planning.Model.{NormalizedRecipe, PlanDay, PlanResult}
use fridgefriend.Planning.Scoring.{
  fits, filter_recipes, Remaining, pick_best_recipe, first_recipe, all_in,
}
use fridgefriend.Planning.Planner.{
  Planned, no_matching, invalid_day, feasible, accepts_day, plan_days, planned_day, with_day,
  with_shopping_list, generate_plan, or_all, no_match, not_any, reserve_ingredients,
  build_remaining_inventory,
}

module _ {W : Type 0} (P : NormalizedRecipe W → Type 0) where
  -- Every day is of a recipe with `P`, `n` days in a row from `date` on.
  abbrev pub Days : ℕ → ℕ → List (PlanDay W) → Type 0
  Days zero date [] = Unit
  Days zero date (day ∷ days) = ⊥
  Days (suc n) date [] = ⊥
  Days (suc n) date (day ∷ days) =
      ((day.date ≡ date)
        × ((r : NormalizedRecipe W) × P r × (day.recipe_id ≡ r.id) × (day.recipe_title ≡ r.title)))
      × Days n (date + 1) days

feasible-inj : {A : Type 0} {a : A} (b : A) → feasible a ≡ feasible b → a ≡ b
feasible-inj {a = a} b e = ap (λ o. elim o [ feasible y ↦ y | _ ↦ a ]) e

first_accepted :
    {W : Type 0} ⦃f : Float W⦄ (accepted : Bool) (day : PlanDay W)
    (made : Planned (List (PlanDay W))) (days : List (PlanDay W))
    → (if accepted then with_day day made else invalid_day) ≡ feasible days
    → (rest : List (PlanDay W)) × (made ≡ feasible rest) × ((day ∷ rest) ≡ days)
first_accepted true day (feasible rest) days e = (rest, refl, feasible-inj days e)
first_accepted true day no_matching days e = cc
first_accepted true day invalid_day days e = cc
first_accepted false day made days e = cc

-- The days of a plan with its shopping list.
listed_days :
    {W : Type 0} ⦃f : Float W⦄ (plan_id : ℕ) (inventory : List (InventoryItem W))
    (made : Planned (List (PlanDay W))) (plan : PlanResult W)
    → with_shopping_list plan_id inventory made ≡ feasible plan
    → made ≡ feasible plan.days
listed_days plan_id inventory (feasible days) plan e =
    ap (λ q. feasible q.days) (feasible-inj plan e)
listed_days plan_id inventory no_matching plan e = cc
listed_days plan_id inventory invalid_day plan e = cc

module _ {W : Type 0} ⦃f : Float W⦄ (P : NormalizedRecipe W → Type 0) where
  first_of :
      (xs : List (NormalizedRecipe W)) (r : NormalizedRecipe W)
      → All P xs
      → first_recipe xs ≡ some r
      → P r
  unfolding first_recipe
  first_of [] r h e = cc
  first_of (x ∷ xs) r h e = subst P (some-inj r e) h.0

  module _ (now servings : ℕ) (factor : W) (recipes : List (NormalizedRecipe W))
      (all : All P recipes) where
    picked :
        (remaining : Remaining W) (used : List ℕ) (r : NormalizedRecipe W)
        → pick_best_recipe recipes remaining used now factor ≡ some r
        → P r
    unfolding pick_best_recipe
    picked remaining used r e = first_of _ r (All-sort_by _ P recipes all) e

    plan_days-Days :
        (n date : ℕ) (remaining : Remaining W) (used : List ℕ) (days : List (PlanDay W))
        → plan_days n date now servings factor recipes remaining used ≡ feasible days
        → Days P n date days
    unfolding plan_days
    plan_days-Days zero date remaining used [] e = tt
    plan_days-Days zero date remaining used (day ∷ days) e = cc
    plan_days-Days (suc n) date remaining used days e =
        elim (Option-cases (pick_best_recipe recipes remaining used now factor)) [
          | inl nothing ↦ ground (arith, nothing)
          | inr (r, hit) ↦
              let taken = reserve_ingredients r.ingredients factor ([], remaining) in
              let day = planned_day date servings factor r taken.0 in
              let made = plan_days n (date + 1) now servings factor recipes taken.1 (r.id ∷ used) in
              let step : (if accepts_day factor r.ingredients
                    then with_day day made
                    else invalid_day)
                  ≡ feasible days =
                rw (hit, plan_days) at e in
              let (rest, found, whole) =
                first_accepted (accepts_day factor r.ingredients) day made days step in
              subst (Days P (suc n) date) whole (
                (
                  unfold planned_day in refl,
                  (
                    r,
                    picked remaining used r hit,
                    unfold planned_day in refl,
                    unfold planned_day in refl,
                  ),
                ),
                plan_days-Days n (date + 1) taken.1 (r.id ∷ used) rest found,
              )
        ]

module _ {W : Type 0} ⦃f : Float W⦄ where
  -- Without conditions every recipe is kept.
  unconditional : (xs : List (NormalizedRecipe W)) → filter_recipes xs [] none ≡ xs
  unfolding filter_recipes fits keep all_in
  unconditional [] = refl
  unconditional (x ∷ xs) = ap (λ ys. x ∷ ys) (unconditional xs)

  -- The candidates are the recipes that fit.
  candidates_fit :
      (tags : List String) (max_prep : Option ℕ) (recipes : List (NormalizedRecipe W))
      → (not_any recipes || no_match (filter_recipes recipes tags max_prep) tags max_prep) ≡ false
      → or_all (filter_recipes recipes tags max_prep) recipes ≡ filter_recipes recipes tags max_prep
  candidates_fit tags max_prep recipes h = go tags max_prep recipes _ refl h
    where
      go :
          (tags : List String) (max_prep : Option ℕ) (recipes ys : List (NormalizedRecipe W))
          → filter_recipes recipes tags max_prep ≡ ys
          → (not_any recipes || no_match ys tags max_prep) ≡ false
          → or_all ys recipes ≡ ys
      go tags max_prep recipes (y ∷ ys) e h = refl
      go [] none recipes [] e h = sym (unconditional recipes) ∙ e
      go [] (some m) (x ∷ xs) [] e h = cc
      go [] (some m) [] [] e h = refl
      go (t ∷ ts) max_prep (x ∷ xs) [] e h = cc
      go (t ∷ ts) max_prep [] [] e h = refl

  -- A plan that is made has one day for each day asked for, in a row from today on, and each day is of
  -- one of the recipes, which has every tag asked for, in lower case, and takes no longer than the
  -- longest time asked for.
  pub generate_plan-Days :
      (inventory : List (InventoryItem W)) (days servings : ℕ) (tags : List String)
      (max_prep : Option ℕ) (recipes : List (NormalizedRecipe W)) (now plan_id : ℕ)
      (plan : PlanResult W)
      → generate_plan inventory days servings tags max_prep recipes now plan_id ≡ feasible plan
      → Days (λ r. Meets tags max_prep r × IsOneOf r recipes) days now plan.days
  unfolding generate_plan
  generate_plan-Days inventory days servings tags max_prep recipes now plan_id plan e =
      let filtered = filter_recipes recipes tags max_prep in
      let fit = candidates_fit tags max_prep recipes in
      elim (Bool-cases (not_any recipes || no_match filtered tags max_prep)) [
        | inl refused ↦ ground (arith, refused)
        | inr accepted ↦
            let remaining =
              build_remaining_inventory (keep (λ item. not (is_gone item)) inventory) in
            let factor = f.lit servings 0 ⊘ f.lit 2 0 in
            let made = plan_days days now now servings factor filtered remaining [] in
            let step : with_shopping_list plan_id inventory made ≡ feasible plan =
              rw (accepted, fit accepted) at e in
            plan_days-Days (λ r. Meets tags max_prep r × IsOneOf r recipes) now servings factor
              filtered
              (unfold filter_recipes in kept-Meets tags max_prep recipes recipes (λ r there. there))
              days now remaining [] plan.days (listed_days plan_id inventory made plan step)
      ]
