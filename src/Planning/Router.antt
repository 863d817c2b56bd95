-- ===== src/Planning/Router.antt =====
-- backend/app/modules/planning/router.py. `S` is the state of the caches.
use fridgefriend.Prelude.{ℕ, String, List, []}
use fridgefriend.Scalar.{Float}
use fridgefriend.Idempotency.Backend.{Backend}
use fridgefriend.Http
use fridgefriend.Http.{
  Request, http_exception, uncaught, Outcome, returns, raises, Answer, answered, failed, Stored,
  with_body, without_body,
}
use fridgefriend.Planning.Model.{PlanResult, ShoppingItem}
use fridgefriend.Planning.Tables.{Tables, ShoppingListItem}
use fridgefriend.Planning.Service.{
  Failure, Result, ok, err, no_matching_recipes, meal_plan_not_found, recipes_not_found,
  PlanRequest, ShoppingListItemCreate, generate_household_plan, get_latest_plan,
}
use fridgefriend.Planning.ShoppingService.{
  get_shopping_list, add_manual_shopping_list_items, delete_plan,
}

-- `except NoMatchingRecipesError`
unfoldable pub except_no_match : Failure → Http.Failure
except_no_match no_matching_recipes =
    http_exception 422 "No recipes match the requested constraints"
except_no_match e = uncaught

-- `except MealPlanNotFoundError`
unfoldable pub except_no_plan : String → Failure → Http.Failure
except_no_plan detail meal_plan_not_found = http_exception 404 detail
except_no_plan detail e = uncaught

-- The service raises the `HTTPException` itself; the identifiers that its detail lists are left out.
unfoldable pub raised_by_items : Failure → Http.Failure
raised_by_items recipes_not_found = http_exception 404 "Recipe(s) not found"
raised_by_items e = uncaught

unfoldable pub respond_plan :
    {A T : Type 0} → (Failure → Http.Failure) → Result A × T → Outcome A × T
respond_plan except (ok a, t) = (returns a, t)
respond_plan except (err e, t) = (raises (except e), t)

unfoldable pub answer_plan : {A : Type 0} → (Failure → Http.Failure) → Result A → Answer A
answer_plan except (ok a) = answered a
answer_plan except (err e) = failed (except e)

module _ {W S : Type 0} ⦃f : Float W⦄ where
  unfoldable pub create_plan :
      Backend S (Stored (PlanResult W))
      → Request
      → ℕ
      → ℕ
      → PlanRequest
      → ℕ
      → ℕ
      → ℕ
      → Tables W × S
      → Answer (PlanResult W) × (Tables W × S)
  create_plan b r u h payload now plan_id next_id = with_body b r (λ t.
      respond_plan except_no_match (generate_household_plan u h payload now plan_id next_id t))

module _ {W : Type 0} ⦃f : Float W⦄ where
  unfoldable pub get_latest_plan_endpoint : ℕ → Tables W → Answer (PlanResult W)
  get_latest_plan_endpoint h t =
      answer_plan (except_no_plan "No meal plan found") (get_latest_plan h t)

  -- `ShoppingListResponse(items=[])` if the service finds no plan.
  unfoldable pub answer_list : Result (List (ShoppingItem W)) → Answer (List (ShoppingItem W))
  answer_list (ok items) = answered items
  answer_list (err meal_plan_not_found) = answered []
  answer_list (err e) = failed uncaught

  unfoldable pub get_shopping_list_endpoint : ℕ → Tables W → Answer (List (ShoppingItem W))
  get_shopping_list_endpoint h t = answer_list (get_shopping_list h t)

module _ {W : Type 0} where
  -- The key of the request goes to the service, and nothing is looked up or stored here.
  unfoldable pub add_shopping_list_items :
      Request
      → ℕ
      → ℕ
      → List (ShoppingListItemCreate W)
      → ℕ
      → Tables W
      → Outcome (List (ShoppingListItem W)) × Tables W
  add_shopping_list_items r u h items next_id t =
      respond_plan raised_by_items
        (add_manual_shopping_list_items items h u r.idempotency_key next_id t)

module _ {W S : Type 0} where
  unfoldable pub delete_plan_endpoint :
      Backend S (Stored (PlanResult W))
      → Request
      → ℕ
      → ℕ
      → ℕ
      → Tables W × S
      → Answer (PlanResult W) × (Tables W × S)
  delete_plan_endpoint b r u h plan_id =
      without_body b r
        (λ t. respond_plan (except_no_plan "Meal plan not found") (delete_plan plan_id u h t))
