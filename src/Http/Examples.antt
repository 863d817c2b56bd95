-- ===== src/Http/Examples.antt =====
-- The theorems on requests at concrete tables, with responses kept in memory for a minute.
use fridgefriend.Inventory.Events.{log_event}
use fridgefriend.Units.{lookup}
use fridgefriend.Prelude.{ℕ, String, ◌≡◌, refl, Option, none, some, [], ◌∷◌, arith, find, exists}
use fridgefriend.Inventory.Repository
use fridgefriend.Household.Retry.{post_leave, post_join, household_exactly_once}
use fridgefriend.Household
use fridgefriend.Household.Examples.{kitchens}
use fridgefriend.Inventory.Examples.{moved_milk, milk_moved}
use fridgefriend.Household.Service.{leave_household}
use fridgefriend.Household.Router.{leave_household_endpoint, respond_done}
use fridgefriend.Household.Repository.{get_for_user, get_membership}
use fridgefriend.Inventory.Router.{except_not_found_or_stale}
use fridgefriend.Inventory.Repository.{Result, ok, err, update_status}
use fridgefriend.Inventory.Model.{InventoryItem}
use fridgefriend.Scalar.{nano}
use fridgefriend.Idempotency.{
  Client, RedisCache, absent, object, from_fallback, memory_get, scoped_key,
}
use fridgefriend.Idempotency.Backend.{
  Backend, IsReplaying, backend, backend_get, backend-IsReplaying, Lasts, Remembers,
}
use fridgefriend.Http.{
  Request, Answer, answered, no_content, get_cached, store_body, store_empty, reply_body,
  reply_empty, with_body, without_body,
}
use fridgefriend.Http.Retry.{IsRetry, resend}
use fridgefriend.Inventory.Examples.{pantry, no_catalog, moved}
use fridgefriend.Inventory.Model.{Db}
use fridgefriend.Inventory.Router.{
  ItemResponse, item_response, update_item_endpoint, delete_item_endpoint, respond, respond_empty,
}
use fridgefriend.Inventory.Retry.{
  serve, erase_item, serve_exactly_once, delete_item_endpoint-update_item_endpoint,
}
use fridgefriend.Inventory.Service.{delete_item}
use fridgefriend.Inventory.Repository.{get_by_id}

abbrev email_of : ℕ → String
email_of u = "a@b"

-- A server that has one response.
abbrev one_response : {R : Type 0} → Client (Option R) R
one_response {R = R} = record {
  get = λ k s. elim s [ none ↦ absent | some r ↦ object r ];
  set = λ k r t s. some (some r);
  delete = λ ks s. some none;
}

one_response-Remembers : {R : Type 0} → Remembers (one_response {R = R})
one_response-Remembers k r t s s' e = ground arith

abbrev nothing_stored : {R : Type 0} → RedisCache (Option R) R
nothing_stored = record {
  ttl_seconds = 60;
  fallback = record { ttl_seconds = 60; cache = [] };
  server = none;
  tracked_keys = [];
}

abbrev in_memory : {R : Type 0} → Backend (RedisCache (Option R) R) R
in_memory {R = R} = backend (one_response {R = R}) "memory"

in_memory-IsReplaying :
    {R : Type 0} → IsReplaying (in_memory {R = R}) (Lasts (one_response {R = R}))
in_memory-IsReplaying = backend-IsReplaying one_response "memory" one_response-Remembers

abbrev item_request : Request
item_request = record {
  user_id = "1";
  path = "/v1/items/7";
  idempotency_key = "k";
  received = 100;
  finished = 101;
}

abbrev item_request_again : Request
item_request_again = record item_request { received = 150; finished = 151 }

nothing_found :
    {A : Type 0} → get_cached {A = A} in_memory item_request nothing_stored ≡ (none, nothing_stored)
unfolding get_cached backend backend_get from_fallback memory_get scoped_key lookup
nothing_found = refl

again-IsRetry :
    {A : Type 0} (answer : Answer A)
    → IsRetry in_memory (Lasts one_response) item_request answer nothing_stored item_request_again
again-IsRetry answer = record {
  same_key = refl;
  lasts = λ response e. ((λ s f g. ground arith), omega arith);
}

erased : (serve in_memory 1 10 (erase_item 7) item_request (pantry, nothing_stored)).0 ≡ no_content
unfolding serve delete_item_endpoint without_body reply_empty store_empty respond_empty delete_item
    get_by_id get_cached backend backend_get from_fallback memory_get lookup find Repository.delete
    log_event exists
erased = refl

serve_exactly_once_example :
    let after = serve in_memory 1 10 (erase_item 7) item_request (pantry, nothing_stored) in
    resend (serve in_memory 1 10 (erase_item 7)) (item_request_again ∷ []) after.1
    ≡ (after.0 ∷ [], after.1)
serve_exactly_once_example =
    serve_exactly_once in_memory 1 10 in_memory-IsReplaying item_request pantry nothing_stored
      nothing_stored nothing_found (erase_item 7) (item_request_again ∷ [])
      (λ e. ground (arith, erased)) (again-IsRetry _, tt)

-- A plan has reserved the milk.
abbrev planned_pantry : Db ℕ
planned_pantry = record pantry { reserved = 7 ∷ [] }

answered_with :
    (o : Result (InventoryItem ℕ) × Db ℕ) (y : InventoryItem ℕ)
    → o.0 ≡ ok y
    → (store_body in_memory item_request (respond except_not_found_or_stale o) nothing_stored).0
      ≡ answered (item_response y)
unfolding store_body respond
answered_with (ok x, db) y e = cc
answered_with (err x, db) y e = cc

patched :
    (update_item_endpoint in_memory item_request 2 10 no_catalog 7 moved 100
      (pantry, nothing_stored)).0
    ≡ answered (item_response moved_milk)
unfolding update_item_endpoint with_body reply_body
patched = rw (nothing_found {A = ItemResponse ℕ}) (answered_with _ moved_milk milk_moved)

delete_item_endpoint-update_item_endpoint_example :
    let after =
      update_item_endpoint in_memory item_request 2 10 no_catalog 7 moved 100
        (pantry, nothing_stored) in
    delete_item_endpoint in_memory item_request_again 2 10 7 after.1 ≡ (no_content, after.1)
delete_item_endpoint-update_item_endpoint_example =
    delete_item_endpoint-update_item_endpoint in_memory 2 10 in_memory-IsReplaying item_request
      pantry nothing_stored nothing_stored nothing_found no_catalog 7 moved 100 item_request_again
      (item_response moved_milk) patched (again-IsRetry _)

left :
    (Household.Retry.serve in_memory email_of 2
      (post_leave 10)
      item_request
      (kitchens, nothing_stored)).0
    ≡ no_content
unfolding Household.Retry.serve leave_household_endpoint leave_household get_for_user get_membership
    find exists get_cached without_body reply_empty backend backend_get from_fallback memory_get
    lookup respond_done store_empty Household.Repository.get_by_id
left = refl

household_exactly_once_example :
    let after =
      Household.Retry.serve in_memory email_of 2
        (post_leave 10)
        item_request
        (kitchens, nothing_stored) in
    resend
      (Household.Retry.serve in_memory email_of 2 (post_leave 10))
      (item_request_again ∷ [])
      after.1
    ≡ (after.0 ∷ [], after.1)
household_exactly_once_example =
    household_exactly_once in_memory email_of 2 in_memory-IsReplaying item_request kitchens
      nothing_stored nothing_stored nothing_found (post_leave 10) (item_request_again ∷ [])
      (λ e. ground (arith, left)) (again-IsRetry _, tt)
