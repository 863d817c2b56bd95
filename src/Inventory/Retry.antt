-- ===== src/Inventory/Retry.antt =====
-- backend/app/modules/inventory/router.py: requests that are sent again, and requests that fail.
use fridgefriend.Prelude.{ℕ, All, String, ◌≡◌, ◌≢◌, Option, none, List, map, All-each}
use fridgefriend.Scalar.{Float}
use fridgefriend.Inventory.Model.{InventoryStatus, ItemCreate, ItemUpdate, Db}
use fridgefriend.Inventory.Service.{Config}
use fridgefriend.Inventory.Router.{
  ItemResponse, create_item_endpoint, update_item_endpoint, replace_item_endpoint,
  delete_item_endpoint, update_item_status_endpoint, undo_item_event_endpoint,
}
use fridgefriend.Idempotency.Backend.{Backend, IsReplaying}
use fridgefriend.Http.{Request, Answer, Stored, get_cached, answered, no_content}
use fridgefriend.Http.Retry.{
  IsRetry, stored_of, resend, resend_same, with_body_once, without_body_once, other_method,
}

-- An endpoint that writes, with the path parameters and the payload.
pub data Endpoint (W : Type 0) ⦃f : Float W⦄ : Type 0 where
  post_item : Config W → ItemCreate W → ℕ → ℕ → Endpoint W
  patch_item : Config W → ℕ → ItemUpdate W → ℕ → Endpoint W
  put_item : Config W → ℕ → ItemUpdate W → ℕ → Endpoint W
  erase_item : ℕ → Endpoint W
  post_status : ℕ → InventoryStatus → Option ℕ → Endpoint W
  post_undo : ℕ → Endpoint W

module _ {W S : Type 0} ⦃f : Float W⦄ (b : Backend S (Stored (ItemResponse W))) (u h : ℕ) where
  unfoldable pub serve : Endpoint W → Request → Db W × S → Answer (ItemResponse W) × (Db W × S)
  serve (post_item config payload today new_id) r =
      create_item_endpoint b r u h config payload today new_id
  serve (patch_item config i payload today) r = update_item_endpoint b r u h config i payload today
  serve (put_item config i payload today) r = replace_item_endpoint b r u h config i payload today
  serve (erase_item i) r = delete_item_endpoint b r u h i
  serve (post_status i status version) r = update_item_status_endpoint b r u h i status version
  serve (post_undo i) r = undo_item_event_endpoint b r u h i

  module _ {Lasts : String → Stored (ItemResponse W) → ℕ → ℕ → S → Type 0}
      (replaying : IsReplaying b Lasts) (first : Request) (db : Db W) (c c' : S)
      (miss : get_cached b first c ≡ (none, c')) where
    serve_once :
        (e : Endpoint W) (again : Request)
        → let after = serve e first (db, c) in
          stored_of after.0 ≢ none
          → IsRetry b Lasts first after.0 c' again
          → serve e again after.1 ≡ after
    unfolding serve create_item_endpoint update_item_endpoint replace_item_endpoint
        delete_item_endpoint update_item_status_endpoint undo_item_event_endpoint
    serve_once (post_item config payload today new_id) again =
        with_body_once b Lasts replaying first again db c c' miss _
    serve_once (patch_item config i payload today) again =
        with_body_once b Lasts replaying first again db c c' miss _
    serve_once (put_item config i payload today) again =
        with_body_once b Lasts replaying first again db c c' miss _
    serve_once (erase_item i) again = without_body_once b Lasts replaying first again db c c' miss _
    serve_once (post_status i status version) again =
        with_body_once b Lasts replaying first again db c c' miss _
    serve_once (post_undo i) again = with_body_once b Lasts replaying first again db c c' miss _

    -- If the backend replays stored responses, a request for which nothing is stored is answered
    -- without a failure, then it can be sent again any number of times, with the same user, path and
    -- key and while the stored response lasts: each time the answer is the first one, and neither the
    -- tables nor the caches change.
    pub serve_exactly_once :
        (e : Endpoint W) (rs : List Request)
        → let after = serve e first (db, c) in
          stored_of after.0 ≢ none
          → All (IsRetry b Lasts first after.0 c') rs
          → resend (serve e) rs after.1 ≡ (map (λ r. after.0) rs, after.1)
    serve_exactly_once e rs done retries =
        let after = serve e first (db, c) in
        resend_same (serve e) after.0 after.1 rs
          (All-each rs (λ again. serve_once e again done) retries)

    -- The stored key does not name the method. If the backend replays stored responses and nothing is
    -- stored for a PATCH of an item that is answered with a body, then a DELETE with the same user,
    -- path and key, while the stored response lasts, answers 204 and deletes nothing.
    pub delete_item_endpoint-update_item_endpoint :
        (config : Config W) (i : ℕ) (payload : ItemUpdate W) (today : ℕ) (again : Request)
        (a : ItemResponse W)
        → let after = update_item_endpoint b first u h config i payload today (db, c) in
          after.0 ≡ answered a
          → IsRetry b Lasts first after.0 c' again
          → delete_item_endpoint b again u h i after.1 ≡ (no_content, after.1)
    unfolding update_item_endpoint delete_item_endpoint
    delete_item_endpoint-update_item_endpoint config i payload today again a =
        other_method b Lasts replaying first again db c c' miss _ _ a
