-- ===== src/Household/Retry.antt =====
-- backend/app/modules/households/router.py: requests that are sent again.
use fridgefriend.Prelude.{ℕ, All-each, All, String, ◌≡◌, ◌≢◌, Bool, Option, none, List, map}
use fridgefriend.Household.Model.{Db}
use fridgefriend.Household.Router.{
  HouseholdResponse, create_household_endpoint, update_household_endpoint, join_household_endpoint,
  leave_household_endpoint, remove_household_member,
}
use fridgefriend.Idempotency.Backend.{Backend, IsReplaying}
use fridgefriend.Http.{Request, Answer, Stored, get_cached}
use fridgefriend.Http.Retry.{
  IsRetry, stored_of, resend, resend_same, with_body_once, without_body_once,
}

-- An endpoint that writes, with the path parameters and the payload.
pub data Endpoint : Type 0 where
  post_household : String → List String → ℕ → Endpoint
  patch_household : ℕ → Option String → Bool → Endpoint
  post_join : String → Endpoint
  post_leave : ℕ → Endpoint
  erase_member : ℕ → ℕ → Endpoint

module _ {S : Type 0} (b : Backend S (Stored HouseholdResponse)) (email_of : ℕ → String)
    (u : ℕ) where
  unfoldable pub serve : Endpoint → Request → Db × S → Answer HouseholdResponse × (Db × S)
  serve (post_household name draws new_id) r =
      create_household_endpoint b r email_of u name draws new_id
  serve (patch_household h name is_active) r =
      update_household_endpoint b r email_of u h name is_active
  serve (post_join invite_code) r = join_household_endpoint b r email_of u invite_code
  serve (post_leave h) r = leave_household_endpoint b r u h
  serve (erase_member h user_id) r = remove_household_member b r u h user_id

  module _ {Lasts : String → Stored HouseholdResponse → ℕ → ℕ → S → Type 0}
      (replaying : IsReplaying b Lasts) (first : Request) (db : Db) (c c' : S)
      (miss : get_cached b first c ≡ (none, c')) where
    serve_once :
        (e : Endpoint) (again : Request)
        → let after = serve e first (db, c) in
          stored_of after.0 ≢ none
          → IsRetry b Lasts first after.0 c' again
          → serve e again after.1 ≡ after
    unfolding serve create_household_endpoint update_household_endpoint join_household_endpoint
        leave_household_endpoint remove_household_member
    serve_once (post_household name draws new_id) again =
        with_body_once b Lasts replaying first again db c c' miss _
    serve_once (patch_household h name is_active) again =
        with_body_once b Lasts replaying first again db c c' miss _
    serve_once (post_join invite_code) again =
        with_body_once b Lasts replaying first again db c c' miss _
    serve_once (post_leave h) again = without_body_once b Lasts replaying first again db c c' miss _
    serve_once (erase_member h user_id) again =
        without_body_once b Lasts replaying first again db c c' miss _

    -- If the backend replays stored responses, and a request for which nothing is stored is answered
    -- without a failure, then it can be sent again any number of times, with the same user, path and
    -- key and while the stored response lasts: each time the answer is the first one, and neither the
    -- tables nor the caches change.
    pub household_exactly_once :
        (e : Endpoint) (rs : List Request)
        → let after = serve e first (db, c) in
          stored_of after.0 ≢ none
          → All (IsRetry b Lasts first after.0 c') rs
          → resend (serve e) rs after.1 ≡ (map (λ r. after.0) rs, after.1)
    household_exactly_once e rs done retries =
        let after = serve e first (db, c) in
        resend_same (serve e) after.0 after.1 rs
          (All-each rs (λ again. serve_once e again done) retries)
