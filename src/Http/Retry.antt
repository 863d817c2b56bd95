-- ===== src/Http/Retry.antt =====
-- The endpoints of backend/app/modules/*/router.py under retries with one idempotency key.
use fridgefriend.Prelude.{
  ℕ, All, String, ◌≡◌, refl, ap, ◌∙◌, ◌≢◌, Option, none, some, List, [], ◌∷◌, map,
}
use fridgefriend.Http.{
  Request, Answer, Stored, Outcome, returns, raises, answered, no_content, failed, body, empty,
  request_key, get_cached, store_cached, store_body, store_empty, reply_body, reply_empty,
  with_body, without_body,
}
use fridgefriend.Idempotency.Backend.{Backend, IsReplaying}

-- What an endpoint stores of its answer; a failure is not stored.
abbrev pub stored_of : {A : Type 0} → Answer A → Option (Stored A)
stored_of (answered a) = some (body a)
stored_of no_content = some empty
stored_of (failed e) = none

-- The requests `rs`, one after the other: their answers, and what they leave.
unfoldable pub resend :
    {A S : Type 0} → (Request → S → Answer A × S) → List Request → S → List (Answer A) × S
resend serve [] s = ([], s)
resend serve (r ∷ rs) s =
    let (answer, s') = serve r s in
    let (answers, s'') = resend serve rs s' in (answer ∷ answers, s'')

-- Requests that each give one answer and change nothing do so together.
pub resend_same :
    {A S : Type 0} (serve : Request → S → Answer A × S) (answer : Answer A) (s : S)
    (rs : List Request)
    → All (λ r. serve r s ≡ (answer, s)) rs
    → resend serve rs s ≡ (map (λ r. answer) rs, s)
unfolding resend
resend_same serve answer s [] h = refl
resend_same serve answer s (r ∷ rs) h = rw (h.0, resend_same serve answer s rs h.1) refl

module _ {C A : Type 0} (b : Backend C (Stored A))
    (Lasts : String → Stored A → ℕ → ℕ → C → Type 0) where
  -- A retry has the user, the path and the key of the first request, and comes while its stored
  -- answer, if any, lasts.
  pub record IsRetry (first : Request) (answer : Answer A) (c : C) (again : Request) : Type 0 where
    pub same_key : request_key again ≡ request_key first
    pub lasts :
        (response : Stored A)
        → stored_of answer ≡ some response
        → Lasts (request_key first) response first.finished again.received c

  module _ (replaying : IsReplaying b Lasts) {first again : Request} {answer : Answer A} {c : C}
      (retry : IsRetry first answer c again) where
    -- The response stored for the first request is what the retry finds.
    found :
        (response : Stored A)
        → stored_of answer ≡ some response
        → get_cached b again (store_cached b first response c)
          ≡ (some response, store_cached b first response c)
    unfolding get_cached store_cached
    found response e =
        let stored = b.set (request_key first) response first.finished c in
        ap (λ k. b.get k again.received stored) retry.same_key
        ∙ replaying.replays (request_key first) response first.finished again.received c
            (retry.lasts response e)

    with_body_again :
        {D : Type 0} (a : A) (call : D → Outcome A × D) (d : D)
        → answer ≡ answered a
        → with_body b again call (d, store_cached b first (body a) c)
          ≡ (answered a, (d, store_cached b first (body a) c))
    unfolding with_body reply_body
    with_body_again a call d e = rw (found (body a) (ap stored_of e)) refl

    without_body_again :
        {D : Type 0} (call : D → Outcome (Unit {0}) × D) (d : D)
        → answer ≡ no_content
        → without_body b again call (d, store_cached b first empty c)
          ≡ (no_content, (d, store_cached b first empty c))
    unfolding without_body reply_empty
    without_body_again call d e = rw (found empty (ap stored_of e)) refl

  module _ (replaying : IsReplaying b Lasts) {D : Type 0} (first again : Request) (c : C) where
    store_body_once :
        (call : D → Outcome A × D) (o : Outcome A × D)
        → let after = store_body b first o c in
          stored_of after.0 ≢ none
          → IsRetry first after.0 c again
          → with_body b again call after.1 ≡ after
    unfolding store_body
    store_body_once call (returns a, d) done retry = with_body_again replaying retry a call d refl
    store_body_once call (raises e, d) done retry = absurd (done refl)

    store_empty_once :
        (call : D → Outcome (Unit {0}) × D) (o : Outcome (Unit {0}) × D)
        → let after = store_empty b first o c in
          stored_of after.0 ≢ none
          → IsRetry first after.0 c again
          → without_body b again call after.1 ≡ after
    unfolding store_empty
    store_empty_once call (returns _, d) done retry = without_body_again replaying retry call d refl
    store_empty_once call (raises e, d) done retry = absurd (done refl)

    other_method_store :
        (call' : D → Outcome (Unit {0}) × D) (o : Outcome A × D) (a : A)
        → let after = store_body b first o c in
          after.0 ≡ answered a
          → IsRetry first after.0 c again
          → without_body b again call' after.1 ≡ (no_content, after.1)
    unfolding store_body without_body reply_empty
    other_method_store call' (returns x, d) a e retry =
        rw (found replaying retry (body x) refl) refl
    other_method_store call' (raises x, d) a e retry = cc

  -- After a request that found nothing stored and did not fail, a retry gives its answer and changes
  -- nothing.
  module _ (replaying : IsReplaying b Lasts) {D : Type 0} (first again : Request) (d : D) (c c' : C)
      (miss : get_cached b first c ≡ (none, c')) where
    pub with_body_once :
        (call : D → Outcome A × D)
        → let after = with_body b first call (d, c) in
          stored_of after.0 ≢ none
          → IsRetry first after.0 c' again
          → with_body b again call after.1 ≡ after
    with_body_once call =
        let ran : with_body b first call (d, c) ≡ store_body b first (call d) c' =
          unfold with_body reply_body in rw miss refl in
        rw ran (store_body_once replaying first again c' call (call d))

    pub without_body_once :
        (call : D → Outcome (Unit {0}) × D)
        → let after = without_body b first call (d, c) in
          stored_of after.0 ≢ none
          → IsRetry first after.0 c' again
          → without_body b again call after.1 ≡ after
    without_body_once call =
        let ran : without_body b first call (d, c) ≡ store_empty b first (call d) c' =
          unfold without_body reply_empty in rw miss refl in
        rw ran (store_empty_once replaying first again c' call (call d))

    -- The stored body of another endpoint is enough for one without a body to answer.
    pub other_method :
        (call : D → Outcome A × D) (call' : D → Outcome (Unit {0}) × D) (a : A)
        → let after = with_body b first call (d, c) in
          after.0 ≡ answered a
          → IsRetry first after.0 c' again
          → without_body b again call' after.1 ≡ (no_content, after.1)
    other_method call call' a =
        let ran : with_body b first call (d, c) ≡ store_body b first (call d) c' =
          unfold with_body reply_body in rw miss refl in
        rw ran (other_method_store replaying first again c' call' (call d) a)
