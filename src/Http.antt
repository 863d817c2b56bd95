-- ===== src/Http.antt =====
-- What the endpoints of backend/app/modules/*/router.py share: the lookup of a stored response before
-- the call of the service, and the store of the answer after it.
pub mod Retry
pub mod Failures
mod Examples
use fridgefriend.Prelude.{ℕ, ◌-◌, ◌*◌, ◌/◌, String, false, not, Option, none, some, []}
use fridgefriend.Idempotency.{scoped_key}
use fridgefriend.Idempotency.Backend.{Backend}

-- What an endpoint reads of a request: the text of the user's id, `request.url.path`, the header
-- `Idempotency-Key`, and the times at which it looks up and stores a response.
pub record Request : Type 0 where
  pub user_id : String
  pub path : String
  pub idempotency_key : String
  pub received : ℕ
  pub finished : ℕ

-- An `HTTPException` with its status code and detail, or an exception that no endpoint catches.
pub data Failure : Type 0 where
  http_exception : ℕ → String → Failure
  uncaught : Failure

-- What the call of a service comes to.
pub data Outcome (A : Type 0) : Type 0 where
  returns : A → Outcome A
  raises : Failure → Outcome A

-- A body, an empty 204 response, or a failure.
pub data Answer (A : Type 0) : Type 0 where
  answered : A → Answer A
  no_content : Answer A
  failed : Failure → Answer A

-- A stored dict: `{}`, or the dump of a body.
pub data Stored (A : Type 0) : Type 0 where
  empty : Stored A
  body : A → Stored A

abbrev pub request_key : Request → String
request_key r = scoped_key r.user_id r.path r.idempotency_key

module _ {C A : Type 0} (b : Backend C (Stored A)) where
  -- `get_cached`
  unfoldable pub get_cached : Request → C → Option (Stored A) × C
  get_cached r c = b.get (request_key r) r.received c

  -- `store_cached`
  unfoldable pub store_cached : Request → Stored A → C → C
  store_cached r response c = b.set (request_key r) response r.finished c

module _ {C D A : Type 0} (b : Backend C (Stored A)) where
  -- The end of an endpoint with a body: what is answered is stored, a failure is not.
  unfoldable pub store_body : Request → Outcome A × D → C → Answer A × (D × C)
  store_body r (returns a, d) c = (answered a, (d, store_cached b r (body a) c))
  store_body r (raises e, d) c = (failed e, (d, c))

  -- The end of an endpoint without a body.
  unfoldable pub store_empty : Request → Outcome (Unit {0}) × D → C → Answer A × (D × C)
  store_empty r (returns _, d) c = (no_content, (d, store_cached b r empty c))
  store_empty r (raises e, d) c = (failed e, (d, c))

  -- `if cached:`; the empty dict is false.
  unfoldable pub reply_body :
      Request → (D → Outcome A × D) → D → Option (Stored A) × C → Answer A × (D × C)
  reply_body r call d (none, c) = store_body r (call d) c
  reply_body r call d (some empty, c) = store_body r (call d) c
  reply_body r call d (some (body a), c) = (answered a, (d, c))

  -- `if cached is not None:`
  unfoldable pub reply_empty :
      Request → (D → Outcome (Unit {0}) × D) → D → Option (Stored A) × C → Answer A × (D × C)
  reply_empty r call d (none, c) = store_empty r (call d) c
  reply_empty r call d (some _, c) = (no_content, (d, c))

  -- An endpoint that answers with a body.
  unfoldable pub with_body : Request → (D → Outcome A × D) → D × C → Answer A × (D × C)
  with_body r call (d, c) = reply_body r call d (get_cached b r c)

  -- An endpoint that answers without one.
  unfoldable pub without_body : Request → (D → Outcome (Unit {0}) × D) → D × C → Answer A × (D × C)
  without_body r call (d, c) = reply_empty r call d (get_cached b r c)
