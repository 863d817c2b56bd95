-- ===== src/Http/Failures.antt =====
-- The endpoints of backend/app/modules/*/router.py on a call that fails.
use fridgefriend.Prelude.{◌≡◌, refl, ap, Option, none, some}
use fridgefriend.Http.{
  Request, Stored, Failure, Outcome, returns, raises, failed, body, empty, get_cached, store_body,
  store_empty, reply_body, reply_empty, with_body, without_body,
}
use fridgefriend.Idempotency.Backend.{Backend}

module _ {C D A : Type 0} (b : Backend C (Stored A)) (r : Request) (d left : D) (x : Failure) where
  store_body_failed :
      (o : Outcome A × D) (c : C)
      → ((y : Failure) → o.0 ≡ raises y → o.1 ≡ left)
      → (store_body b r o c).0 ≡ failed x
      → (store_body b r o c).1 ≡ (left, c)
  unfolding store_body
  store_body_failed (returns a, d') c atomic bad = cc
  store_body_failed (raises y, d') c atomic bad = ap (λ z. (z, c)) (atomic y refl)

  store_empty_failed :
      (o : Outcome (Unit {0}) × D) (c : C)
      → ((y : Failure) → o.0 ≡ raises y → o.1 ≡ left)
      → (store_empty b r o c).0 ≡ failed x
      → (store_empty b r o c).1 ≡ (left, c)
  unfolding store_empty
  store_empty_failed (returns a, d') c atomic bad = cc
  store_empty_failed (raises y, d') c atomic bad = ap (λ z. (z, c)) (atomic y refl)

  reply_body_failed :
      (call : D → Outcome A × D)
      → ((y : Failure) → (call d).0 ≡ raises y → (call d).1 ≡ left)
      → (hit : Option (Stored A) × C) → (reply_body b r call d hit).0 ≡ failed x
      → (reply_body b r call d hit).1 ≡ (left, hit.1)
  unfolding reply_body
  reply_body_failed call atomic (none, c) = store_body_failed (call d) c atomic
  reply_body_failed call atomic (some empty, c) = store_body_failed (call d) c atomic
  reply_body_failed call atomic (some (body a), c) = λ bad. cc

  reply_empty_failed :
      (call : D → Outcome (Unit {0}) × D)
      → ((y : Failure) → (call d).0 ≡ raises y → (call d).1 ≡ left)
      → (hit : Option (Stored A) × C) → (reply_empty b r call d hit).0 ≡ failed x
      → (reply_empty b r call d hit).1 ≡ (left, hit.1)
  unfolding reply_empty
  reply_empty_failed call atomic (none, c) = store_empty_failed (call d) c atomic
  reply_empty_failed call atomic (some s, c) = λ bad. cc

  -- A failure of an endpoint is one of its call, which leaves the tables as `left`, and nothing is stored.
  pub with_body_failed :
      (call : D → Outcome A × D) (c : C)
      → ((y : Failure) → (call d).0 ≡ raises y → (call d).1 ≡ left)
      → (with_body b r call (d, c)).0 ≡ failed x
      → (with_body b r call (d, c)).1 ≡ (left, (get_cached b r c).1)
  unfolding with_body
  with_body_failed call c atomic = reply_body_failed call atomic (get_cached b r c)

  pub without_body_failed :
      (call : D → Outcome (Unit {0}) × D) (c : C)
      → ((y : Failure) → (call d).0 ≡ raises y → (call d).1 ≡ left)
      → (without_body b r call (d, c)).0 ≡ failed x
      → (without_body b r call (d, c)).1 ≡ (left, (get_cached b r c).1)
  unfolding without_body
  without_body_failed call c atomic = reply_empty_failed call atomic (get_cached b r c)
