-- ===== src/Idempotency/Backend.antt =====
-- backend/app/core/idempotency.py: the backend that the settings choose, and what the routers rely on.
use fridgefriend.Prelude.{
  ℕ, ◌+◌, ◌≤◌, String, ◌≡◌, refl, ◌≢◌, inl, inr, Option, none, some, ◌∷◌, arith, str_eq,
  if◌then◌else◌, Bool-cases, Option-cases,
}
use fridgefriend.Idempotency.{
  MemoryCache, Client, RedisCache, object, memory_get, memory_set, memory_clear, from_fallback,
  answered, redis_get, redis_set, redis_clear,
}
use fridgefriend.Idempotency.Replay.{lookup-put}

-- What an endpoint calls: a lookup and a store at a time, on the state `C` of the caches.
pub record Backend (C R : Type 0) : Type 0 where
  pub get : String → ℕ → C → Option R × C
  pub set : String → R → ℕ → C → C

-- What an endpoint relies on: a response stored under a key at one time is what a lookup at a later
-- time gives, and the lookup changes nothing, if `Lasts` holds of the response.
pub record IsReplaying {C R : Type 0} (b : Backend C R) (Lasts : String → R → ℕ → ℕ → C → Type 0)
    : Type 0 where
  pub replays :
      (key : String) (r : R) (now later : ℕ) (c : C)
      → Lasts key r now later c
      → b.get key later (b.set key r now c) ≡ (some r, b.set key r now c)

module _ {S R : Type 0} (client : Client S R) where
  -- `_get_backend` on the setting `IDEMPOTENCY_BACKEND`. The memory cache is the fallback of the Redis
  -- cache.
  unfoldable pub backend_get : String → String → ℕ → RedisCache S R → Option R × RedisCache S R
  backend_get setting key now c =
      if str_eq setting "redis" then redis_get client key now c else from_fallback client key now c

  unfoldable pub backend_set : String → String → R → ℕ → RedisCache S R → RedisCache S R
  backend_set setting key response_data now c =
      if str_eq setting "redis"
      then redis_set client key response_data now c
      else record c { fallback = memory_set key response_data now c.fallback }

  unfoldable pub clear_cache : RedisCache S R → RedisCache S R
  clear_cache c = redis_clear client (record c { fallback = memory_clear c.fallback })

  unfoldable pub backend : String → Backend (RedisCache S R) R
  backend setting = record { get = backend_get setting; set = backend_set setting }

  -- The client accepts the response, if it is asked, and the response has not expired in memory.
  abbrev pub Lasts : String → R → ℕ → ℕ → RedisCache S R → Type 0
  Lasts key r now later c =
      ((s : S) → c.server ≡ some s → client.set key r c.ttl_seconds s ≢ none)
      × (later ≤ now + c.fallback.ttl_seconds)

  -- A server that accepts a response gives it back.
  abbrev pub Remembers : Type 0
  Remembers =
      (k : String) (r : R) (t : ℕ) (s s' : S)
      → client.set k r t s ≡ some s'
      → client.get k s' ≡ object r

  memory_get_stored :
      (key : String) (r : R) (now later : ℕ) (m : MemoryCache R)
      → later ≤ now + m.ttl_seconds
      → memory_get key later (memory_set key r now m) ≡ (some r, memory_set key r now m)
  unfolding memory_get memory_set
  memory_get_stored key r now later m p =
      ground (arith, p, lookup-put key (now + m.ttl_seconds, r) m.cache)

  fallback_get_stored :
      (key : String) (r : R) (now later : ℕ) (c : RedisCache S R)
      → later ≤ now + c.fallback.ttl_seconds
      → let stored = record c { fallback = memory_set key r now c.fallback } in
        from_fallback client key later stored ≡ (some r, stored)
  unfolding from_fallback
  fallback_get_stored key r now later c p = rw (memory_get_stored key r now later c.fallback p) refl

  redis_get_stored :
      Remembers
      → (key : String) (r : R) (now later : ℕ) (c : RedisCache S R)
      → ((s : S) → c.server ≡ some s → client.set key r c.ttl_seconds s ≢ none)
      → later ≤ now + c.fallback.ttl_seconds
      → redis_get client key later (redis_set client key r now c)
        ≡ (some r, redis_set client key r now c)
  unfolding redis_get redis_set answered
  redis_get_stored remembers key r now later c accepts p =
      let kept =
        fallback_get_stored key r now later (record c { tracked_keys = key ∷ c.tracked_keys }) p in
      elim (Option-cases c.server) [
        | inl e ↦ ground (arith, e, kept)
        | inr (s, e) ↦ elim (Option-cases (client.set key r c.ttl_seconds s)) [
          | inl bad ↦ absurd (accepts s e bad)
          | inr (s', good) ↦ ground (arith, e, good, remembers key r c.ttl_seconds s s' good)
        ]
      ]

  -- If a server that accepts a response gives it back, then the backend that the setting chooses
  -- replays a response that the client accepts, until it would expire in memory.
  pub backend-IsReplaying : (setting : String) → Remembers → IsReplaying (backend setting) Lasts
  unfolding backend backend_get backend_set
  backend-IsReplaying setting remembers = record {
    replays = λ key r now later c (accepts, p).
        let kept = fallback_get_stored key r now later c p in
        elim (Bool-cases (str_eq setting "redis")) [
          | inl remote ↦ rw remote (redis_get_stored remembers key r now later c accepts p)
          | inr local ↦ rw local kept
        ];
  }
