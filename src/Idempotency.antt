-- ===== src/Idempotency.antt =====
-- backend/app/core/idempotency.py. Times are numbers; a cached response is a value of any type.
pub mod Replay
pub mod Backend
mod Examples
use fridgefriend.Prelude.{
  ℕ, ◌+◌, ◌-◌, ◌/◌, String, not, Option, none, some, List, [], ◌∷◌, str_eq, ltb, if◌then◌else◌,
  keep,
}
use fridgefriend.Text.{strip, is_empty}
use fridgefriend.Units.{lookup}
use fridgefriend.Planning.Model.{put}
use Prim.Native.String.{◌++◌ as append}

-- `_scoped_key`
unfoldable pub scoped_key : String → String → String → String
scoped_key user_id path raw_key = append user_id (append ":" (append path (append ":" raw_key)))

-- `require_idempotency_key`; `none` is the 400 answer.
abbrev pub required_key : Option String → Option String
required_key none = none
required_key (some key) = if is_empty (strip key) then none else some key

-- `MemoryIdempotencyCache`: the dict `_cache` and the time to live.
pub record MemoryCache (R : Type 0) : Type 0 where
  pub ttl_seconds : ℕ
  pub cache : List (String × (ℕ × R))

-- What the client's `get` gives: it raises, it has nothing, bytes or a text that is no JSON object, or
-- the object that the text stands for.
pub data Reply (R : Type 0) : Type 0 where
  raised absent no_text no_object : Reply R
  object : R → Reply R

-- The methods of a Redis client on the server's state `S`; `none` is an exception. `set` takes the
-- time to live.
pub record Client (S R : Type 0) : Type 0 where
  pub get : String → S → Reply R
  pub set : String → R → ℕ → S → Option S
  pub delete : List String → S → Option S

-- `RedisIdempotencyCache`, with the state of the server if there is a client.
pub record RedisCache (S R : Type 0) : Type 0 where
  pub ttl_seconds : ℕ
  pub fallback : MemoryCache R
  pub server : Option S
  pub tracked_keys : List String

module _ {R : Type 0} where
  unfoldable pub memory_get : String → ℕ → MemoryCache R → Option R × MemoryCache R
  memory_get key now c = elim (lookup key c.cache) [
    | none ↦ (none, c)
    | some (expires_at, response_data) ↦
        if ltb expires_at now
        then (none, record c { cache = keep (λ e. not (str_eq e.0 key)) c.cache })
        else (some response_data, c)
  ]

  unfoldable pub memory_set : String → R → ℕ → MemoryCache R → MemoryCache R
  memory_set key response_data now c = record c {
    cache = put key (now + c.ttl_seconds, response_data) c.cache;
  }

  unfoldable pub memory_clear : MemoryCache R → MemoryCache R
  memory_clear c = record c { cache = [] }

module _ {S R : Type 0} (client : Client S R) where
  unfoldable pub from_fallback : String → ℕ → RedisCache S R → Option R × RedisCache S R
  from_fallback key now c =
      let (response, fallback) = memory_get key now c.fallback in
      (response, record c { fallback = fallback })

  -- The end of `get` on the client's reply.
  unfoldable pub answered : Reply R → String → ℕ → RedisCache S R → Option R × RedisCache S R
  answered raised key now c = from_fallback key now c
  answered absent key now c = from_fallback key now c
  answered no_text key now c = from_fallback key now c
  answered no_object key now c = (none, c)
  answered (object response) key now c = (some response, c)

  unfoldable pub redis_get : String → ℕ → RedisCache S R → Option R × RedisCache S R
  redis_get key now c = elim c.server [
    | none ↦ from_fallback key now c
    | some server ↦ answered (client.get key server) key now c
  ]

  unfoldable pub redis_set : String → R → ℕ → RedisCache S R → RedisCache S R
  redis_set key response_data now c =
      let tracked = record c { tracked_keys = key ∷ c.tracked_keys } in
      let kept = record tracked { fallback = memory_set key response_data now c.fallback } in
      elim c.server [
        | none ↦ kept
        | some server ↦ elim (client.set key response_data c.ttl_seconds server) [
          | none ↦ kept
          | some server' ↦ record tracked { server = some server' }
        ]
      ]

  abbrev pub or_old : S → Option S → S
  or_old old none = old
  or_old old (some new) = new

  -- `if self._redis_client is None or not self._tracked_keys: return`
  unfoldable pub redis_clear : RedisCache S R → RedisCache S R
  redis_clear c =
      let cleared = record c { fallback = memory_clear c.fallback } in
      elim c.server [
        | none ↦ cleared
        | some server ↦ elim c.tracked_keys [
          | [] ↦ cleared
          | key ∷ keys ↦ record cleared {
            server = some (or_old server (client.delete (key ∷ keys) server));
            tracked_keys = [];
          }
        ]
      ]
