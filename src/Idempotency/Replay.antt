-- ===== src/Idempotency/Replay.antt =====
-- backend/app/core/idempotency.py: a response that was stored is replayed until it expires.
use fridgefriend.Prelude.{
  ℕ, ◌+◌, ◌≤◌, String, ◌≡◌, ◌≢◌, inl, inr, false, none, some, List, [], ◌∷◌, arith, str_eq, leb,
  if◌then◌else◌, Option-cases,
}
use fridgefriend.Units.{lookup}
use fridgefriend.Units.Laws.{str_eq_self}
use fridgefriend.Planning.Model.{put}
use fridgefriend.Planning.Stock.{lookup-put_other}
use fridgefriend.Idempotency.{
  MemoryCache, Client, RedisCache, object, memory_get, memory_set, from_fallback, answered,
  redis_get, redis_set,
}

pub lookup-put :
    {V : Type 0} (k : String) (v : V) (m : List (String × V)) → lookup k (put k v m) ≡ some v
unfolding lookup put
lookup-put k v [] = ground (arith, str_eq_self k)
lookup-put k v ((j, w) ∷ m) = ground (arith, lookup-put k v m)

module _ {R : Type 0} where
  -- A stored response is what a later call with the same key gets, up to the time at which it
  -- expires and no longer; a call with another key gets what it would have got.
  pub memory_get-memory_set :
      (key other : String) (r : R) (now later : ℕ) (c : MemoryCache R)
      → str_eq key other ≡ false
      → ((memory_get key later (memory_set key r now c)).0
          ≡ (if leb later (now + c.ttl_seconds) then some r else none))
        × ((memory_get other later (memory_set key r now c)).0 ≡ (memory_get other later c).0)
  unfolding memory_get memory_set
  memory_get-memory_set key other r now later c h =
      let same = lookup-put key (now + c.ttl_seconds, r) c.cache in
      let apart = lookup-put_other other key (now + c.ttl_seconds, r) c.cache h in
      (ground (arith, same), ground (arith, apart))

  memory_replays :
      (key : String) (r : R) (now later : ℕ) (c : MemoryCache R)
      → later ≤ now + c.ttl_seconds
      → (memory_get key later (memory_set key r now c)).0 ≡ some r
  unfolding memory_get memory_set
  memory_replays key r now later c p =
      ground (arith, p, lookup-put key (now + c.ttl_seconds, r) c.cache)

module _ {S R : Type 0} (client : Client S R) where
  -- If a server that accepts a response gives it back, and the server, if there is one, accepts this
  -- response, then the response is replayed until it would expire in memory.
  pub redis_get-redis_set :
      ((k : String) (r : R) (t : ℕ) (s s' : S)
        → client.set k r t s ≡ some s'
        → client.get k s' ≡ object r)
      → (key : String) (r : R) (now later : ℕ) (c : RedisCache S R)
      → ((s : S) → c.server ≡ some s → client.set key r c.ttl_seconds s ≢ none)
      → later ≤ now + c.fallback.ttl_seconds
      → (redis_get client key later (redis_set client key r now c)).0 ≡ some r
  unfolding redis_get redis_set answered from_fallback
  redis_get-redis_set gives key r now later c accepts p = elim (Option-cases c.server) [
    | inl e ↦ ground (arith, e, p, memory_replays key r now later c.fallback p)
    | inr (s, e) ↦ elim (Option-cases (client.set key r c.ttl_seconds s)) [
      | inl bad ↦ absurd (accepts s e bad)
      | inr (s', good) ↦ ground (arith, e, good, gives key r c.ttl_seconds s s' good)
    ]
  ]
