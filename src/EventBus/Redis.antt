-- ===== src/EventBus/Redis.antt =====
-- backend/app/modules/households/event_bus.py: the bus on Redis, and the lazy bus that falls back from
-- it. The queues that Redis feeds are filled by a task that runs beside the program and are left out.
use fridgefriend.Prelude.{
  ℕ, Bool, true, false, Option, none, some, List, [], ◌∷◌, if◌then◌else◌, opt_eq,
}
use fridgefriend.EventBus.{
  Event, Bus, event_history_limit, with_event_id, publish, get_events_after,
}

-- An end of a range of a Redis list: the n-th element, or the n-th from the end, where the last is the
-- first from the end.
pub data Index : Type 0 where
  from_start from_end : ℕ → Index

-- What `json.loads` makes of a text: a `ValueError`, a value that is no object, or an object.
pub data Decoded (A : Type 0) : Type 0 where
  malformed not_object : Decoded A
  object : Event A → Decoded A

-- The `json` module, and the commands of a client on the state `S` of a server, which stores texts
-- `T` under the household whose history it is. `is_up` says whether the server answers; if it does
-- not, a command raises. A pipeline is a transaction: its commands are all executed or none.
pub record Client (S T A : Type 0) : Type 0 where
  pub dumps : Event A → T
  pub loads : T → Decoded A
  pub is_up : S → Bool
  pub rpush : ℕ → T → S → S
  pub ltrim : ℕ → Index → Index → S → S
  pub expire : ℕ → ℕ → S → S
  pub publish : ℕ → T → S → S
  pub lrange : ℕ → Index → Index → S → List T

-- What reading from the Redis bus comes to: a `RedisError`, the `ValueError` of a text, or a value.
pub data BusAnswer (R : Type 0) : Type 0 where
  redis_error value_error : BusAnswer R
  done : R → BusAnswer R

abbrev pub event_history_ttl_seconds : ℕ
event_history_ttl_seconds = 3600

module _ {S T A : Type 0} (redis : Client S T A) where
  -- The commands of the pipeline of `publish`, in turn.
  unfoldable pub pipeline : ℕ → T → S → S
  pipeline household_id payload s =
      let pushed = redis.rpush household_id payload s in
      let trimmed = redis.ltrim household_id (from_end event_history_limit) (from_end 1) pushed in
      redis.publish household_id payload
        (redis.expire household_id event_history_ttl_seconds trimmed)

  -- `none` is a `RedisError`. `has_client` says whether `get_redis_client` gives a client, which is so
  -- or not for as long as the program runs.
  unfoldable pub redis_publish : Bool → ℕ → Event A → ℕ → S → Option (Event A × S)
  redis_publish has_client household_id event fresh_id s =
      let event_with_id = with_event_id event fresh_id in
      if has_client
      then (if redis.is_up s
          then some (event_with_id, pipeline household_id (redis.dumps event_with_id) s)
          else none)
      else some (event_with_id, s)

module _ {A : Type 0} where
  abbrev pub before : Event A → Option (List (Event A)) → Option (List (Event A))
  before event none = none
  before event (some events) = some (event ∷ events)

  -- One turn of the loop of `get_events_after`; `rest` is what the later turns make of `found`.
  unfoldable pub parsed_next :
      Bool → ℕ → Decoded A → (Bool → Option (List (Event A))) → Option (List (Event A))
  parsed_next found last_event_id malformed rest = none
  parsed_next found last_event_id not_object rest = rest found
  parsed_next true last_event_id (object event) rest = before event (rest true)
  parsed_next false last_event_id (object event) rest = rest (opt_eq event.event_id last_event_id)

module _ {S T A : Type 0} (redis : Client S T A) where
  -- The events that follow the last one seen, if it is there; `none` if a text raises.
  unfoldable pub parsed_after : Bool → ℕ → List T → Option (List (Event A))
  parsed_after found last_event_id [] = some []
  parsed_after found last_event_id (raw_event ∷ raw_events) =
      parsed_next found last_event_id (redis.loads raw_event)
        (λ b. parsed_after b last_event_id raw_events)

  abbrev pub or_value_error : Option (List (Event A)) → BusAnswer (List (Event A))
  or_value_error none = value_error
  or_value_error (some events) = done events

  unfoldable pub redis_get_events_after : Bool → ℕ → ℕ → S → BusAnswer (List (Event A))
  redis_get_events_after has_client household_id last_event_id s =
      let raw_events = redis.lrange household_id (from_start 0) (from_end 1) s in
      if has_client
      then (if redis.is_up s
          then or_value_error (parsed_after false last_event_id raw_events)
          else redis_error)
      else done []

-- `_cached_event_bus`.
pub data Cached (A : Type 0) : Type 0 where
  unset_bus redis_bus : Cached A
  memory_bus : Bus A → Cached A

-- The lazy bus: whether there is a Redis client, the cached bus and the state of the server.
pub record Lazy (S A : Type 0) : Type 0 where
  pub has_client : Bool
  pub cached : Cached A
  pub server : S

module _ {A : Type 0} where
  abbrev pub new_bus : Bus A
  new_bus = record { subscribers = []; history = λ h. [] }

  -- `get_event_bus`
  unfoldable pub get_event_bus : Bool → Cached A → Cached A
  get_event_bus has_client unset_bus = if has_client then redis_bus else memory_bus new_bus
  get_event_bus has_client redis_bus = redis_bus
  get_event_bus has_client (memory_bus bus) = memory_bus bus

  -- `_fallback_from_error`
  unfoldable pub fallback_from_error : Cached A → Bus A
  fallback_from_error unset_bus = new_bus
  fallback_from_error redis_bus = new_bus
  fallback_from_error (memory_bus bus) = bus

module _ {S T A : Type 0} (redis : Client S T A) where
  abbrev pub publish_in_memory : ℕ → Event A → ℕ → Bus A → Lazy S A → Event A × Lazy S A
  publish_in_memory household_id event fresh_id bus z =
      let (event', bus') = publish household_id event fresh_id bus in
      (event', record z { cached = memory_bus bus' })

  -- The call on the resolved bus.
  unfoldable pub publish_on : Cached A → ℕ → Event A → ℕ → Lazy S A → Event A × Lazy S A
  publish_on unset_bus household_id event fresh_id z =
      publish_in_memory household_id event fresh_id (fallback_from_error unset_bus) z
  publish_on (memory_bus bus) household_id event fresh_id z =
      publish_in_memory household_id event fresh_id bus z
  publish_on redis_bus household_id event fresh_id z =
      elim (redis_publish redis z.has_client household_id event fresh_id z.server) [
        | none ↦ publish_in_memory household_id event fresh_id (fallback_from_error redis_bus) z
        | some (event', s') ↦ (event', record z { cached = redis_bus; server = s' })
      ]

  unfoldable pub lazy_publish : ℕ → Event A → ℕ → Lazy S A → Event A × Lazy S A
  lazy_publish household_id event fresh_id z =
      publish_on (get_event_bus z.has_client z.cached) household_id event fresh_id z

  abbrev pub replay_in_memory : ℕ → ℕ → Bus A → Lazy S A → Option (List (Event A)) × Lazy S A
  replay_in_memory household_id last_event_id bus z =
      (some (get_events_after household_id last_event_id bus), record z { cached = memory_bus bus })

  -- `none` is the `ValueError`, which is not caught.
  unfoldable pub replay_on : Cached A → ℕ → ℕ → Lazy S A → Option (List (Event A)) × Lazy S A
  replay_on unset_bus household_id last_event_id z =
      replay_in_memory household_id last_event_id (fallback_from_error unset_bus) z
  replay_on (memory_bus bus) household_id last_event_id z =
      replay_in_memory household_id last_event_id bus z
  replay_on redis_bus household_id last_event_id z =
      elim (redis_get_events_after redis z.has_client household_id last_event_id z.server) [
        | redis_error ↦
            replay_in_memory household_id last_event_id (fallback_from_error redis_bus) z
        | value_error ↦ (none, record z { cached = redis_bus })
        | done events ↦ (some events, record z { cached = redis_bus })
      ]

  unfoldable pub lazy_get_events_after : ℕ → ℕ → Lazy S A → Option (List (Event A)) × Lazy S A
  lazy_get_events_after household_id last_event_id z =
      replay_on (get_event_bus z.has_client z.cached) household_id last_event_id z
