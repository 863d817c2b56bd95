-- ===== src/EventBus/Fallback.antt =====
-- backend/app/modules/households/event_bus.py: what is left of the events when Redis fails.
use fridgefriend.Prelude.{ℕ, none, ◌≡◌, refl, true, false}
use fridgefriend.EventBus.{Event, publish}
use fridgefriend.EventBus.Redis.{
  Client, redis_publish, Lazy, redis_bus, memory_bus, new_bus, get_event_bus,
}

module _ {S T A : Type 0} (redis : Client S T A) (household_id fresh_id : ℕ) (event : Event A)
    (z : Lazy S A) (on_redis : get_event_bus z.has_client z.cached ≡ redis_bus)
    (with_client : z.has_client ≡ true) (down : redis.is_up z.server ≡ false) where
  abbrev in_memory_now : Lazy S A
  in_memory_now = record z { cached = memory_bus (publish household_id event fresh_id new_bus).1 }

  refused : redis_publish redis z.has_client household_id event fresh_id z.server ≡ none
  unfolding redis_publish
  refused = rw (with_client, down) refl
