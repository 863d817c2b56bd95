-- ===== src/EventBus.antt =====
-- The in-memory bus of backend/app/modules/households/event_bus.py. Identifiers of events are
-- numbers; a queue is named by the number of its subscription. No call waits: a queue always has
-- room when an event is put in.
pub mod History
pub mod Redis
pub mod Agreement
pub mod Fallback
mod Examples
use fridgefriend.Prelude.{
  ℕ, ◌+◌, ◌-◌, ◌/◌, not, Option, none, some, List, ◌∷◌, ◌++◌, map, ltb, leb, ◌==◌, if◌then◌else◌,
  opt_eq, length, drop, keep, [],
}

-- A dict, with its `event_id`, if any, apart from the rest.
pub record Event (A : Type 0) : Type 0 where
  pub event_id : Option ℕ
  pub body : A

pub record Subscriber (A : Type 0) : Type 0 where
  pub subscription : ℕ
  pub household_id : ℕ
  pub queue : List (Event A)

pub record Bus (A : Type 0) : Type 0 where
  pub subscribers : List (Subscriber A)
  pub history : ℕ → List (Event A)

abbrev pub queue_maxsize : ℕ
queue_maxsize = 100

abbrev pub event_history_limit : ℕ
event_history_limit = 500

abbrev pub filled : Option ℕ → ℕ → ℕ
filled none fresh_id = fresh_id
filled (some event_id) fresh_id = event_id

module _ {A : Type 0} where
  -- `_with_event_id`, with what `uuid4` draws.
  unfoldable pub with_event_id : Event A → ℕ → Event A
  with_event_id event fresh_id = record event { event_id = some (filled event.event_id fresh_id) }

  -- `_enqueue_event`: a full queue loses its oldest event.
  unfoldable pub enqueue_event : List (Event A) → Event A → List (Event A)
  enqueue_event queue event =
      (if leb queue_maxsize (length queue) then drop 1 queue else queue) ++ event ∷ []

  -- `del history[:-LIMIT]` if there are more.
  unfoldable pub trimmed : List (Event A) → List (Event A)
  trimmed history =
      if ltb event_history_limit (length history)
      then drop (length history - event_history_limit) history
      else history

  unfoldable pub deliver : ℕ → Event A → Subscriber A → Subscriber A
  deliver household_id event s =
      if s.household_id == household_id then record s { queue = enqueue_event s.queue event } else s

  unfoldable pub publish : ℕ → Event A → ℕ → Bus A → Event A × Bus A
  publish household_id event fresh_id bus =
      let event_with_id = with_event_id event fresh_id in
      (
        event_with_id,
        record {
          subscribers = map (deliver household_id event_with_id) bus.subscribers;
          history = λ h.
              if h == household_id
              then trimmed (bus.history h ++ event_with_id ∷ [])
              else bus.history h;
        },
      )

  unfoldable pub subscribe : ℕ → ℕ → Bus A → Bus A
  subscribe subscription household_id bus = record bus {
    subscribers =
        record { subscription = subscription; household_id = household_id; queue = [] }
        ∷ bus.subscribers;
  }

  -- The end of the `with` block of `subscribe`.
  unfoldable pub unsubscribe : ℕ → Bus A → Bus A
  unsubscribe subscription bus = record bus {
    subscribers = keep (λ s. not (s.subscription == subscription)) bus.subscribers;
  }

  -- The consumer takes the oldest event of its queue.
  unfoldable pub consume : ℕ → Bus A → Bus A
  consume subscription bus = record bus {
    subscribers =
        map (λ s. if s.subscription == subscription then record s { queue = drop 1 s.queue } else s)
          bus.subscribers;
  }

  unfoldable pub events_after : ℕ → List (Event A) → List (Event A)
  events_after last_event_id [] = []
  events_after last_event_id (event ∷ history) =
      let later = events_after last_event_id history in
      if opt_eq event.event_id last_event_id then history else later

  unfoldable pub get_events_after : ℕ → ℕ → Bus A → List (Event A)
  get_events_after household_id last_event_id bus =
      events_after last_event_id (bus.history household_id)
