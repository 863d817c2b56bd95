-- ===== src/EventBus/History.antt =====
-- backend/app/modules/households/event_bus.py: the bounds of the bus, and what a client that comes
-- back is sent.
use fridgefriend.Prelude.{
  ℕ, All, All-keep, All-map, zero, suc, ◌-◌, ◌≤◌, ◌<◌, ◌≡◌, refl, ◌∙◌, inl, inr, true, List, [],
  ◌∷◌, ◌++◌, arith, ltb, ==_self, Bool-cases, opt_eq, length, drop, exists, length-append,
}
use fridgefriend.EventBus.{
  Event, Subscriber, Bus, queue_maxsize, event_history_limit, with_event_id, enqueue_event, trimmed,
  deliver, publish, subscribe, unsubscribe, consume, events_after, get_events_after,
}

-- A call of the bus.
pub data Call (A : Type 0) : Type 0 where
  publishes : ℕ → Event A → ℕ → Call A
  subscribes : ℕ → ℕ → Call A
  unsubscribes : ℕ → Call A
  consumes : ℕ → Call A

module _ {A : Type 0} where
  unfoldable pub step : Call A → Bus A → Bus A
  step (publishes household_id event fresh_id) bus = (publish household_id event fresh_id bus).1
  step (subscribes subscription household_id) bus = subscribe subscription household_id bus
  step (unsubscribes subscription) bus = unsubscribe subscription bus
  step (consumes subscription) bus = consume subscription bus

  unfoldable pub run : List (Call A) → Bus A → Bus A
  run [] bus = bus
  run (call ∷ calls) bus = run calls (step call bus)

  length-drop : (n : ℕ) (xs : List (Event A)) → length (drop n xs) ≡ length xs - n
  length-drop zero xs = omega arith
  length-drop (suc n) [] = omega arith
  length-drop (suc n) (x ∷ xs) = length-drop n xs ∙ omega arith

  abbrev pub HasRoom : Subscriber A → Type 0
  HasRoom s = length s.queue ≤ queue_maxsize

  pub record IsBounded (bus : Bus A) : Type 0 where
    pub queues : All HasRoom bus.subscribers
    pub histories : (h : ℕ) → length (bus.history h) ≤ event_history_limit

  length-enqueue_event :
      (queue : List (Event A)) (event : Event A)
      → length queue ≤ queue_maxsize
      → length (enqueue_event queue event) ≤ queue_maxsize
  unfolding enqueue_event
  length-enqueue_event queue event h = ground (
    arith,
    length-append queue (event ∷ []),
    length-append (drop 1 queue) (event ∷ []),
    length-drop 1 queue,
  )

  length-trimmed : (xs : List (Event A)) → length (trimmed xs) ≤ event_history_limit
  unfolding trimmed
  length-trimmed xs = ground (arith, length-drop (length xs - event_history_limit) xs)

  deliver-HasRoom :
      (h : ℕ) (event : Event A) (s : Subscriber A) → HasRoom s → HasRoom (deliver h event s)
  unfolding deliver
  deliver-HasRoom h event s r = ground (arith, length-enqueue_event s.queue event r)

  step-IsBounded : (call : Call A) (bus : Bus A) → IsBounded bus → IsBounded (step call bus)
  unfolding step publish subscribe unsubscribe consume
  step-IsBounded (publishes household_id event fresh_id) bus b = record {
    queues = All-map HasRoom _ (deliver-HasRoom household_id _) bus.subscribers b.queues;
    histories = λ h.
        ground (
          arith,
          b.histories h,
          length-trimmed (bus.history h ++ with_event_id event fresh_id ∷ []),
        );
  }
  step-IsBounded (subscribes subscription household_id) bus b = record {
    queues = (omega arith, b.queues);
    histories = b.histories;
  }
  step-IsBounded (unsubscribes subscription) bus b = record {
    queues = All-keep HasRoom _ bus.subscribers b.queues;
    histories = b.histories;
  }
  step-IsBounded (consumes subscription) bus b = record {
    queues =
        All-map HasRoom _ (λ s r. ground (arith, r, length-drop 1 s.queue)) bus.subscribers
          b.queues;
    histories = b.histories;
  }

  -- From a bus within its bounds, whatever calls are made, no queue gets more events than it has room for, and no history more
  -- than its limit.
  pub run-IsBounded :
      (calls : List (Call A)) (bus : Bus A) → IsBounded bus → IsBounded (run calls bus)
  unfolding run
  run-IsBounded [] bus b = b
  run-IsBounded (call ∷ calls) bus b =
      run-IsBounded calls (step call bus) (step-IsBounded call bus b)

  after-append :
      (last : ℕ) (xs ys : List (Event A))
      → exists (λ e. opt_eq e.event_id last) xs ≡ true
      → events_after last (xs ++ ys) ≡ events_after last xs ++ ys
  unfolding events_after exists
  after-append last [] ys h = cc
  after-append last (x ∷ xs) ys h = elim (Bool-cases (opt_eq x.event_id last)) [
    | inl e ↦ rw e refl
    | inr e ↦ rw e (after-append last xs ys (ground (arith, h, e)))
  ]

  -- A client that comes back with an identifier that the history has is sent what it was sent before
  -- and the event published since, if the history was not full.
  pub get_events_after-publish :
      (household_id last fresh_id : ℕ) (event : Event A) (bus : Bus A)
      → length (bus.history household_id) < event_history_limit
      → exists (λ e. opt_eq e.event_id last) (bus.history household_id) ≡ true
      → get_events_after household_id last (publish household_id event fresh_id bus).1
        ≡ get_events_after household_id last bus ++ (publish household_id event fresh_id bus).0 ∷ []
  unfolding get_events_after publish trimmed
  get_events_after-publish household_id last fresh_id event bus room known =
      let xs = bus.history household_id in
      let e = with_event_id event fresh_id in
      rw (==_self household_id)
        (elim (Bool-cases (ltb event_history_limit (length (xs ++ e ∷ [])))) [
          | inl full ↦ absurd (ground (arith, full, room, length-append xs (e ∷ [])))
          | inr fits ↦ rw fits (after-append last xs (e ∷ []) known)
        ])
