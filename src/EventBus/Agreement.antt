-- ===== src/EventBus/Agreement.antt =====
-- backend/app/modules/households/event_bus.py: the bus on Redis replays what the bus in memory does.
use fridgefriend.Prelude.{
  ℕ, Bool, true, false, some, List, [], ◌∷◌, ◌++◌, map, ◌≡◌, ◌≢◌, refl, sym, ap, ◌∙◌, ◌-◌, ◌<◌, inl,
  inr, arith, zero, suc, drop, length, ltb, ◌==◌, ==_iff, Bool-cases, opt_eq, if◌then◌else◌, subst,
}
use fridgefriend.EventBus.{
  Event, Bus, event_history_limit, with_event_id, trimmed, publish, events_after, get_events_after,
}
use fridgefriend.EventBus.Redis.{
  Client, Index, from_start, from_end, object, done, event_history_ttl_seconds, pipeline,
  redis_publish, redis_get_events_after, parsed_after, parsed_next,
}

module _ {S T A : Type 0} (redis : Client S T A) where
  -- The whole history of a household.
  abbrev pub stored : ℕ → S → List T
  stored h s = redis.lrange h (from_start 0) (from_end 1) s

  -- What Redis documents of each command, for keys that do not expire meanwhile, and that an event is
  -- read back as it was written.
  pub record IsServer : Type 0 where
    pub loads-dumps : (event : Event A) → redis.loads (redis.dumps event) ≡ object event
    pub stored-rpush : (h : ℕ) (x : T) (s : S) → stored h (redis.rpush h x s) ≡ stored h s ++ x ∷ []
    pub others-rpush : (h g : ℕ) (x : T) (s : S) → g ≢ h → stored g (redis.rpush h x s) ≡ stored g s
    pub stored-ltrim :
        (h : ℕ) (first last : Index) (s : S)
        → stored h (redis.ltrim h first last s) ≡ redis.lrange h first last s
    pub others-ltrim :
        (h g : ℕ) (first last : Index) (s : S)
        → g ≢ h
        → stored g (redis.ltrim h first last s) ≡ stored g s
    pub lrange_last :
        (h n : ℕ) (s : S)
        → 0 < n
        → redis.lrange h (from_end n) (from_end 1) s ≡ drop (length (stored h s) - n) (stored h s)
    pub stored-expire : (h g n : ℕ) (s : S) → stored g (redis.expire h n s) ≡ stored g s
    pub stored-publish : (h g : ℕ) (x : T) (s : S) → stored g (redis.publish h x s) ≡ stored g s

  -- The server has the histories of the bus.
  abbrev pub IsMirror : S → Bus A → Type 0
  IsMirror s bus = (h : ℕ) → stored h s ≡ map redis.dumps (bus.history h)

module _ {A T : Type 0} (g : Event A → T) where
  -- The last elements of a list, after `g` on each.
  drop-map : (n : ℕ) (xs : List (Event A)) → drop n (map g xs) ≡ map g (drop n xs)
  drop-map zero xs = refl
  drop-map (suc n) [] = refl
  drop-map (suc n) (x ∷ xs) = drop-map n xs

  length-map : (xs : List (Event A)) → length (map g xs) ≡ length xs
  length-map [] = refl
  length-map (x ∷ xs) = ap suc (length-map xs)

  map-append : (xs ys : List (Event A)) → map g (xs ++ ys) ≡ map g xs ++ map g ys
  map-append [] ys = refl
  map-append (x ∷ xs) ys = ap (λ zs. g x ∷ zs) (map-append xs ys)

  trimmed-eq : (xs : List (Event A)) → trimmed xs ≡ drop (length xs - event_history_limit) xs
  unfolding trimmed
  trimmed-eq xs = elim (Bool-cases (ltb event_history_limit (length xs))) [
    | inl e ↦ rw e refl
    | inr e ↦ rw e (ap (λ n. drop n xs) (sym (short e)))
  ]
    where
      short : ltb event_history_limit (length xs) ≡ false → length xs - event_history_limit ≡ 0
      short e = ground (arith, e)

  kept-eq :
      (xs : List (Event A)) (event : Event A)
      → drop (length (map g xs ++ g event ∷ []) - event_history_limit) (map g xs ++ g event ∷ [])
        ≡ map g (trimmed (xs ++ event ∷ []))
  kept-eq xs event =
      rw
        (
          sym (map-append xs (event ∷ [])),
          length-map (xs ++ event ∷ []),
          trimmed-eq (xs ++ event ∷ []),
        )
        (drop-map (length (xs ++ event ∷ []) - event_history_limit) (xs ++ event ∷ []))

module _ {S T A : Type 0} (redis : Client S T A) (server : IsServer redis) where
  parsed_after-found :
      (last_event_id : ℕ) (xs : List (Event A))
      → parsed_after redis true last_event_id (map redis.dumps xs) ≡ some xs
  unfolding parsed_after parsed_next
  parsed_after-found last_event_id [] = refl
  parsed_after-found last_event_id (x ∷ xs) =
      rw (server.loads-dumps x, parsed_after-found last_event_id xs) refl

  parsed_after-if :
      (b : Bool) (last_event_id : ℕ) (xs : List (Event A))
      → parsed_after redis false last_event_id (map redis.dumps xs)
        ≡ some (events_after last_event_id xs)
      → parsed_after redis b last_event_id (map redis.dumps xs)
        ≡ some (if b then xs else events_after last_event_id xs)
  parsed_after-if true last_event_id xs e = parsed_after-found last_event_id xs
  parsed_after-if false last_event_id xs e = e

  parsed_after-eq :
      (last_event_id : ℕ) (xs : List (Event A))
      → parsed_after redis false last_event_id (map redis.dumps xs)
        ≡ some (events_after last_event_id xs)
  unfolding parsed_after parsed_next events_after
  parsed_after-eq last_event_id [] = refl
  parsed_after-eq last_event_id (x ∷ xs) = rw (server.loads-dumps x) (
      parsed_after-if (opt_eq x.event_id last_event_id) last_event_id xs
        (parsed_after-eq last_event_id xs))

  -- The pipeline on the history that it is about.
  stored-pipeline :
      (h : ℕ) (event : Event A) (s : S) (xs : List (Event A))
      → stored redis h s ≡ map redis.dumps xs
      → stored redis h (pipeline redis h (redis.dumps event) s)
        ≡ map redis.dumps (trimmed (xs ++ event ∷ []))
  unfolding pipeline
  stored-pipeline h event s xs e =
      let x = redis.dumps event in
      let pushed = redis.rpush h x s in
      let cut = redis.ltrim h (from_end event_history_limit) (from_end 1) pushed in
      let all : stored redis h pushed ≡ map redis.dumps xs ++ x ∷ [] =
        server.stored-rpush h x s ∙ ap (λ ys. ys ++ x ∷ []) e in
      server.stored-publish h h x (redis.expire h event_history_ttl_seconds cut)
      ∙ server.stored-expire h h event_history_ttl_seconds cut
      ∙ server.stored-ltrim h (from_end event_history_limit) (from_end 1) pushed
      ∙ server.lrange_last h event_history_limit pushed (omega arith)
      ∙ ap (λ ys. drop (length ys - event_history_limit) ys) all
      ∙ kept-eq redis.dumps xs event

  -- The pipeline on another history.
  others-pipeline :
      (h g : ℕ) (x : T) (s : S) → g ≢ h → stored redis g (pipeline redis h x s) ≡ stored redis g s
  unfolding pipeline
  others-pipeline h g x s apart =
      let pushed = redis.rpush h x s in
      let cut = redis.ltrim h (from_end event_history_limit) (from_end 1) pushed in
      server.stored-publish h g x (redis.expire h event_history_ttl_seconds cut)
      ∙ server.stored-expire h g event_history_ttl_seconds cut
      ∙ server.others-ltrim h g (from_end event_history_limit) (from_end 1) pushed apart
      ∙ server.others-rpush h g x s apart

  pipeline-IsMirror :
      (h : ℕ) (event : Event A) (fresh_id : ℕ) (s : S) (bus : Bus A)
      → IsMirror redis s bus
      → IsMirror redis
          (pipeline redis h (redis.dumps (with_event_id event fresh_id)) s)
          (publish h event fresh_id bus).1
  unfolding publish
  pipeline-IsMirror h event fresh_id s bus mirror g = elim (Bool-cases (g == h)) [
    | inl same ↦
        let e = with_event_id event fresh_id in
        rw same (
          subst
            (λ k.
              stored redis k (pipeline redis h (redis.dumps e) s)
              ≡ map redis.dumps (trimmed (bus.history k ++ e ∷ [])))
            (sym ((==_iff g h).0 same)) (stored-pipeline h e s (bus.history h) (mirror h)))
    | inr other ↦ rw other (
        others-pipeline h g (redis.dumps (with_event_id event fresh_id)) s
          (λ p. ground (arith, other, p))
        ∙ mirror g)
  ]

  -- If the commands do what Redis documents, events are read back as they were written, and the server
  -- answers, then a server that has the histories of the bus in memory replays what that bus does,
  -- accepts an event and gives it the identifier that the bus does, and has the histories of the bus
  -- again after both publish it.
  pub redis_publish-IsMirror :
      (household_id last_event_id fresh_id : ℕ) (event : Event A) (s : S) (bus : Bus A)
      → IsMirror redis s bus
      → redis.is_up s ≡ true
      → (redis_get_events_after redis true household_id last_event_id s
          ≡ done (get_events_after household_id last_event_id bus))
        × ((s' : S) × (redis_publish redis true household_id event fresh_id s
              ≡ some ((publish household_id event fresh_id bus).0, s'))
            × IsMirror redis s' (publish household_id event fresh_id bus).1)
  unfolding redis_publish redis_get_events_after get_events_after publish
  redis_publish-IsMirror household_id last_event_id fresh_id event s bus mirror up = (
    rw
        (
          redis_get_events_after,
          up,
          mirror household_id,
          parsed_after-eq last_event_id (bus.history household_id),
        )
        refl,
    (_, rw (redis_publish, up) refl, pipeline-IsMirror household_id event fresh_id s bus mirror),
  )
