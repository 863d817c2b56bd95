-- ===== src/EventBus/Examples.antt =====
-- The theorems on the event bus at a concrete history and calls.
use fridgefriend.Prelude.{ℕ, ◌≡◌, refl, none, some, [], ◌∷◌, ◌++◌, arith, exists}
use fridgefriend.Prelude.{
  take, zero, suc, ◌≤◌, Bool, true, sym, ap, ◌∙◌, ==_self, List, drop, length, if◌then◌else◌, ◌==◌,
  ◌-◌, false, true, ◌≢◌,
}
use fridgefriend.EventBus.{Event, Bus, get_events_after, publish}
use fridgefriend.EventBus.Redis.{
  Client, Index, from_start, from_end, object, Lazy, unset_bus, redis_publish,
  redis_get_events_after, done,
}
use fridgefriend.EventBus.Agreement.{IsServer, IsMirror, redis_publish-IsMirror}
use fridgefriend.EventBus.History.{
  publishes, subscribes, consumes, IsBounded, run, run-IsBounded, get_events_after-publish,
}

abbrev told : Event ℕ
told = record { event_id = some 5; body = 0 }

abbrev news : Event ℕ
news = record { event_id = none; body = 1 }

abbrev quiet : Bus ℕ
quiet = record { subscribers = []; history = λ h. [] }

abbrev informed : Bus ℕ
informed = record { subscribers = []; history = λ h. told ∷ [] }

quiet-IsBounded : IsBounded quiet
quiet-IsBounded = record { queues = tt; histories = λ h. omega arith }

run-IsBounded_example :
    IsBounded (run (subscribes 1 10 ∷ publishes 10 news 6 ∷ consumes 1 ∷ []) quiet)
run-IsBounded_example =
    run-IsBounded (subscribes 1 10 ∷ publishes 10 news 6 ∷ consumes 1 ∷ []) quiet quiet-IsBounded

get_events_after-publish_example :
    get_events_after 10 5 (publish 10 news 6 informed).1
    ≡ get_events_after 10 5 informed ++ (publish 10 news 6 informed).0 ∷ []
get_events_after-publish_example =
    get_events_after-publish 10 5 6 news informed (omega arith) (unfold exists in refl)

-- A server that keeps the histories as lists of events, or answers nothing.
pub record Store : Type 0 where
  answers : Bool
  lists : ℕ → List (Event ℕ)

abbrev changed_list : ℕ → (List (Event ℕ) → List (Event ℕ)) → Store → Store
changed_list h g s = record s { lists = λ k. if k == h then g (s.lists h) else s.lists k }

-- The elements from the one index on up to the other.
abbrev position : ℕ → Index → ℕ
position n (from_start k) = k
position n (from_end k) = n - k

abbrev range : Index → Index → List (Event ℕ) → List (Event ℕ)
range first last xs = drop (position (length xs) first) (take (suc (position (length xs) last)) xs)

abbrev server : Client Store (Event ℕ) ℕ
server = record {
  dumps = λ event. event;
  loads = λ event. object event;
  is_up = λ s. s.answers;
  rpush = λ h x s. changed_list h (λ xs. xs ++ x ∷ []) s;
  ltrim = λ h first last s. changed_list h (range first last) s;
  expire = λ h n s. s;
  publish = λ h x s. s;
  lrange = λ h first last s. range first last (s.lists h);
}

take_all : (xs : List (Event ℕ)) (n : ℕ) → length xs ≤ n → take n xs ≡ xs
take_all [] zero e = refl
take_all [] (suc n) e = refl
take_all (x ∷ xs) zero e = absurd (omega (arith, e))
take_all (x ∷ xs) (suc n) e = ap (λ ys. x ∷ ys) (take_all xs n (omega (arith, e)))

whole : (xs : List (Event ℕ)) → range (from_start 0) (from_end 1) xs ≡ xs
whole xs = take_all xs (suc (length xs - 1)) (omega arith)

not_same : (g h : ℕ) → g ≢ h → (g == h) ≡ false
not_same g h other = ground (arith, other)

server-IsServer : IsServer server
server-IsServer = record {
  loads-dumps = λ event. refl;
  stored-rpush = λ h x s.
      rw (==_self h)
        (whole (s.lists h ++ x ∷ []) ∙ ap (λ xs. xs ++ x ∷ []) (sym (whole (s.lists h))));
  others-rpush = λ h g x s other. rw (not_same g h other) refl;
  stored-ltrim = λ h first last s. rw (==_self h) (whole (range first last (s.lists h)));
  others-ltrim = λ h g first last s other. rw (not_same g h other) refl;
  lrange_last = λ h n s positive. rw (whole (s.lists h)) refl;
  stored-expire = λ h g n s. refl;
  stored-publish = λ h g x s. refl;
}

abbrev informed_store : Store
informed_store = record { answers = true; lists = λ h. told ∷ [] }

redis_publish-IsMirror_example :
    (redis_get_events_after server true 10 5 informed_store ≡ done (get_events_after 10 5 informed))
    × ((s' : Store) × (redis_publish server true 10 news 6 informed_store
          ≡ some ((publish 10 news 6 informed).0, s'))
        × IsMirror server s' (publish 10 news 6 informed).1)
redis_publish-IsMirror_example =
    redis_publish-IsMirror server server-IsServer 10 5 6 news informed_store informed (λ h. refl)
      refl

abbrev connected : Lazy Store ℕ
connected = record {
  has_client = true;
  cached = unset_bus;
  server = record informed_store { answers = false };
}
