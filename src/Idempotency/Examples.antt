-- ===== src/Idempotency/Examples.antt =====
-- The theorems on replayed responses at concrete keys.
use fridgefriend.Prelude.{ℕ, ◌+◌, ◌≡◌, refl, none, some, [], leb, if◌then◌else◌}
use fridgefriend.Idempotency.{MemoryCache, memory_get, memory_set}
use fridgefriend.Idempotency.Replay.{memory_get-memory_set}

abbrev no_responses : MemoryCache ℕ
no_responses = record { ttl_seconds = 60; cache = [] }

memory_get-memory_set_example :
    ((memory_get "a" 100 (memory_set "a" 7 50 no_responses)).0
      ≡ (if leb 100 (50 + 60) then some 7 else none))
    × ((memory_get "b" 100 (memory_set "a" 7 50 no_responses)).0
        ≡ (memory_get "b" 100 no_responses).0)
memory_get-memory_set_example = memory_get-memory_set "a" "b" 7 50 100 no_responses refl
