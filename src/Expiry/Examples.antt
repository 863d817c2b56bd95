-- ===== src/Expiry/Examples.antt =====
-- The theorems on urgency at concrete days.
use fridgefriend.Prelude.{◌+◌, ◌≤◌, ◌<◌, ◌≡◌, ◌↔◌, arith}
use fridgefriend.Expiry.Urgency.{
  rank, get_urgency_bucket, expired, today, this_week, safe_later, rank-get_urgency_bucket_mono,
  get_urgency_bucket_iff,
}

rank-get_urgency_bucket_mono_example :
    rank (get_urgency_bucket 103 100) ≤ rank (get_urgency_bucket 110 99)
rank-get_urgency_bucket_mono_example =
    rank-get_urgency_bucket_mono 103 110 100 99 (omega arith) (omega arith)

get_urgency_bucket_iff_example :
    ((get_urgency_bucket 103 100 ≡ expired) ↔ (103 < 100))
    × ((get_urgency_bucket 103 100 ≡ today) ↔ ((100 ≤ 103) × (103 ≤ 100 + 1)))
    × ((get_urgency_bucket 103 100 ≡ this_week) ↔ ((100 + 2 ≤ 103) × (103 ≤ 100 + 7)))
    × ((get_urgency_bucket 103 100 ≡ safe_later) ↔ (100 + 8 ≤ 103))
get_urgency_bucket_iff_example = get_urgency_bucket_iff 103 100
