-- ===== src/Expiry/Urgency.antt =====
-- backend/app/modules/expiry/urgency.py. A date is its ordinal, so `days_left` is a difference.
use fridgefriend.Prelude.{ℕ, ◌+◌, ◌-◌, ◌≤◌, ◌<◌, ◌≡◌, ◌↔◌, arith, ltb, leb, if◌then◌else◌}

pub data UrgencyBucket : Type 0 where
  today this_week safe_later expired : UrgencyBucket

-- `days_left < 0` is `expiry_date < today`; past that test the difference is a number.
unfoldable pub get_urgency_bucket : ℕ → ℕ → UrgencyBucket
get_urgency_bucket expiry_date now =
    if ltb expiry_date now
    then expired
    else if leb (expiry_date - now) 1
    then today
    else if leb (expiry_date - now) 7
    then this_week
    else safe_later

-- How pressing a bucket is: a larger rank is less pressing.
abbrev pub rank : UrgencyBucket → ℕ
rank expired = 0
rank today = 1
rank this_week = 2
rank safe_later = 3

-- An item that expires later is never in a more pressing bucket, and as days go by an item never
-- moves to a less pressing one.
pub rank-get_urgency_bucket_mono :
    (expiry expiry' now now' : ℕ)
    → expiry ≤ expiry'
    → now' ≤ now
    → rank (get_urgency_bucket expiry now) ≤ rank (get_urgency_bucket expiry' now')
unfolding get_urgency_bucket
rank-get_urgency_bucket_mono expiry expiry' now now' h k = ground arith

-- The buckets are exactly: before today; today or tomorrow; two to seven days ahead; later.
pub get_urgency_bucket_iff :
    (expiry now : ℕ)
    → ((get_urgency_bucket expiry now ≡ expired) ↔ (expiry < now))
      × ((get_urgency_bucket expiry now ≡ today) ↔ ((now ≤ expiry) × (expiry ≤ now + 1)))
      × ((get_urgency_bucket expiry now ≡ this_week) ↔ ((now + 2 ≤ expiry) × (expiry ≤ now + 7)))
      × ((get_urgency_bucket expiry now ≡ safe_later) ↔ (now + 8 ≤ expiry))
unfolding get_urgency_bucket
get_urgency_bucket_iff expiry now = (ground arith, ground arith, ground arith, ground arith)
