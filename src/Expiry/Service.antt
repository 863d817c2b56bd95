-- ===== src/Expiry/Service.antt =====
-- backend/app/modules/expiry/service.py
use fridgefriend.Prelude.{ℕ, ◌+◌, String}
use fridgefriend.Expiry.Rules.{Table, get_shelf_life_days}

-- The expiry date is the day of adding plus the shelf life.
unfoldable pub calculate_expiry : {W : Type 0} → Table W → ℕ × W → String → String → ℕ → ℕ × W
calculate_expiry rules default name storage date_added =
    let (days, confidence) = get_shelf_life_days rules default name storage in
    (date_added + days, confidence)
