-- ===== src/Expiry/Rules.antt =====
-- backend/app/modules/expiry/rules.py: shelf lives by ingredient and storage location. A rule
-- table is a dict in insertion order.
use fridgefriend.Prelude.{ℕ, String, ◌&&◌, List, [], ◌∷◌, Option, none, some, str_eq, if◌then◌else◌}
use fridgefriend.Scalar.{Float}
use fridgefriend.Text.{normalize}

abbrev pub Table : Type 0 → Type 0
Table W = List ((String × String) × (ℕ × W))

module _ {W : Type 0} where
  -- `d.get((name, location))`
  unfoldable pub find_exact : String → String → Table W → Option (ℕ × W)
  find_exact name location [] = none
  find_exact name location (((n, l), life) ∷ rules) =
      if str_eq n name && str_eq l location then some life else find_exact name location rules

  -- The loop over the rules for the first one of the same name.
  unfoldable pub find_name : String → Table W → Option (ℕ × W)
  find_name name [] = none
  find_name name (((n, _), life) ∷ rules) =
      if str_eq n name then some life else find_name name rules

  -- `d[key] = life`: an old key keeps its place, a new one goes to the end.
  unfoldable pub set_rule : String → String → ℕ × W → Table W → Table W
  set_rule name location life [] = ((name, location), life) ∷ []
  set_rule name location life (((n, l), old) ∷ rules) =
      if str_eq n name && str_eq l location
      then ((n, l), life) ∷ rules
      else ((n, l), old) ∷ set_rule name location life rules

  -- `merged.update(rules)`
  unfoldable pub update_rules : Table W → Table W → Table W
  update_rules merged [] = merged
  update_rules merged (((n, l), life) ∷ rules) = update_rules (set_rule n l life merged) rules

  unfoldable pub or_else : Option (ℕ × W) → Option (ℕ × W) → ℕ × W → ℕ × W
  or_else (some exact_match) _ default = exact_match
  or_else none (some shelf_life) default = shelf_life
  or_else none none default = default

  -- `ShelfLifeRules.get_shelf_life_days` of a table and a default.
  unfoldable pub get_shelf_life_days : Table W → ℕ × W → String → String → ℕ × W
  get_shelf_life_days rules default ingredient_name storage_location =
      or_else (find_exact (normalize ingredient_name) (normalize storage_location) rules)
        (find_name (normalize ingredient_name) rules) default

  -- The dict comprehension of `load_db_shelf_life_rules`: of two rows with one key the later wins.
  unfoldable pub load_rows : Table W → Table W → Table W
  load_rows loaded [] = loaded
  load_rows loaded (((name, storage_type), life) ∷ rows) =
      load_rows (set_rule (normalize name) (normalize storage_type) life loaded) rows

module _ {W : Type 0} ⦃f : Float W⦄ where
  unfoldable pub default_shelf_life : ℕ × W
  default_shelf_life = (7, f.lit 40 2)

  unfoldable pub shelf_life_days : Table W
  shelf_life_days =
      (("milk", "fridge"), (7, f.lit 95 2))
      ∷ (("milk", "freezer"), (90, f.lit 90 2))
      ∷ (("eggs", "fridge"), (21, f.lit 90 2))
      ∷ (("butter", "fridge"), (30, f.lit 85 2))
      ∷ (("cheese", "fridge"), (14, f.lit 80 2))
      ∷ (("chicken", "fridge"), (2, f.lit 95 2))
      ∷ (("chicken", "freezer"), (270, f.lit 90 2))
      ∷ (("beef", "fridge"), (3, f.lit 95 2))
      ∷ (("beef", "freezer"), (365, f.lit 90 2))
      ∷ (("bread", "pantry"), (5, f.lit 85 2))
      ∷ (("bread", "freezer"), (90, f.lit 85 2))
      ∷ (("apples", "fridge"), (21, f.lit 80 2))
      ∷ (("apples", "pantry"), (7, f.lit 75 2))
      ∷ (("bananas", "pantry"), (5, f.lit 80 2))
      ∷ (("spinach", "fridge"), (5, f.lit 85 2))
      ∷ (("carrots", "fridge"), (21, f.lit 85 2))
      ∷ (("tomatoes", "pantry"), (5, f.lit 80 2))
      ∷ (("tomatoes", "fridge"), (10, f.lit 80 2))
      ∷ (("pasta", "pantry"), (730, f.lit 95 2))
      ∷ (("rice", "pantry"), (730, f.lit 95 2))
      ∷ (("yogurt", "fridge"), (14, f.lit 90 2))
      ∷ (("lettuce", "fridge"), (7, f.lit 85 2))
      ∷ (("onions", "pantry"), (60, f.lit 85 2))
      ∷ (("potatoes", "pantry"), (30, f.lit 80 2))
      ∷ []

  -- `ShelfLifeRules(...)`: an absent or empty table stands for the built-in one.
  unfoldable pub rules_or_default : Option (Table W) → Table W
  rules_or_default none = shelf_life_days
  rules_or_default (some []) = shelf_life_days
  rules_or_default (some (rule ∷ rules)) = rule ∷ rules

  abbrev pub update_optional : Table W → Option (Table W) → Table W
  update_optional merged none = merged
  update_optional merged (some rules) = update_rules merged rules

  -- `DatabaseShelfLifeRules(db_rules, shelf_life_days=...)`: the database rules override.
  unfoldable pub database_rules : Option (Table W) → Option (Table W) → Table W
  database_rules db_rules overrides =
      update_optional (update_optional shelf_life_days overrides) db_rules
