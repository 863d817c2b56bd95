-- ===== src/Units/Laws.antt =====
-- backend/app/core/units.py: units are normalised once, and the tests on units agree.
use fridgefriend.Prelude.{
  String, ◌≡◌, ◌≢◌, ◌↔◌, refl, ◌∙◌, Bool, true, false, List, [], ◌∷◌, Option, none, some, inl, inr,
  arith, str_eq, eq_iff, if◌then◌else◌, Option-cases, ◌&&◌,
}
use fridgefriend.Scalar.{Float, nought}
use fridgefriend.Text.{normalize}
use fridgefriend.Text.Laws.{normalize_idem}
use fridgefriend.Units.{
  unit_aliases, conversion_to_base, lookup, normalize_unit, convert_to_base, convert_quantity,
  are_units_compatible, same_base,
}

pub str_eq_self : (s : String) → str_eq s s ≡ true
str_eq_self s = (eq_iff s s).1 refl

-- A test on every value of a table.
all_values {ℓ} : {V : Type ℓ} → (V → Bool) → List (String × V) → Bool
all_values p [] = true
all_values p ((k, v) ∷ m) = p v && all_values p m

all_values_sound {ℓ} :
    {V : Type ℓ} (p : V → Bool) (m : List (String × V)) (k : String) (v : V)
    → all_values p m ≡ true
    → lookup k m ≡ some v
    → p v ≡ true
unfolding all_values lookup
all_values_sound p [] k v a h = cc
all_values_sound p ((j, w) ∷ m) k v a h = ground (arith, all_values_sound p m k v)

module _ (u : String) where
  normalize_unit_missing : lookup (normalize u) unit_aliases ≡ none → normalize_unit u ≡ normalize u
  unfolding normalize_unit
  normalize_unit_missing e = rw e

  normalize_unit_found :
      {v : String} → lookup (normalize u) unit_aliases ≡ some v → normalize_unit u ≡ v
  unfolding normalize_unit
  normalize_unit_found e = rw e

-- Every unit that an alias stands for is its own normal form.
alias_table : all_values (λ v. str_eq (normalize_unit v) v) unit_aliases ≡ true
unfolding all_values normalize_unit unit_aliases lookup normalize
alias_table = refl

-- Normalising a unit twice gives what normalising it once gives.
pub normalize_unit_idem : (u : String) → normalize_unit (normalize_unit u) ≡ normalize_unit u
normalize_unit_idem u = elim (Option-cases (lookup (normalize u) unit_aliases)) [
  | inl e ↦
      rw (normalize_unit_missing u e)
        (normalize_unit_missing (normalize u) (rw (normalize_idem u) e) ∙ normalize_idem u)
  | inr (v, e) ↦
      rw (normalize_unit_found u e)
        ((eq_iff _ v).0 (all_values_sound _ unit_aliases (normalize u) v alias_table e))
]

module _ (W : Type 0) ⦃f : Float W⦄ where
  abbrev factors : List (String × (String × W))
  factors = conversion_to_base

  -- The unit that a conversion of `n`, a normalised unit, ends in.
  abbrev base_of : String → Option (String × W) → String
  base_of n none = n
  base_of n (some (b, _)) = b

  -- The entry converts to the base unit `b`, and has a factor that is not negative.
  abbrev leads_to : String → Option (String × W) → Bool
  leads_to b none = false
  leads_to b (some (b', _)) = str_eq b' b

  abbrev is_base : String × W → Bool
  is_base e = leads_to e.0 (lookup e.0 factors) && str_eq (normalize_unit e.0) e.0

  leads_to-eq : (b : String) (o : Option (String × W)) → leads_to b o ≡ true → base_of b o ≡ b
  leads_to-eq b none h = refl
  leads_to-eq b (some (x, _)) h = (eq_iff x b).0 h

  base_table : all_values is_base factors ≡ true
  unfolding all_values conversion_to_base lookup normalize_unit unit_aliases normalize
  base_table = refl

  unit-convert_to_base :
      (q : W) (u : String)
      → (convert_to_base q u).1 ≡ base_of (normalize_unit u) (lookup (normalize_unit u) factors)
  unfolding convert_to_base
  unit-convert_to_base q u = ground arith

  -- What is known of the base unit `b` of an entry.
  entry_base :
      (n b : String) (x : W)
      → lookup n factors ≡ some (b, x)
      → (leads_to b (lookup b factors) ≡ true) × (normalize_unit b ≡ b)
  entry_base n b x e =
      let h : is_base (b, x) ≡ true = all_values_sound is_base factors n (b, x) base_table e in
      ground (arith, h, eq_iff (normalize_unit b) b)

  -- On two units with their entries the code's two tests are one comparison of base units.
  same_base-cases :
      (a b : String) (o p : Option (String × W))
      → lookup a factors ≡ o
      → lookup b factors ≡ p
      → (if str_eq a b then true else same_base o p) ≡ str_eq (base_of a o) (base_of b p)
  same_base-cases a b (some (x, v)) (some (y, w)) e k = ground (arith, eq_iff a b, eq_iff x y, e, k)
  same_base-cases a b (some (x, v)) none e k =
      ground (arith, eq_iff a b, eq_iff x b, e, k, entry_base a x v e)
  same_base-cases a b none (some (y, w)) e k =
      ground (arith, eq_iff a b, eq_iff a y, e, k, entry_base b y w k)
  same_base-cases a b none none e k = ground (arith, eq_iff a b)

  -- Two units are compatible exactly when conversion to base units takes them to the same unit,
  -- whatever the quantities are.
  pub compatible-eq-same_base :
      (q r : W) (a b : String)
      → are_units_compatible W a b ≡ str_eq (convert_to_base q a).1 (convert_to_base r b).1
  unfolding are_units_compatible
  compatible-eq-same_base q r a b =
      rw (unit-convert_to_base q a, unit-convert_to_base r b)
        (same_base-cases (normalize_unit a) (normalize_unit b) _ _ refl refl)

  -- If two units are both compatible with a third, they are compatible with one another.
  pub compatible_trans :
      (a b c : String)
      → are_units_compatible W a b ≡ true
      → are_units_compatible W b c ≡ true
      → are_units_compatible W a c ≡ true
  compatible_trans a b c h k =
      let q = nought {W = W} in
      ground (
        arith,
        compatible-eq-same_base q q a b,
        compatible-eq-same_base q q b c,
        compatible-eq-same_base q q a c,
        eq_iff (convert_to_base q a).1 (convert_to_base q b).1,
        eq_iff (convert_to_base q b).1 (convert_to_base q c).1,
        eq_iff (convert_to_base q a).1 (convert_to_base q c).1,
      )

  -- `convert_quantity` returns a quantity exactly when the units are compatible.
  pub convert_quantity-ne-none_iff :
      (q : W) (a b : String) → (convert_quantity q a b ≢ none) ↔ (are_units_compatible W a b ≡ true)
  unfolding convert_quantity are_units_compatible
  convert_quantity-ne-none_iff q a b = ground arith

  module _ (q r : W) (u : String) where
    abbrev unit_of : String
    unit_of = (convert_to_base q u).1

    -- Whatever the entry of the unit, its base unit is normalised and is its own base unit.
    base_of-cases :
        (o : Option (String × W))
        → lookup (normalize_unit u) factors ≡ o
        → let b = base_of (normalize_unit u) o in
          (normalize_unit b ≡ b) × (base_of b (lookup b factors) ≡ b)
    base_of-cases none e = (normalize_unit_idem u, rw e)
    base_of-cases (some (b, x)) e = ground (
      arith,
      entry_base (normalize_unit u) b x e,
      eq_iff (base_of b (lookup b factors)) b,
      leads_to-eq b (lookup b factors),
    )

    -- The unit that a conversion ends in is normalised, and a second conversion keeps it.
    pub convert_to_base_idem :
        (normalize_unit unit_of ≡ unit_of) × ((convert_to_base r unit_of).1 ≡ unit_of)
    convert_to_base_idem =
        let h = base_of-cases (lookup (normalize_unit u) factors) refl in
        ground (arith, h, unit-convert_to_base q u, unit-convert_to_base r (convert_to_base q u).1)
