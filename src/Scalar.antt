-- ===== src/Scalar.antt =====
-- The floating-point numbers of quantities, confidences and scores, as an interface: Python's
-- `float` is not a type of the logic. `W` stands for the finite values.
use fridgefriend.Prelude.{
  ℕ, ◌+◌, ◌-◌, ◌*◌, ◌/◌, ◌^◌, ◌≡◌, ◌⊎◌, Bool, true, not, List, [], ◌∷◌, arith, leb, if◌then◌else◌,
}

-- What the program does with a float. `lit n k` is the literal n / 10 ** k, `round3 x` is `round(x, 3)`,
-- `total` is `sum`.
pub record Float (W : Type 0) : Type 0 where
  pub lit : ℕ → ℕ → W
  pub add : W → W → W
  pub sub : W → W → W
  pub mul : W → W → W
  pub div : W → W → W
  pub le : W → W → Bool
  pub round3 : W → W
  pub total : List W → W

module _ {W : Type 0} ⦃f : Float W⦄ where
  infixl 65 ◌⊕◌ ◌⊖◌
  infixl 70 ◌⊗◌ ◌⊘◌
  abbrev pub ◌⊕◌ : W → W → W
  a ⊕ b = f.add a b

  abbrev pub ◌⊖◌ : W → W → W
  a ⊖ b = f.sub a b

  abbrev pub ◌⊗◌ : W → W → W
  a ⊗ b = f.mul a b

  abbrev pub ◌⊘◌ : W → W → W
  a ⊘ b = f.div a b

  -- `a <= b` and `a < b`; no value is NaN.
  infix 50 ◌≼◌ ◌≺◌
  abbrev pub ◌≼◌ : W → W → Bool
  a ≼ b = f.le a b

  abbrev pub ◌≺◌ : W → W → Bool
  a ≺ b = not (f.le b a)

  -- `0.0`
  abbrev pub nought : W
  nought = f.lit 0 0

  -- Python's `max(a, b)` and `min(a, b)` return the first argument on a tie.
  unfoldable pub fmax : W → W → W
  fmax a b = if a ≺ b then b else a

  unfoldable pub fmin : W → W → W
  fmin a b = if b ≺ a then b else a

-- What IEEE 754 promises of finite values: a total order, and operations that round monotonically.
pub record IsOrdered (W : Type 0) ⦃f : Float W⦄ : Type 0 where
  pub le_refl : (a : W) → (a ≼ a) ≡ true
  pub le_trans : (a b c : W) → (a ≼ b) ≡ true → (b ≼ c) ≡ true → (a ≼ c) ≡ true
  pub le_total : (a b : W) → ((a ≼ b) ≡ true) ⊎ ((b ≼ a) ≡ true)
  pub sub_nonneg : (a b : W) → (a ≼ b) ≡ true → (nought ≼ b ⊖ a) ≡ true
  pub sub_le : (a b : W) → (nought ≼ a) ≡ true → (b ⊖ a ≼ b) ≡ true
  pub le_add : (a b : W) → (nought ≼ b) ≡ true → (a ≼ a ⊕ b) ≡ true
  pub add_mono : (a b c : W) → (a ≼ b) ≡ true → (a ⊕ c ≼ b ⊕ c) ≡ true
  pub mul_nonneg : (a b : W) → (nought ≼ a) ≡ true → (nought ≼ b) ≡ true → (nought ≼ a ⊗ b) ≡ true

module _ {W : Type 0} ⦃f : Float W⦄ (o : IsOrdered W) where
  pub fmax_nonneg : (a : W) → (nought ≼ fmax nought a) ≡ true
  unfolding fmax
  fmax_nonneg a = ground (arith, o.le_refl nought, o.le_total nought a)

  pub fmin-le_left : (a b : W) → (fmin a b ≼ a) ≡ true
  unfolding fmin
  fmin-le_left a b = ground (arith, o.le_refl a, o.le_total a b)

  pub fmin-le_right : (a b : W) → (fmin a b ≼ b) ≡ true
  unfolding fmin
  fmin-le_right a b = ground (arith, o.le_refl b, o.le_total a b)

abbrev sum_of : List ℕ → ℕ
sum_of [] = 0
sum_of (a ∷ as') = a + sum_of as'

-- The laws can be met: fixed-point numbers in units of 10 ** -9, with subtraction cut off at 0.
instance abbrev pub nano : Float ℕ
nano = record {
  lit = λ n k. n * 10 ^ 9 / 10 ^ k;
  add = λ a b. a + b;
  sub = λ a b. a - b;
  mul = λ a b. a * b / 10 ^ 9;
  div = λ a b. a * 10 ^ 9 / b;
  le = leb;
  round3 = λ a. (a + 500000) / 1000000 * 1000000;
  total = sum_of;
}

pub nano-IsOrdered : IsOrdered ℕ
nano-IsOrdered = ground arith
