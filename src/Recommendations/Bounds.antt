-- ===== src/Recommendations/Bounds.antt =====
-- backend/app/modules/recommendations/scorer.py: the bounds of the parts of a score, and what is
-- missing.
use fridgefriend.Prelude.{ℕ, String, ◌≡◌, inl, inr, true, List, [], ◌∷◌, map, arith, Bool-cases}
use fridgefriend.Scalar.{Float, IsOrdered, nought, fmax, fmin, ◌⊕◌, ◌⊖◌, ◌⊘◌, ◌≼◌, fmin-le_right}
use fridgefriend.Text.{lower}
use fridgefriend.Expiry.Urgency.{
  UrgencyBucket, expired, today, this_week, safe_later, get_urgency_bucket,
}
use fridgefriend.Inventory.Model.{InventoryItem}
use fridgefriend.Recommendations.Model.{FixtureRecipe, FixtureIngredient, contains, distinct}
use fridgefriend.Recommendations.Scorer.{
  Tally, score_breakdown, urgency_bonus, sum_bonus, add_bonus, dietary_fit_bonus, prep_bonus,
  tally_ingredients, tally_ingredient, tally_available, active_of, coverage, covered_by,
  ingredient_names, is_used_by, preference_bonus,
}

-- The literals that the scorer uses are not negative.
pub record HasLiterals (W : Type 0) ⦃f : Float W⦄ : Type 0 where
  pub lit_nonneg : (n k : ℕ) → (nought ≼ f.lit n k) ≡ true
  pub div_nonneg : (a b : W) → (nought ≼ a) ≡ true → (nought ≼ b) ≡ true → (nought ≼ a ⊘ b) ≡ true

-- `a` is between zero and `b`.
abbrev pub Within : {W : Type 0} ⦃f : Float W⦄ → W → W → Type 0
Within a b = ((nought ≼ a) ≡ true) × ((a ≼ b) ≡ true)

module _ {W : Type 0} ⦃f : Float W⦄ (o : IsOrdered W) (l : HasLiterals W) where
  fmin_nonneg : (a b : W) → (nought ≼ a) ≡ true → (nought ≼ b) ≡ true → (nought ≼ fmin a b) ≡ true
  unfolding fmin
  fmin_nonneg a b p q = ground arith

  fmin-Within : (a b : W) → (nought ≼ a) ≡ true → (nought ≼ b) ≡ true → Within (fmin a b) b
  fmin-Within a b p q = (fmin_nonneg a b p q, fmin-le_right o a b)

  add_nonneg : (a b : W) → (nought ≼ a) ≡ true → (nought ≼ b) ≡ true → (nought ≼ a ⊕ b) ≡ true
  add_nonneg a b p q = o.le_trans nought a (a ⊕ b) p (o.le_add a b q)

  add_bonus_nonneg :
      (u : UrgencyBucket) (bonus : W)
      → (nought ≼ bonus) ≡ true
      → (nought ≼ add_bonus u bonus) ≡ true
  unfolding add_bonus
  add_bonus_nonneg expired bonus p = add_nonneg bonus (f.lit 3 1) p (l.lit_nonneg 3 1)
  add_bonus_nonneg today bonus p = add_nonneg bonus (f.lit 3 1) p (l.lit_nonneg 3 1)
  add_bonus_nonneg this_week bonus p = add_nonneg bonus (f.lit 15 2) p (l.lit_nonneg 15 2)
  add_bonus_nonneg safe_later bonus p = p

  sum_bonus_nonneg :
      (now : ℕ) (covered : List String) (items : List (InventoryItem W)) (bonus : W)
      → (nought ≼ bonus) ≡ true
      → (nought ≼ sum_bonus now covered bonus items) ≡ true
  unfolding sum_bonus
  sum_bonus_nonneg now covered [] bonus p = p
  sum_bonus_nonneg now covered (x ∷ xs) bonus p = elim (Bool-cases (is_used_by covered x)) [
    | inl e ↦ rw e (
        sum_bonus_nonneg now covered xs _
          (add_bonus_nonneg (get_urgency_bucket x.estimated_expiry_date now) bonus p))
    | inr e ↦ rw e (sum_bonus_nonneg now covered xs bonus p)
  ]

  tally_available_nonneg :
      (available : List String) (i : FixtureIngredient W) (t : Tally W)
      → (nought ≼ t.substitution_score) ≡ true
      → (nought ≼ (tally_available available i t).substitution_score) ≡ true
  unfolding tally_available
  tally_available_nonneg [] i t p = p
  tally_available_nonneg (s ∷ ss) i t p =
      add_nonneg _ _ p (o.mul_nonneg _ _ (l.lit_nonneg 5 2) (l.lit_nonneg _ 0))

  tally_one_nonneg :
      (covered names : List String) (i : FixtureIngredient W) (t : Tally W)
      → (nought ≼ t.substitution_score) ≡ true
      → (nought ≼ (tally_ingredient covered names i t).substitution_score) ≡ true
  unfolding tally_ingredient
  tally_one_nonneg covered names i t p =
      elim (Bool-cases (contains (lower i.canonical_name) covered)) [
        | inl e ↦ rw e p
        | inr e ↦ rw e (tally_available_nonneg _ i t p)
      ]

  tally_score_nonneg :
      (covered names : List String) (is : List (FixtureIngredient W)) (t : Tally W)
      → (nought ≼ t.substitution_score) ≡ true
      → (nought ≼ (tally_ingredients covered names is t).substitution_score) ≡ true
  unfolding tally_ingredients
  tally_score_nonneg covered names [] t p = p
  tally_score_nonneg covered names (i ∷ is) t p =
      tally_score_nonneg covered names is (tally_ingredient covered names i t)
        (tally_one_nonneg covered names i t p)

  preference_bonus-Within :
      (preferences tags : List String) → Within (preference_bonus preferences tags) (f.lit 2 1)
  unfolding preference_bonus
  preference_bonus-Within [] tags = (o.le_refl nought, l.lit_nonneg 2 1)
  preference_bonus-Within (x ∷ xs) tags =
      fmin-Within _ _ (o.mul_nonneg _ _ (l.lit_nonneg 5 2) (l.lit_nonneg _ 0)) (l.lit_nonneg 2 1)

  dietary_fit_bonus-Within :
      {J : Type 0} (recipe : FixtureRecipe W J) (preferences : List String)
      → Within (dietary_fit_bonus recipe preferences) (f.lit 2 1)
  unfolding dietary_fit_bonus
  dietary_fit_bonus-Within recipe preferences =
      preference_bonus-Within (distinct (map lower preferences)) _

  prep_bonus-Within : (n : ℕ) → Within (prep_bonus n) (f.lit 1 1)
  unfolding prep_bonus fmax
  prep_bonus-Within n =
      let minutes = f.lit n 0 ⊘ f.lit 1000 0 in
      let minutes_nonneg =
        l.div_nonneg (f.lit n 0) (f.lit 1000 0) (l.lit_nonneg n 0) (l.lit_nonneg 1000 0) in
      ground (
        arith,
        o.le_refl nought,
        o.le_total nought (f.lit 1 1 ⊖ minutes),
        o.sub_le minutes (f.lit 1 1) minutes_nonneg,
        l.lit_nonneg 1 1,
      )

  coverage_nonneg : (covered names : List String) → (nought ≼ coverage {W = W} covered names) ≡ true
  unfolding coverage
  coverage_nonneg covered [] = o.le_refl nought
  coverage_nonneg covered (x ∷ xs) = l.div_nonneg _ _ (l.lit_nonneg _ 0) (l.lit_nonneg _ 0)

  -- If the floats are ordered and literals and quotients of values that are not negative are not
  -- negative, then neither a score nor any part of it is negative, the use of items that expire soon
  -- gives at most 0.4, the preparation time 0.1, the dietary fit 0.2 and the substitutes 0.15.
  pub score_breakdown-Within :
      {J : Type 0} (now : ℕ) (recipe : FixtureRecipe W J) (items : List (InventoryItem W))
      (preferences : List String)
      → let b = score_breakdown now recipe items preferences in
        ((nought ≼ b.score) ≡ true)
        × ((nought ≼ b.coverage_pct) ≡ true)
        × Within b.use_soon_score (f.lit 4 1)
        × Within b.prep_score (f.lit 1 1)
        × Within b.dietary_fit_score (f.lit 2 1)
        × Within b.substitution_score (f.lit 15 2)
  unfolding score_breakdown urgency_bonus
  score_breakdown-Within now recipe items preferences =
      let covers = coverage_nonneg (covered_by items recipe) (distinct (ingredient_names recipe)) in
      let soon =
        fmin-Within _ _ (sum_bonus_nonneg now _ (active_of items) nought (o.le_refl nought))
          (l.lit_nonneg 4 1) in
      let prep = prep_bonus-Within recipe.prep_minutes in
      let fit = dietary_fit_bonus-Within recipe preferences in
      let substitutes =
        fmin-Within _ _ (tally_score_nonneg _ _ recipe.ingredients _ (o.le_refl nought))
          (l.lit_nonneg 15 2) in
      (
        add_nonneg _ _
            (add_nonneg _ _
              (add_nonneg _ _ (add_nonneg _ _ (o.mul_nonneg _ _ covers (l.lit_nonneg 5 1)) soon.0)
                prep.0)
              fit.0)
            substitutes.0,
        covers,
        soon,
        prep,
        fit,
        substitutes,
      )
