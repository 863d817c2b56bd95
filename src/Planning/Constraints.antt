-- ===== src/Planning/Constraints.antt =====
-- backend/app/modules/planning/planner.py: `_filter_recipes` against what a request asks for.
use fridgefriend.Prelude.{
  ℕ, &&-eq-true, All, ◌≤◌, ◌<◌, String, ◌≡◌, refl, ◌⊎◌, inl, inr, true, Option, none, some, List,
  [], ◌∷◌, map, arith, str_eq, leb, Bool-cases, keep, exists, count, exists→count,
}
use fridgefriend.Planning.Model.{NormalizedRecipe}
use fridgefriend.Planning.Scoring.{fits, all_in}
use fridgefriend.Text.{lower}

-- No longer than the longest time, if there is one.
abbrev pub Within : Option ℕ → ℕ → Type 0
Within none minutes = Unit
Within (some longest) minutes = minutes ≤ longest

has_tags :
    (tags have : List String)
    → all_in (map lower tags) have ≡ true
    → All (λ t. 0 < count (str_eq (lower t)) have) tags
unfolding all_in
has_tags [] have h = tt
has_tags (t ∷ ts) have h =
    let both = &&-eq-true (exists (str_eq (lower t)) have) (all_in (map lower ts) have) h in
    (exists→count (str_eq (lower t)) have both.0, has_tags ts have both.1)

module _ {W : Type 0} where
  -- The recipe has every tag, in lower case, and does not take too long.
  abbrev pub Meets : List String → Option ℕ → NormalizedRecipe W → Type 0
  Meets tags max_prep r =
      All (λ t. 0 < count (str_eq (lower t)) r.dietary_tags) tags × Within max_prep r.prep_minutes

  fits-Meets :
      (tags : List String) (max_prep : Option ℕ) (r : NormalizedRecipe W)
      → fits tags max_prep r ≡ true
      → Meets tags max_prep r
  unfolding fits
  fits-Meets tags none r h = (has_tags tags r.dietary_tags h, tt)
  fits-Meets tags (some m) r h =
      let both = &&-eq-true (all_in (map lower tags) r.dietary_tags) (leb r.prep_minutes m) h in
      (has_tags tags r.dietary_tags both.0, ground (arith, both.1))

  -- The recipe is in the list.
  abbrev pub IsOneOf : NormalizedRecipe W → List (NormalizedRecipe W) → Type 0
  IsOneOf r [] = ⊥
  IsOneOf r (x ∷ xs) = (r ≡ x) ⊎ IsOneOf r xs

  -- What is kept of `xs`, which has no others than `ys`.
  pub kept-Meets :
      (tags : List String) (max_prep : Option ℕ) (xs ys : List (NormalizedRecipe W))
      → ((r : NormalizedRecipe W) → IsOneOf r xs → IsOneOf r ys)
      → All (λ r. Meets tags max_prep r × IsOneOf r ys) (keep (fits tags max_prep) xs)
  unfolding keep
  kept-Meets tags max_prep [] ys within = tt
  kept-Meets tags max_prep (x ∷ xs) ys within =
      let rest = kept-Meets tags max_prep xs ys (λ r there. within r (inr there)) in
      elim (Bool-cases (fits tags max_prep x)) [
        | inl e ↦ rw e ((fits-Meets tags max_prep x e, within x (inl refl)), rest)
        | inr e ↦ rw e rest
      ]
