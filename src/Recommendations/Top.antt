-- ===== src/Recommendations/Top.antt =====
-- backend/app/modules/recommendations/service.py: which recipes are shown.
use fridgefriend.Prelude.{
  ℕ, IsSorted, count-sort_by, sort_by-IsSorted, take, subst, sort_by, zero, suc, ◌<◌, ◌≡◌, refl,
  sym, ap, ◌∙◌, ◌⊎◌, inl, inr, Bool, Option, List, [], ◌∷◌, ◌++◌, map, arith, Bool-cases, length,
  drop, keep, count,
}
use fridgefriend.Scalar.{Float, IsOrdered}
use fridgefriend.Inventory.Model.{InventoryItem, Db}
use fridgefriend.Recommendations.Model.{
  FixtureRecipe, RecommendationRequest, RecipeRecommendation, RecommendationSession,
}
use fridgefriend.Recommendations.Service.{
  Sources, is_wanted, recommend, recommend_wanted, top_recommendations, scores_higher, load_recipes,
  list_inventory_items, get_recommendations_with_source,
}

-- `shown` are the best ten of `candidates`: with some `rest` they are the candidates, counted by any
-- test, in an order in which no score is lower than a later one, and there is a rest only if ten are
-- shown.
pub record IsTopTen {W J : Type 0} ⦃f : Float W⦄
    (candidates shown : List (RecipeRecommendation W J)) : Type 0 where
  pub rest : List (RecipeRecommendation W J)
  pub same : (p : RecipeRecommendation W J → Bool) → count p (shown ++ rest) ≡ count p candidates
  pub sorted : IsSorted scores_higher (shown ++ rest)
  pub full : (length shown ≡ 10) ⊎ ((length shown < 10) × (rest ≡ []))

take-drop_all : {A : Type 0} (n : ℕ) (xs : List A) → take n xs ++ drop n xs ≡ xs
take-drop_all zero xs = refl
take-drop_all (suc n) [] = refl
take-drop_all (suc n) (x ∷ xs) = ap (λ ys. x ∷ ys) (take-drop_all n xs)

length-take :
    {A : Type 0} (n : ℕ) (xs : List A)
    → (length (take n xs) ≡ n) ⊎ ((length (take n xs) < n) × (drop n xs ≡ []))
length-take zero xs = inl refl
length-take (suc n) [] = inr (omega arith, refl)
length-take (suc n) (x ∷ xs) = elim (length-take n xs) [
  | inl e ↦ inl (ap suc e)
  | inr (less, e) ↦ inr (omega arith, e)
]

module _ {W J : Type 0} ⦃f : Float W⦄ where
  recommend_wanted-eq :
      (now : ℕ) (request : RecommendationRequest) (items : List (InventoryItem W))
      (recipes : List (FixtureRecipe W J))
      → recommend_wanted now request items recipes
        ≡ map (recommend now request items) (keep (is_wanted request) recipes)
  unfolding recommend_wanted keep
  recommend_wanted-eq now request items [] = refl
  recommend_wanted-eq now request items (r ∷ rs) = elim (Bool-cases (is_wanted request r)) [
    | inl e ↦
        rw e
          (ap (λ xs. recommend now request items r ∷ xs) (recommend_wanted-eq now request items rs))
    | inr e ↦ rw e (recommend_wanted-eq now request items rs)
  ]

  module _ (o : IsOrdered W) where
    top-IsTopTen :
        (candidates : List (RecipeRecommendation W J))
        → IsTopTen candidates (take 10 (sort_by scores_higher candidates))
    top-IsTopTen candidates =
        let best = sort_by scores_higher candidates in
        let all = take-drop_all 10 best in
        record {
          rest = drop 10 best;
          same = λ p. ap (count p) all ∙ count-sort_by scores_higher p candidates;
          sorted = subst (IsSorted scores_higher) (sym all) (
              sort_by-IsSorted scores_higher (λ a b. o.le_total b.score a.score)
                (λ a b c p q. o.le_trans c.score b.score a.score q p) candidates);
          full = length-take 10 best;
        }

    -- If the floats are ordered, the recipes that are shown are the best ten, by score, of the loaded
    -- recipes that the request wants, each scored for the items of the household, or of the user.
    pub get_recommendations-IsTopTen :
        (sources : Sources W J) (now user_id : ℕ) (request : RecommendationRequest)
        (household_id : Option ℕ) (commits : Bool) (db : Db W)
        (sessions : List RecommendationSession)
        → let items = list_inventory_items user_id household_id db in
          IsTopTen
            (map
              (recommend now request items)
              (keep (is_wanted request) (load_recipes sources items).0))
            ((get_recommendations_with_source sources now user_id request household_id commits
                (db, sessions)).0
              ).0
    unfolding get_recommendations_with_source top_recommendations
    get_recommendations-IsTopTen sources now user_id request household_id commits db sessions =
        let items = list_inventory_items user_id household_id db in
        rw (recommend_wanted-eq now request items (load_recipes sources items).0) (top-IsTopTen _)
