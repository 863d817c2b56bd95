-- ===== src/Recommendations/Model.antt =====
-- backend/app/modules/recommendations/schemas.py and substitutions.py, backend/app/models/recipe.py,
-- and the operations on texts and sets that the scorer uses. `J` is the type of JSON objects.
use fridgefriend.Prelude.{
  ℕ, String, Bool, not, Option, none, some, List, [], ◌∷◌, str_eq, keep, exists,
}
use fridgefriend.Units.{lookup}

pub record FixtureIngredient (W : Type 0) : Type 0 where
  pub canonical_name : String
  pub quantity : W
  pub unit : String

pub record FixtureRecipe (W J : Type 0) : Type 0 where
  pub id : String
  pub title : String
  pub prep_minutes : ℕ
  pub image_url : Option String
  pub source_url : Option String
  pub summary : Option String
  pub instructions : List J
  pub cuisines : List String
  pub servings : Option ℕ
  pub nutrition : Option J
  pub dietary_tags : List String
  pub ingredients : List (FixtureIngredient W)

-- A row of the table of recipes; two of its lists may be null.
pub record Recipe (W J : Type 0) : Type 0 where
  pub id : String
  pub title : String
  pub prep_minutes : ℕ
  pub image_url : Option String
  pub source_url : Option String
  pub summary : Option String
  pub instructions : Option (List J)
  pub cuisines : Option (List String)
  pub servings : Option ℕ
  pub nutrition : Option J
  pub dietary_tags : List String
  pub ingredients : List (FixtureIngredient W)

pub record RecommendationRequest : Type 0 where
  pub servings : ℕ
  pub dietary_tags : List String
  pub max_prep_minutes : Option ℕ
  pub excluded_ingredients : List String

pub record RecipeRecommendation (W J : Type 0) : Type 0 where
  pub id : String
  pub title : String
  pub use_soon_score : W
  pub coverage_pct : W
  pub missing_items : List String
  pub substitutions : List String
  pub prep_minutes : ℕ
  pub image_url : Option String
  pub source_url : Option String
  pub summary : Option String
  pub instructions : List J
  pub cuisines : List String
  pub servings : Option ℕ
  pub nutrition : Option J
  pub dietary_tags : List String
  pub ingredients : List (FixtureIngredient W)
  pub score : W

pub record RecommendationSession : Type 0 where
  pub household_id : ℕ
  pub request_params : RecommendationRequest
  pub recipes_shown : List String

-- `SUBSTITUTIONS`
unfoldable pub substitutes : List (String × List String)
substitutes =
    ("butter", "margarine" ∷ "coconut oil" ∷ [])
    ∷ ("milk", "oat milk" ∷ "almond milk" ∷ [])
    ∷ ("eggs", "flax eggs" ∷ "applesauce" ∷ [])
    ∷ ("cream", "coconut cream" ∷ [])
    ∷ ("flour", "almond flour" ∷ "oat flour" ∷ [])
    ∷ ("yogurt", "coconut yogurt" ∷ [])
    ∷ ("cheese", "nutritional yeast" ∷ [])
    ∷ []

abbrev or_nothing : Option (List String) → List String
or_nothing none = []
or_nothing (some xs) = xs

-- `SUBSTITUTIONS.get(name, [])`
unfoldable pub substitutes_of : String → List String
substitutes_of name = or_nothing (lookup name substitutes)

-- `x in xs`
unfoldable pub contains : String → List String → Bool
contains x xs = exists (λ y. str_eq x y) xs

-- The elements of a set made of `xs`, in the order in which they come first.
unfoldable pub distinct : List String → List String
distinct [] = []
distinct (x ∷ xs) = x ∷ keep (λ y. not (str_eq x y)) (distinct xs)
