-- ===== src/Planning/Recipes.antt =====
-- backend/app/modules/planning/planner.py, `_normalize_recipes`: recipes with untyped ingredients. A
-- field that a dict lacks is `none`, and no field is null; numbers and texts have their types.
use fridgefriend.Prelude.{
  ℕ, String, ◌≡◌, refl, Option, none, some, List, [], ◌∷◌, map, if◌then◌else◌,
}
use fridgefriend.Scalar.{Float, nought}
use fridgefriend.Text.{
  normalize, is_empty, lower, strip, lstrip, rstrip, is_space, lower_char, replace_char,
}
use fridgefriend.Planning.Model.{NormalizedIngredient, NormalizedRecipe}

-- A dict of the column `ingredients`.
pub record IngredientPayload (W : Type 0) : Type 0 where
  pub canonical_name : Option String
  pub name : Option String
  pub ingredient_name : Option String
  pub quantity : Option W
  pub unit : Option String

-- A dict of `recipes_db`.
pub record RecipePayload (W : Type 0) : Type 0 where
  pub id : ℕ
  pub title : String
  pub prep_minutes : ℕ
  pub dietary_tags : List String
  pub ingredients : List (IngredientPayload W)

-- `a or b`
abbrev pub first_text : Option String → Option String → Option String
first_text none b = b
first_text (some a) b = if is_empty a then b else some a

-- `str(value)`
abbrev pub text_of : Option String → String
text_of none = "None"
text_of (some a) = a

abbrev pub text_or : String → Option String → String
text_or d none = d
text_or d (some a) = a

module _ {W : Type 0} where
  unfoldable pub payload_name : IngredientPayload W → String
  payload_name payload = normalize (
      text_of (first_text payload.canonical_name (first_text payload.name payload.ingredient_name)))

module _ {W : Type 0} ⦃f : Float W⦄ where
  abbrev pub quantity_or_zero : Option W → W
  quantity_or_zero none = nought
  quantity_or_zero (some q) = q

  -- The loop over the ingredients of a recipe.
  unfoldable pub normalize_ingredients : List (IngredientPayload W) → List (NormalizedIngredient W)
  normalize_ingredients [] = []
  normalize_ingredients (payload ∷ payloads) =
      let rest = normalize_ingredients payloads in
      if is_empty (payload_name payload)
      then rest
      else record {
        name = payload_name payload;
        quantity = quantity_or_zero payload.quantity;
        unit = text_or "unit" payload.unit;
      }
        ∷ rest

  -- `_normalize_recipes`
  unfoldable pub normalize_recipes : List (RecipePayload W) → List (NormalizedRecipe W)
  normalize_recipes recipes_db =
      map
        (λ recipe. record {
          id = recipe.id;
          title = recipe.title;
          prep_minutes = recipe.prep_minutes;
          dietary_tags = map lower recipe.dietary_tags;
          ingredients = normalize_ingredients recipe.ingredients;
        })
        recipes_db

  -- An ingredient without any name is planned for under the name "none".
  pub normalize_ingredients_nameless :
      (payload : IngredientPayload W) (payloads : List (IngredientPayload W))
      → payload.canonical_name ≡ none
      → payload.name ≡ none
      → payload.ingredient_name ≡ none
      → map (λ i. i.name) (normalize_ingredients (payload ∷ payloads))
        ≡ "none" ∷ map (λ i. i.name) (normalize_ingredients payloads)
  unfolding normalize_ingredients payload_name normalize strip lstrip rstrip is_space lower
      lower_char replace_char
  normalize_ingredients_nameless payload payloads a b c = rw (a, b, c) refl
