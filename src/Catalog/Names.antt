-- ===== src/Catalog/Names.antt =====
-- backend/app/modules/catalog/normalizer.py. A `Patterns` has what `sub` of Python's `re` makes of a
-- text with each pattern; `lower` maps A to Z.
mod Literals
unfoldable pub use Literals.{brand_prefixes, exact_variants}
use Prim.Native.Char.{code}
use Prim.Native.String.{[], ◌∷◌, ◌++◌ as append}
use fridgefriend.Prelude.{
  String, Bool, true, false, ◌||◌, ◌==◌, if◌then◌else◌, Option, none, some, List, [], ◌∷◌,
}
use fridgefriend.Text.{strip, lower, is_empty, replace_char}
use fridgefriend.Units.{lookup}

pub record Patterns : Type 0 where
  pub without_parens : String → String
  pub without_quantity : String → String
  pub single_spaced : String → String

-- `normalized.replace("-", " ")`
unfoldable pub dash_to_space : String → String
dash_to_space [] = []
dash_to_space (c ∷ s) = replace_char "-" " " c ∷ dash_to_space s

-- The rest of a text that starts with `prefix`.
unfoldable pub after_prefix : String → String → Option String
after_prefix [] s = some s
after_prefix (c ∷ prefix) [] = none
after_prefix (c ∷ prefix) (d ∷ s) =
    let rest = after_prefix prefix s in if code c == code d then rest else none

abbrev pub is_some : Option String → Bool
is_some none = false
is_some (some s) = true

-- `part in s`
unfoldable pub has_part : String → String → Bool
has_part part [] = is_empty part
has_part part (c ∷ s) = is_some (after_prefix part (c ∷ s)) || has_part part s

-- The loop over `BRAND_PREFIXES`.
unfoldable pub without_brand : List String → String → String
without_brand [] s = s
without_brand (prefix ∷ prefixes) s = elim (after_prefix (append prefix " ") s) [
  | some rest ↦ strip rest
  | none ↦ without_brand prefixes s
]

-- The tests on the text after the last substitution.
unfoldable pub exact_or_generic : String → String
exact_or_generic normalized = elim (lookup normalized exact_variants) [
  | some variant ↦ variant
  | none ↦ if has_part "ketchup" normalized then "ketchup" else normalized
]

unfoldable pub normalize_ingredient_name : Patterns → String → String
normalize_ingredient_name patterns raw_name =
    let bare = dash_to_space (patterns.without_parens (strip (lower raw_name))) in
    let unbranded = without_brand brand_prefixes (strip (patterns.without_quantity bare)) in
    exact_or_generic (strip (patterns.single_spaced unbranded))
