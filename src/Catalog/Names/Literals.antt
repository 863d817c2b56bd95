-- ===== src/Catalog/Names/Literals.antt =====
-- The literals of backend/app/modules/catalog/normalizer.py.
use fridgefriend.Prelude.{String, List, [], ◌∷◌}

abbrev pub brand_prefixes : List String
brand_prefixes =
    "heinz" ∷ "tesco" ∷ "general mills" ∷ "coca-cola" ∷ "coca cola" ∷ "milka" ∷ "warburtons"
    ∷ "cheerios" ∷ []

abbrev pub exact_variants : List (String × String)
exact_variants =
    ("tomato", "tomatoes")
    ∷ ("tomatoes", "tomatoes")
    ∷ ("tomato ketchup", "ketchup")
    ∷ ("whole milk", "whole milk")
    ∷ []
