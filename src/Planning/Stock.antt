-- ===== src/Planning/Stock.antt =====
-- backend/app/modules/planning/planner.py: what a planned recipe takes out of the remaining stock.
use fridgefriend.Prelude.{
  All, String, ◌≡◌, refl, ◌∙◌, inl, inr, true, false, Option, none, some, List, [], ◌∷◌, arith,
  str_eq, eq_iff, Bool-cases, exists,
}
use fridgefriend.Units.{lookup}
use fridgefriend.Scalar.{Float, IsOrdered, nought, fmax_nonneg, ◌≼◌}
use fridgefriend.Planning.Model.{NormalizedIngredient, InventorySnapshot, put}
use fridgefriend.Planning.Scoring.{Remaining, required, usable}
use fridgefriend.Planning.Planner.{reserve_entry, reserve_ingredients, used_up}

pub lookup-put_other :
    {V : Type 0} (j k : String) (v : V) (m : List (String × V))
    → str_eq k j ≡ false
    → lookup j (put k v m) ≡ lookup j m
unfolding lookup put
lookup-put_other j k v [] h = ground (arith, h)
lookup-put_other j k v ((i, w) ∷ m) h =
    ground (arith, h, lookup-put_other j k v m h, eq_iff i k, eq_iff i j, eq_iff k j)

All-put :
    {V : Type 0} (P : V → Type 0) (k : String) (v : V) (m : List (String × V))
    → P v
    → All (λ e. P e.1) m
    → All (λ e. P e.1) (put k v m)
unfolding put
All-put P k v [] p h = (p, tt)
All-put P k v ((j, w) ∷ m) p h = elim (Bool-cases (str_eq j k)) [
  | inl e ↦ rw e (p, h.1)
  | inr e ↦ rw e (h.0, All-put P k v m p h.1)
]

module _ {W : Type 0} ⦃f : Float W⦄ where
  abbrev pub IsStocked : String × InventorySnapshot W → Type 0
  IsStocked e = (nought ≼ e.1.quantity) ≡ true

  entry-IsStocked :
      IsOrdered W
      → (name : String) (wanted : W × String) (entry : Option (InventorySnapshot W))
        (names : List String) (remaining : Remaining W)
      → All IsStocked remaining
      → All IsStocked (reserve_entry name wanted entry (names, remaining)).1
  unfolding reserve_entry
  entry-IsStocked o name wanted none names remaining h = h
  entry-IsStocked o name (q, u) (some entry) names remaining h =
      elim (Bool-cases (usable entry u)) [
        | inl e ↦
            rw e (All-put (λ s. (nought ≼ s.quantity) ≡ true) name _ remaining (fmax_nonneg o _) h)
        | inr e ↦ rw e h
      ]

  -- If the floats are ordered and no quantity of the remaining stock is below zero, none is taken below
  -- zero.
  pub reserve_ingredients-IsStocked :
      IsOrdered W
      → (ingredients : List (NormalizedIngredient W)) (factor : W) (names : List String)
        (remaining : Remaining W)
      → All IsStocked remaining
      → All IsStocked (reserve_ingredients ingredients factor (names, remaining)).1
  unfolding reserve_ingredients
  reserve_ingredients-IsStocked o [] factor names remaining h = h
  reserve_ingredients-IsStocked o (x ∷ xs) factor names remaining h =
      reserve_ingredients-IsStocked o xs factor _ _
        (entry-IsStocked o x.name (required factor x) (lookup x.name remaining) names remaining h)

  entry_other :
      (j name : String) (wanted : W × String) (entry : Option (InventorySnapshot W))
      (names : List String) (remaining : Remaining W)
      → str_eq name j ≡ false
      → lookup j (reserve_entry name wanted entry (names, remaining)).1 ≡ lookup j remaining
  unfolding reserve_entry
  entry_other j name wanted none names remaining h = refl
  entry_other j name (q, u) (some entry) names remaining h = elim (Bool-cases (usable entry u)) [
    | inl e ↦ rw e (lookup-put_other j name (used_up q entry) remaining h)
    | inr e ↦ rw e refl
  ]

  -- The stock of a name that is no ingredient of the recipe stays as it is.
  pub lookup-reserve_ingredients_other :
      (j : String) (ingredients : List (NormalizedIngredient W)) (factor : W) (names : List String)
      (remaining : Remaining W)
      → exists (λ x. str_eq x.name j) ingredients ≡ false
      → lookup j (reserve_ingredients ingredients factor (names, remaining)).1 ≡ lookup j remaining
  unfolding reserve_ingredients exists
  lookup-reserve_ingredients_other j [] factor names remaining h = refl
  lookup-reserve_ingredients_other j (x ∷ xs) factor names remaining h =
      lookup-reserve_ingredients_other j xs factor _ _ (ground (arith, h))
      ∙ entry_other j x.name (required factor x) (lookup x.name remaining) names remaining
          (ground (arith, h))
