-- ===== src/Prelude/Sorting.antt =====
-- Sorting by a test.
use mathlib.Core.Path.{◌≡◌, refl}
use mathlib.Core.Bool.{Bool, true}
use mathlib.Core.List.{List, [], ◌∷◌}
use mathlib.Core.Logic.{◌⊎◌, inl, inr}
use native.Mathlib.Omega.{arith}
use Prim.{⊥}
use fridgefriend.Prelude.Tests.{if◌then◌else◌, Bool-cases}
use fridgefriend.Prelude.Lists.{All, count}

-- `sorted` by a test "not after": elements that are equal to it keep their order.
module _ {ℓ} {A : Type ℓ} (before : A → A → Bool) where
  unfoldable pub insert_by : A → List A → List A
  insert_by x [] = x ∷ []
  insert_by x (y ∷ ys) = let rest = insert_by x ys in if before x y then x ∷ y ∷ ys else y ∷ rest

  unfoldable pub sort_by : List A → List A
  sort_by [] = []
  sort_by (x ∷ xs) = insert_by x (sort_by xs)

  All-insert_by {κ} :
      (P : A → Type κ) (x : A) (xs : List A) → P x → All P xs → All P (insert_by x xs)
  unfolding insert_by
  All-insert_by P x [] p h = (p, tt)
  All-insert_by P x (y ∷ ys) p h = elim (Bool-cases (before x y)) [
    | inl e ↦ rw e (p, h)
    | inr e ↦ rw e (h.0, All-insert_by P x ys p h.1)
  ]

  pub All-sort_by {κ} : (P : A → Type κ) (xs : List A) → All P xs → All P (sort_by xs)
  unfolding sort_by
  All-sort_by P [] h = tt
  All-sort_by P (x ∷ xs) h = All-insert_by P x (sort_by xs) h.0 (All-sort_by P xs h.1)

  -- Each element comes before all that follow it.
  abbrev pub IsSorted : List A → Type 0
  IsSorted [] = Unit
  IsSorted (x ∷ xs) = All (λ z. before x z ≡ true) xs × IsSorted xs

  count-insert_by :
      (p : A → Bool) (x : A) (xs : List A) → count p (insert_by x xs) ≡ count p (x ∷ xs)
  unfolding insert_by count
  count-insert_by p x [] = refl
  count-insert_by p x (y ∷ ys) = ground (arith, count-insert_by p x ys)

  -- Sorting loses no element and adds none.
  pub count-sort_by : (p : A → Bool) (xs : List A) → count p (sort_by xs) ≡ count p xs
  unfolding sort_by count
  count-sort_by p [] = refl
  count-sort_by p (x ∷ xs) = ground (arith, count-insert_by p x (sort_by xs), count-sort_by p xs)

  -- The first of `ys` comes before all of `xs`.
  abbrev Leads : List A → List A → Type 0
  Leads [] xs = All (λ z. ⊥) xs
  Leads (y ∷ ys) xs = All (λ z. before y z ≡ true) xs

  module _ (total : (x y : A) → (before x y ≡ true) ⊎ (before y x ≡ true))
      (trans : (x y z : A) → before x y ≡ true → before y z ≡ true → before x z ≡ true) where
    earlier :
        (x y : A) (xs : List A)
        → before x y ≡ true
        → All (λ z. before y z ≡ true) xs
        → All (λ z. before x z ≡ true) xs
    earlier x y [] e h = tt
    earlier x y (z ∷ zs) e h = (trans x y z e h.0, earlier x y zs e h.1)

    nobody : (x : A) (xs : List A) → All (λ z. ⊥) xs → All (λ z. before x z ≡ true) xs
    nobody x [] h = tt
    nobody x (z ∷ zs) h = absurd h.0

    before_self : (x : A) → before x x ≡ true
    before_self x = elim (total x x) [ inl e ↦ e | inr e ↦ e ]

    insert_by-Leads : (x : A) (ys xs : List A) → Leads ys xs → Leads (insert_by x ys) (x ∷ xs)
    unfolding insert_by
    insert_by-Leads x [] xs h = (before_self x, nobody x xs h)
    insert_by-Leads x (y ∷ ys) xs h = elim (Bool-cases (before x y)) [
      | inl e ↦ rw e (before_self x, earlier x y xs e h)
      | inr e ↦ rw e (ground (arith, e, total x y), h)
    ]

    sort_by-Leads : (xs : List A) → Leads (sort_by xs) xs
    unfolding sort_by
    sort_by-Leads [] = tt
    sort_by-Leads (x ∷ xs) = insert_by-Leads x (sort_by xs) xs (sort_by-Leads xs)

    -- The first of a sorted list comes before all, if the test is total and transitive.
    pub sort_by-first :
        (xs : List A) (a : A) (as' : List A)
        → sort_by xs ≡ a ∷ as'
        → All (λ z. before a z ≡ true) xs
    sort_by-first xs a as' e = rw e at (sort_by-Leads xs)

    insert_by-IsSorted : (x : A) (ys : List A) → IsSorted ys → IsSorted (insert_by x ys)
    unfolding insert_by
    insert_by-IsSorted x [] h = (tt, tt)
    insert_by-IsSorted x (y ∷ ys) h = elim (Bool-cases (before x y)) [
      | inl e ↦ rw e ((e, earlier x y ys e h.0), h)
      | inr e ↦
          let later : before y x ≡ true = ground (arith, e, total x y) in
          rw e (All-insert_by (λ z. before y z ≡ true) x ys later h.0, insert_by-IsSorted x ys h.1)
    ]

    pub sort_by-IsSorted : (xs : List A) → IsSorted (sort_by xs)
    unfolding sort_by
    sort_by-IsSorted [] = tt
    sort_by-IsSorted (x ∷ xs) = insert_by-IsSorted x (sort_by xs) (sort_by-IsSorted xs)
