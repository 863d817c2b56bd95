-- ===== src/Prelude/Lists.antt =====
-- Lists with Boolean tests and native numbers: search, count, filter, update.
use Prim.Native.Nat.{ℕ, zero, suc, ◌+◌, ◌≤◌, ◌<◌}
use mathlib.Core.Path.{◌≡◌, refl, ap, subst}
use mathlib.Core.Bool.{Bool, true, false, not, ◌&&◌, ◌||◌}
use mathlib.Core.List.{List, [], ◌∷◌, ◌++◌, map}
use mathlib.Core.Option.{Option, none, some}
use mathlib.Core.Logic.{inl, inr, ◌⊎◌}
use native.Mathlib.Omega.{arith}
use fridgefriend.Prelude.Tests.{if◌then◌else◌, Bool-cases}

module _ {ℓ} {A : Type ℓ} where
  abbrev pub length : List A → ℕ
  length [] = 0
  length (x ∷ xs) = suc (length xs)

  abbrev pub drop : ℕ → List A → List A
  drop zero xs = xs
  drop (suc n) [] = []
  drop (suc n) (x ∷ xs) = drop n xs

  -- `[x for x in xs if p(x)]`
  abbrev pub take : ℕ → List A → List A
  take zero xs = []
  take (suc n) [] = []
  take (suc n) (x ∷ xs) = x ∷ take n xs

  unfoldable pub keep : (A → Bool) → List A → List A
  keep p [] = []
  keep p (x ∷ xs) = let rest = keep p xs in if p x then x ∷ rest else rest

  -- `next((x for x in xs if p(x)), None)`
  unfoldable pub find : (A → Bool) → List A → Option A
  find p [] = none
  find p (x ∷ xs) = if p x then some x else find p xs

  -- `any(p(x) for x in xs)`
  unfoldable pub exists : (A → Bool) → List A → Bool
  exists p [] = false
  exists p (x ∷ xs) = p x || exists p xs

  unfoldable pub count : (A → Bool) → List A → ℕ
  count p [] = 0
  count p (x ∷ xs) = (if p x then 1 else 0) + count p xs

  pub length-append : (xs ys : List A) → length (xs ++ ys) ≡ length xs + length ys
  length-append [] ys = omega arith
  length-append (x ∷ xs) ys = omega (arith, length-append xs ys)

  pub count-append : (p : A → Bool) (xs ys : List A) → count p (xs ++ ys) ≡ count p xs + count p ys
  unfolding count
  count-append p [] ys = omega arith
  count-append p (x ∷ xs) ys = omega (arith, count-append p xs ys)

  pub count-keep : (p q : A → Bool) (xs : List A) → count p (keep q xs) ≡ count (λ x. q x && p x) xs
  unfolding count keep
  count-keep p q [] = refl
  count-keep p q (x ∷ xs) = ground (arith, count-keep p q xs)

  pub count-ext : (p q : A → Bool) → ((x : A) → p x ≡ q x) → (xs : List A) → count p xs ≡ count q xs
  unfolding count
  count-ext p q h [] = refl
  count-ext p q h (x ∷ xs) = ground (arith, h x, count-ext p q h xs)

  pub count-le :
      (p q : A → Bool)
      → ((x : A) → p x ≡ true → q x ≡ true)
      → (xs : List A) → count p xs ≤ count q xs
  unfolding count
  count-le p q h [] = omega arith
  count-le p q h (x ∷ xs) = ground (arith, h x, count-le p q h xs)

  pub count-false : (xs : List A) → count (λ x. false) xs ≡ 0
  unfolding count
  count-false [] = refl
  count-false (x ∷ xs) = omega (arith, count-false xs)

  pub keep-keep : (p q : A → Bool) (xs : List A) → keep p (keep q xs) ≡ keep (λ x. q x && p x) xs
  unfolding keep
  keep-keep p q [] = refl
  keep-keep p q (x ∷ xs) = ground (arith, keep-keep p q xs)

  pub find-keep : (p q : A → Bool) (xs : List A) → find p (keep q xs) ≡ find (λ x. q x && p x) xs
  unfolding find keep
  find-keep p q [] = refl
  find-keep p q (x ∷ xs) = ground (arith, find-keep p q xs)

  pub keep_none : (p : A → Bool) (xs : List A) → count p xs ≡ 0 → keep p xs ≡ []
  unfolding keep count
  keep_none p [] h = refl
  keep_none p (x ∷ xs) h = ground (arith, keep_none p xs)

  -- What `p` counts splits by any other test.
  pub count_split :
      (p q : A → Bool) (xs : List A)
      → count p xs ≡ count (λ x. q x && p x) xs + count (λ x. not (q x) && p x) xs
  unfolding count
  count_split p q [] = omega arith
  count_split p q (x ∷ xs) = ground (arith, count_split p q xs)

  pub exists→count : (p : A → Bool) (xs : List A) → exists p xs ≡ true → 0 < count p xs
  unfolding exists count
  exists→count p [] h = cc
  exists→count p (x ∷ xs) h = ground (arith, exists→count p xs)

  pub count→exists : (p : A → Bool) (xs : List A) → 0 < count p xs → exists p xs ≡ true
  unfolding exists count
  count→exists p [] h = absurd (omega arith)
  count→exists p (x ∷ xs) h = ground (arith, count→exists p xs)

  pub count_not_exists : (p : A → Bool) (xs : List A) → exists p xs ≡ false → count p xs ≡ 0
  unfolding exists count
  count_not_exists p [] h = refl
  count_not_exists p (x ∷ xs) h = ground (arith, count_not_exists p xs)

  pub find-none : (p : A → Bool) (xs : List A) → find p xs ≡ none → count p xs ≡ 0
  unfolding find count
  find-none p [] h = refl
  find-none p (x ∷ xs) h = ground (arith, find-none p xs)

  -- What is found passes the test, and every test that it passes counts it.
  pub find-some :
      (p q : A → Bool) (xs : List A) (a : A)
      → find p xs ≡ some a
      → (p a ≡ true) × (q a ≡ true → 0 < count q xs)
  unfolding find count
  find-some p q [] a h = cc
  find-some p q (x ∷ xs) a h = ground (arith, find-some p q xs a)

  -- Where at most one element passes `p`, the one that is found decides what else is counted.
  pub count_of_find :
      (p q : A → Bool) (xs : List A) (a : A)
      → find p xs ≡ some a
      → count p xs ≤ 1
      → count (λ x. p x && q x) xs ≡ (if q a then 1 else 0)
  unfolding find count
  count_of_find p q [] a h k = cc
  count_of_find p q (x ∷ xs) a h k =
      ground (arith, count_of_find p q xs a, count-le (λ x. p x && q x) p (λ x e. ground arith) xs)

  -- The first element that is kept passes the test, and every test that it passes counts it.
  pub keep_head :
      (p q : A → Bool) (xs : List A) (a : A) (rest : List A)
      → keep p xs ≡ a ∷ rest
      → (p a ≡ true) × (q a ≡ true → 0 < count q xs)
  unfolding keep count
  keep_head p q [] a rest h = cc
  keep_head p q (x ∷ xs) a rest h = ground (arith, keep_head p q xs a rest)

  pub keep_nil : (p : A → Bool) (xs : List A) → keep p xs ≡ [] → count p xs ≡ 0
  unfolding keep count
  keep_nil p [] h = refl
  keep_nil p (x ∷ xs) h = ground (arith, keep_nil p xs)

module _ {ℓ κ} {A : Type ℓ} {B : Type κ} where
  pub count-map :
      (p : B → Bool) (g : A → B) (xs : List A) → count p (map g xs) ≡ count (λ x. p (g x)) xs
  unfolding count
  count-map p g [] = refl
  count-map p g (x ∷ xs) = ground (arith, count-map p g xs)

-- A predicate of every element, by recursion.
abbrev pub All {ℓ κ} : {A : Type ℓ} → (A → Type κ) → List A → Type κ
All P [] = Unit
All P (x ∷ xs) = P x × All P xs

module _ {ℓ κ} {A : Type ℓ} (P : A → Type κ) where
  pub All-keep : (p : A → Bool) (xs : List A) → All P xs → All P (keep p xs)
  unfolding keep
  All-keep p [] h = tt
  All-keep p (x ∷ xs) h = elim (Bool-cases (p x)) [
    | inl e ↦ rw e (h.0, All-keep p xs h.1)
    | inr e ↦ rw e (All-keep p xs h.1)
  ]

  pub All-append : (xs ys : List A) → All P xs → All P ys → All P (xs ++ ys)
  All-append [] ys h k = k
  All-append (x ∷ xs) ys h k = (h.0, All-append xs ys h.1 k)

  pub All-map :
      (g : A → A) → ((x : A) → P x → P (g x)) → (xs : List A) → All P xs → All P (map g xs)
  All-map g k [] h = tt
  All-map g k (x ∷ xs) h = (k x h.0, All-map g k xs h.1)

  pub All-find : (p : A → Bool) (xs : List A) (a : A) → All P xs → find p xs ≡ some a → P a
  unfolding find
  All-find p [] a h e = cc
  All-find p (x ∷ xs) a h e = elim (Bool-cases (p x)) [
    | inl hit ↦
        let same : some x ≡ some a = rw (hit, find) at e in
        subst P (ap (λ o. elim o [ none ↦ x | some y ↦ y ]) same) h.0
    | inr miss ↦ All-find p xs a h.1 (rw (miss, find) at e)
  ]

-- What follows from `P` holds of each element if `P` does.
pub All-each :
    {A : Type 0} {P Q : A → Type 0} (xs : List A) → ((a : A) → P a → Q a) → All P xs → All Q xs
All-each [] g h = tt
All-each (x ∷ xs) g h = (g x h.0, All-each xs g h.1)

pub List-cases :
    {A : Type 0} (xs : List A) → (xs ≡ []) ⊎ ((a : A) × (as' : List A) × (xs ≡ a ∷ as'))
List-cases [] = inl refl
List-cases (a ∷ as') = inr (a, as', refl)

pub keep-append :
    {A : Type 0} (p : A → Bool) (xs ys : List A) → keep p (xs ++ ys) ≡ keep p xs ++ keep p ys
unfolding keep
keep-append p [] ys = refl
keep-append p (x ∷ xs) ys = ground (arith, keep-append p xs ys)
