-- ===== src/Text/Laws.antt =====
-- `normalize` is idempotent: its value has no space at an end and no letter in upper case.
use Prim.Native.Char.{Char, code}
use Prim.Native.String.{[], ◌∷◌}
use fridgefriend.Prelude.{
  String, ◌≡◌, refl, ap, ◌∙◌, Bool, true, false, not, ◌&&◌, ◌==◌, inl, inr, arith, if◌then◌else◌,
  Bool-cases,
}
use fridgefriend.Text.{
  is_space, lstrip, rstrip, strip, is_empty, replace_char, upper_letters, lower_letters, lower_char,
  lower, normalize,
}

no_space : String → Bool
no_space [] = true
no_space (c ∷ s) = not (is_space (code c)) && no_space s

mem : Char → String → Bool
mem c [] = false
mem c (a ∷ s) = if code c == code a then true else mem c s

disjoint : String → String → Bool
disjoint [] t = true
disjoint (c ∷ s) t = not (mem c t) && disjoint s t

space-replace_char :
    (from to : String) (c : Char)
    → no_space from ≡ true
    → no_space to ≡ true
    → is_space (code (replace_char from to c)) ≡ is_space (code c)
unfolding replace_char no_space
space-replace_char (a ∷ from) (b ∷ to) c p q = ground (arith, space-replace_char from to c)
space-replace_char [] to c p q = refl
space-replace_char (a ∷ from) [] c p q = refl

space-lower_char : (c : Char) → is_space (code (lower_char c)) ≡ is_space (code c)
unfolding lower_char
space-lower_char c =
    space-replace_char upper_letters lower_letters c (unfold no_space is_space in refl)
      (unfold no_space is_space in refl)

replace_char_other : (from to : String) (c : Char) → mem c from ≡ false → replace_char from to c ≡ c
unfolding replace_char mem
replace_char_other (a ∷ from) (b ∷ to) c h = ground (arith, replace_char_other from to c)
replace_char_other [] to c h = refl
replace_char_other (a ∷ from) [] c h = refl

-- `to` is at least as long as `from`.
covers : String → String → Bool
covers [] to = true
covers (a ∷ from) [] = false
covers (a ∷ from) (b ∷ to) = covers from to

replace_char_lands :
    (from to avoid : String) (c : Char)
    → covers from to ≡ true
    → disjoint to avoid ≡ true
    → mem c from ≡ true
    → mem (replace_char from to c) avoid ≡ false
unfolding replace_char mem disjoint covers
replace_char_lands [] to avoid c l d h = cc
replace_char_lands (a ∷ from) [] avoid c l d h = cc
replace_char_lands (a ∷ from) (b ∷ to) avoid c l d h =
    ground (arith, replace_char_lands from to avoid c)

lower_char_idem : (c : Char) → lower_char (lower_char c) ≡ lower_char c
unfolding lower_char
lower_char_idem c = elim (Bool-cases (mem c upper_letters)) [
  | inl up ↦ replace_char_other upper_letters lower_letters _ (
      replace_char_lands upper_letters lower_letters upper_letters c (unfold covers in refl)
        (unfold disjoint mem in refl) up)
  | inr other ↦ ap lower_char (replace_char_other upper_letters lower_letters c other)
]

lower_idem : (s : String) → lower (lower s) ≡ lower s
unfolding lower
lower_idem [] = refl
lower_idem (c ∷ s) = cc (lower_char_idem c, lower_idem s)

empty-lower : (s : String) → is_empty (lower s) ≡ is_empty s
unfolding lower
empty-lower [] = refl
empty-lower (c ∷ s) = refl

lstrip-lower : (s : String) → lstrip (lower s) ≡ lower (lstrip s)
unfolding lstrip lower
lstrip-lower [] = refl
lstrip-lower (c ∷ s) = ground (arith, space-lower_char c, lstrip-lower s)

rstrip-lower : (s : String) → rstrip (lower s) ≡ lower (rstrip s)
unfolding rstrip lower
rstrip-lower [] = refl
rstrip-lower (c ∷ s) = ground (arith, space-lower_char c, rstrip-lower s, empty-lower (rstrip s))

strip-lower : (s : String) → strip (lower s) ≡ lower (strip s)
unfolding strip
strip-lower s = ap rstrip (lstrip-lower s) ∙ rstrip-lower (lstrip s)

lstrip_idem : (s : String) → lstrip (lstrip s) ≡ lstrip s
unfolding lstrip
lstrip_idem [] = refl
lstrip_idem (c ∷ s) = ground (arith, lstrip_idem s)

rstrip_idem : (s : String) → rstrip (rstrip s) ≡ rstrip s
unfolding rstrip
rstrip_idem [] = refl
rstrip_idem (c ∷ s) = ground (arith, rstrip_idem s)

eq_nil_of_empty : (s : String) → is_empty s ≡ true → s ≡ []
eq_nil_of_empty [] h = refl
eq_nil_of_empty (c ∷ s) h = cc

lstrip-rstrip : (s : String) → lstrip (rstrip s) ≡ rstrip (lstrip s)
unfolding lstrip rstrip
lstrip-rstrip [] = refl
lstrip-rstrip (c ∷ s) = ground (arith, lstrip-rstrip s, eq_nil_of_empty (rstrip s))

pub strip_idem : (s : String) → strip (strip s) ≡ strip s
unfolding strip
strip_idem s =
    ap rstrip (lstrip-rstrip (lstrip s))
    ∙ rstrip_idem (lstrip (lstrip s))
    ∙ ap rstrip (lstrip_idem s)

-- Stripping and lowering a text that was stripped and lowered changes nothing.
pub normalize_idem : (s : String) → normalize (normalize s) ≡ normalize s
unfolding normalize
normalize_idem s =
    ap lower (strip-lower (strip s)) ∙ lower_idem (strip (strip s)) ∙ ap lower (strip_idem s)
