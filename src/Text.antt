-- ===== src/Text.antt =====
-- Python's `str.strip()` and `str.lower()` on native texts. `lower` maps the letters A to Z and
-- leaves every other character as it is; `strip` drops the characters that `str.isspace()` accepts.
pub mod Laws
use Prim.Native.Char.{Char, code}
use Prim.Native.String.{[], ◌∷◌}
use fridgefriend.Prelude.{
  ℕ, String, Bool, true, false, ◌&&◌, ◌||◌, ◌==◌, leb, ltb, if◌then◌else◌, suc, ◌-◌, ◌<◌, str_eq,
}

unfoldable pub is_space : ℕ → Bool
is_space n =
    (leb 9 n && leb n 13)
    || (leb 28 n && leb n 32)
    || n == 133
    || n == 160
    || n == 5760
    || (leb 8192 n && leb n 8202)
    || n == 8232
    || n == 8233
    || n == 8239
    || n == 8287
    || n == 12288

unfoldable pub lstrip : String → String
lstrip [] = []
lstrip (c ∷ s) = let rest = lstrip s in if is_space (code c) then rest else c ∷ s

abbrev pub is_empty : String → Bool
is_empty [] = true
is_empty (c ∷ s) = false

unfoldable pub rstrip : String → String
rstrip [] = []
rstrip (c ∷ s) = let rest = rstrip s in if is_space (code c) && is_empty rest then [] else c ∷ rest

unfoldable pub strip : String → String
unfolding lstrip rstrip is_space
strip s = rstrip (lstrip s)

-- The character of `to` at the place where `c` stands in `from`, and `c` if it stands nowhere.
unfoldable pub replace_char : String → String → Char → Char
replace_char (a ∷ from) (b ∷ to) c = if code c == code a then b else replace_char from to c
replace_char _ _ c = c

abbrev pub upper_letters : String
upper_letters = "ABCDEFGHIJKLMNOPQRSTUVWXYZ"

abbrev pub lower_letters : String
lower_letters = "abcdefghijklmnopqrstuvwxyz"

unfoldable pub lower_char : Char → Char
unfolding replace_char
lower_char = replace_char upper_letters lower_letters

unfoldable pub lower : String → String
unfolding lower_char
lower [] = []
lower (c ∷ s) = lower_char c ∷ lower s

-- `s.strip().lower()`
unfoldable pub normalize : String → String
unfolding strip lower
normalize s = lower (strip s)

-- `a <= b` on texts: by code points.
unfoldable pub str_le : String → String → Bool
str_le [] t = true
str_le (c ∷ s) [] = false
str_le (c ∷ s) (d ∷ t) =
    let rest = str_le s t in
    if ltb (code c) (code d) then true else if ltb (code d) (code c) then false else rest

-- `s.endswith(suffix)`
unfoldable pub ends_with : String → String → Bool
ends_with [] suffix = is_empty suffix
ends_with (c ∷ s) suffix = str_eq (c ∷ s) suffix || ends_with s suffix

-- `len(s)`
unfoldable pub text_length : String → ℕ
text_length [] = 0
text_length (c ∷ s) = suc (text_length s)

-- `s[:-n]` for a positive `n`
unfoldable pub drop_end : ℕ → String → String
drop_end n [] = []
drop_end n (c ∷ s) = let rest = drop_end n s in if leb n (text_length s) then c ∷ rest else []
