-- ===== src/Planning/Keys.antt =====
-- backend/app/modules/planning/service.py: the texts of idempotency keys, and how the query of
-- `_list_manual_items_by_idempotency` compares them.
use fridgefriend.Units.Laws.{str_eq_self}
use Prim.Native.Char.{Char, code}
use Prim.Native.String.{[], ◌∷◌}
use fridgefriend.Prelude.{
  ℕ, String, Bool, true, false, ◌&&◌, ◌||◌, ◌==◌, if◌then◌else◌, Option, none, some, str_eq, ltb,
  zero, suc, ◌-◌, ◌*◌, ◌/◌, ◌≡◌, refl, arith, inl, inr, Bool-cases, ==_self, ◌+◌,
}
use fridgefriend.Text.{is_empty}
use fridgefriend.Units.Laws.{str_eq_self}

-- `s + t` on texts.
unfoldable pub concat_text : String → String → String
concat_text [] t = t
concat_text (c ∷ s) t = c ∷ concat_text s t

-- `s` or one of its ends passes the test.
unfoldable pub any_end : (String → Bool) → String → Bool
any_end g [] = g []
any_end g (c ∷ s) = g (c ∷ s) || any_end g s

-- `s LIKE pattern`, for a pattern without a backslash: 37 is `%` and 95 is `_`.
unfoldable pub like : String → String → Bool
like [] s = is_empty s
like (p ∷ pattern) [] = (code p == 37) && like pattern []
like (p ∷ pattern) (c ∷ s) =
    if code p == 37
    then any_end (like pattern) (c ∷ s)
    else ((code p == 95) || (code p == code c)) && like pattern s

-- The condition of `_list_manual_items_by_idempotency` on a stored key.
unfoldable pub key_matches : String → Option String → Bool
key_matches key none = false
key_matches key (some stored) = str_eq stored key || like (concat_text key ":%") stored

-- The digit `n`.
unfoldable pub digit : String → ℕ → String
digit [] n = []
digit (c ∷ s) zero = c ∷ []
digit (c ∷ s) (suc n) = digit s n

-- The decimal digits of `n`, of which it has at most the fuel.
unfoldable pub decimal_digits : ℕ → ℕ → String
decimal_digits zero n = []
decimal_digits (suc fuel) n =
    let front = decimal_digits fuel (n / 10) in
    let last = digit "0123456789" (n - 10 * (n / 10)) in
    if ltb n 10 then last else concat_text front last

-- `str(n)`
unfoldable pub decimal : ℕ → String
decimal n = decimal_digits (n + 1) n

-- `f"{idempotency_key}:{index}"`
unfoldable pub item_key : String → ℕ → String
item_key key index = concat_text key (concat_text ":" (decimal index))

any_end_here : (g : String → Bool) (s : String) → g s ≡ true → any_end g s ≡ true
unfolding any_end
any_end_here g [] e = e
any_end_here g (c ∷ s) e = ground (arith, e)

any_end_next :
    (g : String → Bool) (c : Char) (s : String) → any_end g s ≡ true → any_end g (c ∷ s) ≡ true
unfolding any_end
any_end_next g c s e = ground (arith, e)

all_ends : (s : String) → any_end (like []) s ≡ true
unfolding any_end like
all_ends [] = refl
all_ends (c ∷ s) = ground (arith, all_ends s)

-- A text that ends in `%` matches all that starts with what stands before it.
like_rest : (s : String) → like "%" s ≡ true
unfolding like
like_rest [] = refl
like_rest (c ∷ s) = all_ends (c ∷ s)

like-concat_text :
    (key rest : String)
    → like (concat_text key ":%") (concat_text key (concat_text ":" rest)) ≡ true
unfolding like concat_text
like-concat_text [] rest = ground (arith, like_rest rest)
like-concat_text (c ∷ key) rest =
    let pattern = concat_text key ":%" in
    let s = concat_text key (concat_text ":" rest) in
    let further = like-concat_text key rest in
    elim (Bool-cases (code c == 37)) [
      | inl e ↦ rw e (any_end_next (like pattern) c s (any_end_here (like pattern) s further))
      | inr e ↦ rw e (ground (arith, further, ==_self (code c)))
    ]

-- The key of an item matches the key that it is made of, and itself.
pub key_matches-item_key :
    (key : String) (index : ℕ) → key_matches key (some (item_key key index)) ≡ true
unfolding key_matches item_key
key_matches-item_key key index = ground (arith, like-concat_text key (decimal index))

pub key_matches_self : (key : String) → key_matches key (some key) ≡ true
unfolding key_matches
key_matches_self key = ground (arith, str_eq_self key)
