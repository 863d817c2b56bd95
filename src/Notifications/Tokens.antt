-- ===== src/Notifications/Tokens.antt =====
-- backend/app/modules/notifications/repository.py: a token has one row.
use fridgefriend.Prelude.{
  ℕ, count_not_exists, subst, ◌+◌, ◌≤◌, String, ◌≡◌, refl, inl, inr, ◌&&◌, List, [], ◌∷◌, map,
  arith, str_eq, eq_iff, ◌==◌, ==_self, Bool-cases, exists, count, count-append, exists→count,
}
use fridgefriend.Units.Laws.{str_eq_self}
use fridgefriend.Notifications.Service.{
  DeviceToken, DeviceTokenCreate, Db, has_token, taken_over, upserted, upsert_device_token,
  register_device_token,
}

-- No two rows have one token.
abbrev pub HasUniqueTokens : Db → Type 0
HasUniqueTokens db = (token : String) → count (has_token token) db.tokens ≤ 1

count-taken_over :
    (u : ℕ) (payload : DeviceTokenCreate) (token : String) (tokens : List DeviceToken)
    → count (has_token token) (map (taken_over u payload) tokens) ≡ count (has_token token) tokens
unfolding count
count-taken_over u payload token [] = refl
count-taken_over u payload token (x ∷ xs) = ground (arith, count-taken_over u payload token xs)

count-taken_over_own :
    (u : ℕ) (payload : DeviceTokenCreate) (tokens : List DeviceToken)
    → count (λ x. has_token payload.token x && x.user_id == u) (map (taken_over u payload) tokens)
      ≡ count (has_token payload.token) tokens
unfolding count
count-taken_over_own u payload [] = refl
count-taken_over_own u payload (x ∷ xs) =
    ground (arith, count-taken_over_own u payload xs, ==_self u)

count_own_none :
    (u : ℕ) (token : String) (tokens : List DeviceToken)
    → count (has_token token) tokens ≡ 0
    → count (λ x. has_token token x && x.user_id == u) tokens ≡ 0
unfolding count
count_own_none u token [] h = refl
count_own_none u token (x ∷ xs) h = ground (arith, count_own_none u token xs)

-- A row of a new token is the first of it.
count_new :
    (u : ℕ) (payload : DeviceTokenCreate) (new_id : ℕ) (token : String) (tokens : List DeviceToken)
    → count (has_token payload.token) tokens ≡ 0
    → count (has_token token) tokens ≤ 1
    → count (has_token token) tokens
        + count (has_token token) (
            record { id = new_id; user_id = u; token = payload.token; platform = payload.platform }
            ∷ [])
      ≤ 1
unfolding count
count_new u payload new_id token tokens free h = elim (Bool-cases (str_eq payload.token token)) [
  | inl e ↦
      let same = (eq_iff payload.token token).0 e in
      let none_there : count (has_token token) tokens ≡ 0 =
        subst (λ k. count (has_token k) tokens ≡ 0) same free in
      ground (arith, e, none_there)
  | inr e ↦ ground (arith, e, h)
]

upserted-count :
    (u : ℕ) (payload : DeviceTokenCreate) (new_id : ℕ) (token : String) (tokens : List DeviceToken)
    → count (has_token token) tokens ≤ 1
    → count (has_token token) (upserted u payload new_id tokens) ≤ 1
unfolding upserted
upserted-count u payload new_id token tokens h =
    elim (Bool-cases (exists (has_token payload.token) tokens)) [
      | inl there ↦ rw there (rw (count-taken_over u payload token tokens) h)
      | inr free ↦
          let none_there = count_not_exists (has_token payload.token) tokens free in
          rw free (
            rw (count-append (has_token token) tokens _)
              (count_new u payload new_id token tokens none_there h))
    ]

own_row :
    (u : ℕ) (payload : DeviceTokenCreate) (new_id : ℕ) (tokens : List DeviceToken)
    → count (has_token payload.token) tokens ≤ 1
    → count (λ x. has_token payload.token x && x.user_id == u) (upserted u payload new_id tokens)
      ≡ 1
unfolding upserted
own_row u payload new_id tokens h = elim (Bool-cases (exists (has_token payload.token) tokens)) [
  | inl there ↦ rw there (
      rw (count-taken_over_own u payload tokens)
        (omega (arith, h, exists→count (has_token payload.token) tokens there)))
  | inr free ↦
      let none_own =
        count_own_none u payload.token tokens
          (count_not_exists (has_token payload.token) tokens free) in
      rw free (
        rw (count-append (λ x. has_token payload.token x && x.user_id == u) tokens _, none_own)
          (unfold count in ground (arith, ==_self u, str_eq_self payload.token)))
]

-- If no two rows have one token, then after a device token is registered no two have one, and the
-- row of that token is the user's.
pub register_device_token_unique :
    (u : ℕ) (payload : DeviceTokenCreate) (new_id : ℕ) (db : Db)
    → HasUniqueTokens db
    → let after = (register_device_token u payload new_id db).1 in
      HasUniqueTokens after
      × (count (λ x. has_token payload.token x && x.user_id == u) after.tokens ≡ 1)
unfolding register_device_token upsert_device_token
register_device_token_unique u payload new_id db h = (
  (λ token. upserted-count u payload new_id token db.tokens (h token)),
  own_row u payload new_id db.tokens (h payload.token),
)
