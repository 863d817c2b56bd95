-- ===== src/Planning/Transactions.antt =====
-- backend/app/modules/planning/service.py: manual items are stored once for a key.
use fridgefriend.Prelude.{
  ℕ, String, ◌≡◌, refl, ◌≢◌, Bool, true, ◌&&◌, List, [], ◌∷◌, ◌++◌, arith, ◌==◌, ==_self, keep,
}
use fridgefriend.Scalar.{Float}
use fridgefriend.Planning.Keys.{item_key, key_matches, key_matches_self}
use fridgefriend.Planning.Tables.{ShoppingListItem, Tables, list_manual_items_by_idempotency}
use fridgefriend.Planning.Service.{Result, ok, err, ShoppingListItemCreate}
use fridgefriend.Planning.ShoppingService.{
  manual_rows, add_manual_shopping_list_items, add_new_items,
}

-- What adding manual items comes to.
abbrev Added : Type 0 → Type 0
Added W = Result (List (ShoppingListItem W)) × Tables W

module _ {W : Type 0} ⦃f : Float W⦄ where
  list_of : Result (List (ShoppingListItem W)) → List (ShoppingListItem W)
  list_of (ok xs) = xs
  list_of (err e) = []

  nothing_new :
      (items : List (ShoppingListItemCreate W)) (h u next_id : ℕ) (key : String) (t : Tables W)
      (existing : List (ShoppingListItem W))
      → existing ≢ []
      → (add_new_items items h u key next_id existing t).1 ≡ t
  unfolding add_new_items
  nothing_new items h u next_id key t [] some_there = absurd (some_there refl)
  nothing_new items h u next_id key t (x ∷ xs) some_there = refl

  keep-ne-nil :
      (p : ShoppingListItem W → Bool) (ys : List (ShoppingListItem W)) (x : ShoppingListItem W)
      (xs : List (ShoppingListItem W))
      → p x ≡ true
      → keep p (ys ++ x ∷ xs) ≢ []
  unfolding keep
  keep-ne-nil p [] x xs e = ground (arith, e)
  keep-ne-nil p (y ∷ ys) x xs e = ground (arith, keep-ne-nil p ys x xs e)

  first_found :
      (item : ShoppingListItemCreate W) (items : List (ShoppingListItemCreate W)) (h u next_id : ℕ)
      (key : String) (t : Tables W)
      → let created = manual_rows h u key next_id 0 (item ∷ items) in
        list_manual_items_by_idempotency h
          (item_key key 0)
          (record t { shopping = t.shopping ++ created })
        ≢ []
  unfolding list_manual_items_by_idempotency manual_rows
  first_found item items h u next_id key t =
      keep-ne-nil (λ x. (x.household_id == h) && key_matches (item_key key 0) x.idempotency_key)
        t.shopping _ _ (ground (arith, ==_self h, key_matches_self (item_key key 0)))

  -- If a call under the key `k` has stored new manual items, then a call under the key `k:0`, with any
  -- items, creates nothing.
  pub add_manual_shopping_list_items_prefix :
      (item : ShoppingListItemCreate W) (items items' : List (ShoppingListItemCreate W))
      (h u u' next_id next_id' : ℕ) (key : String) (t : Tables W)
      → let created = manual_rows h u key next_id 0 (item ∷ items) in
        let after = add_manual_shopping_list_items (item ∷ items) h u key next_id t in
        after ≡ (ok created, record t { shopping = t.shopping ++ created })
        → (add_manual_shopping_list_items items' h u' (item_key key 0) next_id' after.1).1 ≡ after.1
  add_manual_shopping_list_items_prefix item items items' h u u' next_id next_id' key t stored =
      rw stored (
        unfold add_manual_shopping_list_items in
        nothing_new items' h u' next_id' (item_key key 0) _ _
          (first_found item items h u next_id key t))
