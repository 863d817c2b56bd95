-- ===== src/Inventory/Rows.antt =====
-- Reading a row of backend/app/modules/inventory/repository.py after it was written or deleted.
use fridgefriend.Prelude.{
  ℕ, opt_eq_iff, ◌≡◌, refl, Bool, true, false, not, ◌&&◌, some, List, [], ◌∷◌, map, arith, ==_iff,
  keep, find, exists, find-some, none,
}
use fridgefriend.Inventory.Model.{InventoryItem, Db, has_id, in_household}
use fridgefriend.Inventory.Repository.{get_by_id, replace, write}

module _ {W : Type 0} where
  abbrev pub is_row : ℕ → ℕ → InventoryItem W → Bool
  is_row i h x = has_id i x && in_household h x

  -- What a read returns is the row that was asked for.
  pub get_by_id-is_row :
      (i h : ℕ) (db : Db W) (x : InventoryItem W)
      → get_by_id i h db ≡ some x
      → (x.id ≡ i) × (x.household_id ≡ some h)
  unfolding get_by_id
  get_by_id-is_row i h db x e =
      let hit = (find-some (is_row i h) (is_row i h) db.items x e).0 in
      ground (arith, hit, ==_iff x.id i, opt_eq_iff x.household_id h)

  find-replace :
      (i h : ℕ) (xs : List (InventoryItem W)) (x y : InventoryItem W)
      → find (is_row i h) xs ≡ some x
      → is_row i h y ≡ true
      → find (is_row i h) (map (replace y) xs) ≡ some y
  unfolding find replace
  find-replace i h [] x y e k = cc
  find-replace i h (z ∷ zs) x y e k = ground (arith, find-replace i h zs x y, ==_iff y.id i)

  -- A row that was there is read back as it was written.
  pub get_by_id-write :
      (i h : ℕ) (db : Db W) (x y : InventoryItem W)
      → get_by_id i h db ≡ some x
      → y.id ≡ i
      → y.household_id ≡ some h
      → get_by_id i h (write y db) ≡ some y
  unfolding get_by_id write
  get_by_id-write i h db x y e j k =
      find-replace i h db.items x y e (ground (arith, ==_iff y.id i, opt_eq_iff y.household_id h))

  -- After the rows with an identifier are deleted there is none.
  pub exists_deleted :
      (i : ℕ) (xs : List (InventoryItem W))
      → exists (has_id i) (keep (λ x. not (has_id i x)) xs) ≡ false
  unfolding exists keep
  exists_deleted i [] = refl
  exists_deleted i (x ∷ xs) = ground (arith, exists_deleted i xs)

  pub get_by_id_deleted :
      (i h : ℕ) (xs : List (InventoryItem W))
      → find (is_row i h) (keep (λ x. not (has_id i x)) xs) ≡ none
  unfolding find keep
  get_by_id_deleted i h [] = refl
  get_by_id_deleted i h (x ∷ xs) = ground (arith, get_by_id_deleted i h xs)
