-- ===== src/Catalog/Laws.antt =====
-- backend/app/modules/catalog/service.py: a barcode has one row, that of its canonical ingredient.
use fridgefriend.Prelude.{
  ℕ, String, Bool, true, Option, none, some, List, [], ◌∷◌, ◌++◌, ◌≡◌, refl, inl, inr, ◌&&◌, ◌==◌,
  ◌≤◌, arith, map, find, count, count-append, find-none, find-some, Option-cases, ==_self, subst,
  sym, eq_iff,
}
use fridgefriend.Units.Laws.{str_eq_self}
use fridgefriend.Catalog.Names.{Patterns, normalize_ingredient_name}
use fridgefriend.Catalog.{
  new_ingredient, CanonicalIngredient, ProductBarcode, BarcodeResult, Db, has_name, has_barcode,
  resolve_in, resolve_canonical, relinked, linked, upsert_product_barcode, link_result,
  lookup_barcode_with_canonical,
}

find_append_none :
    {A : Type 0} (p : A → Bool) (xs : List A) (a : A)
    → find p xs ≡ none
    → p a ≡ true
    → find p (xs ++ a ∷ []) ≡ some a
unfolding find
find_append_none p [] a h k = rw k refl
find_append_none p (x ∷ xs) a h k = ground (arith, find_append_none p xs a, k)

resolve_in-found :
    (name : String) (new_id : ℕ) (db : Db) (c : CanonicalIngredient)
    → find (has_name name) db.ingredients ≡ some c
    → resolve_in name new_id db ≡ (c, db)
unfolding resolve_in
resolve_in-found name new_id db c e = rw (resolve_in, e) refl

resolve_in-new :
    (name : String) (new_id : ℕ) (db : Db)
    → find (has_name name) db.ingredients ≡ none
    → resolve_in name new_id db ≡ (
      new_ingredient name new_id,
      record db { ingredients = db.ingredients ++ new_ingredient name new_id ∷ [] },
    )
unfolding resolve_in
resolve_in-new name new_id db e = rw (resolve_in, e) refl

-- The ingredient has the name, and a later call finds it.
resolve_in_again :
    (name : String) (new_id later_id : ℕ) (db : Db) (rows : List ProductBarcode)
    → let (ingredient, after) = resolve_in name new_id db in
      (has_name name ingredient ≡ true)
      × (after.barcodes ≡ db.barcodes)
      × (resolve_in name later_id (record after { barcodes = rows })
          ≡ (ingredient, record after { barcodes = rows }))
unfolding has_name
resolve_in_again name new_id later_id db rows =
    elim (Option-cases (find (has_name name) db.ingredients)) [
      | inr (c, e) ↦
          let named = (find-some (has_name name) (has_name name) db.ingredients c e).0 in
          rw (resolve_in-found name new_id db c e)
            (named, refl, resolve_in-found name later_id (record db { barcodes = rows }) c e)
      | inl e ↦
          let there =
            find_append_none (has_name name) db.ingredients (new_ingredient name new_id) e
              (str_eq_self name) in
          rw (resolve_in-new name new_id db e) (
            str_eq_self name,
            refl,
            resolve_in-found name later_id _ (new_ingredient name new_id) there,
          )
    ]

module _ (result : BarcodeResult) (canonical : CanonicalIngredient) where
  abbrev pub is_linked : ProductBarcode → Bool
  is_linked row = has_barcode result.barcode row && row.canonical_ingredient_id == canonical.id

  count-relinked :
      (rows : List ProductBarcode)
      → count is_linked (map (relinked result canonical) rows)
        ≡ count (has_barcode result.barcode) rows
  unfolding count relinked has_barcode
  count-relinked [] = refl
  count-relinked (x ∷ xs) = ground (arith, count-relinked xs, ==_self canonical.id)

  count_linked_none :
      (rows : List ProductBarcode)
      → count (has_barcode result.barcode) rows ≡ 0
      → count is_linked rows ≡ 0
  unfolding count
  count_linked_none [] h = refl
  count_linked_none (x ∷ xs) h = ground (arith, count_linked_none xs)

  count_barcodes-relinked :
      (rows : List ProductBarcode)
      → count (has_barcode result.barcode) (map (relinked result canonical) rows)
        ≡ count (has_barcode result.barcode) rows
  unfolding count relinked has_barcode
  count_barcodes-relinked [] = refl
  count_barcodes-relinked (x ∷ xs) = ground (arith, count_barcodes-relinked xs)

  count_barcodes-linked :
      (new_id : ℕ) (rows : List ProductBarcode)
      → count (has_barcode result.barcode) rows ≤ 1
      → count (has_barcode result.barcode) (linked result canonical new_id rows) ≡ 1
  unfolding linked
  count_barcodes-linked new_id rows h =
      let of_barcode = has_barcode result.barcode in
      elim (Option-cases (find of_barcode rows)) [
        | inr (row, e) ↦
            let hit = find-some of_barcode of_barcode rows row e in
            rw (linked, e, count_barcodes-relinked rows) (omega (arith, h, hit.1 hit.0))
        | inl e ↦
            rw (linked, e, count-append of_barcode rows _, find-none of_barcode rows e)
              (unfold count has_barcode in ground (arith, str_eq_self result.barcode))
      ]

  count-linked :
      (new_id : ℕ) (rows : List ProductBarcode)
      → count (has_barcode result.barcode) rows ≤ 1
      → count is_linked (linked result canonical new_id rows) ≡ 1
  unfolding linked
  count-linked new_id rows h = elim (Option-cases (find (has_barcode result.barcode) rows)) [
    | inr (row, e) ↦
        rw (linked, e, count-relinked rows)
          (omega (
            arith,
            h,
            (find-some (has_barcode result.barcode) (has_barcode result.barcode) rows row e).1
                (find-some (has_barcode result.barcode) (has_barcode result.barcode) rows row e).0,
          ))
    | inl e ↦
        rw
          (
            linked,
            e,
            count-append is_linked rows _,
            count_linked_none rows (find-none (has_barcode result.barcode) rows e),
          )
          (unfold count has_barcode in
            ground (arith, ==_self canonical.id, str_eq_self result.barcode))
  ]

-- If no two rows have the barcode that the barcode service answers with, then with a session the
-- answer has a canonical ingredient of the normalised name, afterwards exactly one row has the
-- barcode, it is that of this ingredient, and resolving the name again gives this ingredient and
-- changes nothing.
pub lookup_barcode_with_canonical_linked :
    (patterns : Patterns) (barcode_api : String → Option BarcodeResult) (barcode : String)
    (result : BarcodeResult) (ingredient_id row_id later_id : ℕ) (db : Db)
    → barcode_api barcode ≡ some result
    → count (has_barcode result.barcode) db.barcodes ≤ 1
    → (canonical : CanonicalIngredient) × (after : Db) × (lookup_barcode_with_canonical patterns
          barcode_api barcode ingredient_id row_id
          (some db)
        ≡ (some (result, some canonical), some after))
      × (canonical.name ≡ normalize_ingredient_name patterns result.canonical_name)
      × (count (has_barcode result.barcode) after.barcodes ≡ 1)
      × (count (is_linked result canonical) after.barcodes ≡ 1)
      × (resolve_canonical patterns result.canonical_name later_id (some after)
          ≡ (some canonical, some after))
unfolding lookup_barcode_with_canonical resolve_canonical upsert_product_barcode link_result
    has_name
lookup_barcode_with_canonical_linked patterns barcode_api barcode result ingredient_id row_id
      later_id db e unique =
    let name = normalize_ingredient_name patterns result.canonical_name in
    let resolved = resolve_in name ingredient_id db in
    let rows = linked result resolved.0 row_id resolved.1.barcodes in
    let (named, kept, again_found) = resolve_in_again name ingredient_id later_id db rows in
    (
      resolved.0,
      record resolved.1 { barcodes = rows },
      rw (lookup_barcode_with_canonical, e) refl,
      (eq_iff resolved.0.name name).0 named,
      count_barcodes-linked result resolved.0 row_id resolved.1.barcodes
          (subst (λ xs. count (has_barcode result.barcode) xs ≤ 1) (sym kept) unique),
      count-linked result resolved.0 row_id resolved.1.barcodes
          (subst (λ xs. count (has_barcode result.barcode) xs ≤ 1) (sym kept) unique),
      rw again_found refl,
    )
