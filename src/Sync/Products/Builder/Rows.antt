-- ===== src/Sync/Products/Builder/Rows.antt =====
-- The rows of a product import: each is its variant's own, with no required column empty.
use decathlon_app.Base.{
  String, true, false, List, [], ◌∷◌, Option, none, some, ◌≡◌, arith, inl, inr, Bool-cases,
  Option-cases, Result-cases, All, is_nil, insert, lookup-insert, eq_refl, eq_iff, ◌==◌,
  if◌then◌else◌, sym, subst, get_or, ok, OnOk,
}
use decathlon_app.Sync.Lines.{truthy}
use decathlon_app.Decathlon.Attributes.{
  DecathlonAttribute, DecathlonValueListEntry, required_attributes_for_category,
}
use decathlon_app.Sync.Products.Models.{
  Words, NormalizedProduct, NormalizedVariant, ProductImportRow, ProductImportContext,
}
use decathlon_app.Sync.Products.Values.{option_value_for}
use decathlon_app.Sync.Products.Fillings.{
  Draft, Filling, fill, lack, put, is_filled, fill_required, size_filling,
}
use decathlon_app.Sync.Products.Builder.{
  fill_all, set_size, with_size, draft_of, build_row, build_product_import_payload,
}
use decathlon_app.Sync.Products.Builder.Complete.{
  append-is_nil, fill_all_complete, with_size-missing, truthy-get_or,
}
use decathlon_app.Sync.Products.Builder.Own.{IsOther, HasSku, draft_of-HasSku}
use decathlon_app.Sync.Products.Builder.Filled.{
  IsText, FillsText, truthy-IsText, fill_required-FillsText,
}

abbrev pub IsFilled : ProductImportRow → String → Type 0
IsFilled row code = is_filled code row ≡ true

insert-IsFilled :
    (key code value : String) (row : ProductImportRow)
    → is_filled key row ≡ false
    → IsFilled row code
    → IsFilled (insert key value row) code
insert-IsFilled key code value row empty h = elim (Bool-cases (key == code)) [
  | inl same ↦
      let e : key ≡ code = ground (arith, same, eq_iff key code) in
      grind (arith, subst (λ k. is_filled k row ≡ false) e empty, h)
  | inr other ↦ rw (lookup-insert key code value row, other) h
]

inserted-IsFilled :
    (code value : String) (row : ProductImportRow)
    → IsText value
    → IsFilled (insert code value row) code
inserted-IsFilled code value row text = rw (lookup-insert code code value row, eq_refl code) text

put-IsFilled :
    (f : Filling) (key code : String) (d : Draft)
    → is_filled key d.row ≡ false
    → IsFilled d.row code
    → IsFilled (put key f d).row code
put-IsFilled (fill value) key code d empty h = insert-IsFilled key code value d.row empty h
put-IsFilled (lack _) key code d empty h = h

putted-IsFilled :
    (f : Filling) (code : String) (d : Draft)
    → FillsText f
    → is_nil (put code f d).missing ≡ true
    → IsFilled (put code f d).row code
putted-IsFilled (fill value) code d text none_missing = inserted-IsFilled code value d.row text
putted-IsFilled (lack problem) code d text none_missing =
    ground (arith, none_missing, append-is_nil d.missing problem)

module _ (filling : DecathlonAttribute → Filling)
    (texts : (a : DecathlonAttribute) → FillsText (filling a)) where
  abbrev step : DecathlonAttribute → Draft → Draft
  step attr d = if is_filled attr.code d.row then d else put attr.code (filling attr) d

  step-IsFilled :
      (attr : DecathlonAttribute) (d : Draft) (code : String)
      → IsFilled d.row code
      → IsFilled (step attr d).row code
  step-IsFilled attr d code h = elim (Bool-cases (is_filled attr.code d.row)) [
    | inl there ↦ rw there h
    | inr empty ↦ rw empty (put-IsFilled (filling attr) attr.code code d empty h)
  ]

  stepped-IsFilled :
      (attr : DecathlonAttribute) (d : Draft)
      → is_nil (step attr d).missing ≡ true
      → IsFilled (step attr d).row attr.code
  stepped-IsFilled attr d h = elim (Bool-cases (is_filled attr.code d.row)) [
    | inl there ↦ rw there there
    | inr empty ↦ rw empty (
        putted-IsFilled (filling attr) attr.code d (texts attr) (
          subst (λ b. is_nil (if b then d else put attr.code (filling attr) d).missing ≡ true) empty
            h))
  ]

  fill_all-IsFilled :
      (attrs : List DecathlonAttribute) (d : Draft) (code : String)
      → IsFilled d.row code
      → IsFilled (fill_all filling attrs d).row code
  unfolding fill_all
  fill_all-IsFilled [] d code h = h
  fill_all-IsFilled (attr ∷ attrs) d code h =
      fill_all-IsFilled attrs (step attr d) code (step-IsFilled attr d code h)

  IsFilled-all :
      (attrs : List DecathlonAttribute) (d : Draft)
      → is_nil (fill_all filling attrs d).missing ≡ true
      → All (λ (a : DecathlonAttribute). IsFilled (fill_all filling attrs d).row a.code) attrs
  unfolding fill_all
  IsFilled-all [] d h = tt
  IsFilled-all (attr ∷ attrs) d h = (
    fill_all-IsFilled attrs (step attr d) attr.code
        (stepped-IsFilled attr d (fill_all_complete filling attrs (step attr d) h).0),
    IsFilled-all attrs (step attr d) h,
  )

All-IsFilled :
    (row row' : ProductImportRow) (attrs : List DecathlonAttribute)
    → ((code : String) → IsFilled row code → IsFilled row' code)
    → All (λ (a : DecathlonAttribute). IsFilled row a.code) attrs
    → All (λ (a : DecathlonAttribute). IsFilled row' a.code) attrs
All-IsFilled row row' [] more h = tt
All-IsFilled row row' (a ∷ attrs) more h = (more a.code h.0, All-IsFilled row row' attrs more h.1)

with_size-IsFilled :
    (t : Words) (c : ProductImportContext) (size : Option String) (d : Draft) (code : String)
    → IsFilled d.row code
    → IsFilled (with_size t c size d).row code
unfolding with_size
with_size-IsFilled t c none d code h = h
with_size-IsFilled t c (some size) d code h = elim (Bool-cases (is_filled "SIZE" d.row)) [
  | inl filled ↦ rw (with_size, filled) h
  | inr empty ↦ rw (with_size, empty) (put-IsFilled (size_filling t c size) "SIZE" code d empty h)
]

-- The shop's data has no empty text where a column is read from, and no attribute is `shop_sku`.
pub record IsUsable (t : Words) (c : ProductImportContext) : Type 0 where
  pub prefix : t.starts_with "LIST" "LIST" ≡ true
  pub codes : All (λ (e : DecathlonValueListEntry). IsText e.code) c.value_lists
  pub mapped : All (λ (m : String × String). IsText m.1) c.value_mappings
  pub others : All IsOther c.attributes

-- The row of a variant: under its own SKU, and with every required column filled.
pub record IsRowOf {Num : Type 0} (c : ProductImportContext) (product : NormalizedProduct Num)
    (variant : NormalizedVariant Num) (row : ProductImportRow) : Type 0 where
  pub own : HasSku variant.sku row
  pub filled :
      All
        (λ (a : DecathlonAttribute). IsFilled row a.code)
        (required_attributes_for_category c.attributes
          (get_or product.category_code "")
          c.ancestor_codes)

module _ {Num : Type 0} (t : Words) (c : ProductImportContext) (usable : IsUsable t c) where
  draft_of-IsFilled :
      (product : NormalizedProduct Num) (variant : NormalizedVariant Num) (category_code : String)
      → IsText category_code
      → IsText variant.sku
      → is_nil (draft_of t c product variant category_code).missing ≡ true
      → All
          (λ (a : DecathlonAttribute).
            IsFilled (draft_of t c product variant category_code).row a.code)
          (required_attributes_for_category c.attributes category_code c.ancestor_codes)
  unfolding set_size
  draft_of-IsFilled product variant category_code category sku h =
      let size = option_value_for t variant.option_values (get_or c.size_option_names []) in
      All-IsFilled _ _ _ (λ code. with_size-IsFilled t c size _ code)
        (IsFilled-all (fill_required t c product variant category_code)
          (λ attr.
            fill_required-FillsText t c usable.codes usable.mapped usable.prefix product variant
              category_code attr category sku)
          _ _ (with_size-missing t c size _ h))

  build_row-IsRowOf :
      (product : NormalizedProduct Num) (variant : NormalizedVariant Num)
      → IsText variant.sku
      → OnOk (IsRowOf c product variant) (build_row t c product variant)
  unfolding build_row
  build_row-IsRowOf product variant sku = elim (Option-cases (truthy product.category_code)) [
    | inl absent ↦ rw (absent, build_row) tt
    | inr (code, there) ↦ elim (Bool-cases (is_nil (draft_of t c product variant code).missing)) [
      | inr problems ↦ rw (there, problems, build_row) tt
      | inl fine ↦
          rw (there, fine, build_row)
            (record {
              own = draft_of-HasSku t c product variant code usable.others;
              filled =
                  subst
                    (λ k.
                      All
                        (λ (a : DecathlonAttribute).
                          IsFilled (draft_of t c product variant code).row a.code)
                        (required_attributes_for_category c.attributes k c.ancestor_codes))
                    (sym (truthy-get_or product.category_code code there))
                    (draft_of-IsFilled product variant code
                      (truthy-IsText product.category_code code there) sku fine);
            })
    ]
  ]

-- The rows of an import, one for each variant, in order, each the variant's own.
abbrev pub AreRowsOf :
    {Num : Type 0}
    → ProductImportContext
    → List (NormalizedProduct Num × NormalizedVariant Num)
    → List ProductImportRow
    → Type 0
AreRowsOf c [] [] = Unit
AreRowsOf c [] (row ∷ rows) = ⊥
AreRowsOf c (pair ∷ pairs) [] = ⊥
AreRowsOf c (pair ∷ pairs) (row ∷ rows) = IsRowOf c pair.0 pair.1 row × AreRowsOf c pairs rows

abbrev pub HaveSkus : {Num : Type 0} → List (NormalizedProduct Num × NormalizedVariant Num) → Type 0
HaveSkus [] = Unit
HaveSkus (pair ∷ pairs) = IsText pair.1.sku × HaveSkus pairs

payload-AreRowsOf :
    {Num : Type 0} (t : Words) (c : ProductImportContext) (usable : IsUsable t c)
    (pairs : List (NormalizedProduct Num × NormalizedVariant Num))
    → HaveSkus pairs
    → OnOk (AreRowsOf c pairs) (build_product_import_payload t pairs c)
unfolding build_product_import_payload
payload-AreRowsOf t c usable [] skus = tt
payload-AreRowsOf t c usable ((product, variant) ∷ pairs) skus =
    let row = build_row-IsRowOf t c usable product variant skus.0 in
    let rest = payload-AreRowsOf t c usable pairs skus.1 in
    elim (Result-cases (build_row t c product variant)) [
      | inr (e, bad) ↦ rw (bad, build_product_import_payload) tt
      | inl (made, good) ↦ elim (Result-cases (build_product_import_payload t pairs c)) [
        | inr (e, bad) ↦ rw (good, build_product_import_payload, bad) tt
        | inl (others, fine) ↦
            rw (good, build_product_import_payload, fine)
              (
                subst (OnOk (IsRowOf c product variant)) good row,
                subst (OnOk (AreRowsOf c pairs)) fine rest,
              )
      ]
    ]

-- A product import that is built has one row for each variant, in order. Each row is its variant's
-- own: its `shop_sku` is that variant's, and every attribute that Decathlon requires of the category
-- of its product, itself or by its ancestors, has a column that is not empty. (Where no attribute is
-- called `shop_sku`, no variant has an empty SKU, no entry of a value list and no value mapping is
-- an empty text, and "LIST" starts with "LIST".)
pub build_product_import_payload-AreRowsOf :
    {Num : Type 0} (t : Words) (c : ProductImportContext)
    (pairs : List (NormalizedProduct Num × NormalizedVariant Num)) (rows : List ProductImportRow)
    → IsUsable t c
    → HaveSkus pairs
    → build_product_import_payload t pairs c ≡ ok rows
    → AreRowsOf c pairs rows
build_product_import_payload-AreRowsOf t c pairs rows usable skus built =
    subst (OnOk (AreRowsOf c pairs)) built (payload-AreRowsOf t c usable pairs skus)
