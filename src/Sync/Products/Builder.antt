-- ===== src/Sync/Products/Builder.antt =====
-- `buildProductImportPayload` of packages/sync/src/adapters/decathlon.adapter.ts.
pub mod Complete
pub mod Filled
pub mod Own
pub mod Rows
pub mod Tests
use decathlon_app.Base.{
  String, Bool, true, false, not, ◌&&◌, ◌||◌, List, [], ◌∷◌, ◌++◌, map, Option, none, some, ◌==◌,
  find, first_some, get_or, head?, is_nil, is_some, keep_some, lookup, insert, concat, join, Result,
  ok, err, validation, if◌then◌else◌,
}
use decathlon_app.Sync.Lines.{truthy}
use decathlon_app.Sync.Gtin.{is_valid_gtin}
use decathlon_app.Decathlon.Attributes.{
  DecathlonAttribute, DecathlonValueListEntry, required_attributes_for_category,
  find_value_list_entry, find_value_list_entry_fuzzy,
}
use decathlon_app.Sync.Products.Models.{
  Words, NormalizedProduct, NormalizedVariant, ProductImportRow, ProductImportContext, TypeRule,
  attribute_value_key,
}
use decathlon_app.Sync.Products.Sizes.{match_size_in_chart}
use decathlon_app.Sync.Products.Values.{
  option_value_for, resolve_attribute_value, truncate_title, entry_code,
}
use decathlon_app.Sync.Products.Fillings.{
  Draft, Filling, put, is_filled, override, fill_required, size_filling,
}

module _ (t : Words) where
  pub override_all : ProductImportContext → List (String × String) → Draft → Draft
  override_all c [] d = d
  override_all c ((code, value) ∷ rest) d =
      override_all c rest (put code (override t c code value) d)

  -- The column of the size, unless it is filled.
  pub with_size : ProductImportContext → Option String → Draft → Draft
  with_size c none d = d
  with_size c (some size) d =
      if is_filled "SIZE" d.row then d else put "SIZE" (size_filling t c size) d

pub fill_all : (DecathlonAttribute → Filling) → List DecathlonAttribute → Draft → Draft
fill_all filling [] d = d
fill_all filling (attr ∷ attrs) d =
    fill_all filling attrs (if is_filled attr.code d.row then d else put attr.code (filling attr) d)

module _ {Num : Type 0} (t : Words) where
  -- The titles and descriptions, which have no category.
  pub set_text : NormalizedProduct Num → ProductImportRow → DecathlonAttribute → ProductImportRow
  set_text product row attr =
      if not (attr.hierarchy_code == "")
      then row
      else if t.starts_with attr.code "productTitle-"
      then insert attr.code (truncate_title t product.title) row
      else if (attr.code == "mainTitle") || t.starts_with attr.code "webcatchline-"
      then insert attr.code product.title row
      else if t.starts_with attr.code "longDescription-"
      then insert attr.code (get_or product.description product.title) row
      else row

  pub set_texts :
      NormalizedProduct Num → List DecathlonAttribute → ProductImportRow → ProductImportRow
  set_texts product [] row = row
  set_texts product (attr ∷ attrs) row = set_texts product attrs (set_text product row attr)

  pub set_size : ProductImportContext → NormalizedVariant Num → Draft → Draft
  set_size c variant d =
      with_size t c (option_value_for t variant.option_values (get_or c.size_option_names [])) d

  abbrev pub draft_of :
      ProductImportContext → NormalizedProduct Num → NormalizedVariant Num → String → Draft
  draft_of c product variant category_code =
      let start : ProductImportRow =
        insert "label" product.title
          (insert "category_code" category_code (insert "shop_sku" variant.sku [])) in
      let overridden =
        override_all t c product.attributes
          (record { row = set_texts product c.attributes start; missing = [] }) in
      let required =
        fill_all (fill_required t c product variant category_code)
          (required_attributes_for_category c.attributes category_code c.ancestor_codes)
          overridden in
      set_size c variant required

  pub build_row :
      ProductImportContext → NormalizedProduct Num → NormalizedVariant Num → Result ProductImportRow
  build_row c product variant = elim (truthy product.category_code) [
    | none ↦ err (
        validation (
          concat
            ("Product " ∷ product.title ∷ " (sku " ∷ variant.sku ∷ ") has no categoryCode" ∷ [])))
    | some category_code ↦
        let d = draft_of c product variant category_code in
        if is_nil d.missing
        then ok d.row
        else err (
            validation (
              concat (
                "Product \""
                ∷ product.title
                ∷ "\" (sku "
                ∷ variant.sku
                ∷ ", category "
                ∷ category_code
                ∷ ") is missing required Decathlon attributes: "
                ∷ join "; " d.missing
                ∷ [])))
  ]

  -- The rows of all variants, or the first error.
  pub build_product_import_payload :
      List (NormalizedProduct Num × NormalizedVariant Num)
      → ProductImportContext
      → Result (List ProductImportRow)
  build_product_import_payload [] c = ok []
  build_product_import_payload ((product, variant) ∷ rows) c =
      let rest = build_product_import_payload rows c in
      elim (build_row c product variant) [
        | err e ↦ err e
        | ok row ↦ elim rest [ err e ↦ err e | ok others ↦ ok (row ∷ others) ]
      ]
