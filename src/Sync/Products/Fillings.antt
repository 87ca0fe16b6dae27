-- ===== src/Sync/Products/Fillings.antt =====
-- What `buildProductImportPayload` of packages/sync/src/adapters/decathlon.adapter.ts puts into one
-- column, or what it says is missing: the cases of its `switch`, the overrides and the size.
use decathlon_app.Base.{
  String, Bool, ◌&&◌, List, [], ◌∷◌, ◌++◌, map, Option, none, some, ◌==◌, find, first_some, get_or,
  head?, is_some, keep_some, lookup, insert, concat, if◌then◌else◌,
}
use decathlon_app.Sync.Lines.{truthy}
use decathlon_app.Sync.Gtin.{is_valid_gtin}
use decathlon_app.Decathlon.Attributes.{DecathlonAttribute, DecathlonValueListEntry}
use decathlon_app.Sync.Products.Models.{
  Words, NormalizedProduct, NormalizedVariant, ProductImportRow, ProductImportContext, TypeRule,
  attribute_value_key,
}
use decathlon_app.Sync.Products.Sizes.{match_size_in_chart}
use decathlon_app.Sync.Products.Values.{option_value_for, resolve_attribute_value, entry_code}

-- A row that is being filled, and what is missing.
pub record Draft : Type 0 where
  pub row : ProductImportRow
  pub missing : List String

-- What becomes of one column.
pub data Filling : Type 0 where
  fill : String → Filling
  lack : String → Filling

abbrev pub put : String → Filling → Draft → Draft
put code (fill value) d = record d { row = insert code value d.row }
put code (lack problem) d = record d { missing = d.missing ++ problem ∷ [] }

-- `attr.label (attr.code) — …`
abbrev pub about : DecathlonAttribute → List String → String
about attr texts = concat (attr.label ∷ " (" ∷ attr.code ∷ ") — " ∷ texts)

-- `row[code] !== undefined && row[code] !== ""`
abbrev pub is_filled : String → ProductImportRow → Bool
is_filled code row = is_some (truthy (lookup code row))

abbrev code_of : Option DecathlonValueListEntry → Option String
code_of none = none
code_of (some e) = some e.code

abbrev gender_of : Option TypeRule → Option String
gender_of none = none
gender_of (some rule) = rule.gender

abbrev chart_of : Option TypeRule → Option String
chart_of none = none
chart_of (some rule) = rule.size_chart

module _ (t : Words) where
  -- The merchant's overrides.
  unfoldable pub override : ProductImportContext → String → String → Filling
  override c code value = elim (find (λ (a : DecathlonAttribute). a.code == code) c.attributes) [
    | none ↦ lack (
        concat (
          "\"" ∷ code
          ∷ "\" in the \"Decathlon Attributes\" metafield isn't a Decathlon attribute code" ∷ []))
    | some attr ↦ elim (resolve_attribute_value t attr value c.value_lists c.value_mappings) [
      | some resolved ↦ fill resolved
      | none ↦ lack (
          about attr (
            "\""
            ∷ value
            ∷ "\" isn't one of Decathlon's \""
            ∷ get_or attr.values_list ""
            ∷ "\" values"
            ∷ []))
    ]
  ]

  -- The vendor's own entry, exact or loose, then that of the fallback brand.
  abbrev pub brand_entry : ProductImportContext → Option String → String → Option String
  brand_entry c list brand = elim (truthy list) [
    | none ↦ none
    | some l ↦
        first_some (entry_code t c.value_lists l brand) (elim (truthy c.fallback_brand_name) [
          | none ↦ none
          | some fallback ↦ entry_code t c.value_lists l fallback
        ])
  ]

  unfoldable pub fill_email : ProductImportContext → DecathlonAttribute → Filling
  fill_email c attr = elim (truthy c.manufacturer_email) [
    | some email ↦ fill email
    | none ↦ lack (about attr ("set \"Manufacturer email\" on the Decathlon Connection page" ∷ []))
  ]

  abbrev pub first_resolved :
      ProductImportContext → DecathlonAttribute → List String → Option String
  first_resolved c attr values = head? (
      keep_some (map (λ v. resolve_attribute_value t attr v c.value_lists c.value_mappings) values))

  abbrev pub where_to_set : ProductImportContext → DecathlonAttribute → List String
  where_to_set c attr =
      "set it on the product's \"Decathlon Attributes\" metafield, e.g. {\""
      ∷ attr.code
      ∷ "\": \""
      ∷ (if attr.type == "LIST"
          then concat ("<one of Decathlon's \"" ∷ get_or attr.values_list "" ∷ "\" values>" ∷ [])
          else "...")
      ∷ "\"}"
      ∷ (if attr.code == "color"
          then concat (
              " (or add a \""
              ∷ get_or (head? (get_or c.color_option_names [])) "Color"
              ∷ "\" option to the product, and map its values on the Mappings page)"
              ∷ [])
          else if attr.variant
          then " (also matched against each variant's Shopify option values)"
          else "")
      ∷ []

  -- The size of a variant: what becomes of the column, if it is touched.
  pub size_filling : ProductImportContext → String → Filling
  size_filling c size =
      let explicit = lookup (attribute_value_key t "SIZE" size) c.value_mappings in
      elim (truthy explicit) [
        | some code ↦ fill code
        | none ↦ elim (truthy (chart_of c.type_rule)) [
          | none ↦ fill size
          | some name ↦ elim (truthy (code_of (match_size_in_chart t c.value_lists name size))) [
            | some code ↦ fill (get_or explicit code)
            | none ↦ lack (
                concat (
                  "Size \"" ∷ size ∷ "\" isn't in size chart " ∷ name
                  ∷ " — map it on the Mappings page or pick another chart" ∷ []))
          ]
        ]
      ]

module _ {Num : Type 0} (t : Words) where
  unfoldable pub fill_main_image : NormalizedProduct Num → DecathlonAttribute → Filling
  fill_main_image product attr = elim (truthy (head? product.images)) [
    | some image ↦ fill image
    | none ↦ lack (about attr ("product has no images" ∷ []))
  ]

  unfoldable pub fill_ean : NormalizedVariant Num → DecathlonAttribute → Filling
  fill_ean variant attr = elim (truthy variant.ean) [
    | none ↦ lack (about attr ("variant has no barcode/EAN set" ∷ []))
    | some ean ↦
        if is_valid_gtin (t.codes ean)
        then fill ean
        else lack
            (about attr ("\"" ∷ ean ∷ "\" isn't a valid EAN-8/UPC/EAN-13 (bad check digit)" ∷ []))
  ]

  unfoldable pub fill_brand :
      ProductImportContext → NormalizedProduct Num → DecathlonAttribute → Filling
  fill_brand c product attr = elim (truthy product.brand) [
    | none ↦ lack (about attr ("Shopify product has no vendor set" ∷ []))
    | some brand ↦
        elim (first_some (lookup (attribute_value_key t "brandName" brand) c.value_mappings)
          (brand_entry t c attr.values_list brand)) [
            | some code ↦ fill code
            | none ↦ lack (
                about attr (
                  "Shopify vendor \""
                  ∷ brand
                  ∷ "\" isn't a recognized Decathlon brand"
                  ∷ (elim (truthy c.fallback_brand_name) [
                    | some fallback ↦
                        " (fallback brand \"" ∷ fallback ∷ "\" didn't match either)" ∷ []
                    | none ↦
                        " — set a \"Fallback brand\" on the Decathlon Connection page to unblock this"
                        ∷ []
                  ])))
          ]
  ]

  unfoldable pub fill_gender :
      ProductImportContext → NormalizedProduct Num → DecathlonAttribute → Filling
  fill_gender c product attr = elim (truthy (gender_of c.type_rule)) [
    | some gender ↦ fill gender
    | none ↦ lack (
        about attr (
          "set a Gender for product type \""
          ∷ get_or
              (first_some (elim c.type_rule [ none ↦ none | some rule ↦ some rule.product_type ])
                product.product_type)
              "(none)"
          ∷ "\" on the Mappings page"
          ∷ []))
  ]

  -- The option values that an attribute may be read from.
  pub candidates : ProductImportContext → NormalizedVariant Num → DecathlonAttribute → List String
  candidates c variant attr =
      let role_names : Option (List String) =
        if attr.code == "color"
        then c.color_option_names
        else if t.mentions_size attr.code
        then c.size_option_names
        else none in
      elim role_names [
        | some names ↦ keep_some (option_value_for t variant.option_values names ∷ [])
        | none ↦ map (λ (e : String × String). e.1) variant.option_values
      ]

  unfoldable pub fill_other :
      ProductImportContext → NormalizedVariant Num → DecathlonAttribute → Filling
  fill_other c variant attr =
      elim (if attr.variant && (attr.type == "LIST") && is_some (truthy attr.values_list)
        then first_resolved t c attr (candidates c variant attr)
        else none) [ some value ↦ fill value | none ↦ lack (about attr (where_to_set t c attr)) ]

  -- The `switch` on the code of a required attribute.
  unfoldable pub fill_required :
      ProductImportContext
      → NormalizedProduct Num
      → NormalizedVariant Num
      → String
      → DecathlonAttribute
      → Filling
  fill_required c product variant category_code attr =
      if attr.code == "category"
      then fill category_code
      else if attr.code == "ProductIdentifier"
      then fill variant.sku
      else if attr.code == "main_image"
      then fill_main_image product attr
      else if attr.code == "ean_codes"
      then fill_ean variant attr
      else if attr.code == "brandName"
      then fill_brand c product attr
      else if attr.code == "Gender_apparel"
      then fill_gender c product attr
      else if attr.code == "GPSR_MANUFACTURER_EMAIL_ADDRESS"
      then fill_email t c attr
      else fill_other c variant attr
