-- ===== src/Sync/ProductSync/Prepare.antt =====
-- `prepareProductImport`, `checkProduct`, `resolveCategoryCode` and `categoryError` of
-- packages/sync/src/engine.ts.
pub mod Listable
use decathlon_app.Base.{
  ℕ, ◌+◌, ◌-◌, String, Bool, true, false, not, ◌&&◌, List, [], ◌∷◌, ◌++◌, map, Option, none, some,
  ◌==◌, ltb, find, any, keep, keep_some, take, contains, first_some, get_or, is_nil, is_some,
  concat, join, length, lookup, insert, M, pure, gets, throw, attempt, Result, ok, err, Error,
  validation, message, ◌>>=◌, ◌>>◌, if◌then◌else◌,
}
use decathlon_app.Sync.Lines.{truthy}
use decathlon_app.Sync.Money.{NumOps}
use decathlon_app.Sync.Outside.{read}
use decathlon_app.Decathlon.Attributes.{
  DecathlonAttribute, DecathlonHierarchy, DecathlonValueListEntry, ancestor_codes_for,
  required_attributes_for_category,
}
use decathlon_app.Sync.Store.Rows.{ProductMapping, CategoryMapping, SyncConfiguration, World, Db}
use decathlon_app.Sync.Store.Orders.{get_config}
use decathlon_app.Sync.Store.Catalog.{find_by_product_type, map_for}
use decathlon_app.Sync.Matching.{ProductRef, Match, find_by_variant, match_product_mapping}
use decathlon_app.Sync.Catalog.{CatalogApi, attributes, hierarchies, value_list}
use decathlon_app.Sync.Products.Models.{
  Words, NormalizedProduct, NormalizedVariant, ProductImportRow, ProductImportContext, TypeRule,
}
use decathlon_app.Sync.Products.Values.{option_role_names}
use decathlon_app.Sync.Products.Builder.{build_product_import_payload}
use decathlon_app.Sync.ProductSync.Shopify.{ShopifyProduct, Parsing, normalize_shopify_product}

-- The calls of the product synchronisation at Shopify and Decathlon that only read.
pub record ProductApi (Num R : Type 0) : Type 0 where
  pub catalog : CatalogApi R
  pub get_product : String → R → Result (Option (ShopifyProduct Num))
  pub get_products : String → R → Result (List ProductRef)
  -- The product of each variant that is there.
  pub variants_to_products : List String → R → Result (List (Option (String × String)))

pub record ReadyProduct (Num : Type 0) : Type 0 where
  pub product : NormalizedProduct Num
  pub variants : List (NormalizedVariant Num)
  pub item_label : String
  pub products : List ProductImportRow
  pub mapping_by_variant_id : List (String × ProductMapping)
  pub existing_id_by_variant_id : List (String × String)

pub data PreparedProduct (Num : Type 0) : Type 0 where
  inactive : NormalizedProduct Num → String → String → PreparedProduct Num
  no_variants : NormalizedProduct Num → String → PreparedProduct Num
  invalid : Option (NormalizedProduct Num) → Option String → Error → PreparedProduct Num
  ready : ReadyProduct Num → PreparedProduct Num

-- `opts`: the variants that are asked for, and whether Decathlon is asked for duplicates.
pub record PrepareOptions : Type 0 where
  pub variant_ids : Option (List String)
  pub skip_duplicate_check : Bool

unfoldable pub category_error : List DecathlonHierarchy → String → Option String
category_error hs code = elim (find (λ (h : DecathlonHierarchy). h.code == code) hs) [
  | none ↦ some (concat ("Decathlon category \"" ∷ code ∷ "\" doesn't exist." ∷ []))
  | some node ↦
      if any (λ (h : DecathlonHierarchy). h.parent_code == code) hs
      then some (
          concat (
            "Decathlon category " ∷ code ∷ " \"" ∷ node.label
            ∷ "\" is a group of categories, not a category products can be listed in." ∷ []))
      else none
]

-- `new Set`: the first of each, in order.
abbrev pub distinct_from : List String → List String → List String
distinct_from seen [] = []
distinct_from seen (x ∷ xs) =
    if contains x seen then distinct_from seen xs else x ∷ distinct_from (x ∷ seen) xs

abbrev pub variant_key : {Num : Type 0} → NormalizedVariant Num → String
variant_key v = get_or v.shopify_variant_id ""

module _ {Num : Type 0} (t : Words) (n : NumOps Num) where
  pub describe_product : String → List String → String
  describe_product title skus =
      if is_nil skus
      then title
      else concat (
          title
          ∷ " — "
          ∷ join ", " (take 3 skus)
          ∷ (if ltb 3 (length skus)
              then concat (" (+" ∷ n.show (n.of_ℕ (length skus - 3)) ∷ " more)" ∷ [])
              else "")
          ∷ [])

  abbrev pub label_for : NormalizedProduct Num → List (NormalizedVariant Num) → String
  label_for product variants =
      describe_product product.title (map (λ (v : NormalizedVariant Num). v.sku) variants)

  pub rule_of : String → NormalizedProduct Num → Db Num → Option CategoryMapping
  rule_of shop_id product db = elim (truthy product.product_type) [
    | none ↦ none
    | some type ↦ find_by_product_type t shop_id type db
  ]

  pub resolve_category_code : String → NormalizedProduct Num → Db Num → Result String
  resolve_category_code shop_id product db = elim (truthy product.category_code) [
    | some code ↦ ok code
    | none ↦ elim (rule_of shop_id product db) [
      | some rule ↦ ok rule.decathlon_category_code
      | none ↦ err (
          validation (elim (truthy product.product_type) [
            | some type ↦ concat (
                "\"" ∷ product.title ∷ "\" has no Decathlon category. Map its product type \""
                ∷ type
                ∷ "\" on the Mappings page, or set a \"Decathlon Category\" metafield on the product itself."
                ∷ [])
            | none ↦ concat (
                "\"" ∷ product.title
                ∷ "\" has no product type or Shopify product category. Give it a type under \"Products without a type\" on the Mappings page, then map that type to a Decathlon category."
                ∷ [])
          ]))
    ]
  ]

  abbrev pub is_asked : Option (List String) → NormalizedVariant Num → Bool
  is_asked none v = true
  is_asked (some ids) v = elim (truthy v.shopify_variant_id) [
    | none ↦ false
    | some id ↦ contains id ids
  ]

  -- The lists that the required and the overridden attributes name, and those of sizes.
  abbrev pub needed_lists : List DecathlonAttribute → Option CategoryMapping → List String
  needed_lists attrs rule = distinct_from [] (
      keep_some (map (λ (a : DecathlonAttribute). truthy a.values_list) attrs) ++ elim rule [
        | none ↦ []
        | some r ↦ elim (truthy r.size_chart) [
          | none ↦ []
          | some _ ↦ "size_cpn_7" ∷ "size_cpn_4" ∷ []
        ]
      ])

  abbrev pub overridden_attributes :
      NormalizedProduct Num → List DecathlonAttribute → List DecathlonAttribute
  overridden_attributes product attrs = keep_some (
      map (λ (e : String × String). find (λ (a : DecathlonAttribute). a.code == e.0) attrs)
        product.attributes)

  abbrev pub context_type_rule : NormalizedProduct Num → Option CategoryMapping → Option TypeRule
  context_type_rule product none = none
  context_type_rule product (some r) = some (record {
    product_type = get_or product.product_type r.shopify_product_type;
    gender = r.gender;
    size_chart = r.size_chart;
  })

module _ {Num R : Type 0} (t : Words) (n : NumOps Num) (pa : Parsing Num)
    (api : ProductApi Num R) where
  pub value_lists_of : String → List String → M (World Num R) (List DecathlonValueListEntry)
  value_lists_of shop_id [] = pure []
  value_lists_of shop_id (code ∷ codes) = do
    entries ← value_list api.catalog shop_id code
    others ← value_lists_of shop_id codes
    pure (entries ++ others)

  -- The mappings by variant, and the ids that Decathlon knows of variants without one.
  abbrev pub Matches : Type 0
  Matches = List (String × ProductMapping) × List (String × String)

  pub add_match : NormalizedVariant Num → Match → Matches → Matches
  add_match v m (mappings, existing) = (
    elim m.mapping [ none ↦ mappings | some row ↦ insert (variant_key v) row mappings ],
    elim (truthy m.existing_decathlon_product_id) [
      | none ↦ existing
      | some id ↦ insert (variant_key v) id existing
    ],
  )

  pub match_variant : String → Bool → NormalizedVariant Num → M (World Num R) Match
  match_variant shop_id true v = gets (λ w. record {
    mapping = find_by_variant shop_id (variant_key v) w.db;
    existing_decathlon_product_id = none;
  })
  match_variant shop_id false v =
      match_product_mapping api.get_products shop_id (variant_key v) v.sku

  pub match_variants :
      String → Bool → List (NormalizedVariant Num) → Matches → M (World Num R) Matches
  match_variants shop_id skip [] found = pure found
  match_variants shop_id skip (v ∷ vs) found = do
    m ← match_variant shop_id skip v
    match_variants shop_id skip vs (add_match v m found)

  -- The rows, once everything they need is there.
  pub built :
      SyncConfiguration Num
      → NormalizedProduct Num
      → List (NormalizedVariant Num)
      → String
      → ProductImportContext
      → Matches
      → PreparedProduct Num
  built config product variants item_label context (mappings, existing) =
      elim (build_product_import_payload t
        (map (λ (v : NormalizedVariant Num). (product, v)) variants) context) [
          | err e ↦ invalid (some product) (some (label_for t n product variants)) e
          | ok rows ↦ ready (record {
            product = product;
            variants = variants;
            item_label = item_label;
            products = rows;
            mapping_by_variant_id = mappings;
            existing_id_by_variant_id = existing;
          })
        ]

  pub prepare_listed :
      String
      → SyncConfiguration Num
      → Bool
      → NormalizedProduct Num
      → List (NormalizedVariant Num)
      → String
      → List DecathlonAttribute
      → List String
      → Option CategoryMapping
      → String
      → M (World Num R) (PreparedProduct Num)
  prepare_listed shop_id config skip product variants item_label attrs ancestors rule code = do
    let in_play =
        required_attributes_for_category attrs code ancestors
        ++ overridden_attributes t n product attrs
    value_lists ← value_lists_of shop_id (needed_lists t n in_play rule)
    matches ← match_variants shop_id skip variants ([], [])
    let codes =
        distinct_from []
          (map (λ (a : DecathlonAttribute). a.code) in_play ++ "brandName" ∷ "SIZE" ∷ [])
    value_mappings ← gets (λ w. map_for t shop_id codes w.db.value_mappings [])
    let (color, size) = option_role_names t config.color_option_name config.size_option_name
    pure (
        built config product variants item_label
          (record {
            attributes = attrs;
            value_lists = value_lists;
            ancestor_codes = ancestors;
            manufacturer_email = config.manufacturer_email;
            fallback_brand_name = config.fallback_brand_name;
            value_mappings = value_mappings;
            color_option_names = some color;
            size_option_names = some size;
            type_rule = context_type_rule t n product rule;
          })
          matches)

  pub prepare_in_tree :
      String
      → SyncConfiguration Num
      → PrepareOptions
      → NormalizedProduct Num
      → Option CategoryMapping
      → String
      → List (NormalizedVariant Num)
      → String
      → List DecathlonAttribute
      → List DecathlonHierarchy
      → M (World Num R) (PreparedProduct Num)
  prepare_in_tree shop_id config opts product rule code variants item_label attrs tree =
      elim (category_error tree code) [
        | some problem ↦ pure (
            invalid (some product) (some item_label) (
              validation (
                concat (
                  "\"" ∷ product.title ∷ "\": " ∷ problem
                  ∷ " Pick a specific category on the Mappings page, or in the product's \"Decathlon Category\" metafield."
                  ∷ []))))
        | none ↦
            prepare_listed shop_id config opts.skip_duplicate_check product variants item_label
              attrs (ancestor_codes_for tree code) rule code
      ]

  -- An active product with a category and with variants.
  pub prepare_variants :
      String
      → SyncConfiguration Num
      → PrepareOptions
      → NormalizedProduct Num
      → Option CategoryMapping
      → String
      → List (NormalizedVariant Num)
      → M (World Num R) (PreparedProduct Num)
  prepare_variants shop_id config opts product rule code variants = do
    let item_label = label_for t n product product.variants
    attrs ← attributes api.catalog shop_id
    tree ← hierarchies api.catalog shop_id
    prepare_in_tree shop_id config opts product rule code variants item_label attrs tree

  pub prepare_active :
      String
      → SyncConfiguration Num
      → PrepareOptions
      → NormalizedProduct Num
      → M (World Num R) (PreparedProduct Num)
  prepare_active shop_id config opts product w =
      let item_label = label_for t n product product.variants in
      elim (resolve_category_code t n shop_id product w.db) [
        | err e ↦ pure (invalid (some product) (some item_label) e) w
        | ok code ↦
            let categorised = record product { category_code = some code } in
            let variants = keep (is_asked t n opts.variant_ids) product.variants in
            if is_nil variants
            then pure (no_variants categorised item_label) w
            else prepare_variants shop_id config opts categorised (rule_of t n shop_id product w.db)
                code variants w
      ]

  abbrev pub is_active : NormalizedProduct Num → Bool
  is_active product = get_or product.status "" == "ACTIVE"

  pub prepare_product :
      String
      → SyncConfiguration Num
      → PrepareOptions
      → Result (NormalizedProduct Num)
      → M (World Num R) (PreparedProduct Num)
  prepare_product shop_id config opts (err e) = pure (invalid none none e)
  prepare_product shop_id config opts (ok product) = elim (is_active product) [
    | true ↦ prepare_active shop_id config opts product
    | false ↦ pure (
        inactive product (label_for t n product product.variants) (
          concat (
            "\""
            ∷ product.title
            ∷ "\" is "
            ∷ t.ops.to_lower (get_or product.status "not active")
            ∷ " in Shopify — only active products are imported to Decathlon"
            ∷ [])))
  ]

  pub prepare_product_import :
      String → String → PrepareOptions → M (World Num R) (PreparedProduct Num)
  prepare_product_import shop_id shopify_product_id opts = do
    config ← get_config shop_id
    raw ← read (api.get_product shopify_product_id)
    prepare_product shop_id config opts
        (normalize_shopify_product t pa n raw config.default_currency)
