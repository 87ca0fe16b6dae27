-- ===== src/Sync/ProductSync/Shopify.antt =====
-- `normalizeShopifyProduct` of packages/sync/src/adapters/shopify.adapter.ts and
-- `effectiveProductType` of packages/shopify/src/products.ts.
use decathlon_app.Base.{
  String, List, [], ◌∷◌, Option, none, some, ◌==◌, first_some, get_or, head?, keep, flat_map,
  concat, insert, Result, ok, err, validation, if◌then◌else◌,
}
use mathlib.Core.List.{foldl}
use decathlon_app.Sync.Lines.{truthy}
use decathlon_app.Sync.Money.{NumOps}
use decathlon_app.Sync.OrderImport.Models.{Json, Fields, null, object, field, end}
use decathlon_app.Sync.Products.Models.{Words, NormalizedProduct, NormalizedVariant}

-- The quantities of the inventory levels, by their name.
pub record ShopifyVariantNode (Num : Type 0) : Type 0 where
  pub id : String
  pub sku : Option String
  pub barcode : Option String
  pub price : String
  pub selected_options : List (String × String)
  pub inventory_levels : List (List (String × Num))

pub record ShopifyProduct (Num : Type 0) : Type 0 where
  pub id : String
  pub status : String
  pub title : String
  pub description_html : Option String
  pub vendor : Option String
  pub product_type : Option String
  pub category_name : Option String
  pub images : List String
  pub decathlon_category : Option String
  pub decathlon_attributes : Option String
  pub variants : List (ShopifyVariantNode Num)

-- `JSON.parse`, `String(value)` and `Number(text)`.
pub record Parsing (Num : Type 0) : Type 0 where
  pub parse_json : String → Option (Json Num)
  pub text_of_json : Json Num → String
  pub number_of : String → Num

abbrev pub effective_product_type : {Num : Type 0} → Words → ShopifyProduct Num → Option String
effective_product_type t p =
    first_some (truthy (some (t.ops.trim (get_or p.product_type ""))))
      (truthy (some (t.ops.trim (get_or p.category_name ""))))

module _ {Num : Type 0} (t : Words) (pa : Parsing Num) where
  -- The overrides that say something, trimmed, by their keys.
  pub overrides_in : Fields Num → List (String × String) → List (String × String)
  overrides_in end found = found
  overrides_in (field key value rest) found = overrides_in rest (elim value [
    | null ↦ found
    | given ↦
        if t.ops.trim (pa.text_of_json given) == ""
        then found
        else insert (t.ops.trim key) (t.ops.trim (pa.text_of_json given)) found
  ])

  pub attributes_of : ShopifyProduct Num → Result (List (String × String))
  attributes_of p = elim (truthy p.decathlon_attributes) [
    | none ↦ ok []
    | some raw ↦ elim (pa.parse_json raw) [
      | some (object fields) ↦ ok (overrides_in fields [])
      | _ ↦ err (
          validation (
            concat (
              "Shopify product " ∷ p.id
              ∷ " has an invalid \"custom.decathlon_attributes\" metafield — it must be a JSON object of Decathlon attribute code -> value, e.g. {\"SPORT_ALL\": \"indoor cycling\"}"
              ∷ [])))
    ]
  ]

  pub set_options : List (String × String) → List (String × String) → List (String × String)
  set_options [] values = values
  set_options ((name, value) ∷ options) values = set_options options (insert name value values)

  module _ (n : NumOps Num) where
    abbrev pub available_of : ShopifyVariantNode Num → Num
    available_of node =
        foldl (λ sum (q : String × Num). n.add sum q.1) (n.of_ℕ 0)
          (keep (λ (q : String × Num). q.0 == "available")
            (flat_map (λ levels. levels) node.inventory_levels))

    pub normalize_variant : String → ShopifyVariantNode Num → Result (NormalizedVariant Num)
    normalize_variant currency node = elim (truthy node.sku) [
      | none ↦ err (
          validation (
            concat (
              "Shopify variant " ∷ node.id ∷ " has no SKU set — required as the Decathlon shop_sku"
              ∷ [])))
      | some sku ↦ ok (record {
        shopify_variant_id = some node.id;
        sku = sku;
        ean = node.barcode;
        price = pa.number_of node.price;
        currency = currency;
        inventory_quantity = available_of node;
        option_values = set_options node.selected_options [];
      })
    ]

    pub normalize_variants :
        String → List (ShopifyVariantNode Num) → Result (List (NormalizedVariant Num))
    normalize_variants currency [] = ok []
    normalize_variants currency (node ∷ nodes) =
        let rest = normalize_variants currency nodes in
        elim (normalize_variant currency node) [
          | err e ↦ err e
          | ok v ↦ elim rest [ err e ↦ err e | ok vs ↦ ok (v ∷ vs) ]
        ]

    abbrev pub product_of :
        ShopifyProduct Num
        → List (String × String)
        → List (NormalizedVariant Num)
        → NormalizedProduct Num
    product_of p overrides variants = record {
      shop_sku = elim (head? variants) [ none ↦ p.id | some v ↦ v.sku ];
      title = p.title;
      status = some p.status;
      description = p.description_html;
      brand = p.vendor;
      category_code = truthy p.decathlon_category;
      product_type = effective_product_type t p;
      images = p.images;
      variants = variants;
      attributes = overrides;
    }

    pub normalize_shopify_product :
        Option (ShopifyProduct Num) → String → Result (NormalizedProduct Num)
    normalize_shopify_product none currency =
        err (validation "Shopify product not found (deleted, or id no longer valid)")
    normalize_shopify_product (some p) currency = elim (attributes_of p) [
      | err e ↦ err e
      | ok overrides ↦ elim (normalize_variants currency p.variants) [
        | err e ↦ err e
        | ok variants ↦ ok (product_of p overrides variants)
      ]
    ]
