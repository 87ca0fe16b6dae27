-- ===== src/Sync/Store/Rules.antt =====
-- The writes of packages/database/src/repositories/mapping-rules.repository.ts: the rules that a
-- merchant sets on the mappings page. The labels are left out.
pub mod Lookup
use decathlon_app.Base.{
  String, Bool, not, ◌&&◌, List, [], ◌∷◌, ◌++◌, map, Option, none, some, ◌==◌, find, is_some, keep,
  get_or, if◌then◌else◌,
}
use decathlon_app.Sync.Store.Rows.{CategoryMapping, AttributeValueMapping}
use decathlon_app.Sync.Store.Catalog.{normalize_key}
use decathlon_app.Sync.Products.Models.{Words}

-- The unique index of the rules.
abbrev pub has_rule : String → String → CategoryMapping → Bool
has_rule shop_id key m = (m.shop_id == shop_id) && (m.shopify_product_type == key)

abbrev pub new_rule : String → String → String → CategoryMapping
new_rule shop_id key code = record {
  shop_id = shop_id;
  shopify_product_type = key;
  decathlon_category_code = code;
  gender = none;
  size_chart = none;
}

-- `upsert` of CategoryMappingRepository
pub upsert_rule : Words → String → String → String → List CategoryMapping → List CategoryMapping
upsert_rule t shop_id product_type code rules =
    let key = normalize_key t product_type in
    if is_some (find (has_rule shop_id key) rules)
    then map
        (λ (m : CategoryMapping).
          if has_rule shop_id key m then record m { decathlon_category_code = code } else m)
        rules
    else rules ++ new_rule shop_id key code ∷ []

-- `remove`
pub remove_rule : Words → String → String → List CategoryMapping → List CategoryMapping
remove_rule t shop_id product_type rules =
    keep (λ (m : CategoryMapping). not (has_rule shop_id (normalize_key t product_type) m)) rules

-- `updateDetails`; `none` leaves a field alone, `some none` clears it.
pub update_details :
    Words
    → String
    → String
    → Option (Option String)
    → Option (Option String)
    → List CategoryMapping
    → List CategoryMapping
update_details t shop_id product_type gender size_chart rules =
    map
      (λ (m : CategoryMapping).
        if has_rule shop_id (normalize_key t product_type) m
        then record m {
          gender = get_or gender m.gender;
          size_chart = get_or size_chart m.size_chart;
        }
        else m)
      rules

abbrev pub has_value : String → String → String → AttributeValueMapping → Bool
has_value shop_id attribute_code shopify_value m =
    ((m.shop_id == shop_id) && (m.attribute_code == attribute_code))
    && (m.shopify_value == shopify_value)

-- `upsert` of AttributeValueMappingRepository
pub upsert_value :
    Words
    → String
    → String
    → String
    → String
    → List AttributeValueMapping
    → List AttributeValueMapping
upsert_value t shop_id attribute_code shopify_value code rows =
    let key = normalize_key t shopify_value in
    let row : AttributeValueMapping = record {
      shop_id = shop_id;
      attribute_code = attribute_code;
      shopify_value = key;
      decathlon_code = code;
    } in
    if is_some (find (has_value shop_id attribute_code key) rows)
    then map
        (λ (m : AttributeValueMapping).
          if has_value shop_id attribute_code key m then record m { decathlon_code = code } else m)
        rows
    else rows ++ row ∷ []

pub remove_value :
    Words → String → String → String → List AttributeValueMapping → List AttributeValueMapping
remove_value t shop_id attribute_code shopify_value rows =
    keep
      (λ (m : AttributeValueMapping).
        not (has_value shop_id attribute_code (normalize_key t shopify_value) m))
      rows
