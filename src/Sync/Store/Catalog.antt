-- ===== src/Sync/Store/Catalog.antt =====
-- packages/database/src/repositories/decathlon-catalog-reference.repository.ts and
-- mapping-rules.repository.ts: the catalogue cache and the rules of a shop.
use decathlon_app.Base.{
  ℕ, ◌-◌, String, Bool, ◌&&◌, List, [], ◌∷◌, ◌++◌, map, Option, none, some, ◌==◌, find, is_some,
  ltb, contains, insert, if◌then◌else◌,
}
use decathlon_app.Sync.Store.Rows.{CatalogReference, CategoryMapping, AttributeValueMapping, Db}
use decathlon_app.Sync.Products.Models.{Words, attribute_value_key}

module _ {T : Type 0} where
  abbrev pub has_key : String → String → CatalogReference T → Bool
  has_key shop_id key r = (r.shop_id == shop_id) && (r.key == key)

  -- A row younger than an age, at a time; `none` for an age that nothing exceeds.
  pub find_fresh :
      String → String → Option ℕ → ℕ → List (CatalogReference T) → Option (CatalogReference T)
  find_fresh shop_id key max_age now rows = elim (find (has_key shop_id key) rows) [
    | none ↦ none
    | some r ↦ elim max_age [
      | none ↦ some r
      | some age ↦ if ltb (now - r.fetched_at) age then some r else none
    ]
  ]

  pub upsert_reference :
      String → String → List T → ℕ → List (CatalogReference T) → List (CatalogReference T)
  upsert_reference shop_id key entries now rows =
      let row : CatalogReference T = record {
        shop_id = shop_id;
        key = key;
        entries = entries;
        fetched_at = now;
      } in
      if is_some (find (has_key shop_id key) rows)
      then map (λ (r : CatalogReference T). if has_key shop_id key r then row else r) rows
      else rows ++ row ∷ []

-- `normalizeKey`
abbrev pub normalize_key : Words → String → String
normalize_key t value = t.ops.to_lower (t.ops.trim value)

abbrev pub find_by_product_type :
    {Num : Type 0} → Words → String → String → Db Num → Option CategoryMapping
find_by_product_type t shop_id product_type db =
    find
      (λ (m : CategoryMapping).
        (m.shop_id == shop_id) && (m.shopify_product_type == normalize_key t product_type))
      db.category_mappings

-- `new Map` of the rows for the attributes, by `attributeValueKey`.
pub map_for :
    Words
    → String
    → List String
    → List AttributeValueMapping
    → List (String × String)
    → List (String × String)
map_for t shop_id codes [] found = found
map_for t shop_id codes (m ∷ rows) found = map_for t shop_id codes rows (
    if (m.shop_id == shop_id) && contains m.attribute_code codes
    then insert (attribute_value_key t m.attribute_code m.shopify_value) m.decathlon_code found
    else found)
