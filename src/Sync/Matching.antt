-- ===== src/Sync/Matching.antt =====
-- packages/sync/src/matching.ts and the lookups of
-- packages/database/src/repositories/product-mapping.repository.ts that it uses. The answer of
-- Decathlon's product lookup P31 is the parameter `get_products`.
pub mod Priority
pub mod Tests
use decathlon_app.Base.{
  ℕ, String, Bool, true, false, ◌&&◌, List, [], ◌∷◌, Option, none, some, ◌==◌, find, first_some, M,
  Result, pure, try_catch, is_some, ◌>>=◌, if◌then◌else◌,
}
use decathlon_app.Sync.Lines.{truthy}
use decathlon_app.Sync.Refunds.{is_text}
use decathlon_app.Sync.Outside.{read}
use decathlon_app.Sync.Store.Rows.{ProductMapping, Db, World}

-- What matching reads of a line of a Decathlon order, all of it optional but the SKU.
pub record OrderItemKeys : Type 0 where
  pub sku : String
  pub decathlon_product_id : Option String
  pub ean : Option String

pub record ProductRef : Type 0 where
  pub id : Option String
  pub shop_sku : Option String

pub record Match : Type 0 where
  pub mapping : Option ProductMapping
  pub existing_decathlon_product_id : Option String

abbrev pub find_product :
    {Num : Type 0} → String → (ProductMapping → Bool) → Db Num → Option ProductMapping
find_product shop_id test db =
    find (λ (m : ProductMapping). (m.shop_id == shop_id) && test m) db.products

abbrev pub find_by_variant : {Num : Type 0} → String → String → Db Num → Option ProductMapping
find_by_variant shop_id variant = find_product shop_id (λ m. m.shopify_variant_id == variant)

-- The first row that `findByDecathlonProductId`, `findBySku` and `findByEan` list.
abbrev pub find_by_product_id : {Num : Type 0} → String → String → Db Num → Option ProductMapping
find_by_product_id shop_id id = find_product shop_id (λ m. is_text m.decathlon_product_id id)

abbrev pub find_by_sku : {Num : Type 0} → String → String → Db Num → Option ProductMapping
find_by_sku shop_id sku = find_product shop_id (λ m. m.sku == sku)

abbrev pub find_by_ean : {Num : Type 0} → String → String → Db Num → Option ProductMapping
find_by_ean shop_id ean = find_product shop_id (λ m. is_text m.ean ean)

-- A lookup with a key that is there and is not empty.
abbrev pub with_key : Option String → (String → Option ProductMapping) → Option ProductMapping
with_key key look = elim (truthy key) [ none ↦ none | some k ↦ look k ]

pub match_order_line : {Num : Type 0} → String → OrderItemKeys → Db Num → Option ProductMapping
match_order_line shop_id item db =
    elim (with_key item.decathlon_product_id (λ k. find_by_product_id shop_id k db)) [
      | some m ↦ some m
      | none ↦ elim (with_key (some item.sku) (λ k. find_by_sku shop_id k db)) [
        | some m ↦ some m
        | none ↦ with_key item.ean (λ k. find_by_ean shop_id k db)
      ]
    ]

abbrev pub no_match : Match
no_match = record { mapping = none; existing_decathlon_product_id = none }

-- The first product with the SKU and an id.
pub listed_id : String → List ProductRef → Option String
listed_id sku [] = none
listed_id sku (r ∷ rs) =
    let rest = listed_id sku rs in
    if is_text r.shop_sku sku && is_some (truthy r.id) then r.id else rest

pub match_product_mapping :
    {Num R : Type 0}
    → (String → R → Result (List ProductRef))
    → String
    → String
    → String
    → M (World Num R) Match
match_product_mapping get_products shop_id variant shop_sku w =
    elim (find_by_variant shop_id variant w.db) [
      | some m ↦ pure (record { mapping = some m; existing_decathlon_product_id = none }) w
      | none ↦
          try_catch
            (read (get_products shop_sku) >>= λ rows.
              pure (record {
                mapping = none;
                existing_decathlon_product_id = listed_id shop_sku rows;
              }))
            (λ _. pure no_match) w
    ]
