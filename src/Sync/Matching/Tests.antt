-- ===== src/Sync/Matching/Tests.antt =====
-- A line that is matched by its SKU.
use decathlon_app.Base.{ℕ, [], ◌∷◌, none, some, ◌≡◌, ◌==◌, ◌⊎◌, refl, true}
use decathlon_app.Sync.Samples.{world_with}
use decathlon_app.Sync.Refunds.{is_text}
use decathlon_app.Sync.Store.Rows.{MappingStatus, ProductMapping, Db}
use decathlon_app.Sync.Matching.{OrderItemKeys, match_order_line}
use decathlon_app.Sync.Matching.Priority.{AgreesOn, match_order_line-agrees}

abbrev shirt : ProductMapping
shirt = record {
  id = 9;
  shop_id = "shop";
  shopify_product_id = "p1";
  shopify_variant_id = "v1";
  sku = "A";
  ean = none;
  shop_sku = "A";
  decathlon_product_id = none;
  decathlon_offer_id = none;
  last_payload_hash = none;
  status = MappingStatus.synced;
  last_error = none;
  retry_count = 0;
}

abbrev stock : Db ℕ
stock = record ((world_with []).db) { products = shirt ∷ [] }

abbrev item : OrderItemKeys
item = record { sku = "A"; decathlon_product_id = some "X9"; ean = none }

match_order_line-agrees_example :
    ((shirt.shop_id == "shop") ≡ true)
    × (AgreesOn item.decathlon_product_id (λ k. is_text shirt.decathlon_product_id k)
        ⊎ (AgreesOn (some item.sku) (λ k. shirt.sku == k)
            ⊎ AgreesOn item.ean (λ k. is_text shirt.ean k)))
unfolding match_order_line ◌==◌
match_order_line-agrees_example = match_order_line-agrees "shop" item stock shirt refl
