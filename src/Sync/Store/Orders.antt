-- ===== src/Sync/Store/Orders.antt =====
-- packages/database/src/repositories/order-mapping.repository.ts and sync-configuration: lookups by
-- key, and updates.
use decathlon_app.Base.{
  ◌>>◌, ℕ, String, Bool, false, ◌&&◌, [], ◌∷◌, ◌++◌, map, Option, none, some, ◌==◌, eqb, find, M,
  any, not, throw, other, pure, if◌then◌else◌,
}
use decathlon_app.Sync.Store.Rows.{Db, World, OrderMapping, SyncConfiguration}
use decathlon_app.Sync.Store.Jobs.{on_db}

abbrev pub has_decathlon_id : String → String → OrderMapping → Bool
has_decathlon_id shop_id id o = (o.shop_id == shop_id) && (o.decathlon_order_id == id)

abbrev pub has_shopify_id : String → String → OrderMapping → Bool
has_shopify_id shop_id id o = (o.shop_id == shop_id) && (o.shopify_order_id == id)

abbrev pub is_commercial_id : Option String → String → Bool
is_commercial_id none id = false
is_commercial_id (some c) id = c == id

abbrev pub default_configuration : {Num : Type 0} → String → SyncConfiguration Num
default_configuration shop_id = record {
  shop_id = shop_id;
  default_currency = "EUR";
  price_markup_percent = none;
  price_discount_percent = none;
  offer_state_code = "11";
  refund_reason_code = none;
  order_import_cursor_offset = 0;
  manufacturer_email = none;
  fallback_brand_name = none;
  color_option_name = none;
  size_option_name = none;
}

abbrev pub rekeyed : String → String → OrderMapping → OrderMapping
rekeyed order_id commercial_id o = record o {
  decathlon_order_id = order_id;
  decathlon_commercial_id = some commercial_id;
}

module _ {Num : Type 0} where
  abbrev pub find_by_decathlon_id : String → String → Db Num → Option OrderMapping
  find_by_decathlon_id shop_id id db = find (has_decathlon_id shop_id id) db.orders

  abbrev pub find_by_shopify_id : String → String → Db Num → Option OrderMapping
  find_by_shopify_id shop_id id db = find (has_shopify_id shop_id id) db.orders

  abbrev pub find_by_commercial_id : String → String → Db Num → Option OrderMapping
  find_by_commercial_id shop_id id db =
      find (λ o. (o.shop_id == shop_id) && is_commercial_id o.decathlon_commercial_id id) db.orders

  -- The unique index on the shop and the order's id: no other row may have the new key.
  abbrev pub is_taken : String → ℕ → String → Db Num → Bool
  is_taken shop_id id order_id db =
      any (λ (o : OrderMapping). has_decathlon_id shop_id order_id o && not (eqb o.id id)) db.orders

module _ {Num R : Type 0} where
  abbrev pub update_orders :
      (OrderMapping → Bool) → (OrderMapping → OrderMapping) → M (World Num R) (Unit {0})
  update_orders test f =
      on_db
        λ db. record db { orders = map (λ (o : OrderMapping). if test o then f o else o) db.orders }

  abbrev pub rekey : OrderMapping → String → String → M (World Num R) (Unit {0})
  rekey order order_id commercial_id w =
      if is_taken order.shop_id order.id order_id w.db
      then throw (other "Unique constraint failed on the fields: (`shopId`,`decathlonOrderId`)") w
      else update_orders (λ o. eqb o.id order.id) (rekeyed order_id commercial_id) w

  abbrev pub update_status : String → String → String → M (World Num R) (Unit {0})
  update_status shop_id order_id status =
      update_orders (has_decathlon_id shop_id order_id)
        (λ o. record o { decathlon_order_status = some status })

  abbrev pub record_shipment : String → String → String → String → M (World Num R) (Unit {0})
  record_shipment shop_id order_id shipment_id fulfillment_id =
      update_orders (has_decathlon_id shop_id order_id) (λ o. record o {
        decathlon_shipment_id = some shipment_id;
        shopify_fulfillment_id = some fulfillment_id;
      })

  -- `getOrCreateDefault`
  abbrev pub get_config : String → M (World Num R) (SyncConfiguration Num)
  get_config shop_id w =
      elim (find (λ (c : SyncConfiguration Num). c.shop_id == shop_id) w.db.configs) [
        | some c ↦ pure c w
        | none ↦
            let c = default_configuration shop_id in
            pure c (record w { db = record (w.db) { configs = w.db.configs ++ c ∷ [] } })
      ]

  -- Afterwards the row found under the commercial id, as it is then.
  abbrev pub repair_legacy_id : String → String → String → M (World Num R) (Option OrderMapping)
  repair_legacy_id shop_id order_id commercial_id w =
      elim (find_by_decathlon_id shop_id commercial_id w.db) [
        | none ↦ pure none w
        | some legacy ↦
            if legacy.decathlon_order_id == order_id
            then pure (some legacy) w
            else (rekey legacy order_id commercial_id
                  >> pure (some (rekeyed order_id commercial_id legacy)))
                w
      ]
