-- ===== src/Sync/OrderImport/Import.antt =====
-- `importOrders`, `importOneOrder` and `failJob` of packages/sync/src/engine.ts, with
-- `createIfNotExists` of packages/database/src/repositories/order-mapping.repository.ts.
pub mod Idempotence
pub mod Unique
pub mod Steps
pub mod Sound
pub mod Pages
pub mod Once
pub mod Tests
use decathlon_app.Base.{
  ℕ, suc, ◌+◌, String, Bool, true, false, not, ◌&&◌, List, [], ◌∷◌, ◌++◌, map, Option, none, some,
  ◌==◌, any, get_or, first_some, is_some, is_nil, concat, join, length, lookup, insert, M, pure,
  gets, throw, try_catch, attempt, recover, Result, ok, err, Error, other, message, ◌>>=◌, ◌>>◌,
  if◌then◌else◌, ltb,
}
use decathlon_app.Sync.Lines.{truthy, OrderLineItem}
use decathlon_app.Sync.Money.{NumOps}
use decathlon_app.Sync.Matching.{OrderItemKeys, match_order_line}
use decathlon_app.Sync.Outside.{Outside, read, send}
use decathlon_app.Sync.Store.Rows.{
  SyncStatus, SyncLog, SyncJobType, order_import, MappingStatus, OrderMapping, ProductMapping,
  SyncConfiguration, World, Db,
}
use decathlon_app.Sync.Store.Jobs.{on_db, write_log, finish_job, update_progress, ensure_sync_job}
use decathlon_app.Sync.Store.Orders.{
  get_config, find_by_decathlon_id, find_by_shopify_id, repair_legacy_id,
}
use decathlon_app.Sync.Lifecycle.{correlation_of}
use decathlon_app.Sync.OrderImport.Models.{
  Json, NormalizedOrderItem, NormalizedOrder, Runtime, get, is_null, declared_text,
}
use decathlon_app.Sync.OrderImport.Normalize.{extract_orders_array, normalize_decathlon_order}
use decathlon_app.Sync.OrderImport.ShopifyInput.{OrderCreateOrderInput, build_shopify_order_input}

pub record OrderImportJobPayload : Type 0 where
  pub shop_id : String
  pub correlation_id : Option String
  pub sync_job_id : Option ℕ

-- The messages of the user errors, and the id of the order.
pub record OrderCreateResponse : Type 0 where
  pub user_errors : List String
  pub order : Option String

-- The calls of the import: the currency of the shop and the creation of an order at Shopify, and a
-- page of orders at Decathlon, from an offset and of a size.
pub record Remote (Num R : Type 0) : Type 0 where
  pub shop_info : R → Result String
  pub order_create : OrderCreateOrderInput Num → R → Result OrderCreateResponse × R
  pub list_orders_awaiting_shipment : ℕ → ℕ → R → Result (Json Num)

module _ {Num R : Type 0} where
  -- The job ends as failed, with a log row.
  pub fail_job :
      String → ℕ → SyncJobType → String → Option String → Error → M (World Num R) (Unit {0})
  fail_job shop_id job type correlation_id item_label e = do
    write_log (record {
      shop_id = shop_id;
      sync_job_id = some job;
      type = type;
      status = SyncStatus.failed;
      decathlon_id = none;
      shopify_id = none;
      item_label = item_label;
      error_message = some (message e);
      correlation_id = correlation_id;
    })
    finish_job job SyncStatus.failed (some (message e))

  abbrev pub set_cursor : String → ℕ → M (World Num R) (Unit {0})
  set_cursor shop_id offset = on_db λ db. record db {
    configs =
        map
          (λ (c : SyncConfiguration Num).
            if c.shop_id == shop_id then record c { order_import_cursor_offset = offset } else c)
          db.configs;
  }

module _ {Num : Type 0} (rt : Runtime Num) where
  -- `none` if a quantity is not one that the database takes.
  pub line_rows :
      List (String × ProductMapping) → List (NormalizedOrderItem Num) → Option (List OrderLineItem)
  line_rows matched [] = some []
  line_rows matched (i ∷ items) = elim (rt.count_of i.quantity) [
    | none ↦ none
    | some quantity ↦ elim (line_rows matched items) [
      | none ↦ none
      | some rows ↦ some (
          record {
            decathlon_order_line_id = i.decathlon_order_line_id;
            sku = i.sku;
            quantity = quantity;
            variant = elim (lookup i.decathlon_order_line_id matched) [
              | none ↦ none
              | some m ↦ some m.shopify_variant_id
            ];
            currency = i.currency;
          }
          ∷ rows)
    ]
  ]

  abbrev pub mapping_row :
      String → String → NormalizedOrder Num → MappingStatus → List OrderLineItem → ℕ → OrderMapping
  mapping_row shop_id shopify_order_id order match_status line_items id = record {
    id = id;
    shop_id = shop_id;
    shopify_order_id = shopify_order_id;
    decathlon_order_id = order.external_id;
    decathlon_commercial_id = order.commercial_id;
    decathlon_order_status = some order.status;
    decathlon_shipment_id = none;
    shopify_fulfillment_id = none;
    match_status = match_status;
    line_items = line_items;
  }

  -- The insert fails if another order has the Shopify id, or on a quantity that is not a count.
  pub create_if_not_exists :
      {R : Type 0}
      → String
      → String
      → NormalizedOrder Num
      → MappingStatus
      → List (String × ProductMapping)
      → M (World Num R) (Unit {0})
  create_if_not_exists shop_id shopify_order_id order match_status matched w =
      elim (find_by_decathlon_id shop_id order.external_id w.db) [
        | some _ ↦ pure tt w
        | none ↦ elim (find_by_shopify_id shop_id shopify_order_id w.db) [
          | some _ ↦ throw (other "Unique constraint failed") w
          | none ↦ elim (line_rows matched order.items) [
            | none ↦ throw (other "Invalid quantity") w
            | some rows ↦ pure tt (record w {
              db = record (w.db) {
                next_id = w.db.next_id + 1;
                orders =
                    w.db.orders
                    ++ mapping_row shop_id shopify_order_id order match_status rows w.db.next_id
                      ∷ [];
              };
            })
          ]
        ]
      ]

module _ {Num R : Type 0} (n : NumOps Num) (rt : Runtime Num) (remote : Remote Num R) where
  -- `new Map` of the mappings by line, filled line by line.
  pub match_items :
      String
      → List (NormalizedOrderItem Num)
      → List (String × ProductMapping)
      → Db Num
      → List (String × ProductMapping)
  match_items shop_id [] matched db = matched
  match_items shop_id (i ∷ items) matched db =
      let keys : OrderItemKeys = record { sku = i.sku; decathlon_product_id = none; ean = none } in
      match_items shop_id items
        (elim (match_order_line shop_id keys db) [
          | none ↦ matched
          | some m ↦ insert i.decathlon_order_line_id m matched
        ])
        db

  abbrev pub variants_of : List (String × ProductMapping) → List (String × String)
  variants_of = map λ (e : String × ProductMapping). (e.0, e.1.shopify_variant_id)

  abbrev pub any_unmatched : List (NormalizedOrderItem Num) → List (String × ProductMapping) → Bool
  any_unmatched items matched =
      any
        (λ (i : NormalizedOrderItem Num). not (is_some (lookup i.decathlon_order_line_id matched)))
        items

  pub already_imported : String → NormalizedOrder Num → M (World Num R) (Option OrderMapping)
  already_imported shop_id order w = elim (find_by_decathlon_id shop_id order.external_id w.db) [
    | some m ↦ pure (some m) w
    | none ↦ elim (truthy order.commercial_id) [
      | none ↦ pure none w
      | some id ↦ repair_legacy_id shop_id order.external_id id w
    ]
  ]

  abbrev pub order_create_failed : List String → Error
  order_create_failed user_errors =
      other (concat ("Shopify orderCreate failed: " ∷ join "; " user_errors ∷ []))

  abbrev pub match_status_of :
      List (NormalizedOrderItem Num) → List (String × ProductMapping) → MappingStatus
  match_status_of items matched = elim (any_unmatched items matched) [
    | true ↦ MappingStatus.pending
    | false ↦ MappingStatus.synced
  ]

  abbrev pub imported_log : String → String → ℕ → NormalizedOrder Num → String → SyncLog
  imported_log shop_id correlation_id job order shopify_order_id = record {
    shop_id = shop_id;
    sync_job_id = some job;
    type = order_import;
    status = SyncStatus.success;
    decathlon_id = some order.external_id;
    shopify_id = some shopify_order_id;
    item_label = none;
    error_message = none;
    correlation_id = correlation_id;
  }

  -- What follows a created order.
  pub record_order :
      String
      → String
      → ℕ
      → NormalizedOrder Num
      → List (String × ProductMapping)
      → String
      → M (World Num R) (Unit {0})
  record_order shop_id correlation_id job order matched shopify_order_id =
      create_if_not_exists rt shop_id shopify_order_id order (match_status_of order.items matched)
        matched
      >> write_log (imported_log shop_id correlation_id job order shopify_order_id)

  pub after_create :
      String
      → String
      → ℕ
      → NormalizedOrder Num
      → List (String × ProductMapping)
      → OrderCreateResponse
      → M (World Num R) (Unit {0})
  after_create shop_id correlation_id job order matched created =
      elim (is_nil created.user_errors) [
        | false ↦ throw (order_create_failed created.user_errors)
        | true ↦ elim created.order [
          | none ↦ throw (order_create_failed created.user_errors)
          | some id ↦ record_order shop_id correlation_id job order matched id
        ]
      ]

  pub create_order :
      String
      → String
      → ℕ
      → String
      → NormalizedOrder Num
      → List (String × ProductMapping)
      → M (World Num R) (Unit {0})
  create_order shop_id correlation_id job shop_currency order matched =
      send (
        remote.order_create
          (build_shopify_order_input rt order (variants_of matched) shop_currency))
      >>= after_create shop_id correlation_id job order matched

  -- The import of an order that has no row.
  pub import_unless :
      String
      → String
      → ℕ
      → String
      → NormalizedOrder Num
      → Option OrderMapping
      → M (World Num R) (Unit {0})
  import_unless shop_id correlation_id job shop_currency order (some _) = pure tt
  import_unless shop_id correlation_id job shop_currency order none =
      gets (λ w. match_items shop_id order.items [] w.db)
      >>= create_order shop_id correlation_id job shop_currency order

  pub import_normalized :
      String → String → ℕ → String → NormalizedOrder Num → M (World Num R) (Unit {0})
  import_normalized shop_id correlation_id job shop_currency order =
      already_imported shop_id order
      >>= import_unless shop_id correlation_id job shop_currency order

  pub import_one_order : String → Json Num → String → ℕ → String → M (World Num R) (Unit {0})
  import_one_order shop_id dto correlation_id job shop_currency =
      elim (normalize_decathlon_order n rt dto) [
        | err e ↦ throw e
        | ok order ↦ import_normalized shop_id correlation_id job shop_currency order
      ]

  -- The log row of an order that could not be imported; its ids are read from the entry, which throws
  -- if it is null.
  pub order_failed : String → String → ℕ → Json Num → Error → M (World Num R) (Unit {0})
  order_failed shop_id correlation_id job dto e = elim (is_null dto) [
    | true ↦ throw (other "Cannot read properties of null (reading 'order_id')")
    | false ↦ write_log (record {
      shop_id = shop_id;
      sync_job_id = some job;
      type = order_import;
      status = SyncStatus.failed;
      decathlon_id =
          first_some (declared_text (get "order_id" dto)) (declared_text (get "commercial_id" dto));
      shopify_id = none;
      item_label = none;
      error_message = some (message e);
      correlation_id = correlation_id;
    })
  ]

  -- The loop over the page, with the number of orders taken so far and that of all.
  pub import_page :
      String → String → ℕ → String → ℕ → ℕ → List (Json Num) → M (World Num R) (Unit {0})
  import_page shop_id correlation_id job shop_currency processed total [] = pure tt
  import_page shop_id correlation_id job shop_currency processed total (dto ∷ dtos) = do
    try_catch (import_one_order shop_id dto correlation_id job shop_currency)
        (order_failed shop_id correlation_id job dto)
    update_progress job (suc processed) total
    import_page shop_id correlation_id job shop_currency (suc processed) total dtos

  pub import_listed :
      String → String → ℕ → String → ℕ → List (Json Num) → M (World Num R) (Unit {0})
  import_listed shop_id correlation_id job shop_currency offset orders = elim (is_nil orders) [
    | true ↦
        (if ltb 0 offset then set_cursor shop_id 0 else pure tt)
        >> finish_job job SyncStatus.success none
    | false ↦ do
      import_page shop_id correlation_id job shop_currency 0 (length orders) orders
      set_cursor shop_id (offset + length orders)
      finish_job job SyncStatus.success none
  ]

  -- What follows the call for the page.
  pub after_listing :
      String → String → ℕ → ℕ → String → Result (Json Num) → M (World Num R) (Unit {0})
  after_listing shop_id correlation_id job offset shop_currency (err e) =
      fail_job shop_id job order_import correlation_id none e >> throw e
  after_listing shop_id correlation_id job offset shop_currency (ok page) =
      import_listed shop_id correlation_id job shop_currency offset (extract_orders_array page)

  pub import_from : String → String → ℕ → ℕ → M (World Num R) (Unit {0})
  import_from shop_id correlation_id job offset = do
    shop_currency ← read remote.shop_info
    raw ← attempt (read (remote.list_orders_awaiting_shipment offset 50))
    after_listing shop_id correlation_id job offset shop_currency raw

  pub import_started : String → String → ℕ → M (World Num R) (Unit {0})
  import_started shop_id correlation_id job = do
    config ← get_config shop_id
    import_from shop_id correlation_id job config.order_import_cursor_offset

  pub import_orders : Outside Num R → OrderImportJobPayload → M (World Num R) (Unit {0})
  import_orders o p = do
    correlation_id ← correlation_of o p.correlation_id
    job ← ensure_sync_job p.shop_id order_import p.sync_job_id
    import_started p.shop_id correlation_id job
