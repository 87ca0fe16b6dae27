-- ===== src/Sync/ProductSync/Offers.antt =====
-- `syncOffers`, `resolveProductIds` and `fetchFreshVariants` of packages/sync/src/engine.ts.
use decathlon_app.Base.{
  ℕ, String, true, false, ◌&&◌, List, [], ◌∷◌, map, Option, none, some, every, leb, is_nil, is_some,
  length, lookup, insert, M, pure, gets, throw, attempt, Result, ok, err, other, message, for_each,
  ◌>>=◌, ◌>>◌, if◌then◌else◌,
}
use decathlon_app.Sync.Lines.{truthy}
use decathlon_app.Sync.Money.{NumOps, is_nonzero}
use decathlon_app.Sync.Outside.{Outside, read, send}
use decathlon_app.Sync.Store.Rows.{
  SyncStatus, ProductMapping, SyncConfiguration, offer_sync, World, Db,
}
use decathlon_app.Sync.Store.Jobs.{write_log, finish_job, update_progress, ensure_sync_job}
use decathlon_app.Sync.Store.Orders.{get_config}
use decathlon_app.Sync.Lifecycle.{correlation_of}
use decathlon_app.Sync.Matching.{find_by_variant}
use decathlon_app.Sync.Imports.Poll.{mark_failed}
use decathlon_app.Sync.OrderImport.Import.{fail_job}
use decathlon_app.Sync.Products.Models.{Words, NormalizedVariant, NormalizedProduct}
use decathlon_app.Sync.Products.Offers.{OfferConfig, OfferImportRow, build_offer_import_payload}
use decathlon_app.Sync.ProductSync.Shopify.{Parsing, ShopifyProduct, normalize_shopify_product}
use decathlon_app.Sync.ProductSync.Prepare.{ProductApi, describe_product, distinct_from}
use decathlon_app.Sync.ProductSync.Products.{ImportSubmission}

pub record OfferSyncJobPayload : Type 0 where
  pub shop_id : String
  pub shopify_variant_ids : List String
  pub correlation_id : Option String
  pub sync_job_id : Option ℕ

-- OF24 and OF01, which answer with the id of the import; and `Math.trunc`.
pub record OfferCalls (Num R : Type 0) : Type 0 where
  pub upsert_offers : List (OfferImportRow Num) → R → Result (Option String) × R
  pub import_offers : List (OfferImportRow Num) → R → Result (Option String) × R
  pub trunc : Num → Num

-- The mappings with a product at Decathlon, in the order of the payload.
pub eligible_in : {Num : Type 0} → String → List String → Db Num → List ProductMapping
eligible_in shop_id [] db = []
eligible_in shop_id (id ∷ ids) db =
    let rest = eligible_in shop_id ids db in
    elim (find_by_variant shop_id id db) [
      | none ↦ rest
      | some m ↦ elim (truthy m.decathlon_product_id) [ none ↦ rest | some _ ↦ m ∷ rest ]
    ]

pub product_ids_from :
    List (Option (String × String)) → List (String × String) → List (String × String)
product_ids_from [] found = found
product_ids_from (none ∷ nodes) found = product_ids_from nodes found
product_ids_from (some (variant, id) ∷ nodes) found =
    product_ids_from nodes (insert variant id found)

module _ {Num : Type 0} where
  pub index_variants :
      List (NormalizedVariant Num)
      → List (String × NormalizedVariant Num)
      → List (String × NormalizedVariant Num)
  index_variants [] found = found
  index_variants (v ∷ vs) found =
      index_variants vs
        (elim (truthy v.shopify_variant_id) [ none ↦ found | some id ↦ insert id v found ])

  abbrev pub index_product :
      Result (NormalizedProduct Num)
      → List (String × NormalizedVariant Num)
      → List (String × NormalizedVariant Num)
  index_product (err e) found = found
  index_product (ok product) found = index_variants product.variants found

  pub fresh_variants :
      List ProductMapping → List (String × NormalizedVariant Num) → List (NormalizedVariant Num)
  fresh_variants [] found = []
  fresh_variants (m ∷ ms) found = elim (lookup m.shopify_variant_id found) [
    | none ↦ fresh_variants ms found
    | some v ↦ v ∷ fresh_variants ms found
  ]

module _ {Num R : Type 0} (t : Words) (n : NumOps Num) (pa : Parsing Num) (api : ProductApi Num R)
    (calls : OfferCalls Num R) (o : Outside Num R) where
  pub resolve_product_ids : List String → M (World Num R) (List (String × String))
  resolve_product_ids variant_ids = elim (is_nil variant_ids) [
    | true ↦ pure []
    | false ↦ do
      nodes ← read (api.variants_to_products variant_ids)
      pure (product_ids_from nodes [])
  ]

  abbrev pub normalized :
      SyncConfiguration Num → Result (Option (ShopifyProduct Num)) → Result (NormalizedProduct Num)
  normalized config (err e) = err e
  normalized config (ok raw) = normalize_shopify_product t pa n raw config.default_currency

  -- A product that cannot be had is left out.
  pub fetch_fresh_variants :
      List String
      → SyncConfiguration Num
      → List (String × NormalizedVariant Num)
      → M (World Num R) (List (String × NormalizedVariant Num))
  fetch_fresh_variants [] config found = pure found
  fetch_fresh_variants (id ∷ ids) config found = do
    raw ← attempt (read (api.get_product id))
    fetch_fresh_variants ids config (index_product (normalized config raw) found)

  abbrev pub percent : Option Num → Option Num
  percent none = none
  percent (some p) = if is_nonzero n p then some p else none

  abbrev pub offer_config : SyncConfiguration Num → OfferConfig Num
  offer_config config = record {
    price_markup_percent = percent config.price_markup_percent;
    price_discount_percent = percent config.price_discount_percent;
    default_currency = config.default_currency;
    offer_state_code = config.offer_state_code;
  }

  -- OF24 for at most 50 offers that Decathlon has, else OF01.
  pub push_offers :
      List ProductMapping
      → List (NormalizedVariant Num)
      → SyncConfiguration Num
      → M (World Num R) (Option String)
  push_offers eligible variants config =
      let rows = build_offer_import_payload n calls.trunc variants (offer_config config) in
      if every (λ (m : ProductMapping). is_some (truthy m.decathlon_offer_id)) eligible
        && leb (length variants) 50
      then send (calls.upsert_offers rows)
      else send (calls.import_offers rows)

  pub after_push :
      OfferSyncJobPayload
      → String
      → ℕ
      → List ProductMapping
      → List (NormalizedVariant Num)
      → Result (Option String)
      → M (World Num R) (Option ImportSubmission)
  after_push p correlation_id job eligible variants (err e) =
      for_each eligible (λ m. mark_failed p.shop_id m.shopify_variant_id (message e))
      >> (fail_job p.shop_id job offer_sync correlation_id none e >> throw e)
  after_push p correlation_id job eligible variants (ok answer) = elim (truthy answer) [
    | none ↦
        fail_job p.shop_id job offer_sync correlation_id none
          (other "Offer import response missing import_id")
        >> pure none
    | some import_id ↦ do
      let item_label =
          describe_product t n "Price & stock" (map (λ (v : NormalizedVariant Num). v.sku) variants)
      write_log (record {
        shop_id = p.shop_id;
        sync_job_id = some job;
        type = offer_sync;
        status = SyncStatus.processing;
        decathlon_id = none;
        shopify_id = none;
        item_label = some item_label;
        error_message = none;
        correlation_id = correlation_id;
      })
      update_progress job (length variants) (length variants)
      pure (
          some (record {
            import_id = import_id;
            shopify_variant_ids = map (λ (m : ProductMapping). m.shopify_variant_id) eligible;
            correlation_id = correlation_id;
            sync_job_id = job;
            item_label = item_label;
          }))
  ]

  pub push_variants :
      OfferSyncJobPayload
      → String
      → ℕ
      → SyncConfiguration Num
      → List ProductMapping
      → List (NormalizedVariant Num)
      → M (World Num R) (Option ImportSubmission)
  push_variants p correlation_id job config eligible variants = elim (is_nil variants) [
    | true ↦
        finish_job job SyncStatus.failed
          (some "Could not re-fetch fresh price/stock for any eligible variant")
        >> pure none
    | false ↦
        attempt (push_offers eligible variants config)
        >>= after_push p correlation_id job eligible variants
  ]

  pub push_eligible :
      OfferSyncJobPayload
      → String
      → ℕ
      → SyncConfiguration Num
      → List ProductMapping
      → M (World Num R) (Option ImportSubmission)
  push_eligible p correlation_id job config eligible = elim (is_nil eligible) [
    | true ↦
        finish_job job SyncStatus.skipped
          (some "No variant has been product-synced to Decathlon yet")
        >> pure none
    | false ↦ do
      product_ids ←
          resolve_product_ids (map (λ (m : ProductMapping). m.shopify_variant_id) eligible)
      found ←
          fetch_fresh_variants (distinct_from [] (map (λ (e : String × String). e.1) product_ids))
            config []
      push_variants p correlation_id job config eligible (fresh_variants eligible found)
  ]

  pub sync_offers : OfferSyncJobPayload → M (World Num R) (Option ImportSubmission)
  sync_offers p = do
    correlation_id ← correlation_of o p.correlation_id
    job ← ensure_sync_job p.shop_id offer_sync p.sync_job_id
    config ← get_config p.shop_id
    eligible ← gets (λ w. eligible_in p.shop_id p.shopify_variant_ids w.db)
    push_eligible p correlation_id job config eligible
