-- ===== src/Sync/ProductSync/Products.antt =====
-- `syncProduct` of packages/sync/src/engine.ts, with `upsertForVariant` of
-- packages/database/src/repositories/product-mapping.repository.ts.
use decathlon_app.Base.{
  ℕ, ◌+◌, String, Bool, true, false, not, List, [], ◌∷◌, ◌++◌, map, Option, none, some, ◌==◌, any,
  keep, first_some, get_or, is_nil, is_some, length, lookup, insert, M, pure, throw, attempt,
  Result, ok, err, other, message, for_each, ◌>>=◌, ◌>>◌, if◌then◌else◌,
}
use decathlon_app.Sync.Lines.{truthy}
use decathlon_app.Sync.Refunds.{is_text}
use decathlon_app.Sync.Money.{NumOps}
use decathlon_app.Sync.Outside.{Outside, send}
use decathlon_app.Sync.Store.Rows.{SyncStatus, MappingStatus, ProductMapping, product_sync, World}
use decathlon_app.Sync.Store.Jobs.{on_db, write_log, finish_job, update_progress, ensure_sync_job}
use decathlon_app.Sync.Lifecycle.{correlation_of}
use decathlon_app.Sync.Matching.{find_by_variant}
use decathlon_app.Sync.Imports.Poll.{is_mapping_of}
use decathlon_app.Sync.OrderImport.Import.{fail_job}
use decathlon_app.Sync.Products.Models.{Words, NormalizedVariant, ProductImportRow}
use decathlon_app.Sync.ProductSync.Shopify.{Parsing}
use decathlon_app.Sync.ProductSync.Prepare.{
  ProductApi, ReadyProduct, PreparedProduct, PrepareOptions, inactive, no_variants, invalid, ready,
  describe_product, variant_key, prepare_product_import,
}

-- `trigger` tells whether a webhook started the job.
pub record ProductSyncJobPayload : Type 0 where
  pub shop_id : String
  pub shopify_product_id : String
  pub shopify_variant_ids : Option (List String)
  pub from_webhook : Bool
  pub correlation_id : Option String
  pub sync_job_id : Option ℕ

pub record ImportSubmission : Type 0 where
  pub import_id : String
  pub shopify_variant_ids : List String
  pub correlation_id : String
  pub sync_job_id : ℕ
  pub item_label : String

pub data ProductSyncResult : Type 0 where
  submitted : ImportSubmission → ProductSyncResult
  unchanged : List String → String → ProductSyncResult
  nothing : ProductSyncResult

-- `importProducts` (P41) answers with the id of the import; `digest` is `hashImportRow`'s SHA-256 of
-- the JSON text of the columns, and `sort_keys` its order of them.
pub record ImportCalls (R : Type 0) : Type 0 where
  pub import_products : List ProductImportRow → R → Result (Option String) × R
  pub sort_keys : ProductImportRow → ProductImportRow
  pub digest : ProductImportRow → String

pub record MappingData : Type 0 where
  pub sku : String
  pub ean : Option String
  pub shop_sku : String
  pub decathlon_product_id : Option String
  pub last_payload_hash : Option String

abbrev pub new_mapping : String → String → String → MappingData → ℕ → ProductMapping
new_mapping shop_id product_id variant d id = record {
  id = id;
  shop_id = shop_id;
  shopify_product_id = product_id;
  shopify_variant_id = variant;
  sku = d.sku;
  ean = d.ean;
  shop_sku = d.shop_sku;
  decathlon_product_id = d.decathlon_product_id;
  decathlon_offer_id = none;
  last_payload_hash = d.last_payload_hash;
  status = MappingStatus.pending;
  last_error = none;
  retry_count = 0;
}

-- An undefined field is left alone, and so is a product id that is not given.
abbrev pub updated_mapping : MappingData → ProductMapping → ProductMapping
updated_mapping d m = record m {
  sku = d.sku;
  ean = first_some d.ean m.ean;
  shop_sku = d.shop_sku;
  decathlon_product_id = first_some (truthy d.decathlon_product_id) m.decathlon_product_id;
  last_payload_hash = first_some d.last_payload_hash m.last_payload_hash;
}

module _ {Num R : Type 0} where
  pub upsert_for_variant : String → String → String → MappingData → M (World Num R) (Unit {0})
  upsert_for_variant shop_id product_id variant d = on_db λ db.
      elim (find_by_variant shop_id variant db) [
        | some _ ↦ record db {
          products =
              map
                (λ (m : ProductMapping).
                  if is_mapping_of shop_id variant m then updated_mapping d m else m)
                db.products;
        }
        | none ↦ record db {
          next_id = db.next_id + 1;
          products = db.products ++ new_mapping shop_id product_id variant d db.next_id ∷ [];
        }
      ]

abbrev pub hash_of : Option ProductMapping → Option String
hash_of none = none
hash_of (some m) = m.last_payload_hash

abbrev pub key_or_empty : {Num : Type 0} → Option (NormalizedVariant Num) → String
key_or_empty none = ""
key_or_empty (some v) = variant_key v

abbrev pub product_id_in : Option ProductMapping → Option String
product_id_in none = none
product_id_in (some m) = truthy m.decathlon_product_id

abbrev pub shop_sku_of : ProductImportRow → String
shop_sku_of row = get_or (lookup "shop_sku" row) ""

module _ {Num R : Type 0} (t : Words) (n : NumOps Num) (pa : Parsing Num) (api : ProductApi Num R)
    (calls : ImportCalls R) (o : Outside Num R) where
  pub hash_import_row : ProductImportRow → String
  hash_import_row row = calls.digest (calls.sort_keys row)

  pub hash_by_sku : List ProductImportRow → List (String × String) → List (String × String)
  hash_by_sku [] found = found
  hash_by_sku (row ∷ rows) found =
      hash_by_sku rows (insert (shop_sku_of row) (hash_import_row row) found)

  -- `new Map(variants.map((v) => [v.sku, v]))`
  pub variant_by_sku :
      List (NormalizedVariant Num)
      → List (String × NormalizedVariant Num)
      → List (String × NormalizedVariant Num)
  variant_by_sku [] found = found
  variant_by_sku (v ∷ vs) found = variant_by_sku vs (insert v.sku v found)

  abbrev pub same_hash : Option String → Option String → Bool
  same_hash none none = true
  same_hash none (some h) = false
  same_hash (some h) sent = is_text sent h

  -- The row differs from what the mapping of its variant was last sent with.
  pub is_changed : ReadyProduct Num → ProductImportRow → Bool
  is_changed r row =
      let sku = shop_sku_of row in
      let variant = key_or_empty (lookup sku (variant_by_sku r.variants [])) in
      not (
        same_hash (hash_of (lookup variant r.mapping_by_variant_id))
          (lookup sku (hash_by_sku r.products [])))

  -- The variants that Decathlon lists already.
  abbrev pub live_variants : ReadyProduct Num → List String
  live_variants r = map variant_key (
      keep
        (λ (v : NormalizedVariant Num).
          is_some (product_id_in (lookup (variant_key v) r.mapping_by_variant_id)))
        r.variants)

  abbrev pub submitted_variants :
      ReadyProduct Num → List ProductImportRow → List (NormalizedVariant Num)
  submitted_variants r rows =
      keep
        (λ (v : NormalizedVariant Num).
          any (λ (row : ProductImportRow). shop_sku_of row == v.sku) rows)
        r.variants

  abbrev pub mapping_data : ReadyProduct Num → NormalizedVariant Num → MappingData
  mapping_data r v = record {
    sku = v.sku;
    ean = v.ean;
    shop_sku = v.sku;
    decathlon_product_id = lookup (variant_key v) r.existing_id_by_variant_id;
    last_payload_hash = lookup v.sku (hash_by_sku r.products []);
  }

  -- What follows a P41 call that was answered with an import id.
  pub record_import :
      ProductSyncJobPayload
      → String
      → ℕ
      → ReadyProduct Num
      → List ProductImportRow
      → String
      → M (World Num R) ProductSyncResult
  record_import p correlation_id job r rows import_id = do
    let sent = submitted_variants r rows
    let item_label =
        describe_product t n r.product.title (map (λ (v : NormalizedVariant Num). v.sku) sent)
    for_each sent
        (λ v. upsert_for_variant p.shop_id p.shopify_product_id (variant_key v) (mapping_data r v))
    write_log (record {
      shop_id = p.shop_id;
      sync_job_id = some job;
      type = product_sync;
      status = SyncStatus.processing;
      decathlon_id = none;
      shopify_id = some p.shopify_product_id;
      item_label = some item_label;
      error_message = none;
      correlation_id = correlation_id;
    })
    update_progress job (length sent) (length sent)
    pure (
        submitted (record {
          import_id = import_id;
          shopify_variant_ids = map variant_key sent;
          correlation_id = correlation_id;
          sync_job_id = job;
          item_label = item_label;
        }))

  pub after_import :
      ProductSyncJobPayload
      → String
      → ℕ
      → ReadyProduct Num
      → List ProductImportRow
      → Result (Option String)
      → M (World Num R) ProductSyncResult
  after_import p correlation_id job r rows (err e) =
      fail_job p.shop_id job product_sync correlation_id none e >> throw e
  after_import p correlation_id job r rows (ok answer) = elim (truthy answer) [
    | none ↦
        fail_job p.shop_id job product_sync correlation_id none
          (other "P41 response missing import_id")
        >> pure nothing
    | some import_id ↦ record_import p correlation_id job r rows import_id
  ]

  pub submit_rows :
      ProductSyncJobPayload
      → String
      → ℕ
      → ReadyProduct Num
      → List ProductImportRow
      → M (World Num R) ProductSyncResult
  submit_rows p correlation_id job r rows =
      attempt (send (calls.import_products rows)) >>= after_import p correlation_id job r rows

  -- A webhook sends only the rows that changed, and nothing if there are none.
  pub submit_ready :
      ProductSyncJobPayload → String → ℕ → ReadyProduct Num → M (World Num R) ProductSyncResult
  submit_ready p correlation_id job r = elim p.from_webhook [
    | false ↦ submit_rows p correlation_id job r r.products
    | true ↦ elim (is_nil (keep (is_changed r) r.products)) [
      | true ↦
          finish_job job SyncStatus.skipped
            (some "Nothing Decathlon uses changed since the last import")
          >> pure (unchanged (live_variants r) correlation_id)
      | false ↦ submit_rows p correlation_id job r (keep (is_changed r) r.products)
    ]
  ]

  pub sync_prepared :
      ProductSyncJobPayload
      → String
      → ℕ
      → Result (PreparedProduct Num)
      → M (World Num R) ProductSyncResult
  sync_prepared p correlation_id job (err e) =
      fail_job p.shop_id job product_sync correlation_id none e >> throw e
  sync_prepared p correlation_id job (ok prepared) = elim prepared [
    | inactive product item_label message ↦ do
      write_log (record {
        shop_id = p.shop_id;
        sync_job_id = some job;
        type = product_sync;
        status = SyncStatus.skipped;
        decathlon_id = none;
        shopify_id = some p.shopify_product_id;
        item_label = some item_label;
        error_message = some message;
        correlation_id = correlation_id;
      })
      finish_job job SyncStatus.skipped (some message)
      pure nothing
    | no_variants product item_label ↦
        finish_job job SyncStatus.skipped (some "No matching variants to sync") >> pure nothing
    | invalid product item_label e ↦
        fail_job p.shop_id job product_sync correlation_id item_label e >> pure nothing
    | ready r ↦ submit_ready p correlation_id job r
  ]

  abbrev pub options_of : ProductSyncJobPayload → PrepareOptions
  options_of p = record { variant_ids = p.shopify_variant_ids; skip_duplicate_check = false }

  pub sync_started : ProductSyncJobPayload → String → ℕ → M (World Num R) ProductSyncResult
  sync_started p correlation_id job =
      attempt (prepare_product_import t n pa api p.shop_id p.shopify_product_id (options_of p))
      >>= sync_prepared p correlation_id job

  pub sync_product : ProductSyncJobPayload → M (World Num R) ProductSyncResult
  sync_product p = do
    correlation_id ← correlation_of o p.correlation_id
    job ← ensure_sync_job p.shop_id product_sync p.sync_job_id
    sync_started p correlation_id job
