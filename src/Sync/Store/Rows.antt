-- ===== src/Sync/Store/Rows.antt =====
-- The tables of prisma/schema.prisma that the synchronisation reads and writes.
use decathlon_app.Base.{ℕ, String, List, Option}
use decathlon_app.Decathlon.Attributes.{
  DecathlonAttribute, DecathlonHierarchy, DecathlonValueListEntry,
}
use decathlon_app.Sync.Lines.{OrderLineItem}

pub data SyncJobType : Type 0 where
  product_sync offer_sync order_import fulfillment_sync refund_sync return_sync : SyncJobType
  import_status_poll retry_failed : SyncJobType

pub data SyncStatus : Type 0 where
  pending processing success failed retrying skipped canceled : SyncStatus

pub record SyncJob : Type 0 where
  pub id : ℕ
  pub shop_id : String
  pub type : SyncJobType
  pub status : SyncStatus
  pub progress_current : ℕ
  pub progress_total : Option ℕ
  pub retry_count : ℕ
  pub last_error : Option String

pub record SyncLog : Type 0 where
  pub shop_id : String
  pub sync_job_id : Option ℕ
  pub type : SyncJobType
  pub status : SyncStatus
  pub decathlon_id : Option String
  pub shopify_id : Option String
  pub item_label : Option String
  pub error_message : Option String
  pub correlation_id : String

-- The status of a product or order mapping.
pub data MappingStatus : Type 0 where
  unmapped pending synced failed ignored : MappingStatus

pub record ProductMapping : Type 0 where
  pub id : ℕ
  pub shop_id : String
  pub shopify_product_id : String
  pub shopify_variant_id : String
  pub sku : String
  pub ean : Option String
  pub shop_sku : String
  pub decathlon_product_id : Option String
  pub decathlon_offer_id : Option String
  pub last_payload_hash : Option String
  pub status : MappingStatus
  pub last_error : Option String
  pub retry_count : ℕ

pub record OrderMapping : Type 0 where
  pub id : ℕ
  pub shop_id : String
  pub shopify_order_id : String
  pub decathlon_order_id : String
  pub decathlon_commercial_id : Option String
  pub decathlon_order_status : Option String
  pub decathlon_shipment_id : Option String
  pub shopify_fulfillment_id : Option String
  pub match_status : MappingStatus
  pub line_items : List OrderLineItem

pub record ShipmentMapping : Type 0 where
  pub id : ℕ
  pub shop_id : String
  pub order_mapping_id : ℕ
  pub shopify_fulfillment_id : String
  pub status : SyncStatus
  pub decathlon_shipment_id : Option String
  pub carrier_code : Option String
  pub carrier_name : Option String
  pub tracking_number : Option String
  pub tracking_url : Option String
  pub last_error : Option String

-- The JSON `{ before, created }` of a refund mapping.
pub record RefundIds : Type 0 where
  pub before : List String
  pub created : Option (List String)

pub record RefundMapping (Num : Type 0) : Type 0 where
  pub id : ℕ
  pub shop_id : String
  pub order_mapping_id : ℕ
  pub shopify_refund_id : String
  pub status : SyncStatus
  pub decathlon_refund_ids : Option RefundIds
  pub amount : Option Num
  pub currency : Option String
  pub last_error : Option String

pub record ReturnMapping : Type 0 where
  pub id : ℕ
  pub shop_id : String
  pub order_mapping_id : ℕ
  pub decathlon_return_id : String
  pub status : String
  pub reason_code : Option String
  pub rma_number : Option String
  pub tracking_number : Option String
  pub carrier_code : Option String

pub record SyncConfiguration (Num : Type 0) : Type 0 where
  pub shop_id : String
  pub default_currency : String
  pub price_markup_percent : Option Num
  pub price_discount_percent : Option Num
  pub offer_state_code : String
  pub refund_reason_code : Option String
  pub order_import_cursor_offset : ℕ
  pub manufacturer_email : Option String
  pub fallback_brand_name : Option String
  pub color_option_name : Option String
  pub size_option_name : Option String

-- The product type is stored in lower case.
pub record CategoryMapping : Type 0 where
  pub shop_id : String
  pub shopify_product_type : String
  pub decathlon_category_code : String
  pub gender : Option String
  pub size_chart : Option String

pub record AttributeValueMapping : Type 0 where
  pub shop_id : String
  pub attribute_code : String
  pub shopify_value : String
  pub decathlon_code : String

-- A row of the catalogue cache; the data is a list of entries of one kind.
pub record CatalogReference (T : Type 0) : Type 0 where
  pub shop_id : String
  pub key : String
  pub entries : List T
  pub fetched_at : ℕ

-- The cached rows, by their type.
pub record Catalog : Type 0 where
  pub attributes : List (CatalogReference DecathlonAttribute)
  pub hierarchies : List (CatalogReference DecathlonHierarchy)
  pub value_lists : List (CatalogReference DecathlonValueListEntry)

pub record Db (Num : Type 0) : Type 0 where
  pub next_id : ℕ
  pub jobs : List SyncJob
  pub logs : List SyncLog
  pub products : List ProductMapping
  pub orders : List OrderMapping
  pub shipments : List ShipmentMapping
  pub refunds : List (RefundMapping Num)
  pub returns : List ReturnMapping
  pub configs : List (SyncConfiguration Num)
  pub category_mappings : List CategoryMapping
  pub value_mappings : List AttributeValueMapping
  pub catalog : Catalog

-- The database and what lies outside: Decathlon and Shopify.
pub record World (Num R : Type 0) : Type 0 where
  pub db : Db Num
  pub outside : R
