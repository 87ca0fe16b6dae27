-- ===== src/Sync/Lifecycle/Shipment/Tests.antt =====
-- A run of `syncFulfillment` on the sample shop.
use decathlon_app.Base.{[], ◌∷◌, none, some}
use decathlon_app.Sync.Samples.{euros, sample_outside, world_with, line_ref}
use decathlon_app.Sync.Lifecycle.Shipment.{FulfillmentSyncJobPayload, sync_fulfillment}
use decathlon_app.Sync.Lifecycle.Shipment.Claimed.{sync_fulfillment-ShipsOnce}
use decathlon_app.Sync.Lifecycle.Shipment.Once.{ShipsOnce}

abbrev one_parcel : FulfillmentSyncJobPayload
one_parcel = record {
  shop_id = "shop";
  shopify_order_id = "S1";
  shopify_fulfillment_id = "F1";
  status = "success";
  tracking_company = some "UPS";
  tracking_number = some "1Z";
  tracking_url = none;
  lines = line_ref tt ∷ [];
  correlation_id = none;
  sync_job_id = none;
}

sync_fulfillment-ShipsOnce_example :
    ShipsOnce euros sample_outside one_parcel
      (world_with []).db
      0
      (sync_fulfillment euros sample_outside one_parcel (world_with [])).1.outside
sync_fulfillment-ShipsOnce_example =
    sync_fulfillment-ShipsOnce euros sample_outside one_parcel (world_with [])
