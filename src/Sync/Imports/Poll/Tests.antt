-- ===== src/Sync/Imports/Poll/Tests.antt =====
-- A poll of an offer import that succeeded, for a shop with one product mapping.
use decathlon_app.Base.{ℕ, true, false, [], ◌∷◌, none, some, ◌≡◌, refl, All, ok, err, other, ◌==◌}
use decathlon_app.Sync.Samples.{euros, sample_outside, world_with}
use decathlon_app.Sync.Store.Rows.{MappingStatus, ProductMapping, World}
use decathlon_app.Sync.Imports.{offer, terminal, import_verdict}
use decathlon_app.Sync.Imports.Stalled.{ImportStatusPollJobPayload}
use decathlon_app.Sync.Imports.Reports.{ReportText}
use decathlon_app.Sync.Imports.Poll.{StatusAnswer, ImportApi, poll_import_status}
use decathlon_app.Sync.Imports.Poll.Synced.{IsSynced, poll_import_status-IsSynced}

abbrev plain : ReportText
plain = record {
  lines = λ s. s ∷ [];
  codes = λ _. [];
  text = λ _. "";
  trim = λ s. s;
  to_lower = λ s. s;
  includes = λ _ _. false;
  mentions_failure = λ _. false;
}

abbrev complete : StatusAnswer
complete = record {
  result = record {
    status = some "COMPLETE";
    lines_in_error = some 0;
    lines_in_success = some 1;
    import_status = none;
    transform_lines_in_error = none;
    transform_lines_in_success = none;
    integration_details = none;
  };
  has_transformation_error_report = false;
  has_error_report = true;
  transform_lines_with_warning = none;
}

abbrev decathlon : ImportApi ℕ
decathlon = record {
  get_import_status = λ _ _ _. ok complete;
  get_transformation_error_report = λ _ _. err (other "404");
  get_error_report = λ _ _. err (other "404");
  get_success_report = λ _ _. err (other "404");
  get_offer_error_report = λ _ _. err (other "404");
}

abbrev payload : ImportStatusPollJobPayload
payload = record {
  shop_id = "shop";
  import_id = "42";
  kind = offer;
  shopify_variant_ids = "v1" ∷ "v2" ∷ [];
  correlation_id = none;
  sync_job_id = none;
  item_label = none;
  poll_attempt = none;
}

abbrev mapping : ProductMapping
mapping = record {
  id = 9;
  shop_id = "shop";
  shopify_product_id = "p1";
  shopify_variant_id = "v1";
  sku = "A";
  ean = none;
  shop_sku = "A";
  decathlon_product_id = some "P1";
  decathlon_offer_id = none;
  last_payload_hash = none;
  status = MappingStatus.pending;
  last_error = none;
  retry_count = 0;
}

abbrev shop : World ℕ ℕ
shop = record (world_with []) { db = record ((world_with []).db) { products = mapping ∷ [] } }

poll_import_status-IsSynced_example :
    ((poll_import_status plain euros sample_outside decathlon payload shop).0 ≡ ok (terminal true))
    × All
        (IsSynced "shop" (poll_import_status plain euros sample_outside decathlon payload shop).1)
        ("v1" ∷ "v2" ∷ [])
unfolding import_verdict ◌==◌
poll_import_status-IsSynced_example =
    poll_import_status-IsSynced plain euros sample_outside decathlon payload complete shop refl refl
