-- ===== src/Sync/OrderImport/Import/Tests.antt =====
-- Runs of the order import on the sample shop and one order of Decathlon.
use decathlon_app.Base.{List, ◌∷◌, ℕ, suc, [], none, some, ◌≡◌, refl, ok, map, length}
use decathlon_app.Sync.Samples.{euros, sample_outside, world_with}
use decathlon_app.Sync.Store.Rows.{World}
use decathlon_app.Sync.OrderImport.Models.{
  Json, field, end, nil, cons, text, number, array, object, Runtime, value_of,
}
use decathlon_app.Sync.OrderImport.Normalize.{
  normalize_lines, normalize_order_line, normalize_decathlon_order,
  normalize_decathlon_order-IsPriced, IsPriced, order_of,
}
use decathlon_app.Sync.OrderImport.ShopifyInput.{
  asked, wanted, build_shopify_order_input, build_shopify_order_input-asked,
}
use decathlon_app.Sync.OrderImport.Import.{
  Remote, OrderImportJobPayload, import_one_order, import_normalized, import_orders,
  already_imported, import_unless, create_order, after_create, record_order, create_if_not_exists,
  line_rows, match_items,
}
use decathlon_app.Sync.OrderImport.Import.Idempotence.{import_one_order-again}
use decathlon_app.Sync.OrderImport.Import.Unique.{IsSound}
use decathlon_app.Sync.OrderImport.Import.Sound.{import_orders-IsSound}
use decathlon_app.Sync.OrderImport.Import.Once.{CreatesOnce, import_one_order-CreatesOnce}

abbrev plain : Runtime ℕ
plain = record {
  number_of = λ _. 0;
  trim = λ s. s;
  show_index = λ _. "0";
  to_fixed_2 = λ _. "5.00";
  count_of = λ k. some k;
}

abbrev line_json : Json ℕ
line_json = object (
    field "order_line_id" (text "D9-1")
      (field "offer_sku" (text "A") (field "quantity" (number 2) end)))

abbrev order_json : Json ℕ
order_json = object (
    field "order_id" (text "D9") (
      field "currency_iso_code" (text "GBP")
        (field "order_lines" (array (cons line_json nil)) end)))

abbrev json_lines : List (Json ℕ)
json_lines = line_json ∷ []

abbrev page_json : Json ℕ
page_json = object (field "data" (array (cons order_json nil)) end)

abbrev shopify : Remote ℕ ℕ
shopify = record {
  shop_info = λ _. ok "EUR";
  order_create = λ _ writes. (ok (record { user_errors = []; order = some "S9" }), suc writes);
  list_orders_awaiting_shipment = λ _ _ _. ok page_json;
}

abbrev hourly : OrderImportJobPayload
hourly = record { shop_id = "shop"; correlation_id = none; sync_job_id = none }

abbrev imported : World ℕ ℕ
imported = (import_one_order euros plain shopify "shop" order_json "c" 7 "EUR" (world_with [])).1

one_row_more : length imported.db.orders ≡ 2
unfolding normalize_decathlon_order normalize_lines normalize_order_line value_of import_one_order
    import_normalized already_imported import_unless create_order after_create record_order
    create_if_not_exists line_rows match_items
one_row_more = refl

normalize_decathlon_order-IsPriced_example : IsPriced (order_of euros plain order_json json_lines)
unfolding normalize_decathlon_order value_of
normalize_decathlon_order-IsPriced_example =
    normalize_decathlon_order-IsPriced euros plain order_json
      (order_of euros plain order_json json_lines) refl

import_orders-IsSound_example :
    IsSound (import_orders euros plain shopify sample_outside hourly (world_with [])).1
import_orders-IsSound_example =
    import_orders-IsSound euros plain shopify sample_outside hourly (world_with [])
      ((tt, tt), (refl, tt))

import_one_order-CreatesOnce_example :
    CreatesOnce euros plain shopify "shop" "EUR" order_json (world_with []) imported.outside
import_one_order-CreatesOnce_example =
    import_one_order-CreatesOnce euros plain shopify "shop" "c" 7 "EUR" order_json (world_with [])

import_one_order-again_example :
    import_one_order euros plain shopify "shop" order_json "d" 8 "EUR" imported ≡ (ok tt, imported)
unfolding normalize_decathlon_order normalize_lines normalize_order_line value_of import_one_order
    import_normalized already_imported import_unless create_order after_create record_order
    create_if_not_exists line_rows match_items
import_one_order-again_example =
    import_one_order-again euros plain shopify "shop" "c" "d" 7 8 "EUR" "EUR" order_json
      (world_with []) refl

build_shopify_order_input-asked_example :
    map asked
      (build_shopify_order_input plain
        (order_of euros plain order_json json_lines)
        []
        "EUR").line_items
    ≡ map (wanted plain []) (order_of euros plain order_json json_lines).items
build_shopify_order_input-asked_example =
    build_shopify_order_input-asked plain (order_of euros plain order_json json_lines) [] "EUR"
