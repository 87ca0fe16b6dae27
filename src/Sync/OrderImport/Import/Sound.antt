-- ===== src/Sync/OrderImport/Import/Sound.antt =====
-- The rows of orders stay sound through a whole run of `importOrders`.
use decathlon_app.Base.{
  ℕ, ◌+◌, String, List, [], ◌∷◌, Option, none, some, refl, inl, inr, find, Bool-cases, Option-cases,
  Result-cases, ok, err, Result, ◌==◌, Keeps, >>=-Keeps, ltb, length, ◌>>◌, ◌>>=◌,
}
use decathlon_app.Sync.Lines.{truthy}
use decathlon_app.Sync.Money.{NumOps}
use decathlon_app.Sync.Outside.{Outside}
use decathlon_app.Sync.Store.Rows.{
  ProductMapping, MappingStatus, SyncConfiguration, World, SyncStatus, order_import,
}
use decathlon_app.Sync.Store.Jobs.{finish_job, ensure_sync_job}
use decathlon_app.Sync.Store.Orders.{find_by_decathlon_id, find_by_shopify_id, get_config}
use decathlon_app.Sync.OrderImport.Models.{Json, NormalizedOrder, Runtime}
use decathlon_app.Sync.OrderImport.Normalize.{extract_orders_array}
use decathlon_app.Sync.OrderImport.Import.{
  Remote, OrderImportJobPayload, line_rows, mapping_row, create_if_not_exists, already_imported,
  import_page, import_listed, import_orders, after_listing, import_from, import_started, set_cursor,
  fail_job,
}
use decathlon_app.Sync.OrderImport.Import.Steps.{import_page-Keeps}
use decathlon_app.Sync.OrderImport.Import.Unique.{
  IsSound, AreBelow-suc, repair_legacy_id-IsSound, insert-IsSound,
}

module _ {Num R : Type 0} (n : NumOps Num) (rt : Runtime Num) (remote : Remote Num R) where
  create_if_not_exists-IsSound :
      (shop_id shopify_order_id : String) (order : NormalizedOrder Num) (status : MappingStatus)
      (matched : List (String × ProductMapping))
      → Keeps IsSound
          (create_if_not_exists rt {R = R} shop_id shopify_order_id order status matched)
  unfolding create_if_not_exists
  create_if_not_exists-IsSound shop_id shopify_order_id order status matched w h =
      elim (Option-cases (find_by_decathlon_id shop_id order.external_id w.db)) [
        | inr (m, there) ↦ rw (there, create_if_not_exists) h
        | inl new ↦ elim (Option-cases (find_by_shopify_id shop_id shopify_order_id w.db)) [
          | inr (m, there) ↦ rw (new, there, create_if_not_exists) h
          | inl free ↦ elim (Option-cases (line_rows rt matched order.items)) [
            | inl bad ↦ rw (new, free, bad, create_if_not_exists) h
            | inr (rows, good) ↦
                rw (new, free, good, create_if_not_exists)
                  (insert-IsSound
                    (mapping_row rt shop_id shopify_order_id order status rows w.db.next_id) w refl
                    new h)
          ]
        ]
      ]

  already_imported-IsSound :
      (shop_id : String) (order : NormalizedOrder Num)
      → Keeps IsSound (already_imported n rt remote shop_id order)
  unfolding already_imported
  already_imported-IsSound shop_id order w h =
      elim (Option-cases (find_by_decathlon_id shop_id order.external_id w.db)) [
        | inr (m, there) ↦ rw (there, already_imported) h
        | inl new ↦ elim (Option-cases (truthy order.commercial_id)) [
          | inl none_given ↦ rw (new, none_given, already_imported) h
          | inr (id, given) ↦
              rw (new, given, already_imported)
                (repair_legacy_id-IsSound shop_id order.external_id id w new h)
        ]
      ]

  page-IsSound :
      (shop_id correlation_id : String) (job : ℕ) (shop_currency : String) (processed total : ℕ)
      (dtos : List (Json Num))
      → Keeps IsSound
          (import_page n rt remote shop_id correlation_id job shop_currency processed total dtos)
  page-IsSound =
      import_page-Keeps n rt remote IsSound (λ l w h. h) (λ job current total w h. h) (λ w r h. h)
        create_if_not_exists-IsSound already_imported-IsSound

  import_listed-IsSound :
      (shop_id correlation_id : String) (job : ℕ) (shop_currency : String) (offset : ℕ)
      (dtos : List (Json Num))
      → Keeps IsSound
          (import_listed n rt remote shop_id correlation_id job shop_currency offset dtos)
  unfolding import_listed
  import_listed-IsSound shop_id correlation_id job shop_currency offset [] w h =
      elim (Bool-cases (ltb 0 offset)) [
        | inl later ↦ rw (later, import_listed) h
        | inr start ↦ rw (start, import_listed) h
      ]
  import_listed-IsSound shop_id correlation_id job shop_currency offset (dto ∷ dtos) w h =
      >>=-Keeps IsSound
        (import_page n rt remote shop_id correlation_id job shop_currency 0 (length (dto ∷ dtos))
          (dto ∷ dtos))
        (λ _.
          set_cursor shop_id (offset + length (dto ∷ dtos))
          >> finish_job job SyncStatus.success none)
        (page-IsSound shop_id correlation_id job shop_currency 0 (length (dto ∷ dtos)) (dto ∷ dtos))
        (λ _ w h. h) w h

  after_listing-IsSound :
      (shop_id correlation_id : String) (job offset : ℕ) (shop_currency : String)
      (raw : Result (Json Num))
      → Keeps IsSound
          (after_listing n rt remote shop_id correlation_id job offset shop_currency raw)
  unfolding after_listing fail_job
  after_listing-IsSound shop_id correlation_id job offset shop_currency (err e) w h = h
  after_listing-IsSound shop_id correlation_id job offset shop_currency (ok page) w h =
      import_listed-IsSound shop_id correlation_id job shop_currency offset
        (extract_orders_array page) w h

  import_from-IsSound :
      (shop_id correlation_id : String) (job offset : ℕ)
      → Keeps IsSound (import_from n rt remote shop_id correlation_id job offset)
  unfolding import_from
  import_from-IsSound shop_id correlation_id job offset w h =
      elim (Result-cases (remote.shop_info w.outside)) [
        | inr (e, refused) ↦ rw (refused, import_from) h
        | inl (shop_currency, told) ↦
            rw (told, import_from)
              (after_listing-IsSound shop_id correlation_id job offset shop_currency
                (remote.list_orders_awaiting_shipment offset 50 w.outside) w h)
      ]

  get_config-IsSound : (shop_id : String) → Keeps IsSound (get_config {Num = Num} {R = R} shop_id)
  get_config-IsSound shop_id w h =
      elim (Option-cases
        (find (λ (c : SyncConfiguration Num). c.shop_id == shop_id) w.db.configs)) [
          | inl new ↦ rw (new, get_config) h
          | inr (c, there) ↦ rw (there, get_config) h
        ]

  import_started-IsSound :
      (shop_id correlation_id : String) (job : ℕ)
      → Keeps IsSound (import_started n rt remote shop_id correlation_id job)
  unfolding import_started
  import_started-IsSound shop_id correlation_id job =
      >>=-Keeps IsSound (get_config shop_id)
        (λ config.
          import_from n rt remote shop_id correlation_id job config.order_import_cursor_offset)
        (get_config-IsSound shop_id)
        (λ config. import_from-IsSound shop_id correlation_id job config.order_import_cursor_offset)

  started-IsSound :
      (shop_id correlation_id : String) (given : Option ℕ)
      → Keeps IsSound (
          ensure_sync_job shop_id order_import given
          >>= import_started n rt remote shop_id correlation_id)
  started-IsSound shop_id correlation_id none w h =
      import_started-IsSound shop_id correlation_id _ _
        (h.0, AreBelow-suc w.db.next_id w.db.orders h.1)
  started-IsSound shop_id correlation_id (some job) w h =
      import_started-IsSound shop_id correlation_id job _ h

-- A run of `importOrders` keeps the rows of orders sound, whether it ends well or not, and whatever
-- Decathlon and Shopify answer: rows that have different ids below the counter, and of which no two
-- are of one shop and one order of Decathlon, are such rows after it.
pub import_orders-IsSound :
    {Num R : Type 0} (n : NumOps Num) (rt : Runtime Num) (remote : Remote Num R) (o : Outside Num R)
    (p : OrderImportJobPayload) (w : World Num R)
    → IsSound w
    → IsSound (import_orders n rt remote o p w).1
unfolding import_orders
import_orders-IsSound n rt remote o p w h =
    started-IsSound n rt remote p.shop_id _ p.sync_job_id w h
