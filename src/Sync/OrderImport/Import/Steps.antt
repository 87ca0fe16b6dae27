-- ===== src/Sync/OrderImport/Import/Steps.antt =====
-- What a run of the order import keeps: a property of the state that the single statements on the
-- rows keep is kept by the import of a whole page.
use decathlon_app.Base.{
  ℕ, suc, String, List, [], ◌∷◌, Option, none, some, inl, inr, Bool-cases, Option-cases,
  Result-cases, Keeps, >>=-Keeps, try_catch-Keeps, is_nil, try_catch, ◌>>◌, Error,
}
use decathlon_app.Sync.Money.{NumOps}
use decathlon_app.Sync.Outside.{send}
use decathlon_app.Sync.Store.Rows.{OrderMapping, ProductMapping, MappingStatus, SyncLog, World}
use decathlon_app.Sync.Store.Jobs.{write_log, update_progress}
use decathlon_app.Sync.OrderImport.Models.{Json, NormalizedOrder, Runtime, is_null}
use decathlon_app.Sync.OrderImport.Normalize.{normalize_decathlon_order}
use decathlon_app.Sync.OrderImport.ShopifyInput.{build_shopify_order_input}
use decathlon_app.Sync.OrderImport.Import.{
  Remote, OrderCreateResponse, match_status_of, imported_log, create_if_not_exists,
  already_imported, record_order, after_create, create_order, import_unless, import_normalized,
  import_one_order, variants_of, order_failed, import_page,
}

module _ {Num R : Type 0} (n : NumOps Num) (rt : Runtime Num) (remote : Remote Num R)
    (P : World Num R → Type 0) (logged : (l : SyncLog) → Keeps P (write_log l))
    (progressed : (job current total : ℕ) → Keeps P (update_progress job current total))
    (sent : (w : World Num R) (r : R) → P w → P (record w { outside = r }))
    (created : (shop_id shopify_order_id : String) (order : NormalizedOrder Num)
        (status : MappingStatus) (matched : List (String × ProductMapping))
      → Keeps P (create_if_not_exists rt shop_id shopify_order_id order status matched))
    (found : (shop_id : String) (order : NormalizedOrder Num)
      → Keeps P (already_imported n rt remote shop_id order)) where
  record_order-Keeps :
      (shop_id correlation_id : String) (job : ℕ) (order : NormalizedOrder Num)
      (matched : List (String × ProductMapping)) (shopify_order_id : String)
      → Keeps P (record_order n rt remote shop_id correlation_id job order matched shopify_order_id)
  unfolding record_order
  record_order-Keeps shop_id correlation_id job order matched shopify_order_id =
      >>=-Keeps P
        (create_if_not_exists rt shop_id shopify_order_id order
          (match_status_of n rt remote order.items matched) matched)
        (λ _.
          write_log (imported_log n rt remote shop_id correlation_id job order shopify_order_id))
        (created shop_id shopify_order_id order (match_status_of n rt remote order.items matched)
          matched)
        (λ _. logged (imported_log n rt remote shop_id correlation_id job order shopify_order_id))

  after_create-Keeps :
      (shop_id correlation_id : String) (job : ℕ) (order : NormalizedOrder Num)
      (matched : List (String × ProductMapping)) (answer : OrderCreateResponse)
      → Keeps P (after_create n rt remote shop_id correlation_id job order matched answer)
  unfolding after_create
  after_create-Keeps shop_id correlation_id job order matched answer w h =
      elim (Bool-cases (is_nil answer.user_errors)) [
        | inr failed ↦ rw (failed, after_create) h
        | inl fine ↦ elim (Option-cases answer.order) [
          | inl absent ↦ rw (fine, absent, after_create) h
          | inr (id, there) ↦
              rw (fine, there, after_create)
                (record_order-Keeps shop_id correlation_id job order matched id w h)
        ]
      ]

  create_order-Keeps :
      (shop_id correlation_id : String) (job : ℕ) (shop_currency : String)
      (order : NormalizedOrder Num) (matched : List (String × ProductMapping))
      → Keeps P (create_order n rt remote shop_id correlation_id job shop_currency order matched)
  unfolding create_order
  create_order-Keeps shop_id correlation_id job shop_currency order matched =
      >>=-Keeps P
        (send (
          remote.order_create
            (build_shopify_order_input rt order (variants_of n rt remote matched) shop_currency)))
        (after_create n rt remote shop_id correlation_id job order matched) (λ w h. sent w _ h)
        (after_create-Keeps shop_id correlation_id job order matched)

  import_unless-Keeps :
      (shop_id correlation_id : String) (job : ℕ) (shop_currency : String)
      (order : NormalizedOrder Num) (already : Option OrderMapping)
      → Keeps P (import_unless n rt remote shop_id correlation_id job shop_currency order already)
  unfolding import_unless
  import_unless-Keeps shop_id correlation_id job shop_currency order (some _) w h = h
  import_unless-Keeps shop_id correlation_id job shop_currency order none w h =
      create_order-Keeps shop_id correlation_id job shop_currency order _ w h

  import_one_order-Keeps :
      (shop_id : String) (dto : Json Num) (correlation_id : String) (job : ℕ)
      (shop_currency : String)
      → Keeps P (import_one_order n rt remote shop_id dto correlation_id job shop_currency)
  unfolding import_one_order import_normalized
  import_one_order-Keeps shop_id dto correlation_id job shop_currency w h =
      elim (Result-cases (normalize_decathlon_order n rt dto)) [
        | inr (e, bad) ↦ rw (bad, import_one_order) h
        | inl (order, good) ↦
            rw (good, import_one_order, import_normalized)
              (>>=-Keeps P (already_imported n rt remote shop_id order)
                (import_unless n rt remote shop_id correlation_id job shop_currency order)
                (found shop_id order)
                (import_unless-Keeps shop_id correlation_id job shop_currency order) w h)
      ]

  order_failed-Keeps :
      (shop_id correlation_id : String) (job : ℕ) (dto : Json Num) (e : Error)
      → Keeps P (order_failed n rt remote shop_id correlation_id job dto e)
  unfolding order_failed
  order_failed-Keeps shop_id correlation_id job dto e w h = elim (Bool-cases (is_null dto)) [
    | inl empty ↦ rw (empty, order_failed) h
    | inr given ↦ rw (given, order_failed) (logged _ w h)
  ]

  pub import_page-Keeps :
      (shop_id correlation_id : String) (job : ℕ) (shop_currency : String) (processed total : ℕ)
      (dtos : List (Json Num))
      → Keeps P
          (import_page n rt remote shop_id correlation_id job shop_currency processed total dtos)
  unfolding import_page
  import_page-Keeps shop_id correlation_id job shop_currency processed total [] w h = h
  import_page-Keeps shop_id correlation_id job shop_currency processed total (dto ∷ dtos) w h =
      >>=-Keeps P
        (try_catch (import_one_order n rt remote shop_id dto correlation_id job shop_currency)
          (order_failed n rt remote shop_id correlation_id job dto))
        (λ _.
          update_progress job (suc processed) total
          >> import_page n rt remote shop_id correlation_id job shop_currency (suc processed) total
              dtos)
        (try_catch-Keeps P
          (import_one_order n rt remote shop_id dto correlation_id job shop_currency)
          (order_failed n rt remote shop_id correlation_id job dto)
          (import_one_order-Keeps shop_id dto correlation_id job shop_currency)
          (order_failed-Keeps shop_id correlation_id job dto))
        (λ _ w h.
          import_page-Keeps shop_id correlation_id job shop_currency (suc processed) total dtos _
            (progressed job (suc processed) total w h))
        w h
