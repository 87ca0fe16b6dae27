-- ===== src/Sync/Lifecycle/Shipment.antt =====
-- `resolveTracking`, `syncFulfillment` and `updateTracking` of packages/sync/src/order-lifecycle.ts.
pub mod Claimed
pub mod Loaded
pub mod Once
pub mod Tests
use decathlon_app.Base.{
  ℕ, String, Bool, true, false, not, ◌&&◌, ◌||◌, List, [], ◌∷◌, map, Option, none, some, ◌==◌, keep,
  find, head?, get_or, is_nil, first_some, or_else, concat, join, M, pure, gets, attempt, recover,
  Result, ok, err, Error, message, outcome_unknown, try_catch, ◌>>=◌, ◌>>◌, if◌then◌else◌,
}
use decathlon_app.Sync.Money.{NumOps}
use decathlon_app.Sync.Lines.{ShopifyLineRef, Piece, truthy, resolve_lines}
use decathlon_app.Sync.Outside.{
  Outside, DecathlonCarrier, ShipmentTracking, ShipmentLine, ShipmentInput, ShipmentBatchResult,
  read, send,
}
use decathlon_app.Sync.Store.Rows.{
  SyncJobType, fulfillment_sync, SyncStatus, ShipmentMapping, OrderMapping, World,
}
use decathlon_app.Sync.Store.Jobs.{start_job, finish_job}
use decathlon_app.Sync.Store.Claims.{find_shipment, claim_shipment, update_shipment}
use decathlon_app.Sync.Store.Orders.{record_shipment}
use decathlon_app.Sync.Lifecycle.{Context, correlation_of, log, load_order, refresh_order_state}

pub record FulfillmentSyncJobPayload : Type 0 where
  pub shop_id : String
  pub shopify_order_id : String
  pub shopify_fulfillment_id : String
  pub status : String
  pub tracking_company : Option String
  pub tracking_number : Option String
  pub tracking_url : Option String
  pub lines : List (ShopifyLineRef (Unit {0}))
  pub correlation_id : Option String
  pub sync_job_id : Option ℕ

-- The one carrier, if it is unambiguous.
abbrev pub only_one : List DecathlonCarrier → Option DecathlonCarrier
only_one (c ∷ []) = some c
only_one _ = none

abbrev pub same : Option String → Option String → Bool
same none none = true
same (some a) (some b) = a == b
same _ _ = false

abbrev pub is_success : SyncStatus → Bool
is_success SyncStatus.success = true
is_success _ = false

-- The row of a fulfilment that is shipped already.
abbrev pub shipped : Option ShipmentMapping → Option ShipmentMapping
shipped none = none
shipped (some m) = if is_success m.status then some m else none

abbrev pub shipment_failure : Error → String
shipment_failure (outcome_unknown m) =
    concat (m ∷ ". Check the order in the Decathlon Seller Portal before retrying." ∷ [])
shipment_failure e = message e

abbrev pub shipment_context : FulfillmentSyncJobPayload → String → ℕ → OrderMapping → Context
shipment_context p correlation_id job order = record {
  shop_id = p.shop_id;
  job = job;
  type = fulfillment_sync;
  correlation_id = correlation_id;
  label = concat (
      "Shipment — Decathlon order "
      ∷ get_or order.decathlon_commercial_id order.decathlon_order_id
      ∷ []);
  order = order;
}

module _ {Num R : Type 0} (n : NumOps Num) (o : Outside Num R) where
  pub find_carrier : String → List DecathlonCarrier → Option DecathlonCarrier
  find_carrier company carriers =
      let f = o.full company in
      elim (find (λ (c : DecathlonCarrier). (o.full c.code == f) || (o.full c.label == f))
        carriers) [
          | some c ↦ some c
          | none ↦
              only_one (keep (λ (c : DecathlonCarrier). o.base c.label == o.base company) carriers)
        ]

  pub resolve_tracking :
      Option String
      → Option String
      → Option String
      → List DecathlonCarrier
      → Option ShipmentTracking
  unfolding find_carrier
  resolve_tracking company number url carriers =
      let free : ShipmentTracking = record {
        carrier_code = none;
        carrier_name = company;
        tracking_number = number;
        tracking_url = url;
      } in
      elim (truthy company) [
        | none ↦ elim (truthy number) [ none ↦ none | some _ ↦ some free ]
        | some name ↦ elim (find_carrier name carriers) [
          | none ↦ some free
          | some c ↦ some (record {
            carrier_code = some c.code;
            carrier_name = none;
            tracking_number = number;
            tracking_url = none;
          })
        ]
      ]

  abbrev pub is_unchanged : ShipmentMapping → Option ShipmentTracking → Bool
  is_unchanged m none = true
  is_unchanged m (some t) = elim (truthy t.tracking_number) [
    | none ↦ true
    | some _ ↦
        same t.tracking_number m.tracking_number
        && same t.carrier_code m.carrier_code
        && same t.carrier_name m.carrier_name
  ]

  pub update_accepted :
      Context
      → ShipmentMapping
      → ShipmentTracking
      → ShipmentBatchResult
      → M (World Num R) (Unit {0})
  update_accepted c mapping tracking result = elim (is_nil result.shipment_errors) [
    | false ↦ do
      let text : String =
          concat ("Decathlon refused the tracking update: " ∷ join "; " result.shipment_errors ∷ [])
      log o c SyncStatus.failed (some text)
      finish_job c.job SyncStatus.failed (some text)
    | true ↦ do
      update_shipment mapping.id (λ m. record m {
        carrier_code = tracking.carrier_code;
        carrier_name = tracking.carrier_name;
        tracking_number = tracking.tracking_number;
        tracking_url = tracking.tracking_url;
      })
      log o c SyncStatus.success none
      finish_job c.job SyncStatus.success none
  ]

  pub update_tracking :
      Context → ShipmentMapping → Option ShipmentTracking → M (World Num R) (Unit {0})
  update_tracking c mapping tracking =
      if is_unchanged mapping tracking
      then finish_job c.job SyncStatus.skipped (some "Tracking unchanged")
      else elim tracking [
        | none ↦ finish_job c.job SyncStatus.skipped (some "Tracking unchanged")
        | some t ↦ elim (truthy mapping.decathlon_shipment_id) [
          | none ↦ do
            let text : String =
                "Tracking changed, but the Decathlon shipment id was never returned — update tracking in the Seller Portal"
            log o c SyncStatus.failed (some text)
            finish_job c.job SyncStatus.failed (some text)
          | some id ↦ do
            result ← send (o.update_shipment_tracking id t)
            update_accepted c mapping t result
        ]
      ]

  pub unresolved_text : List (ShopifyLineRef (Unit {0})) → String
  unresolved_text us = join ", " (
      map
        (λ (u : ShopifyLineRef (Unit {0})).
          concat
            (get_or u.sku (get_or u.variant_id "unknown") ∷ " x" ∷ n.show (n.of_ℕ u.quantity) ∷ []))
        us)

  -- The closure `fail`.
  pub fail_shipment : Context → ℕ → String → M (World Num R) (Unit {0})
  fail_shipment c claim_id text = do
    update_shipment claim_id (λ m. record m { status = SyncStatus.failed; last_error = some text })
    log o c SyncStatus.failed (some text)
    finish_job c.job SyncStatus.failed (some text)

  -- ST01 answers also when it has refused the shipment.
  pub shipment_made :
      Context
      → String
      → ℕ
      → Option ShipmentTracking
      → ShipmentBatchResult
      → M (World Num R) (Unit {0})
  shipment_made c key claim_id tracking result =
      elim (not (is_nil result.shipment_errors) || is_nil result.shipment_success) [
        | true ↦ fail_shipment c claim_id (
            concat (
              "Decathlon refused the shipment: "
              ∷ or_else (join "; " result.shipment_errors) "no shipment was created"
              ∷ []))
        | false ↦ do
          let shipment_id = get_or (head? result.shipment_success) none
          update_shipment claim_id (λ m. record m {
            status = SyncStatus.success;
            decathlon_shipment_id = first_some shipment_id m.decathlon_shipment_id;
            carrier_code =
                first_some (elim tracking [ none ↦ none | some t ↦ t.carrier_code ]) m.carrier_code;
            carrier_name =
                first_some (elim tracking [ none ↦ none | some t ↦ t.carrier_name ]) m.carrier_name;
            tracking_number =
                first_some (elim tracking [ none ↦ none | some t ↦ t.tracking_number ])
                  m.tracking_number;
            tracking_url =
                first_some (elim tracking [ none ↦ none | some t ↦ t.tracking_url ]) m.tracking_url;
          })
          elim (truthy shipment_id) [
            | none ↦ pure tt
            | some id ↦ record_shipment c.shop_id c.order.decathlon_order_id id key
          ]
          refresh_order_state o c.shop_id c.order.decathlon_order_id
          log o c SyncStatus.success none
          finish_job c.job SyncStatus.success none
      ]

  abbrev pub shipment_of :
      OrderMapping → List (Piece (Unit {0})) → Option ShipmentTracking → ShipmentInput
  shipment_of order resolved tracking = record {
    order_id = order.decathlon_order_id;
    shipped = true;
    shipment_lines =
        map
          (λ (r : Piece (Unit {0})). record {
            order_line_id = r.decathlon_order_line_id;
            quantity = r.quantity;
          })
          resolved;
    tracking = tracking;
  }

  -- The ST01 call of a claimed fulfilment whose lines are all matched.
  pub ship_lines :
      Context
      → String
      → ℕ
      → List (Piece (Unit {0}))
      → Option ShipmentTracking
      → M (World Num R) (Unit {0})
  ship_lines c key claim_id resolved tracking = do
    r ← attempt (send (o.create_shipments (shipment_of c.order resolved tracking)))
    elim r [
      | err e ↦ fail_shipment c claim_id (shipment_failure e)
      | ok result ↦ shipment_made c key claim_id tracking result
    ]

  pub ship_claimed :
      Context
      → FulfillmentSyncJobPayload
      → Option ShipmentTracking
      → ShipmentMapping
      → M (World Num R) (Unit {0})
  ship_claimed c p tracking claim =
      let (resolved, unresolved) = resolve_lines c.order.line_items p.lines in
      if not (is_nil unresolved) || is_nil resolved
      then fail_shipment c claim.id (
          concat (
            "Could not match fulfilled line(s) to the Decathlon order: "
            ∷ or_else (unresolved_text unresolved) "no lines"
            ∷ []))
      else ship_lines c p.shopify_fulfillment_id claim.id resolved tracking

  pub claim_and_ship :
      Context → FulfillmentSyncJobPayload → Option ShipmentTracking → M (World Num R) (Unit {0})
  claim_and_ship c p tracking = do
    claim ← claim_shipment c.shop_id c.order.id p.shopify_fulfillment_id
    elim claim [
      | none ↦
          finish_job c.job SyncStatus.skipped
            (some "This fulfillment is already being sent to Decathlon")
      | some row ↦ ship_claimed c p tracking row
    ]

  pub ship_or_update :
      Context → FulfillmentSyncJobPayload → Option ShipmentTracking → M (World Num R) (Unit {0})
  ship_or_update c p tracking w =
      elim (shipped (find_shipment c.shop_id p.shopify_fulfillment_id w.db)) [
        | some m ↦ update_tracking c m tracking w
        | none ↦ claim_and_ship c p tracking w
      ]

  pub ship_successful : Context → FulfillmentSyncJobPayload → M (World Num R) (Unit {0})
  ship_successful c p = do
    carriers ← try_catch (read o.list_carriers) (λ _. pure [])
    ship_or_update c p
        (resolve_tracking p.tracking_company p.tracking_number p.tracking_url carriers)

  pub skip_status : Context → String → M (World Num R) (Unit {0})
  skip_status c status = elim (status == "cancelled") [
    | true ↦ do
      let text : String =
          "Fulfillment was cancelled in Shopify — Decathlon has no way to undo a confirmed shipment; contact Decathlon if it was already sent"
      log o c SyncStatus.skipped (some text)
      finish_job c.job SyncStatus.skipped (some text)
    | false ↦ finish_job c.job SyncStatus.skipped (
        some (
          concat (
            "Fulfillment status is \"" ∷ status
            ∷ "\", only successful fulfillments are sent to Decathlon" ∷ [])))
  ]

  pub fulfillment_started : FulfillmentSyncJobPayload → String → ℕ → M (World Num R) (Unit {0})
  fulfillment_started p correlation_id job = do
    found ← load_order o p.shop_id p.shopify_order_id
    elim found [
      | none ↦ finish_job job SyncStatus.skipped (some "Not an order imported from Decathlon")
      | some order ↦
          if p.status == "success"
          then ship_successful (shipment_context p correlation_id job order) p
          else skip_status (shipment_context p correlation_id job order) p.status
    ]

  pub sync_fulfillment : FulfillmentSyncJobPayload → M (World Num R) (Unit {0})
  sync_fulfillment p = do
    correlation_id ← correlation_of o p.correlation_id
    job ← start_job p.shop_id fulfillment_sync p.sync_job_id
    fulfillment_started p correlation_id job
