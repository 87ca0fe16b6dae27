-- ===== src/Sync/Lifecycle/Shipment/Once.antt =====
-- What a run of `syncFulfillment` may send: its records, and the steps that send nothing more.
use decathlon_app.Base.{
  ℕ, String, true, false, List, [], Option, none, some, ◌≡◌, ◌⊎◌, inl, inr, refl, arith, is_nil,
  not, ◌||◌, Result, ok, err, Bool-cases,
}
use decathlon_app.Sync.Money.{NumOps}
use decathlon_app.Sync.Lines.{Piece, resolve_lines, truthy}
use decathlon_app.Sync.Outside.{
  Outside, DecathlonCarrier, ShipmentTracking, ShipmentInput, ShipmentBatchResult,
}
use decathlon_app.Sync.Store.Rows.{World, Db, OrderMapping, ShipmentMapping}
use decathlon_app.Sync.Store.Claims.{find_shipment}
use decathlon_app.Sync.Lifecycle.{Context}
use decathlon_app.Sync.Lifecycle.Refund.Sending.{refresh_order_state-outside}
use decathlon_app.Sync.Lifecycle.Shipment.{
  FulfillmentSyncJobPayload, shipped, is_success, shipment_of, resolve_tracking, update_accepted,
  fail_shipment, shipment_made, ship_lines,
}
use decathlon_app.Sync.Lifecycle.Shipment.Loaded.{AreShipped, IsOrderOf}

abbrev pub listed_of : Result (List DecathlonCarrier) → List DecathlonCarrier
listed_of (ok carriers) = carriers
listed_of (err _) = []

module _ {Num R : Type 0} (n : NumOps Num) (o : Outside Num R) where
  pub fail_shipment-outside :
      (c : Context) (claim_id : ℕ) (text : String) (w : World Num R)
      → (fail_shipment n o c claim_id text w).1.outside ≡ w.outside
  unfolding fail_shipment
  fail_shipment-outside c claim_id text w = refl

  pub update_accepted-outside :
      (c : Context) (mapping : ShipmentMapping) (t : ShipmentTracking)
      (result : ShipmentBatchResult) (w : World Num R)
      → (update_accepted n o c mapping t result w).1.outside ≡ w.outside
  unfolding update_accepted
  update_accepted-outside c mapping t result w = ground arith

  shipment_made-outside :
      (c : Context) (key : String) (claim_id : ℕ) (tracking : Option ShipmentTracking)
      (result : ShipmentBatchResult) (w : World Num R)
      → (shipment_made n o c key claim_id tracking result w).1.outside ≡ w.outside
  unfolding shipment_made
  shipment_made-outside c key claim_id tracking result w =
      let refused = not (is_nil result.shipment_errors) || is_nil result.shipment_success in
      elim (Bool-cases refused) [
        | inl refused_it ↦ rw (refused_it, shipment_made) (fail_shipment-outside c claim_id _ w)
        | inr made_it ↦ rw (made_it, shipment_made) (grind (arith, refresh_order_state-outside))
      ]

  pub answered-outside :
      (c : Context) (key : String) (claim_id : ℕ) (resolved : List (Piece (Unit {0})))
      (tracking : Option ShipmentTracking) (w : World Num R) (r : Result ShipmentBatchResult)
      (after : R)
      → o.create_shipments (shipment_of n o c.order resolved tracking) w.outside ≡ (r, after)
      → (ship_lines n o c key claim_id resolved tracking w).1.outside ≡ after
  unfolding ship_lines
  answered-outside c key claim_id resolved tracking w (err e) after answer =
      rw (answer, ship_lines) (fail_shipment-outside c claim_id _ _)
  answered-outside c key claim_id resolved tracking w (ok result) after answer =
      rw (answer, ship_lines) (shipment_made-outside c key claim_id tracking result _)

  -- The carriers that Decathlon lists, none if it does not answer.
  abbrev pub carriers_at : R → List DecathlonCarrier
  carriers_at before = listed_of (o.list_carriers before)

  abbrev pub tracking_at : FulfillmentSyncJobPayload → R → Option ShipmentTracking
  tracking_at p before =
      resolve_tracking n o p.tracking_company p.tracking_number p.tracking_url (carriers_at before)

  -- The shipment of all lines of the fulfilment, made for an order of the shop, with the tracking
  -- that the job gives.
  pub record Shipped (p : FulfillmentSyncJobPayload) (db : Db Num) (before after : R) : Type 0 where
    pub new : shipped (find_shipment p.shop_id p.shopify_fulfillment_id db) ≡ none
    pub order : OrderMapping
    pub of_shop : IsOrderOf o p.shop_id p.shopify_order_id db order
    pub all_matched : is_nil (resolve_lines order.line_items p.lines).1 ≡ true
    pub some_line : is_nil (resolve_lines order.line_items p.lines).0 ≡ false
    pub input : ShipmentInput
    pub order_id : input.order_id ≡ order.decathlon_order_id
    pub at_once : input.shipped ≡ true
    pub lines : AreShipped (resolve_lines order.line_items p.lines).0 input.shipment_lines
    pub tracked : input.tracking ≡ tracking_at p before
    pub result : after ≡ (o.create_shipments input before).1

  -- A change of the tracking of the shipment that was made for the fulfilment.
  pub record Updated (p : FulfillmentSyncJobPayload) (db : Db Num) (before after : R) : Type 0 where
    pub mapping : ShipmentMapping
    pub made : find_shipment p.shop_id p.shopify_fulfillment_id db ≡ some mapping
    pub succeeded : is_success mapping.status ≡ true
    pub id : String
    pub known : truthy mapping.decathlon_shipment_id ≡ some id
    pub tracking : ShipmentTracking
    pub given : tracking_at p before ≡ some tracking
    pub result : after ≡ (o.update_shipment_tracking id tracking before).1

  abbrev pub ShipsOnce : FulfillmentSyncJobPayload → Db Num → R → R → Type 0
  ShipsOnce p db before after =
      (after ≡ before) ⊎ (Shipped p db before after ⊎ Updated p db before after)
