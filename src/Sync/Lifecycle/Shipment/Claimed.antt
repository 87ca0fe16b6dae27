-- ===== src/Sync/Lifecycle/Shipment/Claimed.antt =====
-- What one run of `syncFulfillment` sends to Decathlon.
use decathlon_app.Base.{
  ℕ, String, true, List, Option, none, some, ◌≡◌, inl, inr, refl, sym, ap, M, ◌>>=◌, ◌∙◌, ◌==◌,
  get_or, is_nil, Result, ok, err, find, Bool-cases, Option-cases, Result-cases, subst,
}
use decathlon_app.Sync.Money.{NumOps}
use decathlon_app.Sync.Lines.{resolve_lines, truthy}
use decathlon_app.Sync.Outside.{
  Outside, DecathlonCarrier, ShipmentTracking, ShipmentBatchResult, send,
}
use decathlon_app.Sync.Store.Rows.{World, Db, OrderMapping, ShipmentMapping, fulfillment_sync}
use decathlon_app.Sync.Store.Claims.{find_shipment, has_fulfillment_key, is_failed, claim_shipment}
use decathlon_app.Sync.Store.Jobs.{start_job}
use decathlon_app.Sync.Store.Orders.{has_shopify_id}
use decathlon_app.Sync.Lifecycle.{Context, load_order}
use decathlon_app.Sync.Lifecycle.Refund.Sending.{load_order-outside}
use decathlon_app.Sync.Lifecycle.Shipment.{
  FulfillmentSyncJobPayload, shipment_context, shipped, is_success, shipment_of, resolve_tracking,
  is_unchanged, update_tracking, update_accepted, ship_claimed, claim_and_ship, ship_or_update,
  ship_successful, skip_status, fulfillment_started, sync_fulfillment,
}
use decathlon_app.Sync.Lifecycle.Shipment.Loaded.{
  pieces-AreShipped, IsOrderOf, shipped-is_success, load_order-IsOrderOf, load_order-shipments,
}
use decathlon_app.Sync.Lifecycle.Shipment.Once.{
  listed_of, tracking_at, ShipsOnce, fail_shipment-outside, answered-outside,
  update_accepted-outside,
}

module _ {Num R : Type 0} (n : NumOps Num) (o : Outside Num R) where
  module _ (p : FulfillmentSyncJobPayload) (db : Db Num) (correlation_id : String) (job : ℕ)
      (order : OrderMapping) where
    abbrev at : Context
    at = shipment_context p correlation_id job order

    module _ (of_shop : IsOrderOf o p.shop_id p.shopify_order_id db order) where
      ship_claimed-ShipsOnce :
          (tracking : Option ShipmentTracking) (claim : ShipmentMapping) (w : World Num R)
          → shipped (find_shipment p.shop_id p.shopify_fulfillment_id db) ≡ none
          → tracking_at n o p w.outside ≡ tracking
          → ShipsOnce n o p db w.outside (ship_claimed n o at p tracking claim w).1.outside
      unfolding ship_claimed
      ship_claimed-ShipsOnce tracking claim w new given =
          let lines = resolve_lines order.line_items p.lines in
          elim (Bool-cases (is_nil lines.1)) [
            | inr unmatched ↦
                rw (unmatched, ship_claimed) (inl (fail_shipment-outside n o at claim.id _ w))
            | inl matched ↦ elim (Bool-cases (is_nil lines.0)) [
              | inl nothing ↦
                  rw (matched, nothing, ship_claimed)
                    (inl (fail_shipment-outside n o at claim.id _ w))
              | inr something ↦
                  rw (matched, something, ship_claimed)
                    (inr (
                      inl (record {
                        new = new;
                        order = order;
                        of_shop = of_shop;
                        all_matched = matched;
                        some_line = something;
                        input = shipment_of n o order lines.0 tracking;
                        order_id = refl;
                        at_once = refl;
                        lines = pieces-AreShipped lines.0;
                        tracked = sym given;
                        result =
                            answered-outside n o at p.shopify_fulfillment_id claim.id lines.0
                              tracking w _ _ refl;
                      })))
            ]
          ]

      claim_and_ship-ShipsOnce :
          (tracking : Option ShipmentTracking) (w : World Num R)
          → shipped (find_shipment p.shop_id p.shopify_fulfillment_id db) ≡ none
          → tracking_at n o p w.outside ≡ tracking
          → ShipsOnce n o p db w.outside (claim_and_ship n o at p tracking w).1.outside
      unfolding claim_and_ship
      claim_and_ship-ShipsOnce tracking w new given =
          elim (Option-cases (find_shipment p.shop_id p.shopify_fulfillment_id w.db)) [
            | inl absent ↦
                rw (claim_and_ship, claim_shipment, absent)
                  (ship_claimed-ShipsOnce tracking _ _ new given)
            | inr (row, there) ↦ elim (Bool-cases (is_failed row.status)) [
              | inl failed ↦
                  rw (claim_and_ship, claim_shipment, there, failed)
                    (ship_claimed-ShipsOnce tracking _ _ new given)
              | inr busy ↦ rw (claim_and_ship, claim_shipment, there, busy) (inl refl)
            ]
          ]

    updated-outside :
        (mapping : ShipmentMapping) (id : String) (t : ShipmentTracking) (w : World Num R)
        (r : Result ShipmentBatchResult) (after : R)
        → o.update_shipment_tracking id t w.outside ≡ (r, after)
        → ((send (o.update_shipment_tracking id t) >>= update_accepted n o at mapping t)
            w).1.outside
          ≡ after
    updated-outside mapping id t w (err e) after answer = rw answer refl
    updated-outside mapping id t w (ok result) after answer =
        rw answer (update_accepted-outside n o at mapping t result _)

    update_tracking-ShipsOnce :
        (mapping : ShipmentMapping) (tracking : Option ShipmentTracking) (w : World Num R)
        → find_shipment p.shop_id p.shopify_fulfillment_id db ≡ some mapping
        → is_success mapping.status ≡ true
        → tracking_at n o p w.outside ≡ tracking
        → ShipsOnce n o p db w.outside (update_tracking n o at mapping tracking w).1.outside
    unfolding update_tracking
    update_tracking-ShipsOnce mapping none w made succeeded given = inl refl
    update_tracking-ShipsOnce mapping (some t) w made succeeded given =
        elim (Bool-cases (is_unchanged n o mapping (some t))) [
          | inl unchanged ↦ rw (unchanged, update_tracking) (inl refl)
          | inr changed ↦ elim (Option-cases (truthy mapping.decathlon_shipment_id)) [
            | inl unknown ↦ rw (changed, unknown, update_tracking) (inl refl)
            | inr (id, known) ↦
                rw (changed, known, update_tracking)
                  (inr (
                    inr (record {
                      mapping = mapping;
                      made = made;
                      succeeded = succeeded;
                      id = id;
                      known = known;
                      tracking = t;
                      given = given;
                      result = updated-outside mapping id t w _ _ refl;
                    })))
          ]
        ]

    module _ (of_shop : IsOrderOf o p.shop_id p.shopify_order_id db order) (w : World Num R)
        (kept : w.db.shipments ≡ db.shipments) where
      shipments_kept :
          find_shipment p.shop_id p.shopify_fulfillment_id w.db
          ≡ find_shipment p.shop_id p.shopify_fulfillment_id db
      shipments_kept = ap (find (has_fulfillment_key p.shop_id p.shopify_fulfillment_id)) kept

      ship_or_update-ShipsOnce :
          (tracking : Option ShipmentTracking)
          → tracking_at n o p w.outside ≡ tracking
          → ShipsOnce n o p db w.outside (ship_or_update n o at p tracking w).1.outside
      unfolding ship_or_update
      ship_or_update-ShipsOnce tracking given =
          elim (Option-cases (shipped (find_shipment p.shop_id p.shopify_fulfillment_id w.db))) [
            | inl new ↦
                rw (ship_or_update, new)
                  (claim_and_ship-ShipsOnce of_shop tracking w
                    (ap shipped (sym shipments_kept) ∙ new) given)
            | inr (m, there) ↦
                let (made, succeeded) =
                  shipped-is_success (find_shipment p.shop_id p.shopify_fulfillment_id w.db) m
                    there in
                rw (ship_or_update, there)
                  (update_tracking-ShipsOnce m tracking w (sym shipments_kept ∙ made) succeeded
                    given)
          ]

      abbrev tracking_from : Result (List DecathlonCarrier) → Option ShipmentTracking
      tracking_from r =
          resolve_tracking n o p.tracking_company p.tracking_number p.tracking_url (listed_of r)

      ship_successful-ShipsOnce :
          ShipsOnce n o p db w.outside (ship_successful n o at p w).1.outside
      unfolding ship_successful
      ship_successful-ShipsOnce = elim (Result-cases (o.list_carriers w.outside)) [
        | inl (carriers, listed) ↦
            rw (listed, ship_successful) (ship_or_update-ShipsOnce _ (ap tracking_from listed))
        | inr (e, unavailable) ↦
            rw (unavailable, ship_successful)
              (ship_or_update-ShipsOnce _ (ap tracking_from unavailable))
      ]

  ShipsOnce-from :
      (p : FulfillmentSyncJobPayload) {before start after : R}
      → before ≡ start
      → {db : Db Num} → ShipsOnce n o p db before after
      → ShipsOnce n o p db start after
  ShipsOnce-from p {after = after} same {db} h = subst (λ x. ShipsOnce n o p db x after) same h

  skip_status-outside :
      (c : Context) (status : String) (w : World Num R)
      → (skip_status n o c status w).1.outside ≡ w.outside
  unfolding skip_status
  skip_status-outside c status w = elim (Bool-cases (status == "cancelled")) [
    | inl cancelled ↦ rw (cancelled, skip_status) refl
    | inr other ↦ rw (other, skip_status) refl
  ]

  started-ShipsOnce :
      (p : FulfillmentSyncJobPayload) (correlation_id : String) (job : ℕ) (w : World Num R)
      → ShipsOnce n o p w.db w.outside (fulfillment_started n o p correlation_id job w).1.outside
  unfolding fulfillment_started
  started-ShipsOnce p correlation_id job w =
      let same = load_order-outside n o p.shop_id p.shopify_order_id w in
      let w' = (load_order o p.shop_id p.shopify_order_id w).1 in
      elim (Result-cases (load_order o p.shop_id p.shopify_order_id w).0) [
        | inr (e, thrown) ↦ rw (thrown, fulfillment_started) (inl same)
        | inl (none, missing) ↦ rw (missing, fulfillment_started) (inl same)
        | inl (some order, found) ↦
            let of_shop = load_order-IsOrderOf o p.shop_id p.shopify_order_id order w found in
            elim (Bool-cases (p.status == "success")) [
              | inl success ↦
                  rw (found, fulfillment_started, success)
                    (ShipsOnce-from p same (
                      ship_successful-ShipsOnce p w.db correlation_id job order of_shop w'
                        (load_order-shipments o p.shop_id p.shopify_order_id w)))
              | inr other ↦
                  rw (found, fulfillment_started, other)
                    (inl (
                      skip_status-outside (shipment_context p correlation_id job order) p.status w'
                      ∙ same))
            ]
      ]

  ShipsOnce-started :
      (p : FulfillmentSyncJobPayload) (db db' : Db Num) (before after : R)
      → db'.orders ≡ db.orders
      → db'.shipments ≡ db.shipments
      → ShipsOnce n o p db' before after
      → ShipsOnce n o p db before after
  ShipsOnce-started p db db' before after orders shipments (inl same) = inl same
  ShipsOnce-started p db db' before after orders shipments (inr (inl s)) = inr (
      inl (record {
        new =
            ap (λ ms. shipped (find (has_fulfillment_key p.shop_id p.shopify_fulfillment_id) ms))
              (sym shipments)
            ∙ s.new;
        order = s.order;
        of_shop = (
          s.of_shop.0,
          ap (find (has_shopify_id p.shop_id p.shopify_order_id)) (sym orders) ∙ s.of_shop.1,
          s.of_shop.2,
        );
        all_matched = s.all_matched;
        some_line = s.some_line;
        input = s.input;
        order_id = s.order_id;
        at_once = s.at_once;
        lines = s.lines;
        tracked = s.tracked;
        result = s.result;
      }))
  ShipsOnce-started p db db' before after orders shipments (inr (inr u)) = inr (
      inr (record {
        mapping = u.mapping;
        made =
            ap (find (has_fulfillment_key p.shop_id p.shopify_fulfillment_id)) (sym shipments)
            ∙ u.made;
        succeeded = u.succeeded;
        id = u.id;
        known = u.known;
        tracking = u.tracking;
        given = u.given;
        result = u.result;
      }))

  start_job-ShipsOnce :
      (p : FulfillmentSyncJobPayload) (k : ℕ → M (World Num R) (Unit {0})) (given : Option ℕ)
      (w : World Num R)
      → ((job : ℕ) (w' : World Num R) → ShipsOnce n o p w'.db w'.outside (k job w').1.outside)
      → ShipsOnce n o p w.db w.outside
          ((start_job p.shop_id fulfillment_sync given >>= k) w).1.outside
  start_job-ShipsOnce p k none w h = ShipsOnce-started p w.db _ _ _ refl refl (h _ _)
  start_job-ShipsOnce p k (some _) w h = ShipsOnce-started p w.db _ _ _ refl refl (h _ _)

-- One run of `syncFulfillment`, whatever Decathlon answers, sends at most one thing: nothing; or one
-- shipment of all lines of the fulfilment, for the order that the shop's row of the Shopify order
-- gives (its line items, its ids repaired if the commercial id was unknown), only if the fulfilment
-- has no shipment that succeeded, every one of its lines is matched and there is at least one; or one
-- change of the tracking of the shipment that was made for this fulfilment, under its Decathlon id.
-- The tracking is the one that the job gives, resolved against the carriers that Decathlon lists.
pub sync_fulfillment-ShipsOnce :
    {Num R : Type 0} (n : NumOps Num) (o : Outside Num R) (p : FulfillmentSyncJobPayload)
    (w : World Num R)
    → ShipsOnce n o p w.db w.outside (sync_fulfillment n o p w).1.outside
unfolding sync_fulfillment
sync_fulfillment-ShipsOnce n o p w =
    start_job-ShipsOnce n o p
      (fulfillment_started n o p (get_or p.correlation_id (o.random_uuid w.db.next_id)))
      p.sync_job_id w (started-ShipsOnce n o p _)
