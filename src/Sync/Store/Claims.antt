-- ===== src/Sync/Store/Claims.antt =====
-- packages/database/src/repositories/fulfillment.repository.ts: the rows that are claimed before
-- anything is sent to Decathlon.
use decathlon_app.Base.{
  ℕ, ◌+◌, String, Bool, true, false, ◌&&◌, List, [], ◌∷◌, ◌++◌, map, Option, none, some, ◌==◌, eqb,
  first_some, find, get_or, M, pure, if◌then◌else◌,
}
use decathlon_app.Sync.Store.Rows.{
  SyncStatus, Db, World, ShipmentMapping, RefundMapping, RefundIds, ReturnMapping,
}
use decathlon_app.Sync.Store.Jobs.{on_db}

abbrev pub is_failed : SyncStatus → Bool
is_failed SyncStatus.failed = true
is_failed _ = false

-- The fields that an update of a refund mapping gives; `none` leaves one alone.
pub record RefundPatch (Num : Type 0) : Type 0 where
  pub decathlon_refund_ids : Option RefundIds
  pub amount : Option Num
  pub currency : Option String
  pub last_error : Option (Option String)

abbrev pub has_fulfillment_key : String → String → ShipmentMapping → Bool
has_fulfillment_key shop_id key s = (s.shop_id == shop_id) && (s.shopify_fulfillment_id == key)

abbrev pub new_shipment : String → ℕ → String → ℕ → ShipmentMapping
new_shipment shop_id order_mapping_id key id = record {
  id = id;
  shop_id = shop_id;
  order_mapping_id = order_mapping_id;
  shopify_fulfillment_id = key;
  status = SyncStatus.processing;
  decathlon_shipment_id = none;
  carrier_code = none;
  carrier_name = none;
  tracking_number = none;
  tracking_url = none;
  last_error = none;
}

abbrev pub reclaimed_shipment : ShipmentMapping → ShipmentMapping
reclaimed_shipment s = record s { status = SyncStatus.processing; last_error = none }

abbrev pub has_return_key : String → String → ReturnMapping → Bool
has_return_key shop_id id r = (r.shop_id == shop_id) && (r.decathlon_return_id == id)

-- The upsert of a return; an undefined field leaves the stored one alone.
abbrev pub updated_return : ReturnMapping → ReturnMapping → ReturnMapping
updated_return given r = record r {
  status = given.status;
  reason_code = first_some given.reason_code r.reason_code;
  rma_number = first_some given.rma_number r.rma_number;
  tracking_number = first_some given.tracking_number r.tracking_number;
  carrier_code = first_some given.carrier_code r.carrier_code;
}

module _ {Num : Type 0} where
  abbrev pub has_refund_key : String → String → RefundMapping Num → Bool
  has_refund_key shop_id key r = (r.shop_id == shop_id) && (r.shopify_refund_id == key)

  abbrev pub find_refund : String → String → Db Num → Option (RefundMapping Num)
  find_refund shop_id key db = find (has_refund_key shop_id key) db.refunds

  -- The insert of a claim, with the unique key (shop, refund) checked.
  abbrev pub new_refund : String → ℕ → String → ℕ → RefundMapping Num
  new_refund shop_id order_mapping_id key id = record {
    id = id;
    shop_id = shop_id;
    order_mapping_id = order_mapping_id;
    shopify_refund_id = key;
    status = SyncStatus.processing;
    decathlon_refund_ids = none;
    amount = none;
    currency = none;
    last_error = none;
  }

  abbrev pub reclaimed_refund : RefundMapping Num → RefundMapping Num
  reclaimed_refund r = record r { status = SyncStatus.processing; last_error = none }

  -- The `updateMany` of a failed row with the key.
  abbrev pub reclaim_refunds : String → String → List (RefundMapping Num) → List (RefundMapping Num)
  reclaim_refunds shop_id key =
      map λ r. if has_refund_key shop_id key r && is_failed r.status then reclaimed_refund r else r

  abbrev pub finished_refund : SyncStatus → RefundPatch Num → RefundMapping Num → RefundMapping Num
  finished_refund status p r = record r {
    status = status;
    decathlon_refund_ids = first_some p.decathlon_refund_ids r.decathlon_refund_ids;
    amount = first_some p.amount r.amount;
    currency = first_some p.currency r.currency;
    last_error = get_or p.last_error r.last_error;
  }

  abbrev pub find_shipment : String → String → Db Num → Option ShipmentMapping
  find_shipment shop_id key db = find (has_fulfillment_key shop_id key) db.shipments

  abbrev pub find_return : String → String → Db Num → Option ReturnMapping
  find_return shop_id id db = find (has_return_key shop_id id) db.returns

module _ {Num R : Type 0} where
  -- `none` if the row is there and has not failed.
  abbrev pub claim_refund : String → ℕ → String → M (World Num R) (Option (RefundMapping Num))
  claim_refund shop_id order_mapping_id key w = elim (find_refund shop_id key w.db) [
    | none ↦
        let row = new_refund shop_id order_mapping_id key w.db.next_id in
        pure (some row) (record w {
          db = record (w.db) { next_id = w.db.next_id + 1; refunds = w.db.refunds ++ row ∷ [] };
        })
    | some r ↦
        if is_failed r.status
        then pure (some (reclaimed_refund r))
            (record w { db = record (w.db) { refunds = reclaim_refunds shop_id key w.db.refunds } })
        else pure none w
  ]

  abbrev pub finish_refund : ℕ → SyncStatus → RefundPatch Num → M (World Num R) (Unit {0})
  finish_refund id status p = on_db λ db. record db {
    refunds =
        map (λ (r : RefundMapping Num). if eqb r.id id then finished_refund status p r else r)
          db.refunds;
  }

  abbrev pub claim_shipment : String → ℕ → String → M (World Num R) (Option ShipmentMapping)
  claim_shipment shop_id order_mapping_id key w = elim (find_shipment shop_id key w.db) [
    | none ↦
        let row = new_shipment shop_id order_mapping_id key w.db.next_id in
        pure (some row) (record w {
          db = record (w.db) { next_id = w.db.next_id + 1; shipments = w.db.shipments ++ row ∷ [] };
        })
    | some s ↦
        if is_failed s.status
        then pure (some (reclaimed_shipment s)) (record w {
          db = record (w.db) {
            shipments =
                map
                  (λ (t : ShipmentMapping).
                    if has_fulfillment_key shop_id key t && is_failed t.status
                    then reclaimed_shipment t
                    else t)
                  w.db.shipments;
          };
        })
        else pure none w
  ]

  abbrev pub update_shipment : ℕ → (ShipmentMapping → ShipmentMapping) → M (World Num R) (Unit {0})
  update_shipment id f = on_db λ db. record db {
    shipments = map (λ (s : ShipmentMapping). if eqb s.id id then f s else s) db.shipments;
  }

  -- `given` is the row to create; its id is taken from the counter.
  abbrev pub upsert_return : ReturnMapping → M (World Num R) (Unit {0})
  upsert_return given = on_db λ db. elim (find_return given.shop_id given.decathlon_return_id db) [
    | none ↦ record db {
      next_id = db.next_id + 1;
      returns = db.returns ++ record given { id = db.next_id } ∷ [];
    }
    | some _ ↦ record db {
      returns =
          map
            (λ (r : ReturnMapping).
              if has_return_key given.shop_id given.decathlon_return_id r
              then updated_return given r
              else r)
            db.returns;
    }
  ]
