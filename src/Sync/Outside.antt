-- ===== src/Sync/Outside.antt =====
-- What the synchronisation calls: the Decathlon client (packages/decathlon/src/client.ts), whose
-- answers are Decathlon's, the tags of a Shopify order, and functions of the JavaScript runtime on
-- texts. Reads leave the outside as it is; a write returns the new outside also when it throws, since
-- Decathlon may have applied it.
use decathlon_app.Base.{ℕ, String, Bool, List, Option, M, Result}
use decathlon_app.Sync.Refunds.{DecathlonOrderLineDto, RefundInput}
use decathlon_app.Sync.Store.Rows.{World}

pub record DecathlonCarrier : Type 0 where
  pub code : String
  pub label : String

pub record ShipmentTracking : Type 0 where
  pub carrier_code : Option String
  pub carrier_name : Option String
  pub tracking_number : Option String
  pub tracking_url : Option String

pub record ShipmentLine : Type 0 where
  pub order_line_id : String
  pub quantity : ℕ

pub record ShipmentInput : Type 0 where
  pub order_id : String
  pub shipped : Bool
  pub shipment_lines : List ShipmentLine
  pub tracking : Option ShipmentTracking

-- The messages of the errors, and the ids of the shipments made; a missing list is empty.
pub record ShipmentBatchResult : Type 0 where
  pub shipment_errors : List String
  pub shipment_success : List (Option String)

pub record DecathlonOrderDto (Num : Type 0) : Type 0 where
  pub order_id : Option String
  pub commercial_id : Option String
  pub order_state : Option String
  pub currency_iso_code : Option String
  pub order_lines : Option (List (DecathlonOrderLineDto Num))

pub record ReturnTracking : Type 0 where
  pub tracking_number : Option String
  pub carrier_code : Option String

pub record DecathlonReturnDto : Type 0 where
  pub id : String
  pub order_id : Option String
  pub order_commercial_id : Option String
  pub state : Option String
  pub reason_code : Option String
  pub rma : Option String
  pub tracking : Option ReturnTracking

pub record Outside (Num R : Type 0) : Type 0 where
  pub list_carriers : R → Result (List DecathlonCarrier)
  pub get_orders : List String → R → Result (List (DecathlonOrderDto Num))
  pub create_shipments : ShipmentInput → R → Result ShipmentBatchResult × R
  pub update_shipment_tracking : String → ShipmentTracking → R → Result ShipmentBatchResult × R
  -- The ids of the refunds made: `refund_id ?? id`.
  pub refund_order_lines : List (RefundInput Num) → R → Result (List (Option String)) × R
  pub list_newest_returns : R → Result (List DecathlonReturnDto)
  pub list_returns_of : String → R → Result (List DecathlonReturnDto)
  -- The messages of the user errors.
  pub tags_add : String → List String → R → Result (List String) × R
  -- `randomUUID()`, by the state of the row counter.
  pub random_uuid : ℕ → String
  -- `id.replace(/-\d+$/, "")`, `state.toLowerCase().replace(/_/g, "-")`
  pub without_line_number : String → String
  pub tag_of_state : String → String
  -- `full` and `base` of `resolveTracking`.
  pub full : String → String
  pub base : String → String

module _ {Num R : Type 0} where
  abbrev pub read : {A : Type 0} → (R → Result A) → M (World Num R) A
  read f w = (f w.outside, w)

  abbrev pub send : {A : Type 0} → (R → Result A × R) → M (World Num R) A
  send f w = let (r, outside) = f w.outside in (r, record w { outside = outside })
