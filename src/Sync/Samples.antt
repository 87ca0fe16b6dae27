-- ===== src/Sync/Samples.antt =====
-- Sample data for the tests: whole amounts of money, a shop with one order, and a Decathlon whose
-- state is the number of writes it has had.
use decathlon_app.Base.{
  ℕ, suc, ◌+◌, ◌-◌, ◌*◌, ◌/◌, true, false, List, [], ◌∷◌, Option, none, some, ◌≡◌, ltb, arith, ok,
}
use decathlon_app.Sync.Money.{NumOps}
use decathlon_app.Sync.Lines.{OrderLineItem, ShopifyLineRef}
use decathlon_app.Sync.Refunds.{RefundDto, DecathlonOrderLineDto}
use decathlon_app.Sync.Outside.{Outside, DecathlonOrderDto}
use decathlon_app.Sync.Store.Rows.{
  MappingStatus, OrderMapping, RefundIds, RefundMapping, SyncStatus, World,
}

abbrev pub euros : NumOps ℕ
euros = record {
  of_ℕ = λ k. k;
  cent = 0;
  add = λ a b. a + b;
  sub = λ a b. a - b;
  mul = λ a b. a * b;
  div = λ a b. a / b;
  round = λ a. a;
  lt = ltb;
  show = λ _. "n";
}

pub ltb-irreflexive : (x : ℕ) → ltb x x ≡ false
ltb-irreflexive x = ground arith

abbrev pub two_lines : List OrderLineItem
two_lines =
    record {
      decathlon_order_line_id = "D1-1";
      sku = "A";
      quantity = 3;
      variant = some "v1";
      currency = "EUR";
    }
    ∷ record {
      decathlon_order_line_id = "D1-2";
      sku = "B";
      quantity = 1;
      variant = none;
      currency = "EUR";
    }
    ∷ []

abbrev pub old_refund : RefundDto ℕ
old_refund = record { id = "r1"; amount = some 10; shipping_amount = none; quantity = some 1 }

abbrev pub shown_line : DecathlonOrderLineDto ℕ
shown_line = record {
  order_line_id = some "D1-1";
  order_line_state = some "SHIPPING";
  quantity = some 3;
  price = some 30;
  shipping_price = none;
  can_refund = some true;
  refunds = some (old_refund ∷ []);
}

abbrev pub shown_order : DecathlonOrderDto ℕ
shown_order = record {
  order_id = some "D1";
  commercial_id = some "C1";
  order_state = some "SHIPPING";
  currency_iso_code = some "EUR";
  order_lines = some (shown_line ∷ []);
}

abbrev pub sample_outside : Outside ℕ ℕ
sample_outside = record {
  list_carriers = λ _. ok [];
  get_orders = λ _ _. ok (shown_order ∷ []);
  create_shipments = λ _ writes.
      (ok (record { shipment_errors = []; shipment_success = some "s1" ∷ [] }), suc writes);
  update_shipment_tracking =
      λ _ _ writes. (ok (record { shipment_errors = []; shipment_success = [] }), suc writes);
  refund_order_lines = λ _ writes. (ok (some "r2" ∷ []), suc writes);
  list_newest_returns = λ _. ok [];
  list_returns_of = λ _ _. ok [];
  tags_add = λ _ _ writes. (ok [], suc writes);
  random_uuid = λ _. "uuid";
  without_line_number = λ s. s;
  tag_of_state = λ s. s;
  full = λ s. s;
  base = λ s. s;
}

abbrev pub sample_order : OrderMapping
sample_order = record {
  id = 1;
  shop_id = "shop";
  shopify_order_id = "S1";
  decathlon_order_id = "D1";
  decathlon_commercial_id = some "C1";
  decathlon_order_status = none;
  decathlon_shipment_id = none;
  shopify_fulfillment_id = none;
  match_status = MappingStatus.synced;
  line_items = two_lines;
}

-- A refund mapping of refund R1, with its status and ids.
abbrev pub refund_row : SyncStatus → Option RefundIds → RefundMapping ℕ
refund_row status ids = record {
  id = 2;
  shop_id = "shop";
  order_mapping_id = 1;
  shopify_refund_id = "R1";
  status = status;
  decathlon_refund_ids = ids;
  amount = none;
  currency = none;
  last_error = none;
}

abbrev pub world_with : List (RefundMapping ℕ) → World ℕ ℕ
world_with refunds = record {
  db = record {
    next_id = 3;
    jobs = [];
    logs = [];
    products = [];
    orders = sample_order ∷ [];
    shipments = [];
    refunds = refunds;
    returns = [];
    configs = [];
    category_mappings = [];
    value_mappings = [];
    catalog = record { attributes = []; hierarchies = []; value_lists = [] };
  };
  outside = 0;
}

abbrev pub line_ref : {E : Type 0} → E → ShopifyLineRef E
line_ref extra = record {
  decathlon_order_line_id = none;
  variant_id = some "v1";
  sku = some "A";
  quantity = 1;
  extra = extra;
}
