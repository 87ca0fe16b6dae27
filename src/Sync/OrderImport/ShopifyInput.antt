-- ===== src/Sync/OrderImport/ShopifyInput.antt =====
-- `buildShopifyOrderInput` of packages/sync/src/adapters/shopify.adapter.ts, and the input types of
-- packages/shopify/src/orders.ts.
use decathlon_app.Base.{
  String, List, [], ◌∷◌, Option, none, some, ◌≡◌, refl, map, get_or, concat, lookup, Option-cases,
  inl, inr,
}
use decathlon_app.Sync.Lines.{truthy}
use decathlon_app.Sync.OrderImport.Models.{
  NormalizedAddress, NormalizedOrderItem, NormalizedOrder, Runtime,
}

pub record Money : Type 0 where
  pub amount : String
  pub currency_code : String

pub record PriceSet : Type 0 where
  pub shop_money : Money
  pub presentment_money : Money

pub record Property : Type 0 where
  pub name : String
  pub value : String

pub record LineDetails (Num : Type 0) : Type 0 where
  pub quantity : Num
  pub price_set : PriceSet
  pub properties : List Property

-- A line of a variant, and a line that names its title and SKU instead.
pub data OrderCreateLineItemInput (Num : Type 0) : Type 0 where
  variant_line : String → LineDetails Num → OrderCreateLineItemInput Num
  custom_line : String → Option String → LineDetails Num → OrderCreateLineItemInput Num

-- The financial status is always `PAID`.
pub record OrderCreateOrderInput (Num : Type 0) : Type 0 where
  pub email : Option String
  pub currency : String
  pub presentment_currency : String
  pub line_items : List (OrderCreateLineItemInput Num)
  pub shipping_address : Option NormalizedAddress
  pub billing_address : Option NormalizedAddress
  pub tags : List String
  pub note : String

abbrev pub decathlon_order_line_property : String
decathlon_order_line_property = "_decathlon_order_line_id"

module _ {Num : Type 0} (rt : Runtime Num) where
  abbrev pub details_of : String → NormalizedOrderItem Num → LineDetails Num
  details_of shop_currency item = record {
    quantity = item.quantity;
    price_set = record {
      shop_money = record { amount = rt.to_fixed_2 item.unit_price; currency_code = shop_currency };
      presentment_money = record {
        amount = rt.to_fixed_2 item.unit_price;
        currency_code = item.currency;
      };
    };
    properties =
        record { name = decathlon_order_line_property; value = item.decathlon_order_line_id } ∷ [];
  }

  pub line_input :
      List (String × String) → String → NormalizedOrderItem Num → OrderCreateLineItemInput Num
  line_input matched shop_currency item =
      elim (truthy (lookup item.decathlon_order_line_id matched)) [
        | some variant_id ↦ variant_line variant_id (details_of shop_currency item)
        | none ↦
            custom_line
              (rt.trim (concat ("[UNMATCHED] " ∷ get_or item.title "SKU" ∷ " " ∷ item.sku ∷ [])))
              (truthy (some item.sku)) (details_of shop_currency item)
      ]

  pub build_shopify_order_input :
      NormalizedOrder Num → List (String × String) → String → OrderCreateOrderInput Num
  build_shopify_order_input order matched shop_currency = record {
    email = elim order.customer [ none ↦ none | some c ↦ c.email ];
    currency = shop_currency;
    presentment_currency = order.currency;
    line_items = map (line_input matched shop_currency) order.items;
    shipping_address = order.shipping_address;
    billing_address = order.billing_address;
    tags = "decathlon" ∷ concat ("decathlon-order:" ∷ order.external_id ∷ []) ∷ [];
    note = concat ("Imported from Decathlon Partner order " ∷ order.external_id ∷ []);
  }

-- What an order line asks of Shopify, read off the input, whichever kind of line it is.
pub record Asked (Num : Type 0) : Type 0 where
  pub variant : Option String
  pub order_line_ids : List String
  pub quantity : Num
  pub paid : Money

module _ {Num : Type 0} where
  abbrev pub asked_of : Option String → LineDetails Num → Asked Num
  asked_of variant d = record {
    variant = variant;
    order_line_ids = map (λ (p : Property). p.value) d.properties;
    quantity = d.quantity;
    paid = d.price_set.presentment_money;
  }

  abbrev pub asked : OrderCreateLineItemInput Num → Asked Num
  asked (variant_line v d) = asked_of (some v) d
  asked (custom_line title sku d) = asked_of none d

  -- What a line of the Decathlon order asks for.
  abbrev pub wanted : Runtime Num → List (String × String) → NormalizedOrderItem Num → Asked Num
  wanted rt matched item = record {
    variant = truthy (lookup item.decathlon_order_line_id matched);
    order_line_ids = item.decathlon_order_line_id ∷ [];
    quantity = item.quantity;
    paid = record { amount = rt.to_fixed_2 item.unit_price; currency_code = item.currency };
  }

  line_input-asked :
      (rt : Runtime Num) (matched : List (String × String)) (shop_currency : String)
      (item : NormalizedOrderItem Num)
      → asked (line_input rt matched shop_currency item) ≡ wanted rt matched item
  unfolding line_input
  line_input-asked rt matched shop_currency item =
      elim (Option-cases (truthy (lookup item.decathlon_order_line_id matched))) [
        | inl none_there ↦ rw (none_there, line_input) refl
        | inr (v, there) ↦ rw (there, line_input) refl
      ]

  lines-asked :
      (rt : Runtime Num) (matched : List (String × String)) (shop_currency : String)
      (items : List (NormalizedOrderItem Num))
      → map asked (map (line_input rt matched shop_currency) items) ≡ map (wanted rt matched) items
  lines-asked rt matched shop_currency [] = refl
  lines-asked rt matched shop_currency (i ∷ items) =
      rw (line_input-asked rt matched shop_currency i, lines-asked rt matched shop_currency items)
        refl

-- The input has one line for each line of the Decathlon order, in order, matched or not: with the
-- quantity, the price in the order's currency and the id of that line, and with the matched variant
-- if there is one.
pub build_shopify_order_input-asked :
    {Num : Type 0} (rt : Runtime Num) (order : NormalizedOrder Num)
    (matched : List (String × String)) (shop_currency : String)
    → map asked (build_shopify_order_input rt order matched shop_currency).line_items
      ≡ map (wanted rt matched) order.items
unfolding build_shopify_order_input
build_shopify_order_input-asked rt order matched shop_currency =
    lines-asked rt matched shop_currency order.items
