-- ===== src/Sync/OrderImport/Normalize.antt =====
-- `extractOrdersArray` and `normalizeDecathlonOrder` with its helpers, of
-- packages/sync/src/adapters/decathlon.adapter.ts. The time of creation is left out.
use decathlon_app.Base.{
  ℕ, suc, String, List, [], ◌∷◌, Option, none, some, get_or, first_some, concat, Result, ok, err,
  validation, other, Result-cases, true, false, ◌==◌, if◌then◌else◌, ◌≡◌, refl, Bool-cases, inl,
  inr, All, OnOk, subst,
}
use decathlon_app.Sync.Money.{NumOps}
use decathlon_app.Sync.OrderImport.Models.{
  Json, NormalizedAddress, NormalizedCustomer, NormalizedOrderItem, NormalizedOrder, Runtime, get,
  get_first, is_object, as_string, as_number, as_array, declared_text, declared_number, array,
  items_of,
}

-- An early return of `undefined`.
infixl 5 ◌>>=◌
abbrev ◌>>=◌ : {A B : Type 0} → Option A → (A → Option B) → Option B
none >>= f = none
some a >>= f = f a

module _ {Num : Type 0} where
  unfoldable pub extract_orders_array : Json Num → List (Json Num)
  extract_orders_array raw = elim raw [
    | array js ↦ items_of js
    | value ↦ get_or (first_some (as_array (get "data" value)) (as_array (get "orders" value))) []
  ]

  pub normalize_customer : Option (Json Num) → Option String → Option NormalizedCustomer
  normalize_customer none notification_email = none
  normalize_customer (some raw) notification_email = elim (is_object raw) [
    | false ↦ none
    | true ↦ some (record {
      external_id = as_string (get_first ("customer_id" ∷ "id" ∷ []) raw);
      email =
          first_some (as_string (get "email" raw))
            (elim notification_email [ none ↦ none | some e ↦ if e == "" then none else some e ]);
      first_name = as_string (get_first ("firstname" ∷ "first_name" ∷ []) raw);
      last_name = as_string (get_first ("lastname" ∷ "last_name" ∷ []) raw);
      phone = as_string (get "phone" raw);
    })
  ]

  -- An incomplete address is left out.
  pub normalize_address : Option (Json Num) → Option NormalizedAddress
  normalize_address none = none
  normalize_address (some raw) = do
    let country = get_first ("country" ∷ "country_code" ∷ "country_iso_code" ∷ []) raw
    address1 ← as_string (get_first ("street_1" ∷ "address1" ∷ "street" ∷ []) raw)
    city ← as_string (get "city" raw)
    zip ← as_string (get_first ("zip_code" ∷ "zip" ∷ "postal_code" ∷ []) raw)
    country_code ← as_string country
    some (record {
      first_name = as_string (get_first ("firstname" ∷ "first_name" ∷ []) raw);
      last_name = as_string (get_first ("lastname" ∷ "last_name" ∷ []) raw);
      company = as_string (get "company" raw);
      address1 = address1;
      address2 = as_string (get_first ("street_2" ∷ "address2" ∷ []) raw);
      city = city;
      zip = zip;
      country_code = country_code;
      province_code = as_string (get_first ("state" ∷ "province_code" ∷ []) raw);
      phone = as_string (get "phone" raw);
    })

module _ {Num : Type 0} (n : NumOps Num) (rt : Runtime Num) where
  unfoldable pub normalize_order_line : Json Num → ℕ → String → NormalizedOrderItem Num
  normalize_order_line raw index order_currency =
      let quantity = get_or (as_number rt (get "quantity" raw)) (n.of_ℕ 1) in
      let line_total = as_number rt (get "price" raw) in
      record {
        decathlon_order_line_id =
            get_or (as_string (get_first ("order_line_id" ∷ "id" ∷ []) raw))
              (concat ("line-" ∷ rt.show_index index ∷ []));
        sku = get_or (as_string (get_first ("offer_sku" ∷ "shop_sku" ∷ "sku" ∷ []) raw)) "";
        title = as_string (get "product_title" raw);
        quantity = quantity;
        unit_price =
            get_or (as_number rt (get "price_unit" raw))
              (elim line_total [ some total ↦ n.div total quantity | none ↦ n.of_ℕ 0 ]);
        currency = order_currency;
        tax_amount = as_number rt (get "tax_amount" raw);
        discount_amount = as_number rt (get_first ("discount_amount" ∷ "total_discount" ∷ []) raw);
      }

  -- `lines.map((line, index) => …)` from an index on.
  unfoldable pub normalize_lines : List (Json Num) → ℕ → String → List (NormalizedOrderItem Num)
  normalize_lines [] index currency = []
  normalize_lines (line ∷ lines) index currency =
      normalize_order_line line index currency ∷ normalize_lines lines (suc index) currency

  abbrev pub external_id_of : Json Num → String
  external_id_of dto =
      get_or (first_some (declared_text (get "order_id" dto)) (as_string (get "id" dto))) ""

  -- `(dto.order_lines ?? []).map(…)` throws for anything else that is not an array.
  abbrev pub line_list : Option (Json Num) → Result (List (Json Num))
  line_list none = ok []
  line_list (some (array js)) = ok (items_of js)
  line_list _ = err (other "(dto.order_lines ?? []).map is not a function")

  abbrev pub order_of : Json Num → List (Json Num) → NormalizedOrder Num
  order_of dto lines =
      let currency = get_or (declared_text (get "currency_iso_code" dto)) "EUR" in
      let customer = get_or (get "customer" dto) Json.null in
      record {
        external_id = external_id_of dto;
        commercial_id = declared_text (get "commercial_id" dto);
        status =
            get_or
              (first_some (declared_text (get "order_state" dto))
                (as_string (get "order_state_code" dto)))
              "UNKNOWN";
        currency = currency;
        customer =
            normalize_customer (get "customer" dto)
              (declared_text (get "customer_notification_email" dto));
        shipping_address =
            normalize_address
              (first_some (get "shipping_address" customer) (get "shipping_address" dto));
        billing_address =
            normalize_address
              (first_some (get "billing_address" customer) (get "billing_address" dto));
        items = normalize_lines lines 0 currency;
        total_amount = declared_number (get "total_price" dto);
        shipping_amount = declared_number (get "shipping_price" dto);
      }

  unfoldable pub normalize_decathlon_order : Json Num → Result (NormalizedOrder Num)
  normalize_decathlon_order dto =
      if external_id_of dto == ""
      then err (validation "Decathlon order has no `order_id` — cannot import")
      else elim (line_list (get "order_lines" dto)) [
        | err e ↦ err e
        | ok lines ↦ ok (order_of dto lines)
      ]

  normalize_lines-currency :
      (lines : List (Json Num)) (index : ℕ) (currency : String)
      → All
          (λ (i : NormalizedOrderItem Num). i.currency ≡ currency)
          (normalize_lines lines index currency)
  unfolding normalize_lines normalize_order_line
  normalize_lines-currency [] index currency = tt
  normalize_lines-currency (line ∷ lines) index currency =
      (refl, normalize_lines-currency lines (suc index) currency)

-- What every normalised order is like: it has an id, which is the `order_id` of the answer or, without
-- one, its `id`; and each of its lines is priced in the one currency of the order.
pub record IsPriced {Num : Type 0} (o : NormalizedOrder Num) : Type 0 where
  pub id : (o.external_id == "") ≡ false
  pub lines : All (λ (i : NormalizedOrderItem Num). i.currency ≡ o.currency) o.items

normalize-OnOk :
    {Num : Type 0} (n : NumOps Num) (rt : Runtime Num) (dto : Json Num)
    → OnOk IsPriced (normalize_decathlon_order n rt dto)
unfolding normalize_decathlon_order
normalize-OnOk n rt dto = elim (Bool-cases (external_id_of n rt dto == "")) [
  | inl empty ↦ rw empty tt
  | inr there ↦ elim (Result-cases (line_list n rt (get "order_lines" dto))) [
    | inr (e, bad) ↦ rw (there, bad) tt
    | inl (lines, good) ↦
        rw (there, good) (record { id = there; lines = normalize_lines-currency n rt lines 0 _ })
  ]
]

-- Every order that `normalizeDecathlonOrder` returns has an id that is not empty, and each of its
-- lines carries the currency of the order.
pub normalize_decathlon_order-IsPriced :
    {Num : Type 0} (n : NumOps Num) (rt : Runtime Num) (dto : Json Num) (o : NormalizedOrder Num)
    → normalize_decathlon_order n rt dto ≡ ok o
    → IsPriced o
normalize_decathlon_order-IsPriced n rt dto o made =
    subst (OnOk IsPriced) made (normalize-OnOk n rt dto)
