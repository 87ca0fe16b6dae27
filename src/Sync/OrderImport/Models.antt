-- ===== src/Sync/OrderImport/Models.antt =====
-- Raw answers of Decathlon as JSON; and the models of packages/shared/src/normalized-models.ts for an
-- order.
use decathlon_app.Base.{
  ℕ, String, Bool, true, false, List, [], ◌∷◌, Option, none, some, ◌==◌, first_some, if◌then◌else◌,
}

mutual
  pub data Json (Num : Type 0) : Type 0 where
    null : Json Num
    boolean : Bool → Json Num
    number : Num → Json Num
    text : String → Json Num
    array : Items Num → Json Num
    object : Fields Num → Json Num

  pub data Items (Num : Type 0) : Type 0 where
    nil : Items Num
    cons : Json Num → Items Num → Items Num

  pub data Fields (Num : Type 0) : Type 0 where
    end : Fields Num
    field : String → Json Num → Fields Num → Fields Num

pub record NormalizedAddress : Type 0 where
  pub first_name : Option String
  pub last_name : Option String
  pub company : Option String
  pub address1 : String
  pub address2 : Option String
  pub city : String
  pub zip : String
  pub country_code : String
  pub province_code : Option String
  pub phone : Option String

pub record NormalizedCustomer : Type 0 where
  pub external_id : Option String
  pub email : Option String
  pub first_name : Option String
  pub last_name : Option String
  pub phone : Option String

pub record NormalizedOrderItem (Num : Type 0) : Type 0 where
  pub decathlon_order_line_id : String
  pub sku : String
  pub title : Option String
  pub quantity : Num
  pub unit_price : Num
  pub currency : String
  pub tax_amount : Option Num
  pub discount_amount : Option Num

pub record NormalizedOrder (Num : Type 0) : Type 0 where
  pub external_id : String
  pub commercial_id : Option String
  pub status : String
  pub currency : String
  pub customer : Option NormalizedCustomer
  pub shipping_address : Option NormalizedAddress
  pub billing_address : Option NormalizedAddress
  pub items : List (NormalizedOrderItem Num)
  pub total_amount : Option Num
  pub shipping_amount : Option Num

-- Functions of the JavaScript runtime: `Number(text)`, `text.trim()`, the text of an index,
-- `toFixed(2)`, and the count that a whole number is in the database, `none` for a number that is not
-- one.
pub record Runtime (Num : Type 0) : Type 0 where
  pub number_of : String → Num
  pub trim : String → String
  pub show_index : ℕ → String
  pub to_fixed_2 : Num → String
  pub count_of : Num → Option ℕ

module _ {Num : Type 0} where
  abbrev pub items_of : Items Num → List (Json Num)
  items_of nil = []
  items_of (cons j js) = j ∷ items_of js

  -- The last value of a key, as in a JavaScript object.
  unfoldable pub value_of : String → Fields Num → Option (Json Num)
  value_of key end = none
  value_of key (field k v fs) =
      let later = value_of key fs in first_some later (if k == key then some v else none)

  abbrev pub nonnull : Option (Json Num) → Option (Json Num)
  nonnull (some null) = none
  nonnull o = o

  -- `raw.key` on any value: only an object has fields, and `null` counts as missing.
  abbrev pub get : String → Json Num → Option (Json Num)
  get key (object fs) = nonnull (value_of key fs)
  get key _ = none

  -- `r.a ?? r.b ?? …`
  abbrev pub get_first : List String → Json Num → Option (Json Num)
  get_first [] raw = none
  get_first (key ∷ keys) raw = first_some (get key raw) (get_first keys raw)

  abbrev pub is_null : Json Num → Bool
  is_null null = true
  is_null _ = false

  -- `raw && typeof raw === "object"`
  abbrev pub is_object : Json Num → Bool
  is_object (object _) = true
  is_object (array _) = true
  is_object _ = false

  abbrev pub as_string : Option (Json Num) → Option String
  as_string (some (text s)) = if s == "" then none else some s
  as_string _ = none

  -- A field that the type of the answer declares as a text, or as a number.
  abbrev pub declared_text : Option (Json Num) → Option String
  declared_text (some (text s)) = some s
  declared_text _ = none

  abbrev pub declared_number : Option (Json Num) → Option Num
  declared_number (some (number x)) = some x
  declared_number _ = none

  abbrev pub as_array : Option (Json Num) → Option (List (Json Num))
  as_array (some (array js)) = some (items_of js)
  as_array _ = none

  module _ (rt : Runtime Num) where
    abbrev pub as_number : Option (Json Num) → Option Num
    as_number (some (number x)) = some x
    as_number (some (text s)) = if rt.trim s == "" then none else some (rt.number_of s)
    as_number _ = none
