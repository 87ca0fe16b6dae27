-- ===== src/Sync/Products/Offers.antt =====
-- `buildOfferImportPayload` of packages/sync/src/adapters/decathlon.adapter.ts, and `clampQuantity` of
-- packages/sync/src/pricing.ts.
use decathlon_app.Base.{
  String, true, false, List, [], ◌∷◌, map, Option, ◌≡◌, All, Bool-cases, inl, inr,
}
use decathlon_app.Sync.Lines.{truthy}
use decathlon_app.Sync.Money.{NumOps, compute_offer_price, max_num}
use decathlon_app.Sync.Products.Models.{NormalizedVariant}

-- The product reference is an EAN, if there is one.
pub record OfferImportRow (Num : Type 0) : Type 0 where
  pub shop_sku : String
  pub price : Num
  pub quantity : Num
  pub currency_iso_code : String
  pub state_code : String
  pub ean : Option String

pub record OfferConfig (Num : Type 0) : Type 0 where
  pub price_markup_percent : Option Num
  pub price_discount_percent : Option Num
  pub default_currency : String
  pub offer_state_code : String

-- `trunc` is `Math.trunc`.
module _ {Num : Type 0} (n : NumOps Num) (trunc : Num → Num) where
  pub clamp_quantity : Num → Num
  clamp_quantity quantity = max_num n (n.of_ℕ 0) (trunc quantity)

  pub offer_row : OfferConfig Num → NormalizedVariant Num → OfferImportRow Num
  offer_row config variant = record {
    shop_sku = variant.sku;
    price =
        compute_offer_price n variant.price config.price_markup_percent
          config.price_discount_percent;
    quantity = clamp_quantity variant.inventory_quantity;
    currency_iso_code = config.default_currency;
    state_code = config.offer_state_code;
    ean = truthy variant.ean;
  }

  pub build_offer_import_payload :
      List (NormalizedVariant Num) → OfferConfig Num → List (OfferImportRow Num)
  build_offer_import_payload rows config = map (offer_row config) rows

-- Neither the price nor the stock of an offer is below zero.
pub record IsNonNegative {Num : Type 0} (n : NumOps Num) (row : OfferImportRow Num) : Type 0 where
  pub price : n.lt row.price (n.of_ℕ 0) ≡ false
  pub quantity : n.lt row.quantity (n.of_ℕ 0) ≡ false

module _ {Num : Type 0} (n : NumOps Num)
    (asymmetric : (a b : Num) → n.lt a b ≡ true → n.lt b a ≡ false) where
  irreflexive : (a : Num) → n.lt a a ≡ false
  irreflexive a = elim (Bool-cases (n.lt a a)) [
    | inl below ↦ asymmetric a a below
    | inr fine ↦ fine
  ]

  max_num-zero : (x : Num) → n.lt (max_num n (n.of_ℕ 0) x) (n.of_ℕ 0) ≡ false
  max_num-zero x = elim (Bool-cases (n.lt (n.of_ℕ 0) x)) [
    | inl above ↦ rw above (asymmetric (n.of_ℕ 0) x above)
    | inr other ↦ rw other (irreflexive (n.of_ℕ 0))
  ]

-- If `<` is asymmetric, then no offer has a price or a stock below zero, whatever the prices, the
-- discount and the stock of the shop are.
pub build_offer_import_payload-IsNonNegative :
    {Num : Type 0} (n : NumOps Num) (trunc : Num → Num)
    → ((a b : Num) → n.lt a b ≡ true → n.lt b a ≡ false)
    → (rows : List (NormalizedVariant Num)) (config : OfferConfig Num)
    → All (IsNonNegative n) (build_offer_import_payload n trunc rows config)
unfolding build_offer_import_payload offer_row clamp_quantity compute_offer_price
build_offer_import_payload-IsNonNegative n trunc asymmetric [] config = tt
build_offer_import_payload-IsNonNegative n trunc asymmetric (v ∷ rows) config = (
  record {
    price = max_num-zero n asymmetric _;
    quantity = max_num-zero n asymmetric (trunc v.inventory_quantity);
  },
  build_offer_import_payload-IsNonNegative n trunc asymmetric rows config,
)
