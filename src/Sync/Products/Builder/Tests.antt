-- ===== src/Sync/Products/Builder/Tests.antt =====
-- A product with one variant, its import and its offer.
use decathlon_app.Base.{
  ℕ, true, false, [], ◌∷◌, none, some, ◌≡◌, refl, arith, All, ltb, lookup, insert, ◌==◌,
}
use decathlon_app.Sync.Samples.{euros}
use decathlon_app.Decathlon.Attributes.{
  DecathlonAttribute, DecathlonValueListEntry, TextOps, required_attributes_for_category,
}
use decathlon_app.Sync.Products.Models.{
  Words, NormalizedProduct, NormalizedVariant, ProductImportContext, ProductImportRow,
}
use decathlon_app.Sync.Products.Sizes.{
  match_size_in_chart, match_size_in_chart-in_chart_of, in_chart_of, first_sorted, pick,
}
use decathlon_app.Sync.Products.Values.{option_value_for}
use decathlon_app.Sync.Products.Fillings.{fill_required}
use decathlon_app.Sync.Products.Builder.{
  build_product_import_payload, build_row, set_texts, set_text, override_all, fill_all, set_size,
  with_size,
}
use decathlon_app.Sync.Products.Builder.Rows.{AreRowsOf, build_product_import_payload-AreRowsOf}
use decathlon_app.Sync.Products.Offers.{
  OfferConfig, IsNonNegative, build_offer_import_payload, build_offer_import_payload-IsNonNegative,
}

abbrev plain_ops : TextOps
plain_ops = record {
  trim = λ s. s;
  to_lower = λ s. s;
  includes = λ a b. false;
  has_min_length = λ k s. true;
}

abbrev plain : Words
plain = record {
  ops = plain_ops;
  starts_with = λ s prefix. s == "Z349_M";
  length = λ _. 1;
  slice_to = λ _ s. s;
  slice_from = λ _ s. s;
  last_space = λ _. none;
  trim_end = λ s. s;
  index_of = λ _ _. none;
  split = λ _ s. s ∷ [];
  to_upper = λ s. s;
  locale_before = λ _ _. false;
  nul = "0";
  codes = λ _. [];
  mentions_size = λ _. false;
  mentions_women = λ _. false;
  size_label = λ _. some ("M", "TOP");
  many_x = λ _. none;
  counted_x = λ _. none;
  eu_size = λ _. none;
  us_size = λ _. none;
  uk_size = λ _ s. s;
  names_size = λ _ _ _. false;
}

abbrev shirt : NormalizedVariant ℕ
shirt = record {
  shopify_variant_id = some "v1";
  sku = "A";
  ean = none;
  price = 10;
  currency = "EUR";
  inventory_quantity = 4;
  option_values = [];
}

abbrev product : NormalizedProduct ℕ
product = record {
  shop_sku = "A";
  title = "Shirt";
  status = some "ACTIVE";
  description = none;
  brand = none;
  category_code = some "C1";
  product_type = none;
  images = [];
  variants = shirt ∷ [];
  attributes = [];
}

abbrev category : DecathlonAttribute
category = record {
  code = "category";
  hierarchy_code = "";
  label = "Category";
  type = "TEXT";
  required = true;
  variant = false;
  values_list = none;
}

abbrev context : ProductImportContext
context = record {
  attributes = category ∷ [];
  value_lists = [];
  ancestor_codes = [];
  manufacturer_email = none;
  fallback_brand_name = none;
  value_mappings = [];
  color_option_names = none;
  size_option_names = none;
  type_rule = none;
}

abbrev built_row : ProductImportRow
built_row =
    ("shop_sku", "A") ∷ ("category_code", "C1") ∷ ("label", "Shirt") ∷ ("category", "C1") ∷ []

-- Texts that start with themselves.
abbrev exact : Words
exact = record plain { starts_with = λ s prefix. s == prefix }

build_product_import_payload-AreRowsOf_example :
    AreRowsOf context ((product, shirt) ∷ []) (built_row ∷ [])
unfolding build_product_import_payload build_row set_texts set_text override_all fill_all set_size
    with_size option_value_for fill_required required_attributes_for_category insert lookup ◌==◌
build_product_import_payload-AreRowsOf_example =
    build_product_import_payload-AreRowsOf exact context ((product, shirt) ∷ []) (built_row ∷ [])
      (record { prefix = refl; codes = tt; mapped = tt; others = (refl, tt) }) (refl, tt) refl

abbrev medium : DecathlonValueListEntry
medium = record { list_code = "size_cpn_7"; code = "Z349_M"; label = "M (Z349: TOP)" }

match_size_in_chart-in_chart_of_example : in_chart_of plain "Z349" medium ≡ true
unfolding match_size_in_chart pick first_sorted
match_size_in_chart-in_chart_of_example =
    match_size_in_chart-in_chart_of plain (medium ∷ []) "Z349" "M" medium refl

ltb-asymmetric : (a b : ℕ) → ltb a b ≡ true → ltb b a ≡ false
ltb-asymmetric a b h = ground arith

abbrev config : OfferConfig ℕ
config = record {
  price_markup_percent = none;
  price_discount_percent = some 50;
  default_currency = "EUR";
  offer_state_code = "11";
}

build_offer_import_payload-IsNonNegative_example :
    All (IsNonNegative euros) (build_offer_import_payload euros (λ q. q) (shirt ∷ []) config)
build_offer_import_payload-IsNonNegative_example =
    build_offer_import_payload-IsNonNegative euros (λ q. q) ltb-asymmetric (shirt ∷ []) config
