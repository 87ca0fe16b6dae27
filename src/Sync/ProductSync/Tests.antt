-- ===== src/Sync/ProductSync/Tests.antt =====
-- The catalogue cache and the preparation of a product on the sample shop.
use decathlon_app.Base.{ℕ, true, false, [], ◌∷◌, none, some, ok, err, other, ◌≡◌, ◌==◌}
use decathlon_app.Sync.Samples.{world_with}
use decathlon_app.Decathlon.Attributes.{TextOps}
use decathlon_app.Sync.Catalog.{CatalogApi}
use decathlon_app.Sync.Store.Catalog.{find_by_product_type}
use decathlon_app.Sync.Store.Rules.{upsert_rule}
use decathlon_app.Sync.Store.Rules.Lookup.{code_of, upsert_rule-find_by_product_type}
use decathlon_app.Sync.Products.Models.{Words}
use decathlon_app.Sync.ProductSync.Shopify.{ShopifyProduct, Parsing}
use decathlon_app.Sync.ProductSync.Prepare.{ProductApi, PrepareOptions}

-- Decathlon has one category, and its attributes cannot be had.
abbrev catalog : CatalogApi ℕ
catalog = record {
  get_product_attributes = λ _. err (other "429");
  get_hierarchies =
      λ _. ok (record { code = "C1"; label = "Shirts"; level = 1; parent_code = "" } ∷ []);
  get_value_lists = λ _ _. ok [];
  now = λ _. 5;
}

abbrev plain_ops : TextOps
plain_ops = record {
  trim = λ s. s;
  to_lower = λ s. s;
  includes = λ _ _. false;
  has_min_length = λ _ _. true;
}

abbrev plain : Words
plain = record {
  ops = plain_ops;
  starts_with = λ _ _. false;
  length = λ _. 1;
  slice_to = λ _ s. s;
  slice_from = λ _ s. s;
  last_space = λ _. none;
  trim_end = λ s. s;
  index_of = λ _ _. none;
  split = λ _ s. s ∷ [];
  to_upper = λ s. s;
  locale_before = λ _ _. false;
  nul = "0";
  codes = λ _. [];
  mentions_size = λ _. false;
  mentions_women = λ _. false;
  size_label = λ _. none;
  many_x = λ _. none;
  counted_x = λ _. none;
  eu_size = λ _. none;
  us_size = λ _. none;
  uk_size = λ _ s. s;
  names_size = λ _ _ _. false;
}

abbrev parsing : Parsing ℕ
parsing = record { parse_json = λ _. none; text_of_json = λ _. ""; number_of = λ _. 10 }

abbrev shirt : ShopifyProduct ℕ
shirt = record {
  id = "p1";
  status = "ACTIVE";
  title = "Shirt";
  description_html = none;
  vendor = none;
  product_type = none;
  category_name = none;
  images = [];
  decathlon_category = some "C1";
  decathlon_attributes = none;
  variants =
      record {
        id = "v1";
        sku = some "A";
        barcode = none;
        price = "10";
        selected_options = [];
        inventory_levels = [];
      }
      ∷ [];
}

abbrev api : ProductApi ℕ ℕ
api = record {
  catalog = catalog;
  get_product = λ _ _. ok (some shirt);
  get_products = λ _ _. ok [];
  variants_to_products = λ _ _. ok [];
}

abbrev all_variants : PrepareOptions
all_variants = record { variant_ids = none; skip_duplicate_check = false }

upsert_rule-find_by_product_type_example :
    code_of (
      find_by_product_type plain "shop" "Shirts" (record ((world_with []).db) {
        category_mappings = upsert_rule plain "shop" "Shirts" "C1" [];
      }))
    ≡ some "C1"
unfolding ◌==◌
upsert_rule-find_by_product_type_example =
    upsert_rule-find_by_product_type plain "shop" "Shirts" "C1" "shop" "Shirts" (world_with []).db
