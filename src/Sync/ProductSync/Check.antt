-- ===== src/Sync/ProductSync/Check.antt =====
-- `checkProduct` and `splitProblems` of packages/sync/src/engine.ts.
use decathlon_app.Base.{
  ℕ, ◌+◌, String, true, not, List, [], ◌∷◌, map, none, some, ◌==◌, keep, length, M, pure, message,
  ◌>>=◌,
}
use decathlon_app.Sync.Money.{NumOps}
use decathlon_app.Sync.Store.Rows.{World}
use decathlon_app.Sync.Products.Models.{Words}
use decathlon_app.Sync.ProductSync.Shopify.{Parsing}
use decathlon_app.Sync.ProductSync.Prepare.{
  ProductApi, PreparedProduct, inactive, no_variants, invalid, prepare_product_import,
}

-- `checkProduct`: the readiness of a product, by the same preparation.
pub data Readiness : Type 0 where
  ready blocked skipped : Readiness

pub record ProductReadiness : Type 0 where
  pub shopify_product_id : String
  pub title : String
  pub status : Readiness
  pub variants : ℕ
  pub problems : List String

module _ {Num R : Type 0} (t : Words) (n : NumOps Num) (pa : Parsing Num)
    (api : ProductApi Num R) where
  abbrev pub marker : String
  marker = "is missing required Decathlon attributes: "

  pub split_problems : String → List String
  split_problems text = elim (t.index_of text marker) [
    | none ↦ text ∷ []
    | some at ↦
        keep (λ s. not (s == ""))
          (map t.ops.trim (t.split "; " (t.slice_from (at + t.length marker) text)))
  ]

  pub readiness_of : String → PreparedProduct Num → ProductReadiness
  readiness_of id prepared = elim prepared [
    | PreparedProduct.ready r ↦ record {
      shopify_product_id = id;
      title = r.product.title;
      status = Readiness.ready;
      variants = length r.variants;
      problems = [];
    }
    | inactive product item_label text ↦ record {
      shopify_product_id = id;
      title = product.title;
      status = skipped;
      variants = 0;
      problems = text ∷ [];
    }
    | no_variants product item_label ↦ record {
      shopify_product_id = id;
      title = product.title;
      status = skipped;
      variants = 0;
      problems = [];
    }
    | invalid product item_label e ↦ record {
      shopify_product_id = id;
      title = elim product [ none ↦ id | some found ↦ found.title ];
      status = blocked;
      variants = elim product [ none ↦ 0 | some found ↦ length found.variants ];
      problems = split_problems (message e);
    }
  ]

  pub check_product : String → String → M (World Num R) ProductReadiness
  check_product shop_id shopify_product_id = do
    prepared ←
        prepare_product_import t n pa api shop_id shopify_product_id
          (record { variant_ids = none; skip_duplicate_check = true })
    pure (readiness_of shopify_product_id prepared)
