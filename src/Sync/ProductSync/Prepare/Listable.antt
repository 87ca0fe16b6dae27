-- ===== src/Sync/ProductSync/Prepare/Listable.antt =====
-- What is ready to be imported: active products of a category that products can be listed in, with
-- complete rows.
use decathlon_app.Base.{
  String, true, false, List, Option, some, ◌≡◌, ◌==◌, Result, Error, ok, err, map, is_nil, get_or,
  find, is_some, All,
}
use decathlon_app.Decathlon.Attributes.{DecathlonAttribute, DecathlonHierarchy, ancestor_codes_for}
use decathlon_app.Sync.Store.Rows.{World}
use decathlon_app.Sync.Catalog.{attributes, hierarchies}
use decathlon_app.Sync.Products.Models.{NormalizedProduct, NormalizedVariant, ProductImportContext}
use decathlon_app.Sync.Products.Builder.Complete.{AreComplete}
use decathlon_app.Sync.ProductSync.Prepare.{
  ProductApi, ReadyProduct, PreparedProduct, inactive, no_variants, invalid, ready,
}

-- The attributes and the category tree are what the catalogue returns when the attributes are asked
-- for in a state, and the tree right after them.
pub record IsCatalog {Num R : Type 0} (api : ProductApi Num R) (shop_id : String)
    (asked : World Num R) (attrs : List DecathlonAttribute) (tree : List DecathlonHierarchy)
    : Type 0 where
  pub attrs_told : (attributes api.catalog shop_id asked).0 ≡ ok attrs
  pub tree_told :
      (hierarchies api.catalog shop_id (attributes api.catalog shop_id asked).1).0 ≡ ok tree

-- The category is in the tree, and no other has it as its parent.
pub record IsLeaf (tree : List DecathlonHierarchy) (code : String) : Type 0 where
  pub there : is_some (find (λ (h : DecathlonHierarchy). h.code == code) tree) ≡ true
  pub childless : All (λ (h : DecathlonHierarchy). (h.parent_code == code) ≡ false) tree

-- The product is active and its category is a leaf of the catalogue's tree, and each of its
-- variants that are sent has a row with everything that the catalogue requires of the category.
pub record IsListable {Num R : Type 0} (api : ProductApi Num R) (shop_id : String)
    (asked : World Num R) (r : ReadyProduct Num) : Type 0 where
  pub active : (get_or r.product.status "" == "ACTIVE") ≡ true
  pub code : String
  pub categorised : r.product.category_code ≡ some code
  pub context : ProductImportContext
  pub tree : List DecathlonHierarchy
  pub known : IsCatalog api shop_id asked context.attributes tree
  pub inherited : context.ancestor_codes ≡ ancestor_codes_for tree code
  pub leaf : IsLeaf tree code
  pub some_variant : is_nil r.variants ≡ false
  pub complete :
      AreComplete context
        (map (λ (v : NormalizedVariant Num). (r.product, v)) r.variants)
        r.products

-- Nothing is ready, with its reason; or something that can be listed is.
pub data Prepares {Num R : Type 0} (api : ProductApi Num R) (shop_id : String) (asked : World Num R)
    : Result (PreparedProduct Num) → Type 0 where
  throws : (e : Error) → Prepares api shop_id asked (err e)
  skips_inactive :
      (product : NormalizedProduct Num) (item_label text : String)
      → Prepares api shop_id asked (ok (inactive product item_label text))
  skips_empty :
      (product : NormalizedProduct Num) (item_label : String)
      → Prepares api shop_id asked (ok (no_variants product item_label))
  refuses :
      (product : Option (NormalizedProduct Num)) (item_label : Option String) (e : Error)
      → Prepares api shop_id asked (ok (invalid product item_label e))
  lists :
      (r : ReadyProduct Num)
      → IsListable api shop_id asked r
      → Prepares api shop_id asked (ok (ready r))
