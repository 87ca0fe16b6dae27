-- ===== src/Sync/Catalog.antt =====
-- `CatalogCache` of packages/sync/src/catalog-cache.ts.
pub mod Fallback
use decathlon_app.Base.{
  ℕ, String, List, [], Option, none, some, M, pure, attempt, Result, ok, err, ◌>>=◌, ◌>>◌,
}
use decathlon_app.Decathlon.Attributes.{
  DecathlonAttribute, DecathlonHierarchy, DecathlonValueListEntry,
}
use decathlon_app.Sync.Outside.{read}
use decathlon_app.Sync.Store.Rows.{Catalog, CatalogReference, Db, World}
use decathlon_app.Sync.Store.Jobs.{on_db}
use decathlon_app.Sync.Store.Catalog.{find_fresh, upsert_reference}

-- The client's calls, with their answers parsed (PM11, H11, VL11), and `Date.now()`.
pub record CatalogApi (R : Type 0) : Type 0 where
  pub get_product_attributes : R → Result (List DecathlonAttribute)
  pub get_hierarchies : R → Result (List DecathlonHierarchy)
  pub get_value_lists : String → R → Result (List DecathlonValueListEntry)
  pub now : R → ℕ

abbrev pub one_hour_ms : ℕ
one_hour_ms = 3600000

-- The cached rows of one type in the catalogue.
pub record Table (T : Type 0) : Type 0 where
  pub rows : Catalog → List (CatalogReference T)
  pub set_rows : List (CatalogReference T) → Catalog → Catalog

abbrev pub attribute_table : Table DecathlonAttribute
attribute_table = record {
  rows = λ c. c.attributes;
  set_rows = λ rows c. record c { attributes = rows };
}

abbrev pub hierarchy_table : Table DecathlonHierarchy
hierarchy_table = record {
  rows = λ c. c.hierarchies;
  set_rows = λ rows c. record c { hierarchies = rows };
}

abbrev pub value_list_table : Table DecathlonValueListEntry
value_list_table = record {
  rows = λ c. c.value_lists;
  set_rows = λ rows c. record c { value_lists = rows };
}

abbrev pub entries_of : {T : Type 0} → Option (CatalogReference T) → List T
entries_of none = []
entries_of (some r) = r.entries

module _ {Num R : Type 0} (api : CatalogApi R) where
  module _ {T : Type 0} (table : Table T) where
    abbrev pub look : String → String → Option ℕ → World Num R → Option (CatalogReference T)
    look shop_id key max_age w =
        find_fresh shop_id key max_age (api.now w.outside) (table.rows w.db.catalog)

    abbrev pub store : String → String → List T → M (World Num R) (Unit {0})
    store shop_id key entries w =
        on_db
          (λ db. record db {
            catalog =
                table.set_rows
                  (upsert_reference shop_id key entries (api.now w.outside) (table.rows db.catalog))
                  db.catalog;
          })
          w

    -- What follows the call: the new data, or the old.
    pub settle : String → String → Result (List T) → M (World Num R) (List T)
    settle shop_id key (ok parsed) w = (store shop_id key parsed >> pure parsed) w
    settle shop_id key (err e) w = pure (entries_of (look shop_id key none w)) w

    pub warm : String → String → (R → Result (List T)) → M (World Num R) (List T)
    warm shop_id key fetcher w = elim (look shop_id key (some one_hour_ms) w) [
      | some r ↦ pure r.entries w
      | none ↦ settle shop_id key (fetcher w.outside) w
    ]

  pub attributes : String → M (World Num R) (List DecathlonAttribute)
  attributes shop_id = warm attribute_table shop_id "ALL" api.get_product_attributes

  pub hierarchies : String → M (World Num R) (List DecathlonHierarchy)
  hierarchies shop_id = warm hierarchy_table shop_id "ALL" api.get_hierarchies

  pub value_list : String → String → M (World Num R) (List DecathlonValueListEntry)
  value_list shop_id list_code =
      warm value_list_table shop_id list_code (api.get_value_lists list_code)
