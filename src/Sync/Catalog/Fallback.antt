-- ===== src/Sync/Catalog/Fallback.antt =====
-- The catalogue cache never fails.
use decathlon_app.Base.{String, List, none, some, ◌≡◌, Error, ok, err, Result}
use decathlon_app.Sync.Store.Rows.{CatalogReference, World}
use decathlon_app.Sync.Catalog.{CatalogApi, Table, look, entries_of, one_hour_ms}

-- What a warm returns: the fresh row; or, where there is none, the new data, or the row of any age.
pub data Warms {Num R T : Type 0} (api : CatalogApi R) (table : Table T) (shop_id key : String)
    (fetcher : R → Result (List T)) (w : World Num R) : Result (List T) → Type 0 where
  fresh :
      (r : CatalogReference T)
      → look api table shop_id key (some one_hour_ms) w ≡ some r
      → Warms api table shop_id key fetcher w (ok r.entries)
  fetched :
      (entries : List T)
      → look api table shop_id key (some one_hour_ms) w ≡ none
      → fetcher w.outside ≡ ok entries
      → Warms api table shop_id key fetcher w (ok entries)
  stale :
      (e : Error)
      → look api table shop_id key (some one_hour_ms) w ≡ none
      → fetcher w.outside ≡ err e
      → Warms api table shop_id key fetcher w (ok (entries_of (look api table shop_id key none w)))
