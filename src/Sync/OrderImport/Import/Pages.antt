-- ===== src/Sync/OrderImport/Import/Pages.antt =====
-- The cursor of the order import: how a run moves it on, or back to the start.
use decathlon_app.Base.{
  ℕ, zero, suc, ◌+◌, String, Bool, true, List, [], ◌∷◌, Option, none, some, ◌≡◌, find, Result, ok,
  ◌==◌, length, if◌then◌else◌, is_some, All, err, false,
}
use decathlon_app.Sync.Money.{NumOps}
use decathlon_app.Sync.Outside.{Outside}
use decathlon_app.Sync.Store.Rows.{SyncConfiguration, World, order_import}
use decathlon_app.Sync.Store.Jobs.{ensure_sync_job, update_progress}
use decathlon_app.Sync.Store.Orders.{get_config}
use decathlon_app.Sync.OrderImport.Models.{Json, Runtime, is_null}
use decathlon_app.Sync.OrderImport.Normalize.{extract_orders_array}
use decathlon_app.Sync.OrderImport.Import.{Remote, import_one_order, order_failed}

module _ {Num R : Type 0} (n : NumOps Num) (rt : Runtime Num) (remote : Remote Num R) where
  module _ (configs : List (SyncConfiguration Num)) where
    HasConfigs : World Num R → Type 0
    HasConfigs w = w.db.configs ≡ configs

  -- The state after the import of one entry, whatever becomes of it: a failed one leaves a log row.
  abbrev pub after_one :
      String → String → ℕ → Json Num → Result (Unit {0}) → World Num R → World Num R
  after_one shop_id correlation_id job dto (ok _) w = w
  after_one shop_id correlation_id job dto (err e) w =
      (order_failed n rt remote shop_id correlation_id job dto e w).1

  abbrev pub one_imported : String → String → ℕ → String → Json Num → World Num R → World Num R
  one_imported shop_id correlation_id job shop_currency dto w =
      after_one shop_id correlation_id job dto
        (import_one_order n rt remote shop_id dto correlation_id job shop_currency w).0
        (import_one_order n rt remote shop_id dto correlation_id job shop_currency w).1

  -- The state after every entry of a page has been imported, one after the other.
  abbrev pub each_imported :
      String → String → ℕ → String → ℕ → ℕ → List (Json Num) → World Num R → World Num R
  each_imported shop_id correlation_id job shop_currency processed total [] w = w
  each_imported shop_id correlation_id job shop_currency processed total (dto ∷ dtos) w =
      each_imported shop_id correlation_id job shop_currency (suc processed) total dtos
        (update_progress job (suc processed) total
          (one_imported shop_id correlation_id job shop_currency dto w)).1

-- The cursor of a shop; a shop without a configuration starts at 0, the default.
abbrev of_shop : {Num : Type 0} → String → SyncConfiguration Num → Bool
of_shop shop_id c = c.shop_id == shop_id

abbrev cursor_of : {Num : Type 0} → Option (SyncConfiguration Num) → ℕ
cursor_of none = 0
cursor_of (some c) = c.order_import_cursor_offset

abbrev pub cursor_in : {Num : Type 0} → String → List (SyncConfiguration Num) → ℕ
cursor_in shop_id configs = cursor_of (find (of_shop shop_id) configs)

-- The cursor after a page of so many orders: an empty page sends it back to the start.
abbrev pub next_cursor : ℕ → ℕ → ℕ
next_cursor offset zero = 0
next_cursor offset (suc k) = offset + suc k

abbrev moved : {Num : Type 0} → String → ℕ → SyncConfiguration Num → SyncConfiguration Num
moved shop_id offset c =
    if c.shop_id == shop_id then record c { order_import_cursor_offset = offset } else c

-- What a run of `importOrders` promises: it ends well, with the cursor of the shop at an offset, and
-- the orders and all that is outside as in a state.
pub record EndsAt {Num R : Type 0} (shop_id : String) (offset : ℕ) (after : World Num R)
    (out : Result (Unit {0}) × World Num R) : Type 0 where
  pub ends : out.0 ≡ ok tt
  pub cursor : cursor_in shop_id out.1.db.configs ≡ offset
  pub outside : out.1.outside ≡ after.outside
  pub orders : out.1.db.orders ≡ after.db.orders

module _ {Num R : Type 0} (n : NumOps Num) (rt : Runtime Num) (remote : Remote Num R)
    (shop_id : String) where
  -- The shop has a configuration, with the cursor at an offset.
  IsAt : ℕ → World Num R → Type 0
  IsAt offset w =
      (is_some (find (of_shop shop_id) w.db.configs) ≡ true)
      × (cursor_in shop_id w.db.configs ≡ offset)

-- The job of a run, and the state in which its page is imported.
abbrev pub job_of : {Num R : Type 0} → Option ℕ → World Num R → ℕ
job_of none w = w.db.next_id
job_of (some job) w = job

abbrev pub begun : {Num R : Type 0} → String → Option ℕ → World Num R → World Num R
begun shop_id given w = (get_config shop_id (ensure_sync_job shop_id order_import given w).1).1

module _ {Num R : Type 0} (n : NumOps Num) (rt : Runtime Num) (remote : Remote Num R)
    (shop_id shop_currency : String) (page : Json Num) (r : R)
    (told : remote.shop_info r ≡ ok shop_currency)
    (given : All (λ (dto : Json Num). is_null dto ≡ false) (extract_orders_array page)) where
  -- The state after every entry of the page.
  abbrev page_imported : String → ℕ → World Num R → World Num R
  page_imported correlation_id job w =
      each_imported n rt remote shop_id correlation_id job shop_currency 0
        (length (extract_orders_array page)) (extract_orders_array page) w
