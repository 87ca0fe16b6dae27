-- ===== src/Sync/Lifecycle/Returns.antt =====
-- `syncReturns` and `applyReturn` of packages/sync/src/order-lifecycle.ts. The database's order by the
-- time of the last update, which the rows of the model do not keep, is the parameter `oldest_first`.
pub mod Isolation
pub mod Tests
use decathlon_app.Base.{
  ℕ, String, Bool, false, not, ◌&&◌, List, [], ◌∷◌, Option, none, some, ◌==◌, keep, take, contains,
  get_or, is_some, lookup, insert, concat, join, M, pure, gets, try_catch, for_each, ◌>>=◌, ◌>>◌,
  if◌then◌else◌, find, eqb,
}
use decathlon_app.Sync.Lines.{truthy}
use decathlon_app.Sync.Outside.{Outside, DecathlonReturnDto, read, send}
use decathlon_app.Sync.Store.Rows.{SyncStatus, return_sync, ReturnMapping, OrderMapping, Db, World}
use decathlon_app.Sync.Store.Jobs.{write_log}
use decathlon_app.Sync.Store.Claims.{find_return, upsert_return}
use decathlon_app.Sync.Store.Orders.{find_by_decathlon_id, find_by_commercial_id}
use decathlon_app.Sync.Lifecycle.{correlation_of}

pub record ReturnSyncJobPayload : Type 0 where
  pub shop_id : String
  pub correlation_id : Option String

abbrev pub terminal_return_states : List String
terminal_return_states = "CLOSED" ∷ "CANCELED" ∷ "REJECTED" ∷ []

-- `listOpen`, with at most `count` rows.
pub list_open :
    {Num : Type 0}
    → (List ReturnMapping → List ReturnMapping)
    → String
    → ℕ
    → Db Num
    → List ReturnMapping
list_open oldest_first shop_id count db = take count (
    oldest_first (
      keep
        (λ (r : ReturnMapping).
          (r.shop_id == shop_id) && not (contains r.status terminal_return_states))
        db.returns))

pub set_all :
    List DecathlonReturnDto
    → List (String × DecathlonReturnDto)
    → List (String × DecathlonReturnDto)
set_all [] seen = seen
set_all (r ∷ rs) seen = set_all rs (insert r.id r seen)

abbrev pub or_else_found : Option OrderMapping → Option OrderMapping → Option OrderMapping
or_else_found (some order) other = some order
or_else_found none other = other

-- The order of a return, by its id or by its commercial id.
pub order_of_return : {Num : Type 0} → String → DecathlonReturnDto → Db Num → Option OrderMapping
order_of_return shop_id ret db =
    or_else_found
      (elim (truthy ret.order_id) [ none ↦ none | some id ↦ find_by_decathlon_id shop_id id db ])
      (elim (truthy ret.order_commercial_id) [
        | none ↦ none
        | some id ↦
            or_else_found (find_by_commercial_id shop_id id db) (find_by_decathlon_id shop_id id db)
      ])

abbrev pub return_row : String → ℕ → DecathlonReturnDto → String → ReturnMapping
return_row shop_id order_mapping_id ret state = record {
  id = 0;
  shop_id = shop_id;
  order_mapping_id = order_mapping_id;
  decathlon_return_id = ret.id;
  status = state;
  reason_code = ret.reason_code;
  rma_number = ret.rma;
  tracking_number = elim ret.tracking [ none ↦ none | some t ↦ t.tracking_number ];
  carrier_code = elim ret.tracking [ none ↦ none | some t ↦ t.carrier_code ];
}

abbrev pub has_state : Option ReturnMapping → String → Bool
has_state none state = false
has_state (some r) state = r.status == state

abbrev pub state_change : Option ReturnMapping → String → String
state_change none state = state
state_change (some r) state = concat (r.status ∷ " → " ∷ state ∷ [])

module _ {Num R : Type 0} (o : Outside Num R) where
  -- The tags of the Shopify order and the log row, after the return has another state.
  pub tag_order :
      String
      → String
      → DecathlonReturnDto
      → OrderMapping
      → Option ReturnMapping
      → String
      → M (World Num R) (Unit {0})
  tag_order shop_id correlation_id ret order previous state = do
    let tags = "decathlon-return" ∷ concat ("decathlon-return-" ∷ o.tag_of_state state ∷ []) ∷ []
    errors ← send (o.tags_add order.shopify_order_id tags)
    let tag_error = join "; " errors
    write_log (record {
      shop_id = shop_id;
      sync_job_id = none;
      type = return_sync;
      status = if tag_error == "" then SyncStatus.success else SyncStatus.failed;
      decathlon_id = some ret.id;
      shopify_id = some order.shopify_order_id;
      item_label = some (
          concat (
            "Return "
            ∷ state_change previous state
            ∷ " — Decathlon order "
            ∷ get_or order.decathlon_commercial_id order.decathlon_order_id
            ∷ []));
      error_message = truthy (some tag_error);
      correlation_id = correlation_id;
    })

  pub apply_return : String → DecathlonReturnDto → String → M (World Num R) (Unit {0})
  apply_return shop_id ret correlation_id w = elim (order_of_return shop_id ret w.db) [
    | none ↦ pure tt w
    | some order ↦
        let state = get_or ret.state "UNKNOWN" in
        let previous = find_return shop_id ret.id w.db in
        (upsert_return (return_row shop_id order.id ret state)
            >> (if has_state previous state
                then pure tt
                else tag_order shop_id correlation_id ret order previous state))
          w
  ]

  -- One open return that was not on the newest page.
  pub recheck :
      String
      → List (String × DecathlonReturnDto)
      → ReturnMapping
      → M (World Num R) (List (String × DecathlonReturnDto))
  recheck shop_id seen row w =
      if is_some (lookup row.decathlon_return_id seen)
      then pure seen w
      else elim (find (λ (m : OrderMapping). eqb m.id row.order_mapping_id) w.db.orders) [
        | none ↦ pure seen w
        | some order ↦ elim (truthy order.decathlon_commercial_id) [
          | none ↦ pure seen w
          | some id ↦ (read (o.list_returns_of id) >>= λ found. pure (set_all found seen)) w
        ]
      ]

  pub recheck_all :
      String
      → List ReturnMapping
      → List (String × DecathlonReturnDto)
      → M (World Num R) (List (String × DecathlonReturnDto))
  recheck_all shop_id [] seen = pure seen
  recheck_all shop_id (row ∷ rows) seen =
      recheck shop_id seen row >>= λ seen'. recheck_all shop_id rows seen'

  pub sync_returns :
      (List ReturnMapping → List ReturnMapping) → ReturnSyncJobPayload → M (World Num R) (Unit {0})
  sync_returns oldest_first p = do
    correlation_id ← correlation_of o p.correlation_id
    newest ← read o.list_newest_returns
    still_open ← gets (λ w. list_open oldest_first p.shop_id 20 w.db)
    seen ← recheck_all p.shop_id still_open (set_all newest [])
    for_each seen
        (λ entry. try_catch (apply_return p.shop_id entry.1 correlation_id) (λ _. pure tt))
