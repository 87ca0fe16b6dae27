-- ===== src/Sync/Lifecycle.antt =====
-- `OrderLifecycleSync` of packages/sync/src/order-lifecycle.ts: the helpers that its handlers share.
pub mod Refund
pub mod Shipment
pub mod Returns
use decathlon_app.Base.{
  ℕ, zero, suc, String, Bool, true, false, not, ◌&&◌, List, [], ◌∷◌, ◌++◌, map, Option, none, some,
  ◌==◌, head?, get_or, is_some, first_some, concat, M, pure, gets, throw, try_catch, attempt,
  recover, Result, ok, err, Error, ◌>>=◌, ◌>>◌, if◌then◌else◌,
}
use decathlon_app.Sync.Refunds.{is_text}
use decathlon_app.Sync.Lines.{truthy}
use decathlon_app.Sync.Outside.{Outside, DecathlonOrderDto, read, send}
use decathlon_app.Sync.Store.Rows.{SyncJobType, SyncStatus, SyncLog, OrderMapping, World, Db}
use decathlon_app.Sync.Store.Jobs.{write_log}
use decathlon_app.Sync.Store.Orders.{find_by_shopify_id, rekey, rekeyed, update_status}

-- What the closures of a handler share.
pub record Context : Type 0 where
  pub shop_id : String
  pub job : ℕ
  pub type : SyncJobType
  pub correlation_id : String
  pub label : String
  pub order : OrderMapping

module _ {Num R : Type 0} (o : Outside Num R) where
  abbrev pub correlation_of : Option String → M (World Num R) String
  correlation_of given = gets (λ w. get_or given (o.random_uuid w.db.next_id))

  abbrev pub log : Context → SyncStatus → Option String → M (World Num R) (Unit {0})
  log c status error_message = write_log (record {
    shop_id = c.shop_id;
    sync_job_id = some c.job;
    type = c.type;
    status = status;
    decathlon_id = some c.order.decathlon_order_id;
    shopify_id = some c.order.shopify_order_id;
    item_label = some c.label;
    error_message = error_message;
    correlation_id = c.correlation_id;
  })

  -- The answer of OR11 confirms that the candidate is the order of this commercial id.
  abbrev pub confirms : String → String → List (DecathlonOrderDto Num) → Bool
  confirms candidate commercial_id found = elim (head? found) [
    | none ↦ false
    | some d ↦ is_text d.order_id candidate && is_text d.commercial_id commercial_id
  ]

  -- The repair of a row that is keyed on the commercial id; a failure of OR11 leaves it as it is.
  pub repair_order : OrderMapping → String → M (World Num R) OrderMapping
  repair_order order candidate =
      try_catch
        (do
          found ← read (o.get_orders (candidate ∷ []))
          elim (confirms candidate order.decathlon_order_id found) [
            | true ↦
                rekey order candidate order.decathlon_order_id
                >> pure (rekeyed candidate order.decathlon_order_id order)
            | false ↦ pure order
          ])
        (λ _. pure order)

  abbrev pub candidate_of : OrderMapping → Option String
  candidate_of order = elim (head? order.line_items) [
    | none ↦ none
    | some l ↦ truthy (some (o.without_line_number l.decathlon_order_line_id))
  ]

  pub load_order : String → String → M (World Num R) (Option OrderMapping)
  unfolding repair_order
  load_order shop_id shopify_order_id w = elim (find_by_shopify_id shop_id shopify_order_id w.db) [
    | none ↦ pure none w
    | some order ↦ elim (truthy order.decathlon_commercial_id) [
      | some _ ↦ pure (some order) w
      | none ↦ elim (candidate_of order) [
        | none ↦ pure (some order) w
        | some candidate ↦
            if candidate == order.decathlon_order_id
            then pure (some order) w
            else (repair_order order candidate >>= λ repaired. pure (some repaired)) w
      ]
    ]
  ]

  pub refresh_order_state : String → String → M (World Num R) (Unit {0})
  refresh_order_state shop_id decathlon_order_id =
      try_catch
        (do
          fresh ← read (o.get_orders (decathlon_order_id ∷ []))
          elim (head? fresh) [
            | none ↦ pure tt
            | some d ↦ elim (truthy d.order_state) [
              | none ↦ pure tt
              | some state ↦ update_status shop_id decathlon_order_id state
            ]
          ])
        (λ _. pure tt)
