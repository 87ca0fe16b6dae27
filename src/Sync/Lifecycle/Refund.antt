-- ===== src/Sync/Lifecycle/Refund.antt =====
-- `syncRefund` of packages/sync/src/order-lifecycle.ts, step by step.
pub mod Guards
pub mod Retry
pub mod History
pub mod Keeping
pub mod Settled
pub mod Sending
pub mod Tests
use decathlon_app.Base.{
  ℕ, zero, suc, String, Bool, true, false, not, ◌&&◌, List, [], ◌∷◌, ◌++◌, map, Option, none, some,
  ◌==◌, head?, get_or, is_nil, keep, keep_some, flat_map, contains, or_else, concat, join, M, pure,
  gets, attempt, Result, ok, err, Error, message, outcome_unknown, ◌>>=◌, ◌>>◌, if◌then◌else◌,
}
use decathlon_app.Sync.Money.{NumOps, round2, sum}
use decathlon_app.Sync.Lines.{OrderLineItem, ShopifyLineRef, truthy}
use decathlon_app.Sync.Refunds.{
  RefundDto, DecathlonOrderLineDto, RefundInput, Built, build_refunds, build_cancellation_refunds,
}
use decathlon_app.Sync.Outside.{Outside, DecathlonOrderDto, read, send}
use decathlon_app.Sync.Store.Rows.{
  SyncJobType, refund_sync, SyncStatus, RefundIds, RefundMapping, OrderMapping, World,
  SyncConfiguration,
}
use decathlon_app.Sync.Store.Jobs.{start_job, finish_job}
use decathlon_app.Sync.Store.Claims.{RefundPatch, claim_refund, finish_refund}
use decathlon_app.Sync.Store.Orders.{get_config}
use decathlon_app.Sync.Lifecycle.{Context, correlation_of, log, load_order, refresh_order_state}

pub data RefundMode : Type 0 where
  refund cancel : RefundMode

pub record RefundSyncJobPayload (Num : Type 0) : Type 0 where
  pub shop_id : String
  pub shopify_order_id : String
  pub mode : RefundMode
  pub shopify_refund_id : Option String
  pub lines : Option (List (ShopifyLineRef Num))
  pub shipping_amount : Option Num
  pub unallocated_amount : Option Num
  pub correlation_id : Option String
  pub sync_job_id : Option ℕ

-- The key under which a refund is claimed.
abbrev pub refund_key : {Num : Type 0} → RefundSyncJobPayload Num → Option String
refund_key p = elim p.mode [
  | cancel ↦ some (concat ("cancel:" ∷ p.shopify_order_id ∷ []))
  | refund ↦ truthy p.shopify_refund_id
]

abbrev pub label_of : {Num : Type 0} → RefundSyncJobPayload Num → OrderMapping → String
label_of p order =
    let kind : String = elim p.mode [ cancel ↦ "Cancellation" | refund ↦ "Refund" ] in
    concat (
      kind
      ∷ " — Decathlon order "
      ∷ get_or order.decathlon_commercial_id order.decathlon_order_id
      ∷ [])

abbrev pub context_of :
    {Num : Type 0} → RefundSyncJobPayload Num → String → ℕ → OrderMapping → Context
context_of p correlation_id job order = record {
  shop_id = p.shop_id;
  job = job;
  type = refund_sync;
  correlation_id = correlation_id;
  label = label_of p order;
  order = order;
}

-- The ids of all refunds that Decathlon shows on the lines.
abbrev pub refund_ids : {Num : Type 0} → List (DecathlonOrderLineDto Num) → List String
refund_ids d_lines = flat_map (λ l. map (λ r. r.id) (get_or l.refunds [])) d_lines

-- Those that were not there before.
abbrev pub appeared : List String → List String → List String
appeared before current = keep (λ id. not (contains id before)) current

abbrev pub patch_error : {Num : Type 0} → Option String → RefundPatch Num
patch_error e = record {
  decathlon_refund_ids = none;
  amount = none;
  currency = none;
  last_error = some e;
}

abbrev pub patch_ids : {Num : Type 0} → RefundIds → RefundPatch Num
patch_ids ids = record {
  decathlon_refund_ids = some ids;
  amount = none;
  currency = none;
  last_error = none;
}

abbrev pub refund_failure : Error → String
refund_failure (outcome_unknown m) =
    concat (m ∷ ". A retry checks Decathlon first and will not refund twice." ∷ [])
refund_failure e = message e

module _ {Num R : Type 0} (n : NumOps Num) (o : Outside Num R) where
  -- The closure `finish`.
  pub finish : Context → ℕ → SyncStatus → String → M (World Num R) (Unit {0})
  finish c claim_id status text = do
    finish_refund claim_id status (patch_error (some text))
    log o c status (some text)
    finish_job c.job status (some text)

  -- After OR28 has answered.
  pub record_success :
      Context
      → ℕ
      → List String
      → String
      → Built Num
      → List (Option String)
      → M (World Num R) (Unit {0})
  record_success c claim_id before currency built created = do
    let total = round2 n (sum n (map (λ r. some (n.add r.amount r.shipping_amount)) built.refunds))
    finish_refund claim_id SyncStatus.success (record {
      decathlon_refund_ids =
          some (record { before = before; created = some (keep_some (map truthy created)) });
      amount = some total;
      currency = some currency;
      last_error = some none;
    })
    refresh_order_state o c.shop_id c.order.decathlon_order_id
    log o c SyncStatus.success (
        if is_nil built.problems
        then none
        else some (
            concat (
              "Refunded "
              ∷ n.show total
              ∷ " "
              ∷ currency
              ∷ ", with adjustments: "
              ∷ join "; " built.problems
              ∷ [])))
    finish_job c.job SyncStatus.success none

  -- The OR28 call and what follows it.
  pub submit : Context → ℕ → List String → String → Built Num → M (World Num R) (Unit {0})
  submit c claim_id before currency built = do
    r ← attempt (send (o.refund_order_lines built.refunds))
    elim r [
      | err e ↦ finish c claim_id SyncStatus.failed (refund_failure e)
      | ok created ↦ record_success c claim_id before currency built created
    ]

  pub build :
      RefundSyncJobPayload Num
      → OrderMapping
      → List (DecathlonOrderLineDto Num)
      → String
      → Option String
      → Result (Built Num)
  build p order d_lines currency reason_override = elim p.mode [
    | cancel ↦ ok (build_cancellation_refunds n d_lines currency reason_override)
    | refund ↦
        build_refunds n order.line_items d_lines (get_or p.lines []) p.shipping_amount
          p.unallocated_amount currency reason_override
  ]

  abbrev pub currency_of : OrderMapping → DecathlonOrderDto Num → String
  currency_of order d =
      get_or d.currency_iso_code
        (elim (head? order.line_items) [ none ↦ "EUR" | some l ↦ l.currency ])

  -- What is sent when no earlier attempt has been applied.
  pub send_built :
      Context → ℕ → List String → String → Result (Built Num) → M (World Num R) (Unit {0})
  send_built c claim_id before currency (err e) = finish c claim_id SyncStatus.failed (message e)
  send_built c claim_id before currency (ok built) = elim (is_nil built.refunds) [
    | true ↦
        finish c claim_id SyncStatus.skipped
          (or_else (join "; " built.problems) "Nothing left to refund on Decathlon for this order")
    | false ↦ submit c claim_id before currency built
  ]

  pub proceed :
      Context
      → RefundSyncJobPayload Num
      → ℕ
      → DecathlonOrderDto Num
      → List String
      → M (World Num R) (Unit {0})
  proceed c p claim_id d before = do
    finish_refund claim_id SyncStatus.processing
        (patch_ids (record { before = before; created = none }))
    config ← get_config c.shop_id
    send_built c claim_id before (currency_of c.order d) (
        build p c.order (get_or d.order_lines []) (currency_of c.order d) config.refund_reason_code)

  -- An earlier attempt that was not confirmed has been applied.
  pub confirm_applied : Context → ℕ → List String → List String → M (World Num R) (Unit {0})
  confirm_applied c claim_id before created = do
    finish_refund claim_id SyncStatus.success
        (patch_ids (record { before = before; created = some created }))
    log o c SyncStatus.success none
    finish_job c.job SyncStatus.success none

  pub check_prior :
      Context
      → RefundSyncJobPayload Num
      → RefundMapping Num
      → DecathlonOrderDto Num
      → M (World Num R) (Unit {0})
  check_prior c p claim d =
      let current = refund_ids (get_or d.order_lines []) in
      elim claim.decathlon_refund_ids [
        | none ↦ proceed c p claim.id d current
        | some prior ↦ elim (is_nil (appeared prior.before current)) [
          | true ↦ proceed c p claim.id d prior.before
          | false ↦ confirm_applied c claim.id prior.before (appeared prior.before current)
        ]
      ]

  pub refund_claimed :
      Context → RefundSyncJobPayload Num → RefundMapping Num → M (World Num R) (Unit {0})
  refund_claimed c p claim = do
    found ← read (o.get_orders (c.order.decathlon_order_id ∷ []))
    elim (head? found) [
      | none ↦
          finish c claim.id SyncStatus.failed
            (concat ("Decathlon order " ∷ c.order.decathlon_order_id ∷ " not found" ∷ []))
      | some d ↦ check_prior c p claim d
    ]

  pub refund_order : Context → RefundSyncJobPayload Num → M (World Num R) (Unit {0})
  refund_order c p = elim (refund_key p) [
    | none ↦ finish_job c.job SyncStatus.failed (some "Refund job has no Shopify refund id")
    | some key ↦ do
      claim ← claim_refund c.shop_id c.order.id key
      elim claim [
        | none ↦
            finish_job c.job SyncStatus.skipped (some "This refund was already sent to Decathlon")
        | some row ↦ refund_claimed c p row
      ]
  ]

  -- The run after `startJob`.
  pub refund_started : RefundSyncJobPayload Num → String → ℕ → M (World Num R) (Unit {0})
  refund_started p correlation_id job = do
    found ← load_order o p.shop_id p.shopify_order_id
    elim found [
      | none ↦ finish_job job SyncStatus.skipped (some "Not an order imported from Decathlon")
      | some order ↦ refund_order (context_of p correlation_id job order) p
    ]

  pub sync_refund : RefundSyncJobPayload Num → M (World Num R) (Unit {0})
  sync_refund p = do
    correlation_id ← correlation_of o p.correlation_id
    job ← start_job p.shop_id refund_sync p.sync_job_id
    refund_started p correlation_id job
