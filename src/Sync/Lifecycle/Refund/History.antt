-- ===== src/Sync/Lifecycle/Refund/History.antt =====
-- A refund that is settled stays so, through any further runs of `syncRefund` and whatever happens
-- at Decathlon.
use decathlon_app.Base.{
  ℕ, String, Bool, true, false, not, ◌||◌, some, inl, inr, ◌≡◌, refl, arith, ◌∙◌, eqb, Option-cases,
  find-holds, find-All,
}
use decathlon_app.Sync.Money.{NumOps}
use decathlon_app.Sync.Outside.{Outside}
use decathlon_app.Sync.Store.Rows.{SyncStatus, World, RefundMapping}
use decathlon_app.Sync.Store.Claims.{find_refund, has_refund_key, is_failed}
use decathlon_app.Sync.Lifecycle.Refund.{RefundSyncJobPayload, refund_key, sync_refund}
use decathlon_app.Sync.Lifecycle.Refund.Guards.{IsUntouched, sync_refund-claimed}
use decathlon_app.Sync.Lifecycle.Refund.Settled.{IsSettled, IsSettledRow, is_success}
use decathlon_app.Sync.Lifecycle.Refund.Keeping.{sync_refund-IsSettled}

success-not_failed :
    (s : SyncStatus) (at : Bool) → at ≡ true → (not at || is_success s) ≡ true → is_failed s ≡ false
success-not_failed SyncStatus.failed true its h = ground arith
success-not_failed SyncStatus.failed false its h = ground arith
success-not_failed SyncStatus.success at its h = refl
success-not_failed SyncStatus.pending at its h = refl
success-not_failed SyncStatus.processing at its h = refl
success-not_failed SyncStatus.retrying at its h = refl
success-not_failed SyncStatus.skipped at its h = refl
success-not_failed SyncStatus.canceled at its h = refl

module _ {Num R : Type 0} (shop_id key : String) (id : ℕ) where
  -- The row of a settled refund is found, and has not failed.
  settled-row :
      (w : World Num R)
      → IsSettled shop_id key id w
      → (r : RefundMapping Num) × (find_refund shop_id key w.db ≡ some r)
        × (is_failed r.status ≡ false)
  settled-row w (below, there, rows) = elim (Option-cases (find_refund shop_id key w.db)) [
    | inl lost ↦ grind (arith, lost, there)
    | inr (r, found) ↦
        let its =
          find-All (IsSettledRow shop_id key id) (has_refund_key shop_id key) w.db.refunds r rows
            found in
        let holds = find-holds (has_refund_key shop_id key) w.db.refunds r found in
        (r, found, success-not_failed r.status (eqb r.id id) (its.0 ∙ holds) its.1)
  ]

-- Runs of `syncRefund` for any orders and refunds, with any changes outside between them.
pub data History {Num R : Type 0} (n : NumOps Num) (o : Outside Num R) (w : World Num R)
    : World Num R → Type 0 where
  start : History n o w w
  ran :
      (w' : World Num R) (p : RefundSyncJobPayload Num)
      → History n o w w'
      → History n o w (sync_refund n o p w').1
  changed :
      (w' : World Num R) (r : R) → History n o w w' → History n o w (record w' { outside = r })

module _ {Num R : Type 0} (n : NumOps Num) (o : Outside Num R) (shop_id key : String) (id : ℕ) where
  history-IsSettled :
      (w w' : World Num R)
      → History n o w w'
      → IsSettled shop_id key id w
      → IsSettled shop_id key id w'
  history-IsSettled w w' start h = h
  history-IsSettled w _ (ran w' p before) h =
      sync_refund-IsSettled n o shop_id key id p w' (history-IsSettled w w' before h)
  history-IsSettled w _ (changed w' r before) h = history-IsSettled w w' before h

-- Once the shop has a SUCCESS row for a refund, under an id of its own that the counter has passed,
-- no run of `syncRefund` for this refund sends anything or changes a refund mapping any more: also
-- not after any further runs for any shops, orders and refunds, failed ones and retries included,
-- and after any changes outside.
pub sync_refund-settled :
    {Num R : Type 0} (n : NumOps Num) (o : Outside Num R) (p : RefundSyncJobPayload Num)
    (key : String) (id : ℕ) (w w' : World Num R)
    → refund_key p ≡ some key
    → IsSettled p.shop_id key id w
    → History n o w w'
    → IsUntouched w' (sync_refund n o p w').1
sync_refund-settled n o p key id w w' keyed settled between =
    let (row, found, standing) =
      settled-row p.shop_id key id w'
        (history-IsSettled n o p.shop_id key id w w' between settled) in
    sync_refund-claimed n o p key keyed row w' found standing
