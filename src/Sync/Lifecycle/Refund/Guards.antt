-- ===== src/Sync/Lifecycle/Refund/Guards.antt =====
-- When `syncRefund` must not call Decathlon: a claim row that has not failed.
use decathlon_app.Base.{
  ℕ, String, false, Option, none, some, inl, inr, ◌≡◌, refl, arith, M, ◌>>=◌, get_or, find,
  Result-cases, ◌∙◌, ap,
}
use decathlon_app.Sync.Money.{NumOps}
use decathlon_app.Sync.Outside.{Outside}
use decathlon_app.Sync.Store.Rows.{World, OrderMapping, RefundMapping, refund_sync}
use decathlon_app.Sync.Store.Claims.{find_refund, has_refund_key, is_failed, claim_refund}
use decathlon_app.Sync.Store.Jobs.{start_job}
use decathlon_app.Sync.Lifecycle.{Context, load_order, repair_order}
use decathlon_app.Sync.Lifecycle.Refund.{
  RefundSyncJobPayload, refund_key, context_of, refund_order, refund_started, sync_refund,
}

module _ {Num R : Type 0} where
  -- Decathlon and the refund mappings are left alone.
  pub record IsUntouched (w w' : World Num R) : Type 0 where
    pub outside : w'.outside ≡ w.outside
    pub refunds : w'.db.refunds ≡ w.db.refunds

module _ {Num R : Type 0} (n : NumOps Num) (o : Outside Num R) where
  repair_order-refunds :
      (order : OrderMapping) (candidate : String) (w : World Num R)
      → (repair_order o order candidate w).1.outside ≡ w.outside
        × ((repair_order o order candidate w).1.db.refunds ≡ w.db.refunds)
  unfolding repair_order
  repair_order-refunds order candidate w = ground arith

  pub load_order-IsUntouched :
      (shop_id id : String) (w : World Num R) → IsUntouched w (load_order o shop_id id w).1
  unfolding load_order
  load_order-IsUntouched shop_id id w = record {
    outside = grind (arith, repair_order-refunds);
    refunds = grind (arith, repair_order-refunds);
  }

  module _ (p : RefundSyncJobPayload Num) (key : String) (keyed : refund_key p ≡ some key) where
    refund_order-IsUntouched :
        (c : Context) (row : RefundMapping Num) (w : World Num R)
        → find (has_refund_key c.shop_id key) w.db.refunds ≡ some row
        → is_failed row.status ≡ false
        → IsUntouched w (refund_order n o c p w).1
    unfolding refund_order
    refund_order-IsUntouched c row w there busy =
        rw (keyed, refund_order, claim_refund, there, busy)
          (record { outside = refl; refunds = refl })

    started-IsUntouched :
        (correlation_id : String) (job : ℕ) (row : RefundMapping Num) (w : World Num R)
        → find (has_refund_key p.shop_id key) w.db.refunds ≡ some row
        → is_failed row.status ≡ false
        → IsUntouched w (refund_started n o p correlation_id job w).1
    unfolding refund_started
    started-IsUntouched correlation_id job row w there busy =
        let kept = load_order-IsUntouched p.shop_id p.shopify_order_id w in
        elim (Result-cases (load_order o p.shop_id p.shopify_order_id w).0) [
          | inr (e, thrown) ↦ rw (thrown, refund_started) kept
          | inl (none, missing) ↦
              rw (missing, refund_started)
                (record { outside = kept.outside; refunds = kept.refunds })
          | inl (some order, found) ↦
              let same =
                refund_order-IsUntouched (context_of p correlation_id job order) row
                  (load_order o p.shop_id p.shopify_order_id w).1
                  (ap (find (has_refund_key p.shop_id key)) kept.refunds ∙ there) busy in
              rw (found, refund_started)
                (record {
                  outside = same.outside ∙ kept.outside;
                  refunds = same.refunds ∙ kept.refunds;
                })
        ]

  start_job-IsUntouched :
      (shop_id : String) (k : ℕ → M (World Num R) (Unit {0})) (given : Option ℕ) (w : World Num R)
      → ((job : ℕ) (w' : World Num R)
          → w'.db.refunds ≡ w.db.refunds
          → w'.outside ≡ w.outside
          → IsUntouched w (k job w').1)
      → IsUntouched w ((start_job shop_id refund_sync given >>= k) w).1
  start_job-IsUntouched shop_id k none w h = h _ _ refl refl
  start_job-IsUntouched shop_id k (some _) w h = h _ _ refl refl

-- If the shop has a refund mapping for the Shopify refund or the cancellation that has not failed
-- (the refund is being sent, or was sent, or nothing was left), then a run of `syncRefund` for it
-- sends nothing and changes no refund mapping, whatever Decathlon answers.
pub sync_refund-claimed :
    {Num R : Type 0} (n : NumOps Num) (o : Outside Num R) (p : RefundSyncJobPayload Num)
    (key : String)
    → refund_key p ≡ some key
    → (row : RefundMapping Num) (w : World Num R) → find_refund p.shop_id key w.db ≡ some row
    → is_failed row.status ≡ false
    → IsUntouched w (sync_refund n o p w).1
unfolding sync_refund
sync_refund-claimed n o p key keyed row w there busy =
    start_job-IsUntouched n o p.shop_id
      (refund_started n o p (get_or p.correlation_id (o.random_uuid w.db.next_id))) p.sync_job_id w
      (λ job w' refunds outside.
        let same =
          started-IsUntouched n o p key keyed _ job row w'
            (ap (find (has_refund_key p.shop_id key)) refunds ∙ there) busy in
        record { outside = same.outside ∙ outside; refunds = same.refunds ∙ refunds })
