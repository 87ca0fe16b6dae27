-- ===== src/Sync/Lifecycle/Refund/Tests.antt =====
-- Runs of `syncRefund` on the sample shop.
use decathlon_app.Base.{
  ℕ, [], ◌∷◌, none, some, ◌≡◌, ◌⊎◌, refl, All, ◌==◌, get_or, suc, ok, err, eqb, outcome_unknown,
  if◌then◌else◌,
}
use decathlon_app.Sync.Samples.{
  sample_order, shown_order, shown_line, euros, ltb-irreflexive, sample_outside, refund_row,
  world_with, line_ref,
}
use decathlon_app.Sync.Store.Rows.{SyncStatus, World}
use decathlon_app.Sync.Outside.{Outside, DecathlonOrderDto}
use decathlon_app.Sync.Refunds.Caps.{IsWithin}
use decathlon_app.Sync.Lifecycle.Refund.{RefundSyncJobPayload, refund, cancel, sync_refund}
use decathlon_app.Sync.Lifecycle.Refund.Sending.{
  SendsOnce, Sent, sync_refund-SendsOnce, sync_refund-IsWithin,
}
use decathlon_app.Sync.Lifecycle.Refund.Guards.{IsUntouched, sync_refund-claimed}
use decathlon_app.Sync.Lifecycle.Refund.Retry.{sync_refund-retry}
use decathlon_app.Sync.Lifecycle.Refund.History.{start, ran, changed, sync_refund-settled}

abbrev one_back : RefundSyncJobPayload ℕ
one_back = record {
  shop_id = "shop";
  shopify_order_id = "S1";
  mode = refund;
  shopify_refund_id = some "R1";
  lines = some (line_ref 10 ∷ []);
  shipping_amount = none;
  unallocated_amount = none;
  correlation_id = none;
  sync_job_id = none;
}

sync_refund-SendsOnce_example :
    SendsOnce euros sample_outside one_back 0
      (sync_refund euros sample_outside one_back (world_with [])).1.outside
sync_refund-SendsOnce_example = sync_refund-SendsOnce euros sample_outside one_back (world_with [])

sync_refund-IsWithin_example :
    ((sync_refund euros sample_outside one_back (world_with [])).1.outside ≡ 0)
    ⊎ ((s : Sent euros sample_outside one_back 0
          (sync_refund euros sample_outside one_back (world_with [])).1.outside)
        × All (IsWithin euros (get_or s.d.order_lines [])) s.built.refunds)
sync_refund-IsWithin_example =
    sync_refund-IsWithin euros sample_outside ltb-irreflexive one_back refl (world_with [])

sync_refund-claimed_example :
    IsUntouched
      (world_with (refund_row SyncStatus.processing none ∷ []))
      (sync_refund euros sample_outside one_back
        (world_with (refund_row SyncStatus.processing none ∷ []))).1
unfolding ◌==◌
sync_refund-claimed_example =
    sync_refund-claimed euros sample_outside one_back "R1" refl
      (refund_row SyncStatus.processing none)
      (world_with (refund_row SyncStatus.processing none ∷ [])) refl refl

-- Decathlon shows no refund at first; it does not answer the OR28 call, but applies it.
abbrev unrefunded : DecathlonOrderDto ℕ
unrefunded = record shown_order { order_lines = some (record shown_line { refunds = none } ∷ []) }

abbrev unanswered : Outside ℕ ℕ
unanswered = record sample_outside {
  get_orders = λ _ writes. ok ((if eqb writes 0 then unrefunded else shown_order) ∷ []);
  refund_order_lines = λ _ writes. (err (outcome_unknown "timeout"), suc writes);
}

sync_refund-retry_example :
    (sync_refund euros unanswered one_back
      (record ((sync_refund euros unanswered one_back (world_with [])).1) {
        outside = 1;
      })).1.outside
    ≡ 1
unfolding ◌==◌
sync_refund-retry_example =
    sync_refund-retry euros unanswered one_back sample_order unrefunded shown_order [] [] "R1" "C1"
      (world_with []) refl refl refl refl refl 1 refl "r1" refl refl

abbrev settled_world : World ℕ ℕ
settled_world = world_with (refund_row SyncStatus.success none ∷ [])

-- The order is cancelled after the refund, and Decathlon changes by itself.
abbrev cancelled : RefundSyncJobPayload ℕ
cancelled = record one_back { mode = cancel; shopify_refund_id = none }

abbrev later_world : World ℕ ℕ
later_world = record ((sync_refund euros sample_outside cancelled settled_world).1) { outside = 7 }

sync_refund-settled_example :
    IsUntouched later_world (sync_refund euros sample_outside one_back later_world).1
unfolding ◌==◌
sync_refund-settled_example =
    sync_refund-settled euros sample_outside one_back "R1" 2 settled_world later_world refl
      (refl, refl, ((refl, refl), tt))
      (changed (sync_refund euros sample_outside cancelled settled_world).1 7
        (ran settled_world cancelled start))
