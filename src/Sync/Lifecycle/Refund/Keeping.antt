-- ===== src/Sync/Lifecycle/Refund/Keeping.antt =====
-- Every step of `syncRefund` leaves a settled refund as it is.
use decathlon_app.Base.{
  ℕ, String, false, List, [], ◌∷◌, map, Option, none, some, inl, inr, ◌≡◌, ap, arith, ◌∙◌, M, ◌>>=◌,
  ◌==◌, eqb, ltb, is_nil, get_or, find, ok, err, message, concat, eqb_iff, or_else, join, Result,
  Result-cases, Option-cases, Bool-cases, Keeps, keep_some,
}
use decathlon_app.Sync.Money.{NumOps, round2, sum}
use decathlon_app.Sync.Lines.{truthy}
use decathlon_app.Sync.Refunds.{Built}
use decathlon_app.Sync.Outside.{Outside, DecathlonOrderDto}
use decathlon_app.Sync.Store.Rows.{
  SyncStatus, World, OrderMapping, RefundMapping, refund_sync, SyncConfiguration,
}
use decathlon_app.Sync.Store.Claims.{
  RefundPatch, finish_refund, find_refund, is_failed, claim_refund, reclaimed_refund, new_refund,
}
use decathlon_app.Sync.Store.Jobs.{start_job}
use decathlon_app.Sync.Store.Orders.{get_config}
use decathlon_app.Sync.Lifecycle.{Context, load_order, repair_order, refresh_order_state}
use decathlon_app.Sync.Lifecycle.Refund.{
  RefundSyncJobPayload, refund_key, context_of, finish, record_success, submit, send_built, proceed,
  confirm_applied, check_prior, refund_claimed, refund_order, refund_started, sync_refund,
  currency_of, refund_ids, appeared, refund_failure, patch_error, patch_ids,
}
use decathlon_app.Sync.Lifecycle.Refund.Guards.{load_order-IsUntouched}
use decathlon_app.Sync.Lifecycle.Refund.Settled.{
  IsSettled, finish_refund-IsSettled, moved, inserted-IsSettled, reclaimed-IsSettled, claimed-other,
}

module _ {Num R : Type 0} (n : NumOps Num) (o : Outside Num R) (shop_id key : String) (id : ℕ) where
  abbrev Settled : World Num R → Type 0
  Settled w = IsSettled shop_id key id w

  finish-IsSettled :
      (c : Context) (claim_id : ℕ) (status : SyncStatus) (text : String)
      → eqb claim_id id ≡ false
      → Keeps Settled (finish n o c claim_id status text)
  unfolding finish
  finish-IsSettled c claim_id status text other w h =
      finish_refund-IsSettled shop_id key id claim_id status (patch_error (some text)) other w h

  refresh-same :
      (other_shop decathlon_id : String) (w : World Num R)
      → ((refresh_order_state o other_shop decathlon_id w).1.db.next_id ≡ w.db.next_id)
        × ((refresh_order_state o other_shop decathlon_id w).1.db.refunds ≡ w.db.refunds)
  unfolding refresh_order_state
  refresh-same other_shop decathlon_id w = ground arith

  refresh-IsSettled :
      (other_shop decathlon_id : String)
      → Keeps Settled (refresh_order_state o other_shop decathlon_id)
  refresh-IsSettled other_shop decathlon_id w h =
      let (counter, rows) = refresh-same other_shop decathlon_id w in
      moved shop_id key id w (refresh_order_state o other_shop decathlon_id w).1
        (ap (ltb id) counter ∙ h.0) rows h

  record_success-IsSettled :
      (c : Context) (claim_id : ℕ) (before : List String) (currency : String) (built : Built Num)
      (created : List (Option String))
      → eqb claim_id id ≡ false
      → Keeps Settled (record_success n o c claim_id before currency built created)
  unfolding record_success
  record_success-IsSettled c claim_id before currency built created other w h =
      let patch : RefundPatch Num = record {
        decathlon_refund_ids =
            some (record { before = before; created = some (keep_some (map truthy created)) });
        amount =
            some
              (round2 n (sum n (map (λ r. some (n.add r.amount r.shipping_amount)) built.refunds)));
        currency = some currency;
        last_error = some none;
      } in
      let finished = (finish_refund claim_id SyncStatus.success patch w).1 in
      let refreshed = refresh_order_state o c.shop_id c.order.decathlon_order_id finished in
      let kept =
        refresh-IsSettled c.shop_id c.order.decathlon_order_id finished
          (finish_refund-IsSettled shop_id key id claim_id SyncStatus.success patch other w h) in
      elim (Result-cases refreshed.0) [
        | inl (done, ended) ↦ rw (ended, record_success) kept
        | inr (e, thrown) ↦ rw (thrown, record_success) kept
      ]

  submit-IsSettled :
      (c : Context) (claim_id : ℕ) (before : List String) (currency : String) (built : Built Num)
      → eqb claim_id id ≡ false
      → Keeps Settled (submit n o c claim_id before currency built)
  unfolding submit
  submit-IsSettled c claim_id before currency built other w h =
      elim (Result-cases (o.refund_order_lines built.refunds w.outside).0) [
        | inr (e, refused) ↦
            rw (refused, submit)
              (finish-IsSettled c claim_id SyncStatus.failed (refund_failure e) other _ h)
        | inl (created, sent) ↦
            rw (sent, submit)
              (record_success-IsSettled c claim_id before currency built created other _ h)
      ]

  send_built-IsSettled :
      (c : Context) (claim_id : ℕ) (before : List String) (currency : String)
      (made : Result (Built Num))
      → eqb claim_id id ≡ false
      → Keeps Settled (send_built n o c claim_id before currency made)
  unfolding send_built
  send_built-IsSettled c claim_id before currency (err e) other w h =
      finish-IsSettled c claim_id SyncStatus.failed (message e) other w h
  send_built-IsSettled c claim_id before currency (ok built) other w h =
      elim (Bool-cases (is_nil built.refunds)) [
        | inl nothing ↦
            rw (nothing, send_built)
              (finish-IsSettled c claim_id SyncStatus.skipped
                (or_else (join "; " built.problems)
                  "Nothing left to refund on Decathlon for this order")
                other w h)
        | inr some_left ↦
            rw (some_left, send_built) (submit-IsSettled c claim_id before currency built other w h)
      ]

  get_config-IsSettled :
      (other_shop : String) → Keeps Settled (get_config {Num = Num} {R = R} other_shop)
  get_config-IsSettled other_shop w h =
      elim (Option-cases
        (find (λ (c : SyncConfiguration Num). c.shop_id == other_shop) w.db.configs)) [
          | inl new ↦ rw (new, get_config) h
          | inr (c, there) ↦ rw (there, get_config) h
        ]

  proceed-IsSettled :
      (c : Context) (p : RefundSyncJobPayload Num) (claim_id : ℕ) (d : DecathlonOrderDto Num)
      (before : List String)
      → eqb claim_id id ≡ false
      → Keeps Settled (proceed n o c p claim_id d before)
  unfolding proceed
  proceed-IsSettled c p claim_id d before other w h =
      let patch = patch_ids {Num = Num} (record { before = before; created = none }) in
      let w' = (finish_refund claim_id SyncStatus.processing patch w).1 in
      let h' =
        finish_refund-IsSettled shop_id key id claim_id SyncStatus.processing patch other w h in
      let kept = get_config-IsSettled c.shop_id w' h' in
      elim (Result-cases (get_config c.shop_id w').0) [
        | inr (e, thrown) ↦ rw (thrown, proceed) kept
        | inl (config, got) ↦
            rw (got, proceed)
              (send_built-IsSettled c claim_id before (currency_of n o c.order d) _ other _ kept)
      ]

  confirm_applied-IsSettled :
      (c : Context) (claim_id : ℕ) (before created : List String)
      → eqb claim_id id ≡ false
      → Keeps Settled (confirm_applied n o c claim_id before created)
  unfolding confirm_applied
  confirm_applied-IsSettled c claim_id before created other w h =
      finish_refund-IsSettled shop_id key id claim_id SyncStatus.success
        (patch_ids (record { before = before; created = some created })) other w h

  check_prior-IsSettled :
      (c : Context) (p : RefundSyncJobPayload Num) (claim : RefundMapping Num)
      (d : DecathlonOrderDto Num)
      → eqb claim.id id ≡ false
      → Keeps Settled (check_prior n o c p claim d)
  unfolding check_prior
  check_prior-IsSettled c p claim d other w h =
      let current = refund_ids (get_or d.order_lines []) in
      elim (Option-cases claim.decathlon_refund_ids) [
        | inl first ↦ rw (first, check_prior) (proceed-IsSettled c p claim.id d current other w h)
        | inr (prior, kept) ↦ elim (Bool-cases (is_nil (appeared prior.before current))) [
          | inl nothing ↦
              rw (kept, nothing, check_prior)
                (proceed-IsSettled c p claim.id d prior.before other w h)
          | inr applied ↦
              rw (kept, applied, check_prior)
                (confirm_applied-IsSettled c claim.id prior.before (appeared prior.before current)
                  other w h)
        ]
      ]

  refund_claimed-IsSettled :
      (c : Context) (p : RefundSyncJobPayload Num) (claim : RefundMapping Num)
      → eqb claim.id id ≡ false
      → Keeps Settled (refund_claimed n o c p claim)
  unfolding refund_claimed
  refund_claimed-IsSettled c p claim other w h =
      elim (Result-cases (o.get_orders (c.order.decathlon_order_id ∷ []) w.outside)) [
        | inr (e, refused) ↦ rw (refused, refund_claimed) h
        | inl ([], told) ↦
            rw (told, refund_claimed)
              (finish-IsSettled c claim.id SyncStatus.failed
                (concat ("Decathlon order " ∷ c.order.decathlon_order_id ∷ " not found" ∷ [])) other
                w h)
        | inl (d ∷ ds, told) ↦
            rw (told, refund_claimed) (check_prior-IsSettled c p claim d other w h)
      ]

  refund_order-IsSettled :
      (c : Context) (p : RefundSyncJobPayload Num) → Keeps Settled (refund_order n o c p)
  unfolding refund_order
  refund_order-IsSettled c p w h = elim (Option-cases (refund_key p)) [
    | inl unknown ↦ rw (unknown, refund_order) h
    | inr (its_key, keyed) ↦ elim (Option-cases (find_refund c.shop_id its_key w.db)) [
      | inl new ↦
          rw (keyed, refund_order, claim_refund, new)
            (refund_claimed-IsSettled c p (new_refund c.shop_id c.order.id its_key w.db.next_id)
              (ground (arith, h.0, eqb_iff w.db.next_id id)) _
              (inserted-IsSettled shop_id key id c.shop_id its_key c.order.id w new h))
      | inr (r, there) ↦ elim (Bool-cases (is_failed r.status)) [
        | inl failed ↦
            rw (keyed, refund_order, claim_refund, there, failed)
              (refund_claimed-IsSettled c p (reclaimed_refund r)
                (claimed-other shop_id key id c.shop_id its_key r w there failed h) _
                (reclaimed-IsSettled shop_id key id c.shop_id its_key w h))
        | inr busy ↦ rw (keyed, refund_order, claim_refund, there, busy) h
      ]
    ]
  ]

  repair_order-counter :
      (order : OrderMapping) (candidate : String) (w : World Num R)
      → (repair_order o order candidate w).1.db.next_id ≡ w.db.next_id
  unfolding repair_order
  repair_order-counter order candidate w = ground arith

  load_order-counter :
      (other_shop order_id : String) (w : World Num R)
      → (load_order o other_shop order_id w).1.db.next_id ≡ w.db.next_id
  unfolding load_order
  load_order-counter other_shop order_id w = grind (arith, repair_order-counter)

  started-IsSettled :
      (p : RefundSyncJobPayload Num) (correlation_id : String) (job : ℕ)
      → Keeps Settled (refund_started n o p correlation_id job)
  unfolding refund_started
  started-IsSettled p correlation_id job w h =
      let loaded = (load_order o p.shop_id p.shopify_order_id w).1 in
      let kept =
        moved shop_id key id w loaded
          (ap (ltb id) (load_order-counter p.shop_id p.shopify_order_id w) ∙ h.0)
          (load_order-IsUntouched n o p.shop_id p.shopify_order_id w).refunds h in
      elim (Result-cases (load_order o p.shop_id p.shopify_order_id w).0) [
        | inr (e, thrown) ↦ rw (thrown, refund_started) kept
        | inl (none, missing) ↦ rw (missing, refund_started) kept
        | inl (some order, found) ↦
            rw (found, refund_started)
              (refund_order-IsSettled (context_of p correlation_id job order) p loaded kept)
      ]

  start_job-IsSettled :
      (other_shop : String) (k : ℕ → M (World Num R) (Unit {0})) (given : Option ℕ)
      → ((job : ℕ) → Keeps Settled (k job))
      → Keeps Settled (start_job other_shop refund_sync given >>= k)
  start_job-IsSettled other_shop k none kept w h = kept _ _ (ground (arith, h.0), h.1, h.2)
  start_job-IsSettled other_shop k (some job) kept w h = kept _ _ h

  pub sync_refund-IsSettled : (p : RefundSyncJobPayload Num) → Keeps Settled (sync_refund n o p)
  unfolding sync_refund
  sync_refund-IsSettled p w h =
      start_job-IsSettled p.shop_id
        (refund_started n o p (get_or p.correlation_id (o.random_uuid w.db.next_id))) p.sync_job_id
        (started-IsSettled p (get_or p.correlation_id (o.random_uuid w.db.next_id))) w h
