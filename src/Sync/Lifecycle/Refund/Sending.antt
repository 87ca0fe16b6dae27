-- ===== src/Sync/Lifecycle/Refund/Sending.antt =====
-- What one run of `syncRefund` sends to Decathlon.
use decathlon_app.Base.{
  ℕ, String, false, List, [], ◌∷◌, Option, none, some, ◌≡◌, ◌⊎◌, inl, inr, refl, sym, arith, All,
  is_nil, find, ◌==◌, get_or, Result, ok, err, Bool-cases, Option-cases, Result-cases, subst, M,
  ◌>>=◌, ◌∙◌,
}
use decathlon_app.Sync.Money.{NumOps}
use decathlon_app.Sync.Refunds.{Built, build_refunds}
use decathlon_app.Sync.Refunds.Caps.{IsWithin, build_refunds-IsWithin}
use decathlon_app.Sync.Outside.{Outside, DecathlonOrderDto}
use decathlon_app.Sync.Store.Jobs.{start_job}
use decathlon_app.Sync.Store.Claims.{find_refund, is_failed}
use decathlon_app.Sync.Store.Claims.{claim_refund}
use decathlon_app.Sync.Store.Rows.{
  refund_sync, SyncStatus, SyncConfiguration, RefundMapping, OrderMapping, World,
}
use decathlon_app.Sync.Lifecycle.{Context, load_order, repair_order, refresh_order_state}
use decathlon_app.Sync.Lifecycle.Refund.{
  RefundSyncJobPayload, refund, finish, record_success, currency_of, submit, build, send_built,
  proceed, confirm_applied, check_prior, refund_claimed, refund_key, context_of, refund_order,
  refund_started, sync_refund, appeared, refund_ids,
}

module _ {Num R : Type 0} (n : NumOps Num) (o : Outside Num R) where
  pub refresh_order_state-outside :
      (shop_id id : String) (w : World Num R)
      → (refresh_order_state o shop_id id w).1.outside ≡ w.outside
  unfolding refresh_order_state
  refresh_order_state-outside shop_id id w = ground arith

  repair_order-outside :
      (order : OrderMapping) (candidate : String) (w : World Num R)
      → (repair_order o order candidate w).1.outside ≡ w.outside
  unfolding repair_order
  repair_order-outside order candidate w = ground arith

  pub load_order-outside :
      (shop_id id : String) (w : World Num R) → (load_order o shop_id id w).1.outside ≡ w.outside
  unfolding load_order
  load_order-outside shop_id id w = grind (arith, repair_order-outside)

  finish-outside :
      (c : Context) (claim_id : ℕ) (status : SyncStatus) (text : String) (w : World Num R)
      → (finish n o c claim_id status text w).1.outside ≡ w.outside
  unfolding finish
  finish-outside c claim_id status text w = refl

  record_success-outside :
      (c : Context) (claim_id : ℕ) (before : List String) (currency : String) (built : Built Num)
      (created : List (Option String)) (w : World Num R)
      → (record_success n o c claim_id before currency built created w).1.outside ≡ w.outside
  unfolding record_success
  record_success-outside c claim_id before currency built created w =
      grind (arith, refresh_order_state-outside)

  answered-outside :
      (c : Context) (claim_id : ℕ) (before : List String) (currency : String) (built : Built Num)
      (w : World Num R) (r : Result (List (Option String))) (after : R)
      → o.refund_order_lines built.refunds w.outside ≡ (r, after)
      → (submit n o c claim_id before currency built w).1.outside ≡ after
  unfolding submit
  answered-outside c claim_id before currency built w (err e) after answer =
      rw (answer, submit) (finish-outside c claim_id _ _ _)
  answered-outside c claim_id before currency built w (ok created) after answer =
      rw (answer, submit) (record_success-outside c claim_id before currency built created _)

  submit-outside :
      (c : Context) (claim_id : ℕ) (before : List String) (currency : String) (built : Built Num)
      (w : World Num R)
      → (submit n o c claim_id before currency built w).1.outside
        ≡ (o.refund_order_lines built.refunds w.outside).1
  submit-outside c claim_id before currency built w =
      answered-outside c claim_id before currency built w _ _ refl

  -- Nothing is sent, or the one list of refunds that was built for what Decathlon showed.
  pub record Sent (p : RefundSyncJobPayload Num) (before after : R) : Type 0 where
    pub order : OrderMapping
    pub d : DecathlonOrderDto Num
    pub others : List (DecathlonOrderDto Num)
    pub shown : o.get_orders (order.decathlon_order_id ∷ []) before ≡ ok (d ∷ others)
    pub currency : String
    pub reason : Option String
    pub built : Built Num
    pub made : build n o p order (get_or d.order_lines []) currency reason ≡ ok built
    pub some_refund : is_nil built.refunds ≡ false
    pub result : after ≡ (o.refund_order_lines built.refunds before).1

  abbrev pub SendsOnce : RefundSyncJobPayload Num → R → R → Type 0
  SendsOnce p before after = (after ≡ before) ⊎ Sent p before after

  module _ (p : RefundSyncJobPayload Num) (c : Context) where
    abbrev id : String
    id = c.order.decathlon_order_id

    send_built-SendsOnce :
        (claim_id : ℕ) (d : DecathlonOrderDto Num) (others : List (DecathlonOrderDto Num))
        (before : List String) (currency : String) (reason : Option String) (r : Result (Built Num))
        (w : World Num R)
        → o.get_orders (id ∷ []) w.outside ≡ ok (d ∷ others)
        → build n o p c.order (get_or d.order_lines []) currency reason ≡ r
        → SendsOnce p w.outside (send_built n o c claim_id before currency r w).1.outside
    unfolding send_built
    send_built-SendsOnce claim_id d others before currency reason (err e) w shown made =
        inl (finish-outside c claim_id _ _ w)
    send_built-SendsOnce claim_id d others before currency reason (ok built) w shown made =
        elim (Bool-cases (is_nil built.refunds)) [
          | inl empty ↦ inl (rw (empty, send_built) (finish-outside c claim_id _ _ w))
          | inr some_refund ↦ inr (record {
            d = d;
            others = others;
            shown = shown;
            order = c.order;
            currency = currency;
            reason = reason;
            built = built;
            made = made;
            some_refund = some_refund;
            result =
                rw (some_refund, send_built) (submit-outside c claim_id before currency built w);
          })
        ]

    proceed-SendsOnce :
        (claim_id : ℕ) (d : DecathlonOrderDto Num) (others : List (DecathlonOrderDto Num))
        (before : List String) (w : World Num R)
        → o.get_orders (id ∷ []) w.outside ≡ ok (d ∷ others)
        → SendsOnce p w.outside (proceed n o c p claim_id d before w).1.outside
    unfolding proceed
    proceed-SendsOnce claim_id d others before w shown =
        elim (Option-cases
          (find (λ (k : SyncConfiguration Num). k.shop_id == c.shop_id) w.db.configs)) [
            | inl missing ↦
                rw (missing, proceed)
                  (send_built-SendsOnce claim_id d others before (currency_of n o c.order d) none _
                    _ shown refl)
            | inr (config, found) ↦
                rw (found, proceed)
                  (send_built-SendsOnce claim_id d others before (currency_of n o c.order d)
                    config.refund_reason_code _ _ shown refl)
          ]

    check_prior-SendsOnce :
        (claim : RefundMapping Num) (d : DecathlonOrderDto Num)
        (others : List (DecathlonOrderDto Num)) (w : World Num R)
        → o.get_orders (id ∷ []) w.outside ≡ ok (d ∷ others)
        → SendsOnce p w.outside (check_prior n o c p claim d w).1.outside
    unfolding check_prior confirm_applied
    check_prior-SendsOnce claim d others w shown =
        let current = refund_ids (get_or d.order_lines []) in
        elim (Option-cases claim.decathlon_refund_ids) [
          | inl first ↦
              rw (first, check_prior) (proceed-SendsOnce claim.id d others current w shown)
          | inr (prior, again) ↦ elim (Bool-cases (is_nil (appeared prior.before current))) [
            | inl nothing ↦
                rw (again, check_prior, nothing)
                  (proceed-SendsOnce claim.id d others prior.before w shown)
            | inr applied ↦ rw (again, check_prior, applied) (inl refl)
          ]
        ]

    claimed-SendsOnce :
        (claim : RefundMapping Num) (w : World Num R)
        (answer : Result (List (DecathlonOrderDto Num)))
        → o.get_orders (id ∷ []) w.outside ≡ answer
        → SendsOnce p w.outside (refund_claimed n o c p claim w).1.outside
    unfolding refund_claimed
    claimed-SendsOnce claim w (err e) shown = rw (shown, refund_claimed) (inl refl)
    claimed-SendsOnce claim w (ok []) shown =
        rw (shown, refund_claimed) (inl (finish-outside c claim.id _ _ w))
    claimed-SendsOnce claim w (ok (d ∷ others)) shown =
        rw (shown, refund_claimed) (check_prior-SendsOnce claim d others w shown)

    refund_order-SendsOnce :
        (w : World Num R) → SendsOnce p w.outside (refund_order n o c p w).1.outside
    unfolding refund_order
    refund_order-SendsOnce w = elim (Option-cases (refund_key p)) [
      | inl keyless ↦ rw (keyless, refund_order) (inl refl)
      | inr (key, keyed) ↦ elim (Option-cases (find_refund c.shop_id key w.db)) [
        | inl new ↦ rw (keyed, refund_order, claim_refund, new) (claimed-SendsOnce _ _ _ refl)
        | inr (row, there) ↦ elim (Bool-cases (is_failed row.status)) [
          | inl failed ↦
              rw (keyed, refund_order, claim_refund, there, failed) (claimed-SendsOnce _ _ _ refl)
          | inr busy ↦ rw (keyed, refund_order, claim_refund, there, busy) (inl refl)
        ]
      ]
    ]

  SendsOnce-from :
      (p : RefundSyncJobPayload Num) {before start after : R}
      → before ≡ start
      → SendsOnce p before after
      → SendsOnce p start after
  SendsOnce-from p {after = after} same h = subst (λ x. SendsOnce p x after) same h

  started-SendsOnce :
      (p : RefundSyncJobPayload Num) (correlation_id : String) (job : ℕ) (w : World Num R)
      → SendsOnce p w.outside (refund_started n o p correlation_id job w).1.outside
  unfolding refund_started
  started-SendsOnce p correlation_id job w =
      let same = load_order-outside p.shop_id p.shopify_order_id w in
      elim (Result-cases (load_order o p.shop_id p.shopify_order_id w).0) [
        | inr (e, thrown) ↦ rw (thrown, refund_started) (inl same)
        | inl (none, missing) ↦ rw (missing, refund_started) (inl same)
        | inl (some order, found) ↦
            rw (found, refund_started)
              (SendsOnce-from p same (
                refund_order-SendsOnce p (context_of p correlation_id job order)
                  (load_order o p.shop_id p.shopify_order_id w).1))
      ]

  start_job-SendsOnce :
      (p : RefundSyncJobPayload Num) (k : ℕ → M (World Num R) (Unit {0})) (given : Option ℕ)
      (w : World Num R)
      → ((job : ℕ) (w' : World Num R) → SendsOnce p w'.outside (k job w').1.outside)
      → SendsOnce p w.outside ((start_job p.shop_id refund_sync given >>= k) w).1.outside
  start_job-SendsOnce p k none w h = h _ _
  start_job-SendsOnce p k (some _) w h = h _ _

  -- A refund that is sent for a Shopify refund stays within what the line has left.
  Sent-IsWithin :
      ((x : Num) → n.lt x x ≡ false)
      → (p : RefundSyncJobPayload Num) (before after : R) (s : Sent p before after)
      → p.mode ≡ refund
      → All (IsWithin n (get_or s.d.order_lines [])) s.built.refunds
  unfolding build
  Sent-IsWithin irreflexive p before after s mode =
      let chosen : build n o p s.order (get_or s.d.order_lines []) s.currency s.reason
          ≡ build_refunds n s.order.line_items (get_or s.d.order_lines []) (get_or p.lines [])
              p.shipping_amount p.unallocated_amount s.currency s.reason =
        rw (mode, build) refl in
      build_refunds-IsWithin n irreflexive s.order.line_items (get_or s.d.order_lines [])
        (get_or p.lines []) p.shipping_amount p.unallocated_amount s.currency s.reason s.built
        (sym chosen ∙ s.made)

-- One run of `syncRefund`, whatever Decathlon answers, either leaves Decathlon as it was or sends it
-- exactly one list of refunds, which is not empty and is what `build` makes of the order lines that
-- Decathlon showed in the same run.
pub sync_refund-SendsOnce :
    {Num R : Type 0} (n : NumOps Num) (o : Outside Num R) (p : RefundSyncJobPayload Num)
    (w : World Num R)
    → SendsOnce n o p w.outside (sync_refund n o p w).1.outside
unfolding sync_refund
sync_refund-SendsOnce n o p w =
    start_job-SendsOnce n o p
      (refund_started n o p (get_or p.correlation_id (o.random_uuid w.db.next_id))) p.sync_job_id w
      (started-SendsOnce n o p _)

-- If the run is for a Shopify refund (not a cancellation), then each refund it sends is for a line of
-- the order that Decathlon showed in the same run, and asks for no more money (shipping apart) and no
-- more items than were left on that line. The comparison of numbers has to be irreflexive.
pub sync_refund-IsWithin :
    {Num R : Type 0} (n : NumOps Num) (o : Outside Num R)
    → ((x : Num) → n.lt x x ≡ false)
    → (p : RefundSyncJobPayload Num) → p.mode ≡ refund
    → (w : World Num R)
    → ((sync_refund n o p w).1.outside ≡ w.outside)
      ⊎ ((s : Sent n o p w.outside (sync_refund n o p w).1.outside) × All
            (IsWithin n (get_or s.d.order_lines []))
            s.built.refunds)
sync_refund-IsWithin n o irreflexive p mode w = elim (sync_refund-SendsOnce n o p w) [
  | inl same ↦ inl same
  | inr s ↦ inr (s, Sent-IsWithin n o irreflexive p _ _ s mode)
]
