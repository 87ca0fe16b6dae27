-- ===== src/Sync/Lifecycle/Refund/Retry.antt =====
-- What a first run of `syncRefund` leaves for its retry, and what the retry makes of it.
use decathlon_app.Base.{
  ℕ, keep_some, String, true, false, List, [], ◌∷◌, Option, none, some, inl, inr, ◌≡◌, ◌⊎◌, refl,
  arith, M, ◌>>=◌, ◌==◌, eq_refl, is_nil, get_or, find, ok, err, Result, Bool-cases, Result-cases,
  Option-cases, ◌∙◌, ap, eqb, map, find-append, find-here, find-later, eqb_self, contains, eq_iff,
  if◌then◌else◌, Bool, subst,
}
use decathlon_app.Sync.Money.{NumOps}
use decathlon_app.Sync.Outside.{Outside, DecathlonOrderDto}
use decathlon_app.Sync.Store.Rows.{
  World, OrderMapping, RefundMapping, refund_sync, SyncStatus, SyncConfiguration,
}
use decathlon_app.Sync.Store.Claims.{
  find_refund, has_refund_key, is_failed, claim_refund, finish_refund, finished_refund, RefundPatch,
  new_refund,
}
use decathlon_app.Sync.Store.Jobs.{start_job}
use decathlon_app.Sync.Store.Orders.{get_config, find_by_shopify_id, has_shopify_id}
use decathlon_app.Sync.Lines.{truthy}
use decathlon_app.Sync.Refunds.{Built}
use decathlon_app.Sync.Money.{round2, sum}
use decathlon_app.Sync.Lifecycle.{Context, load_order, refresh_order_state}
use decathlon_app.Sync.Lifecycle.Refund.{
  RefundSyncJobPayload, refund_key, context_of, refund_order, refund_started, sync_refund,
  check_prior, confirm_applied, refund_claimed, refund_ids, appeared, proceed, send_built, submit,
  record_success, finish, patch_error, patch_ids,
}
use decathlon_app.Sync.Lifecycle.Refund.Guards.{sync_refund-claimed}

find-map {ℓ} :
    {A : Type ℓ} (q : A → Bool) (f : A → A) (xs : List A) (x : A)
    → ((a : A) → q (f a) ≡ q a)
    → find q xs ≡ some x
    → find q (map f xs) ≡ some (f x)
find-map q f [] x same found = ground arith
find-map q f (a ∷ xs) x same found = elim (Bool-cases (q a)) [
  | inl here ↦ rw (same a, here) (ap (λ y. some (f y)) (find-here q a x xs found here))
  | inr later ↦ rw (same a, later) (find-map q f xs x same (find-later q a x xs found later))
]

module _ {Num : Type 0} (shop_id key : String) where
  finished-found :
      {R : Type 0} (id : ℕ) (status : SyncStatus) (p : RefundPatch Num) (r : RefundMapping Num)
      (w : World Num R)
      → r.id ≡ id
      → find_refund shop_id key w.db ≡ some r
      → find_refund shop_id key (finish_refund id status p w).1.db
        ≡ some (finished_refund status p r)
  finished-found id status p r w own there =
      find-map (has_refund_key shop_id key)
        (λ (r : RefundMapping Num). if eqb r.id id then finished_refund status p r else r)
        w.db.refunds r
        (λ a. elim (Bool-cases (eqb a.id id)) [
          | inl same ↦ rw same refl
          | inr other ↦ rw other refl
        ])
        there
      ∙ ap (λ b. some (if b then finished_refund status p r else r))
          (ap (λ a. eqb a id) own ∙ eqb_self id)

  -- What a first attempt leaves in the row of the refund: a status that is not FAILED, or the ids of
  -- the refunds that Decathlon showed before it.
  abbrev IsLeft : {R : Type 0} → String → OrderMapping → List String → World Num R → Type 0
  IsLeft shopify_order_id order before w =
      (row : RefundMapping Num) × (find_refund shop_id key w.db ≡ some row)
      × ((is_failed row.status ≡ false)
          ⊎ ((row.decathlon_refund_ids ≡ some (record { before = before; created = none }))
              × (find_by_shopify_id shop_id shopify_order_id w.db ≡ some order)))

module _ {Num R : Type 0} (n : NumOps Num) (o : Outside Num R) (key shopify_order_id : String)
    (order : OrderMapping) (before : List String) (c : Context) (id : ℕ) where
  -- The row under way: its own id, and the ids shown before.
  abbrev IsUnderWay : World Num R → Type 0
  IsUnderWay w =
      (row : RefundMapping Num) × (find_refund c.shop_id key w.db ≡ some row)
      × (row.id ≡ id)
      × (row.decathlon_refund_ids ≡ some (record { before = before; created = none }))
      × (find_by_shopify_id c.shop_id shopify_order_id w.db ≡ some order)

  finish-IsLeft :
      (status : SyncStatus) (text : String) (w : World Num R)
      → IsUnderWay w
      → IsLeft c.shop_id key shopify_order_id order before (finish n o c id status text w).1
  unfolding finish
  finish-IsLeft status text w (row, there, own, ids, placed) = (
    _,
    finished-found c.shop_id key id status (patch_error (some text)) row w own there,
    inr (ids, placed),
  )

  refresh-refunds :
      (shop_id decathlon_id : String) (w : World Num R)
      → (refresh_order_state o shop_id decathlon_id w).1.db.refunds ≡ w.db.refunds
  unfolding refresh_order_state
  refresh-refunds shop_id decathlon_id w = ground arith

  record_success-IsLeft :
      (currency : String) (built : Built Num) (created : List (Option String)) (w : World Num R)
      → IsUnderWay w
      → IsLeft c.shop_id key shopify_order_id order before
          (record_success n o c id before currency built created w).1
  unfolding record_success
  record_success-IsLeft currency built created w (row, there, own, ids, placed) =
      let patch : RefundPatch Num = record {
        decathlon_refund_ids =
            some (record { before = before; created = some (keep_some (map truthy created)) });
        amount =
            some
              (round2 n (sum n (map (λ r. some (n.add r.amount r.shipping_amount)) built.refunds)));
        currency = some currency;
        last_error = some none;
      } in
      let finished = (finish_refund id SyncStatus.success patch w).1 in
      let refreshed = refresh_order_state o c.shop_id c.order.decathlon_order_id finished in
      let found : find_refund c.shop_id key refreshed.1.db
          ≡ some (finished_refund SyncStatus.success patch row) =
        ap (find (has_refund_key c.shop_id key))
          (refresh-refunds c.shop_id c.order.decathlon_order_id finished)
        ∙ finished-found c.shop_id key id SyncStatus.success patch row w own there in
      elim (Result-cases refreshed.0) [
        | inl (done, ended) ↦ rw (ended, record_success) (_, found, inl refl)
        | inr (e, thrown) ↦ rw (thrown, record_success) (_, found, inl refl)
      ]

  submit-IsLeft :
      (currency : String) (built : Built Num) (w : World Num R)
      → IsUnderWay w
      → IsLeft c.shop_id key shopify_order_id order before
          (submit n o c id before currency built w).1
  unfolding submit
  submit-IsLeft currency built w h =
      elim (Result-cases (o.refund_order_lines built.refunds w.outside).0) [
        | inl (created, sent) ↦ rw (sent, submit) (record_success-IsLeft currency built created _ h)
        | inr (e, failed) ↦ rw (failed, submit) (finish-IsLeft SyncStatus.failed _ _ h)
      ]

  send_built-IsLeft :
      (currency : String) (r : Result (Built Num)) (w : World Num R)
      → IsUnderWay w
      → IsLeft c.shop_id key shopify_order_id order before
          (send_built n o c id before currency r w).1
  unfolding send_built
  send_built-IsLeft currency (err e) w h = finish-IsLeft SyncStatus.failed _ w h
  send_built-IsLeft currency (ok built) w h = elim (Bool-cases (is_nil built.refunds)) [
    | inl nothing ↦ rw (send_built, nothing) (finish-IsLeft SyncStatus.skipped _ w h)
    | inr something ↦ rw (send_built, something) (submit-IsLeft currency built w h)
  ]

  proceed-IsLeft :
      (p : RefundSyncJobPayload Num) (d : DecathlonOrderDto Num) (row : RefundMapping Num)
      (w : World Num R)
      → find_refund c.shop_id key w.db ≡ some row
      → row.id ≡ id
      → find_by_shopify_id c.shop_id shopify_order_id w.db ≡ some order
      → IsLeft c.shop_id key shopify_order_id order before (proceed n o c p id d before w).1
  unfolding proceed
  proceed-IsLeft p d row w there own placed =
      let ids = patch_ids (record { before = before; created = none }) in
      let under_way = finished-found c.shop_id key id SyncStatus.processing ids row w own there in
      elim (Option-cases
        (find (λ (s : SyncConfiguration Num). s.shop_id == c.shop_id) w.db.configs)) [
          | inl fresh ↦
              rw (proceed, get_config, fresh)
                (send_built-IsLeft _ _ _ (_, under_way, own, refl, placed))
          | inr (config, kept) ↦
              rw (proceed, get_config, kept)
                (send_built-IsLeft _ _ _ (_, under_way, own, refl, placed))
        ]

module _ {Num R : Type 0} (n : NumOps Num) (o : Outside Num R) (p : RefundSyncJobPayload Num)
    (order : OrderMapping) (d : DecathlonOrderDto Num) (others : List (DecathlonOrderDto Num))
    (key code : String) (keyed : refund_key p ≡ some key)
    (known : truthy order.decathlon_commercial_id ≡ some code) where
  -- The state before the first attempt.
  abbrev IsFirst : World Num R → Type 0
  IsFirst w =
      (find_by_shopify_id p.shop_id p.shopify_order_id w.db ≡ some order)
      × (find_refund p.shop_id key w.db ≡ none)
      × (o.get_orders (order.decathlon_order_id ∷ []) w.outside ≡ ok (d ∷ others))

  abbrev shown : List String
  shown = refund_ids (get_or d.order_lines [])

  started-IsLeft :
      (correlation_id : String) (job : ℕ) (w : World Num R)
      → IsFirst w
      → IsLeft p.shop_id key p.shopify_order_id order shown
          (refund_started n o p correlation_id job w).1
  unfolding refund_started load_order refund_order refund_claimed check_prior
  started-IsLeft correlation_id job w (placed, new, answer) =
      rw
        (
          placed, refund_started, load_order, known, keyed, refund_order, claim_refund, new,
          refund_claimed, answer, check_prior,
        )
        (proceed-IsLeft n o key p.shopify_order_id order shown
          (context_of p correlation_id job order) w.db.next_id p d
          (new_refund p.shop_id order.id key w.db.next_id) _
          (find-append (has_refund_key p.shop_id key) w.db.refunds
            (new_refund p.shop_id order.id key w.db.next_id) new
            (rw (eq_refl p.shop_id, eq_refl key) refl))
          refl placed)

  start_job-IsLeft :
      (k : ℕ → M (World Num R) (Unit {0})) (given : Option ℕ) (w : World Num R)
      → ((job : ℕ) (w' : World Num R)
          → IsFirst w'
          → IsLeft p.shop_id key p.shopify_order_id order shown (k job w').1)
      → IsFirst w
      → IsLeft p.shop_id key p.shopify_order_id order shown
          ((start_job p.shop_id refund_sync given >>= k) w).1
  start_job-IsLeft k none w h first = h _ _ first
  start_job-IsLeft k (some _) w h first = h _ _ first

  first-IsLeft :
      (w : World Num R)
      → IsFirst w
      → IsLeft p.shop_id key p.shopify_order_id order shown (sync_refund n o p w).1
  unfolding sync_refund
  first-IsLeft w first =
      start_job-IsLeft (refund_started n o p (get_or p.correlation_id (o.random_uuid w.db.next_id)))
        p.sync_job_id w (started-IsLeft _) first

  module _ (later : DecathlonOrderDto Num) (rest : List (DecathlonOrderDto Num))
      (applied : is_nil (appeared shown (refund_ids (get_or later.order_lines []))) ≡ false) where
    started_again :
        (correlation_id : String) (job : ℕ) (w : World Num R) (row : RefundMapping Num)
        → find_by_shopify_id p.shop_id p.shopify_order_id w.db ≡ some order
        → o.get_orders (order.decathlon_order_id ∷ []) w.outside ≡ ok (later ∷ rest)
        → find_refund p.shop_id key w.db ≡ some row
        → is_failed row.status ≡ true
        → row.decathlon_refund_ids ≡ some (record { before = shown; created = none })
        → (refund_started n o p correlation_id job w).1.outside ≡ w.outside
    unfolding refund_started load_order refund_order refund_claimed check_prior confirm_applied
    started_again correlation_id job w row placed answer there failed ids =
        rw
          (
            placed, refund_started, load_order, known, keyed, refund_order, claim_refund, there,
            failed, refund_claimed, answer, check_prior, ids, applied, confirm_applied,
          )
          refl

    job_again :
        (k : ℕ → M (World Num R) (Unit {0})) (given : Option ℕ) (w : World Num R)
        → ((job : ℕ) (w' : World Num R)
            → w'.db.refunds ≡ w.db.refunds
            → w'.db.orders ≡ w.db.orders
            → w'.outside ≡ w.outside
            → (k job w').1.outside ≡ w.outside)
        → ((start_job p.shop_id refund_sync given >>= k) w).1.outside ≡ w.outside
    job_again k none w h = h _ _ refl refl refl
    job_again k (some _) w h = h _ _ refl refl refl

    failed_again :
        (w : World Num R) (row : RefundMapping Num)
        → find_by_shopify_id p.shop_id p.shopify_order_id w.db ≡ some order
        → o.get_orders (order.decathlon_order_id ∷ []) w.outside ≡ ok (later ∷ rest)
        → find_refund p.shop_id key w.db ≡ some row
        → is_failed row.status ≡ true
        → row.decathlon_refund_ids ≡ some (record { before = shown; created = none })
        → (sync_refund n o p w).1.outside ≡ w.outside
    unfolding sync_refund
    failed_again w row placed answer there failed ids =
        job_again (refund_started n o p (get_or p.correlation_id (o.random_uuid w.db.next_id)))
          p.sync_job_id w
          (λ job w' refunds orders outside.
            started_again _ job w' row
              (ap (find (has_shopify_id p.shop_id p.shopify_order_id)) orders ∙ placed)
              (ap (o.get_orders (order.decathlon_order_id ∷ [])) outside ∙ answer)
              (ap (find (has_refund_key p.shop_id key)) refunds ∙ there) failed ids
            ∙ outside)

    again :
        (w : World Num R)
        → o.get_orders (order.decathlon_order_id ∷ []) w.outside ≡ ok (later ∷ rest)
        → IsLeft p.shop_id key p.shopify_order_id order shown w
        → (sync_refund n o p w).1.outside ≡ w.outside
    again w answer (row, there, inl busy) =
        (sync_refund-claimed n o p key keyed row w there busy).outside
    again w answer (row, there, inr (ids, placed)) = elim (Bool-cases (is_failed row.status)) [
      | inr busy ↦ (sync_refund-claimed n o p key keyed row w there busy).outside
      | inl failed ↦ failed_again w row placed answer there failed ids
    ]

keep-appeared :
    (id : String) (before current : List String)
    → contains id before ≡ false
    → contains id current ≡ true
    → is_nil (appeared before current) ≡ false
keep-appeared id before [] absent there = ground arith
keep-appeared id before (x ∷ current) absent there = elim (Bool-cases (contains x before)) [
  | inr new ↦ rw new refl
  | inl old ↦ elim (Bool-cases (contains id current)) [
    | inl later ↦ rw old (keep-appeared id before current absent later)
    | inr nowhere ↦
        let same : x ≡ id = ground (arith, there, nowhere, eq_iff x id, eq_iff id x) in
        grind (arith, subst (λ k. contains k before ≡ true) same old, absent)
  ]
]

-- Two runs of `syncRefund` for one refund, on an order of the shop whose commercial id is known. The
-- first finds no row of the refund and is shown the order by Decathlon; whatever it then sends, and
-- whether Decathlon answers that, refuses it or leaves it unanswered, the second run sends nothing if
-- Decathlon, in whatever state it is by then, shows it a refund on the order that it did not show
-- the first run.
pub sync_refund-retry :
    {Num R : Type 0} (n : NumOps Num) (o : Outside Num R) (p : RefundSyncJobPayload Num)
    (order : OrderMapping) (d later : DecathlonOrderDto Num)
    (others rest : List (DecathlonOrderDto Num)) (key code : String) (w : World Num R)
    → refund_key p ≡ some key
    → truthy order.decathlon_commercial_id ≡ some code
    → find_by_shopify_id p.shop_id p.shopify_order_id w.db ≡ some order
    → find_refund p.shop_id key w.db ≡ none
    → o.get_orders (order.decathlon_order_id ∷ []) w.outside ≡ ok (d ∷ others)
    → (now : R) → o.get_orders (order.decathlon_order_id ∷ []) now ≡ ok (later ∷ rest)
    → (id : String) → contains id (refund_ids (get_or d.order_lines [])) ≡ false
    → contains id (refund_ids (get_or later.order_lines [])) ≡ true
    → (sync_refund n o p (record ((sync_refund n o p w).1) { outside = now })).1.outside ≡ now
sync_refund-retry n o p order d later others rest key code w keyed known placed new shown_first now
      shown_now id absent there =
    again n o p order d others key code keyed known later rest
      (keep-appeared id (refund_ids (get_or d.order_lines []))
        (refund_ids (get_or later.order_lines [])) absent there)
      (record ((sync_refund n o p w).1) { outside = now }) shown_now
      (first-IsLeft n o p order d others key code keyed known w (placed, new, shown_first))
