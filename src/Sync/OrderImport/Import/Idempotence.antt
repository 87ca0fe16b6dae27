-- ===== src/Sync/OrderImport/Import/Idempotence.antt =====
-- An order of Decathlon that has been imported is not imported again.
use decathlon_app.Base.{
  ℕ, String, true, ◌&&◌, List, Option, none, some, ◌≡◌, refl, arith, is_some, is_nil, inl, inr,
  Bool-cases, Option-cases, Result-cases, find-holds, find-append-some, find-map-some, ok, err,
  Result, eq_iff, eqb_self, subst, ◌==◌, sym, ◌∙◌, Ensures, OnOk-nothing, OnOk, ap, >>=-Ensures,
}
use decathlon_app.Sync.Lines.{truthy}
use decathlon_app.Sync.Money.{NumOps}
use decathlon_app.Sync.Outside.{send}
use decathlon_app.Sync.Store.Rows.{OrderMapping, ProductMapping, MappingStatus, World}
use decathlon_app.Sync.Store.Orders.{
  find_by_decathlon_id, find_by_shopify_id, has_decathlon_id, repair_legacy_id, rekeyed,
}
use decathlon_app.Sync.Store.Jobs.{write_log}
use decathlon_app.Sync.OrderImport.Models.{Json, NormalizedOrder, Runtime}
use decathlon_app.Sync.OrderImport.Normalize.{normalize_decathlon_order}
use decathlon_app.Sync.OrderImport.ShopifyInput.{build_shopify_order_input}
use decathlon_app.Sync.OrderImport.Import.Unique.{is_taken-free}
use decathlon_app.Sync.OrderImport.Import.{
  Remote, line_rows, match_status_of, imported_log, mapping_row, after_create, import_unless,
  OrderCreateResponse, create_if_not_exists, already_imported, record_order, create_order,
  import_normalized, import_one_order, variants_of,
}

-- The shop has a row for the order of Decathlon with this id.
abbrev pub IsMapped : {Num R : Type 0} → String → String → World Num R → Type 0
IsMapped shop_id id w = is_some (find_by_decathlon_id shop_id id w.db) ≡ true

keys-same : (shop_id id : String) → ((shop_id == shop_id) && (id == id)) ≡ true
keys-same shop_id id = ground (arith, eq_iff shop_id shop_id, eq_iff id id)

rekeyed-has :
    (shop_id id commercial_id : String) (o : OrderMapping)
    → has_decathlon_id shop_id commercial_id o ≡ true
    → has_decathlon_id shop_id id (rekeyed id commercial_id o) ≡ true
rekeyed-has shop_id id commercial_id o held = ground (arith, held, eq_iff id id)

commercial-same :
    (shop_id id commercial_id : String) (o : OrderMapping)
    → has_decathlon_id shop_id commercial_id o ≡ true
    → (o.decathlon_order_id == id) ≡ true
    → commercial_id ≡ id
commercial-same shop_id id commercial_id o held same =
    ground (arith, eq_iff o.decathlon_order_id commercial_id, eq_iff o.decathlon_order_id id)

module _ {Num R : Type 0} (n : NumOps Num) (rt : Runtime Num) (remote : Remote Num R) where
  -- A row that is found, already or after the repair of its id.
  IsFound : String → String → Option OrderMapping → World Num R → Type 0
  IsFound shop_id id none w = Unit
  IsFound shop_id id (some _) w = IsMapped shop_id id w

  repair_legacy_id-IsFound :
      (shop_id id commercial_id : String) (w : World Num R)
      → find_by_decathlon_id shop_id id w.db ≡ none
      → Ensures (IsFound shop_id id) (repair_legacy_id shop_id id commercial_id w)
  unfolding IsFound
  repair_legacy_id-IsFound shop_id id commercial_id w new =
      elim (Option-cases (find_by_decathlon_id shop_id commercial_id w.db)) [
        | inl lost ↦ rw (repair_legacy_id, lost) tt
        | inr (m, there) ↦
            let held = find-holds (has_decathlon_id shop_id commercial_id) w.db.orders m there in
            elim (Bool-cases (m.decathlon_order_id == id)) [
              | inl same ↦
                  let one = commercial-same shop_id id commercial_id m held same in
                  ground (
                    arith,
                    sym new ∙ ap (λ k. find_by_decathlon_id shop_id k w.db) (sym one) ∙ there,
                  )
              | inr differs ↦
                  rw
                    (
                      repair_legacy_id,
                      there,
                      differs,
                      is_taken-free shop_id id commercial_id m w.db there new,
                    )
                    (find-map-some (has_decathlon_id shop_id id)
                      (has_decathlon_id shop_id commercial_id) _ w.db.orders m there
                      (rw (eqb_self m.id) (rekeyed-has shop_id id commercial_id m held)))
            ]
      ]

  already_imported-IsFound :
      (shop_id : String) (order : NormalizedOrder Num) (w : World Num R)
      → Ensures (IsFound shop_id order.external_id) (already_imported n rt remote shop_id order w)
  unfolding already_imported IsFound
  already_imported-IsFound shop_id order w =
      elim (Option-cases (find_by_decathlon_id shop_id order.external_id w.db)) [
        | inr (m, there) ↦ rw (there, already_imported) (rw there refl)
        | inl new ↦ elim (Option-cases (truthy order.commercial_id)) [
          | inl none_given ↦ rw (new, none_given, already_imported) tt
          | inr (id, given) ↦
              rw (new, given, already_imported)
                (repair_legacy_id-IsFound shop_id order.external_id id w new)
        ]
      ]

  create_if_not_exists-IsMapped :
      (shop_id shopify_order_id : String) (order : NormalizedOrder Num) (status : MappingStatus)
      (matched : List (String × ProductMapping)) (w : World Num R)
      → Ensures
          (λ _. IsMapped shop_id order.external_id)
          (create_if_not_exists rt shop_id shopify_order_id order status matched w)
  unfolding create_if_not_exists
  create_if_not_exists-IsMapped shop_id shopify_order_id order status matched w =
      elim (Option-cases (find_by_decathlon_id shop_id order.external_id w.db)) [
        | inr (m, there) ↦ rw (there, create_if_not_exists) (rw there refl)
        | inl new ↦ elim (Option-cases (find_by_shopify_id shop_id shopify_order_id w.db)) [
          | inr (m, there) ↦ rw (new, there, create_if_not_exists) tt
          | inl free ↦ elim (Option-cases (line_rows rt matched order.items)) [
            | inl bad ↦ rw (new, free, bad, create_if_not_exists) tt
            | inr (rows, good) ↦
                rw (new, free, good, create_if_not_exists)
                  (find-append-some (has_decathlon_id shop_id order.external_id) w.db.orders
                    (mapping_row rt shop_id shopify_order_id order status rows w.db.next_id)
                    (keys-same shop_id order.external_id))
          ]
        ]
      ]

  record_order-IsMapped :
      (shop_id correlation_id : String) (job : ℕ) (order : NormalizedOrder Num)
      (matched : List (String × ProductMapping)) (shopify_order_id : String) (w : World Num R)
      → Ensures
          (λ _. IsMapped shop_id order.external_id)
          (record_order n rt remote shop_id correlation_id job order matched shopify_order_id w)
  unfolding record_order
  record_order-IsMapped shop_id correlation_id job order matched shopify_order_id w =
      >>=-Ensures (λ _. IsMapped shop_id order.external_id)
        (λ _. IsMapped shop_id order.external_id)
        (λ _.
          write_log (imported_log n rt remote shop_id correlation_id job order shopify_order_id))
        (λ _ _ h. h)
        (create_if_not_exists rt shop_id shopify_order_id order
          (match_status_of n rt remote order.items matched) matched)
        w
        (create_if_not_exists-IsMapped shop_id shopify_order_id order
          (match_status_of n rt remote order.items matched) matched w)

  created-IsMapped :
      (shop_id correlation_id : String) (job : ℕ) (order : NormalizedOrder Num)
      (matched : List (String × ProductMapping)) (created : OrderCreateResponse) (w : World Num R)
      → Ensures
          (λ _. IsMapped shop_id order.external_id)
          (after_create n rt remote shop_id correlation_id job order matched created w)
  unfolding after_create
  created-IsMapped shop_id correlation_id job order matched created w =
      elim (Bool-cases (is_nil created.user_errors)) [
        | inr failed ↦ rw (failed, after_create) tt
        | inl fine ↦ elim (Option-cases created.order) [
          | inl absent ↦ rw (fine, absent, after_create) tt
          | inr (id, there) ↦
              rw (fine, there, after_create)
                (record_order-IsMapped shop_id correlation_id job order matched id w)
        ]
      ]

  create_order-IsMapped :
      (shop_id correlation_id : String) (job : ℕ) (shop_currency : String)
      (order : NormalizedOrder Num) (matched : List (String × ProductMapping)) (w : World Num R)
      → Ensures
          (λ _. IsMapped shop_id order.external_id)
          (create_order n rt remote shop_id correlation_id job shop_currency order matched w)
  unfolding create_order
  create_order-IsMapped shop_id correlation_id job shop_currency order matched w =
      >>=-Ensures (λ _ _. Unit {0}) (λ _. IsMapped shop_id order.external_id)
        (after_create n rt remote shop_id correlation_id job order matched)
        (λ created w' _. created-IsMapped shop_id correlation_id job order matched created w')
        (send (
          remote.order_create
            (build_shopify_order_input rt order (variants_of n rt remote matched) shop_currency)))
        w (OnOk-nothing _)

  next-IsMapped :
      (shop_id correlation_id : String) (job : ℕ) (shop_currency : String)
      (order : NormalizedOrder Num) (found : Option OrderMapping) (w : World Num R)
      → IsFound shop_id order.external_id found w
      → Ensures
          (λ _. IsMapped shop_id order.external_id)
          (import_unless n rt remote shop_id correlation_id job shop_currency order found w)
  unfolding import_unless IsFound
  next-IsMapped shop_id correlation_id job shop_currency order (some _) w h = h
  next-IsMapped shop_id correlation_id job shop_currency order none w h =
      create_order-IsMapped shop_id correlation_id job shop_currency order _ w

  import_normalized-IsMapped :
      (shop_id correlation_id : String) (job : ℕ) (shop_currency : String)
      (order : NormalizedOrder Num) (w : World Num R)
      → Ensures
          (λ _. IsMapped shop_id order.external_id)
          (import_normalized n rt remote shop_id correlation_id job shop_currency order w)
  unfolding import_normalized
  import_normalized-IsMapped shop_id correlation_id job shop_currency order w =
      >>=-Ensures (IsFound shop_id order.external_id) (λ _. IsMapped shop_id order.external_id)
        (import_unless n rt remote shop_id correlation_id job shop_currency order)
        (λ found w' h. next-IsMapped shop_id correlation_id job shop_currency order found w' h)
        (already_imported n rt remote shop_id order) w (already_imported-IsFound shop_id order w)

  import_normalized-again :
      (shop_id correlation_id : String) (job : ℕ) (shop_currency : String)
      (order : NormalizedOrder Num) (w : World Num R)
      → IsMapped shop_id order.external_id w
      → import_normalized n rt remote shop_id correlation_id job shop_currency order w ≡ (ok tt, w)
  unfolding import_normalized import_unless already_imported
  import_normalized-again shop_id correlation_id job shop_currency order w mapped =
      elim (Option-cases (find_by_decathlon_id shop_id order.external_id w.db)) [
        | inl new ↦ ground (arith, new)
        | inr (m, there) ↦ rw (there, import_normalized, already_imported, import_unless) refl
      ]

-- Runs of `importOneOrder` on one raw order.
module _ {Num R : Type 0} (n : NumOps Num) (rt : Runtime Num) (remote : Remote Num R) where
  ended-again :
      (shop_id later_id : String) (later_job : ℕ) (later_currency : String)
      (order : NormalizedOrder Num) (r : Result (Unit {0})) (w : World Num R)
      → OnOk (λ _. IsMapped shop_id order.external_id w) r
      → OnOk
          (λ _.
            import_normalized n rt remote shop_id later_id later_job later_currency order w
            ≡ (ok tt, w))
          r
  ended-again shop_id later_id later_job later_currency order (ok _) w mapped =
      import_normalized-again n rt remote shop_id later_id later_job later_currency order w mapped
  ended-again shop_id later_id later_job later_currency order (err _) w mapped = tt

  -- After a run that does not throw, the next run, also on another page and for another job, is over
  -- at once.
  again-of :
      (shop_id correlation_id later_id : String) (job later_job : ℕ)
      (shop_currency later_currency : String) (dto : Json Num) (w : World Num R)
      → Ensures
          (λ _ w'.
            import_one_order n rt remote shop_id dto later_id later_job later_currency w'
            ≡ (ok tt, w'))
          (import_one_order n rt remote shop_id dto correlation_id job shop_currency w)
  unfolding import_one_order
  again-of shop_id correlation_id later_id job later_job shop_currency later_currency dto w =
      elim (Result-cases (normalize_decathlon_order n rt dto)) [
        | inr (e, bad) ↦ rw (bad, import_one_order) tt
        | inl (order, good) ↦
            rw (good, import_one_order)
              (ended-again shop_id later_id later_job later_currency order
                (import_normalized n rt remote shop_id correlation_id job shop_currency order w).0
                (import_normalized n rt remote shop_id correlation_id job shop_currency order w).1
                (import_normalized-IsMapped n rt remote shop_id correlation_id job shop_currency
                  order w))
      ]

-- An order whose import did not throw is never imported again: the next run for the same raw order
-- and shop, whatever its job, its correlation id and the currency, ends well and changes nothing,
-- neither a row nor anything outside. This also holds where the first run found the order already
-- imported, or repaired a row that was keyed on its commercial id.
pub import_one_order-again :
    {Num R : Type 0} (n : NumOps Num) (rt : Runtime Num) (remote : Remote Num R)
    (shop_id correlation_id later_id : String) (job later_job : ℕ)
    (shop_currency later_currency : String) (dto : Json Num) (w : World Num R)
    → (import_one_order n rt remote shop_id dto correlation_id job shop_currency w).0 ≡ ok tt
    → import_one_order n rt remote shop_id dto later_id later_job later_currency
        (import_one_order n rt remote shop_id dto correlation_id job shop_currency w).1
      ≡ (ok tt, (import_one_order n rt remote shop_id dto correlation_id job shop_currency w).1)
import_one_order-again n rt remote shop_id correlation_id later_id job later_job shop_currency
      later_currency dto w done =
    subst (OnOk _) done (
      again-of n rt remote shop_id correlation_id later_id job later_job shop_currency
        later_currency dto w)
