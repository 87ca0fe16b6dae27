-- ===== src/Sync/OrderImport/Import/Once.antt =====
-- What an import sends to Shopify: one order at most, and only for an order that has no row.
use decathlon_app.Base.{
  ℕ, String, List, [], Option, none, some, ◌≡◌, refl, arith, ◌⊎◌, inl, inr, Bool-cases,
  Option-cases, Result-cases, Result, ok, is_nil, ◌==◌,
}
use decathlon_app.Sync.Lines.{truthy}
use decathlon_app.Sync.Money.{NumOps}
use decathlon_app.Sync.Store.Rows.{OrderMapping, ProductMapping, MappingStatus, World}
use decathlon_app.Sync.Store.Orders.{find_by_decathlon_id, repair_legacy_id}
use decathlon_app.Sync.OrderImport.Models.{Json, NormalizedOrder, Runtime}
use decathlon_app.Sync.OrderImport.Normalize.{normalize_decathlon_order}
use decathlon_app.Sync.OrderImport.ShopifyInput.{build_shopify_order_input}
use decathlon_app.Sync.OrderImport.Import.Unique.{is_taken-free}
use decathlon_app.Sync.OrderImport.Import.{
  Remote, OrderCreateResponse, create_if_not_exists, already_imported, record_order, after_create,
  create_order, import_unless, import_normalized, import_one_order, match_items, variants_of,
}

-- Nothing is sent; or one order, made of the normalised one and of its matches, which had no row.
pub data CreatesOnce {Num R : Type 0} (n : NumOps Num) (rt : Runtime Num) (remote : Remote Num R)
    (shop_id shop_currency : String) (dto : Json Num) (w : World Num R) : R → Type 0 where
  nothing : CreatesOnce n rt remote shop_id shop_currency dto w w.outside
  one_order :
      (order : NormalizedOrder Num)
      → normalize_decathlon_order n rt dto ≡ ok order
      → find_by_decathlon_id shop_id order.external_id w.db ≡ none
      → CreatesOnce n rt remote shop_id shop_currency dto w
          (remote.order_create
            (build_shopify_order_input rt order
              (variants_of n rt remote (match_items n rt remote shop_id order.items [] w.db))
              shop_currency)
            w.outside).1

module _ {Num R : Type 0} (n : NumOps Num) (rt : Runtime Num) (remote : Remote Num R) where
  create_if_not_exists-outside :
      (shop_id shopify_order_id : String) (order : NormalizedOrder Num) (status : MappingStatus)
      (matched : List (String × ProductMapping)) (w : World Num R)
      → (create_if_not_exists rt shop_id shopify_order_id order status matched w).1.outside
        ≡ w.outside
  unfolding create_if_not_exists
  create_if_not_exists-outside shop_id shopify_order_id order status matched w = ground arith

  record_order-outside :
      (shop_id correlation_id : String) (job : ℕ) (order : NormalizedOrder Num)
      (matched : List (String × ProductMapping)) (id : String) (w : World Num R)
      → (record_order n rt remote shop_id correlation_id job order matched id w).1.outside
        ≡ w.outside
  unfolding record_order
  record_order-outside shop_id correlation_id job order matched id w =
      grind (arith, create_if_not_exists-outside)

  after_create-outside :
      (shop_id correlation_id : String) (job : ℕ) (order : NormalizedOrder Num)
      (matched : List (String × ProductMapping)) (created : OrderCreateResponse) (w : World Num R)
      → (after_create n rt remote shop_id correlation_id job order matched created w).1.outside
        ≡ w.outside
  unfolding after_create
  after_create-outside shop_id correlation_id job order matched created w =
      elim (Bool-cases (is_nil created.user_errors)) [
        | inr failed ↦ rw (failed, after_create) refl
        | inl fine ↦ elim (Option-cases created.order) [
          | inl absent ↦ rw (fine, absent, after_create) refl
          | inr (id, there) ↦
              rw (fine, there, after_create)
                (record_order-outside shop_id correlation_id job order matched id w)
        ]
      ]

  create_order-outside :
      (shop_id correlation_id : String) (job : ℕ) (shop_currency : String)
      (order : NormalizedOrder Num) (matched : List (String × ProductMapping)) (w : World Num R)
      → (create_order n rt remote shop_id correlation_id job shop_currency order matched
          w).1.outside
        ≡ (remote.order_create
            (build_shopify_order_input rt order (variants_of n rt remote matched) shop_currency)
            w.outside).1
  unfolding create_order
  create_order-outside shop_id correlation_id job shop_currency order matched w =
      elim (Result-cases
        (remote.order_create
          (build_shopify_order_input rt order (variants_of n rt remote matched) shop_currency)
          w.outside).0) [
            | inr (e, refused) ↦ rw (refused, create_order) refl
            | inl (created, made) ↦
                rw (made, create_order)
                  (after_create-outside shop_id correlation_id job order matched created _)
          ]

  -- The row that is found or repaired, or the state as it was, without a row.
  LooksUp :
      String
      → NormalizedOrder Num
      → World Num R
      → Result (Option OrderMapping) × World Num R
      → Type 0
  LooksUp shop_id order w out =
      (out.1.outside ≡ w.outside)
      × (((m : OrderMapping) × (out.0 ≡ ok (some m)))
          ⊎ ((out ≡ (ok none, w)) × (find_by_decathlon_id shop_id order.external_id w.db ≡ none)))

  already_imported-LooksUp :
      (shop_id : String) (order : NormalizedOrder Num) (w : World Num R)
      → LooksUp shop_id order w (already_imported n rt remote shop_id order w)
  unfolding already_imported LooksUp
  already_imported-LooksUp shop_id order w =
      elim (Option-cases (find_by_decathlon_id shop_id order.external_id w.db)) [
        | inr (m, there) ↦ rw (there, already_imported) (refl, inl (m, refl))
        | inl new ↦ elim (Option-cases (truthy order.commercial_id)) [
          | inl none_given ↦ rw (new, none_given, already_imported) (refl, inr (refl, refl))
          | inr (id, given) ↦ elim (Option-cases (find_by_decathlon_id shop_id id w.db)) [
            | inl lost ↦
                rw (new, given, already_imported, repair_legacy_id, lost) (refl, inr (refl, refl))
            | inr (m, there) ↦ elim (Bool-cases (m.decathlon_order_id == order.external_id)) [
              | inl same ↦
                  rw (new, given, already_imported, repair_legacy_id, there, same)
                    (refl, inl (m, refl))
              | inr differs ↦
                  rw
                    (
                      new,
                      given,
                      already_imported,
                      repair_legacy_id,
                      there,
                      differs,
                      is_taken-free shop_id order.external_id id m w.db there new,
                    )
                    (refl, inl (_, refl))
            ]
          ]
        ]
      ]

  normalized-CreatesOnce :
      (shop_id shop_currency : String) (dto : Json Num) (w : World Num R) (correlation_id : String)
      (job : ℕ) (order : NormalizedOrder Num)
      → normalize_decathlon_order n rt dto ≡ ok order
      → CreatesOnce n rt remote shop_id shop_currency dto w
          (import_normalized n rt remote shop_id correlation_id job shop_currency order w).1.outside
  unfolding import_normalized import_unless LooksUp
  normalized-CreatesOnce shop_id shop_currency dto w correlation_id job order good =
      let (same, looked) = already_imported-LooksUp shop_id order w in
      elim looked [
        | inl (m, there) ↦ rw (there, import_normalized, import_unless, same) nothing
        | inr (missing, new) ↦
            rw
              (
                missing,
                import_normalized,
                import_unless,
                create_order-outside shop_id correlation_id job shop_currency order
                    (match_items n rt remote shop_id order.items [] w.db) w,
              )
              (one_order order good new)
      ]

-- One run of `importOneOrder` leaves everything outside as it was; or it sends Shopify exactly one
-- order: the one that is built from the normalised order and from the matches of its lines, for a
-- shop that had no row for this order of Decathlon.
pub import_one_order-CreatesOnce :
    {Num R : Type 0} (n : NumOps Num) (rt : Runtime Num) (remote : Remote Num R)
    (shop_id correlation_id : String) (job : ℕ) (shop_currency : String) (dto : Json Num)
    (w : World Num R)
    → CreatesOnce n rt remote shop_id shop_currency dto w
        (import_one_order n rt remote shop_id dto correlation_id job shop_currency w).1.outside
unfolding import_one_order
import_one_order-CreatesOnce n rt remote shop_id correlation_id job shop_currency dto w =
    elim (Result-cases (normalize_decathlon_order n rt dto)) [
      | inr (e, bad) ↦ rw (bad, import_one_order) nothing
      | inl (order, good) ↦
          rw (good, import_one_order)
            (normalized-CreatesOnce n rt remote shop_id shop_currency dto w correlation_id job order
              good)
    ]
