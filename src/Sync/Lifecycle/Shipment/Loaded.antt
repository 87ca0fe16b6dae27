-- ===== src/Sync/Lifecycle/Shipment/Loaded.antt =====
-- The order and the shipment that a run of `syncFulfillment` finds.
use decathlon_app.Base.{
  String, true, List, [], ◌∷◌, map, Option, none, some, ◌≡◌, ◌⊎◌, inl, inr, refl, arith, ◌==◌, ok,
  Bool-cases, Option-cases,
}
use decathlon_app.Sync.Lines.{Piece, truthy}
use decathlon_app.Sync.Outside.{Outside, ShipmentLine}
use decathlon_app.Sync.Store.Rows.{World, Db, OrderMapping, ShipmentMapping}
use decathlon_app.Sync.Store.Orders.{find_by_shopify_id, rekeyed}
use decathlon_app.Sync.Lifecycle.{load_order, repair_order, candidate_of}
use decathlon_app.Sync.Lifecycle.Shipment.{shipped, is_success}

-- The lines of a shipment are the pieces, in order: line for line the id and the quantity.
abbrev pub AreShipped : List (Piece (Unit {0})) → List ShipmentLine → Type 0
AreShipped [] [] = Unit
AreShipped [] (line ∷ lines) = ⊥
AreShipped (piece ∷ pieces) [] = ⊥
AreShipped (piece ∷ pieces) (line ∷ lines) =
    (line.order_line_id ≡ piece.decathlon_order_line_id)
    × (line.quantity ≡ piece.quantity)
    × AreShipped pieces lines

pub pieces-AreShipped :
    (pieces : List (Piece (Unit {0})))
    → AreShipped pieces (
        map
          (λ (r : Piece (Unit {0})). record {
            order_line_id = r.decathlon_order_line_id;
            quantity = r.quantity;
          })
          pieces)
pieces-AreShipped [] = tt
pieces-AreShipped (piece ∷ pieces) = (refl, refl, pieces-AreShipped pieces)

-- A row that counts as shipped is the row of the fulfilment, and it has succeeded.
pub shipped-is_success :
    (found : Option ShipmentMapping) (m : ShipmentMapping)
    → shipped found ≡ some m
    → (found ≡ some m) × (is_success m.status ≡ true)
shipped-is_success none m h = ground arith
shipped-is_success (some x) m h = elim (Bool-cases (is_success x.status)) [
  | inl success ↦ grind (arith, success)
  | inr otherwise ↦ grind (arith, otherwise)
]

module _ {Num R : Type 0} (o : Outside Num R) where
  -- The order of a row, with its ids repaired if the commercial id of the row is unknown.
  abbrev pub IsRepaired : OrderMapping → OrderMapping → Type 0
  IsRepaired row order =
      (order ≡ row)
      ⊎ ((candidate : String) × (truthy row.decathlon_commercial_id ≡ none)
          × (candidate_of o row ≡ some candidate)
          × (order ≡ rekeyed candidate row.decathlon_order_id row))

  abbrev pub IsOrderOf : String → String → Db Num → OrderMapping → Type 0
  IsOrderOf shop_id id db order =
      (row : OrderMapping) × (find_by_shopify_id shop_id id db ≡ some row) × IsRepaired row order

  repair_order-ok :
      (row : OrderMapping) (candidate : String) (w : World Num R)
      → ((repair_order o row candidate w).0 ≡ ok row)
        ⊎ ((repair_order o row candidate w).0 ≡ ok (rekeyed candidate row.decathlon_order_id row))
  unfolding repair_order
  repair_order-ok row candidate w = ground arith

  pub load_order-shipments :
      (shop_id id : String) (w : World Num R)
      → (load_order o shop_id id w).1.db.shipments ≡ w.db.shipments
  unfolding load_order repair_order
  load_order-shipments shop_id id w = grind arith

  pub load_order-IsOrderOf :
      (shop_id id : String) (order : OrderMapping) (w : World Num R)
      → (load_order o shop_id id w).0 ≡ ok (some order)
      → IsOrderOf shop_id id w.db order
  unfolding load_order
  load_order-IsOrderOf shop_id id order w h =
      elim (Option-cases (find_by_shopify_id shop_id id w.db)) [
        | inl absent ↦ ground arith
        | inr (row, there) ↦ (
          row,
          there,
          elim (Option-cases (truthy row.decathlon_commercial_id)) [
            | inr (_, known) ↦ inl (ground arith)
            | inl unknown ↦ elim (Option-cases (candidate_of o row)) [
              | inl no_candidate ↦ inl (ground arith)
              | inr (candidate, given) ↦ elim (Bool-cases (candidate == row.decathlon_order_id)) [
                | inl equal ↦ inl (ground arith)
                | inr differs ↦ elim (repair_order-ok row candidate w) [
                  | inl same ↦ inl (grind (arith, same))
                  | inr repaired ↦ inr (candidate, unknown, given, grind (arith, repaired))
                ]
              ]
            ]
          ],
        )
      ]
