-- ===== src/Sync/OrderImport/Import/Unique.antt =====
-- The order import keeps the rows of orders apart: no shop has two rows for an order of Decathlon.
use decathlon_app.Base.{
  ℕ, ◌+◌, String, true, false, not, ◌&&◌, ◌||◌, List, [], ◌∷◌, ◌++◌, map, none, some, ◌≡◌, refl,
  arith, find, All, All-append, inl, inr, Bool-cases, Option-cases, find-none, find-holds, any,
  find-All, find-here, find-later, subst, sym, eq_iff, eqb, eqb_iff, ltb, ◌==◌, if◌then◌else◌,
}
use decathlon_app.Sync.Store.Rows.{OrderMapping, World, Db}
use decathlon_app.Sync.Store.Orders.{
  find_by_decathlon_id, has_decathlon_id, repair_legacy_id, rekeyed, is_taken,
}

-- Two rows have different ids, and another shop or another order of Decathlon.
abbrev pub Apart : OrderMapping → OrderMapping → Type 0
Apart a b = (eqb a.id b.id ≡ false) × (has_decathlon_id a.shop_id a.decathlon_order_id b ≡ false)

abbrev pub AreDistinct : List OrderMapping → Type 0
AreDistinct [] = Unit
AreDistinct (o ∷ os) = All (Apart o) os × AreDistinct os

abbrev pub AreBelow : ℕ → List OrderMapping → Type 0
AreBelow bound = All (λ (o : OrderMapping). ltb o.id bound ≡ true)

-- The rows are apart, and the counter is above their ids.
abbrev pub IsSound : {Num R : Type 0} → World Num R → Type 0
IsSound w = AreDistinct w.db.orders × AreBelow w.db.next_id w.db.orders

pub AreBelow-suc :
    (bound : ℕ) (os : List OrderMapping) → AreBelow bound os → AreBelow (bound + 1) os
AreBelow-suc bound [] h = tt
AreBelow-suc bound (o ∷ os) h = (ground (arith, h.0), AreBelow-suc bound os h.1)

abbrev IsNew : String → String → OrderMapping → Type 0
IsNew shop_id id o = has_decathlon_id shop_id id o ≡ false

new-Apart :
    (o y : OrderMapping) (bound : ℕ)
    → ltb o.id bound ≡ true
    → y.id ≡ bound
    → has_decathlon_id y.shop_id y.decathlon_order_id o ≡ false
    → Apart o y
new-Apart o y bound below at new = (
  ground arith,
  ground (
    arith,
    eq_iff o.shop_id y.shop_id,
    eq_iff o.decathlon_order_id y.decathlon_order_id,
    eq_iff y.shop_id o.shop_id,
    eq_iff y.decathlon_order_id o.decathlon_order_id,
  ),
)

append-AreDistinct :
    (os : List OrderMapping) (y : OrderMapping)
    → AreDistinct os
    → AreBelow y.id os
    → All (IsNew y.shop_id y.decathlon_order_id) os
    → AreDistinct (os ++ y ∷ [])
append-AreDistinct [] y h below new = (tt, tt)
append-AreDistinct (o ∷ os) y h below new = (
  All-append (Apart o) os (y ∷ []) h.0 (new-Apart o y y.id below.0 refl new.0, tt),
  append-AreDistinct os y h.1 below.1 new.1,
)

-- The rows after the repair of the one with an id.
abbrev rekey_one : ℕ → String → String → OrderMapping → OrderMapping
rekey_one id order_id commercial_id o = if eqb o.id id then rekeyed order_id commercial_id o else o

-- A row with the id is of the shop.
abbrev OwnsId : String → ℕ → OrderMapping → Type 0
OwnsId shop_id id o = (not (eqb o.id id) || (o.shop_id == shop_id)) ≡ true

Apart-OwnsId :
    (shop_id : String) (m : OrderMapping) (os : List OrderMapping)
    → All (Apart m) os
    → All (OwnsId shop_id m.id) os
Apart-OwnsId shop_id m [] h = tt
Apart-OwnsId shop_id m (o ∷ os) h =
    (ground (arith, h.0.0, eqb_iff o.id m.id, eqb_iff m.id o.id), Apart-OwnsId shop_id m os h.1)

found-OwnsId :
    (shop_id commercial_id : String) (m : OrderMapping) (os : List OrderMapping)
    → AreDistinct os
    → find (has_decathlon_id shop_id commercial_id) os ≡ some m
    → All (OwnsId shop_id m.id) os
found-OwnsId shop_id commercial_id m [] h found = tt
found-OwnsId shop_id commercial_id m (o ∷ os) h found =
    elim (Bool-cases (has_decathlon_id shop_id commercial_id o)) [
      | inl here ↦
          let same = find-here (has_decathlon_id shop_id commercial_id) o m os found here in
          (
            ground (arith, here, same),
            Apart-OwnsId shop_id m os (subst (λ k. All (Apart k) os) same h.0),
          )
      | inr later ↦
          let rest = find-later (has_decathlon_id shop_id commercial_id) o m os found later in
          let apart = find-All (Apart o) (has_decathlon_id shop_id commercial_id) os m h.0 rest in
          (ground (arith, apart.0), found-OwnsId shop_id commercial_id m os h.1 rest)
    ]

owner :
    (shop_id : String) (id : ℕ) (o : OrderMapping)
    → OwnsId shop_id id o
    → eqb o.id id ≡ true
    → o.shop_id ≡ shop_id
owner shop_id id o own at = ground (arith, own, at, eq_iff o.shop_id shop_id)

turned :
    (shop_id order_id : String) (o : OrderMapping)
    → IsNew shop_id order_id o
    → ((shop_id == o.shop_id) && (order_id == o.decathlon_order_id)) ≡ false
turned shop_id order_id o new = ground (
  arith,
  eq_iff shop_id o.shop_id,
  eq_iff order_id o.decathlon_order_id,
  eq_iff o.shop_id shop_id,
  eq_iff o.decathlon_order_id order_id,
)

rekey_one-Apart :
    (shop_id order_id commercial_id : String) (id : ℕ) (a b : OrderMapping)
    → OwnsId shop_id id a
    → OwnsId shop_id id b
    → IsNew shop_id order_id a
    → IsNew shop_id order_id b
    → Apart a b
    → Apart (rekey_one id order_id commercial_id a) (rekey_one id order_id commercial_id b)
rekey_one-Apart shop_id order_id commercial_id id a b own_a own_b new_a new_b (ids, keys) =
    elim (Bool-cases (eqb a.id id)) [
      | inl at_a ↦ elim (Bool-cases (eqb b.id id)) [
        | inl at_b ↦
            ground (arith, at_a, at_b, ids, eqb_iff a.id id, eqb_iff b.id id, eqb_iff a.id b.id)
        | inr not_b ↦
            rw (at_a, not_b)
              (
                ids,
                subst (λ s. ((b.shop_id == s) && (b.decathlon_order_id == order_id)) ≡ false)
                    (sym (owner shop_id id a own_a at_a)) new_b,
              )
      ]
      | inr not_a ↦ elim (Bool-cases (eqb b.id id)) [
        | inl at_b ↦
            rw (not_a, at_b)
              (
                ids,
                subst (λ s. ((s == a.shop_id) && (order_id == a.decathlon_order_id)) ≡ false)
                    (sym (owner shop_id id b own_b at_b)) (turned shop_id order_id a new_a),
              )
        | inr not_b ↦ rw (not_a, not_b) (ids, keys)
      ]
    ]

module _ (shop_id order_id commercial_id : String) (id : ℕ) where
  rekey_one-All :
      (a : OrderMapping) (os : List OrderMapping)
      → OwnsId shop_id id a
      → IsNew shop_id order_id a
      → All (OwnsId shop_id id) os
      → All (IsNew shop_id order_id) os
      → All (Apart a) os
      → All
          (Apart (rekey_one id order_id commercial_id a))
          (map (rekey_one id order_id commercial_id) os)
  rekey_one-All a [] own new owns news apart = tt
  rekey_one-All a (o ∷ os) own new owns news apart = (
    rekey_one-Apart shop_id order_id commercial_id id a o own owns.0 new news.0 apart.0,
    rekey_one-All a os own new owns.1 news.1 apart.1,
  )

  rekey-AreDistinct :
      (os : List OrderMapping)
      → All (OwnsId shop_id id) os
      → All (IsNew shop_id order_id) os
      → AreDistinct os
      → AreDistinct (map (rekey_one id order_id commercial_id) os)
  rekey-AreDistinct [] owns news h = tt
  rekey-AreDistinct (o ∷ os) owns news h =
      (rekey_one-All o os owns.0 news.0 owns.1 news.1 h.0, rekey-AreDistinct os owns.1 news.1 h.1)

  rekey-AreBelow :
      (bound : ℕ) (os : List OrderMapping)
      → AreBelow bound os
      → AreBelow bound (map (rekey_one id order_id commercial_id) os)
  rekey-AreBelow bound [] h = tt
  rekey-AreBelow bound (o ∷ os) h = (ground (arith, h.0), rekey-AreBelow bound os h.1)

none-any :
    (shop_id order_id : String) (id : ℕ) (os : List OrderMapping)
    → All (λ (o : OrderMapping). has_decathlon_id shop_id order_id o ≡ false) os
    → any (λ (o : OrderMapping). has_decathlon_id shop_id order_id o && not (eqb o.id id)) os
      ≡ false
none-any shop_id order_id id [] h = refl
none-any shop_id order_id id (o ∷ os) h = rw h.0 (none-any shop_id order_id id os h.1)

-- The key of an order that has no row is free for a row of the shop.
pub is_taken-free :
    {Num : Type 0} (shop_id order_id commercial_id : String) (m : OrderMapping) (db : Db Num)
    → find_by_decathlon_id shop_id commercial_id db ≡ some m
    → find_by_decathlon_id shop_id order_id db ≡ none
    → is_taken m.shop_id m.id order_id db ≡ false
is_taken-free shop_id order_id commercial_id m db there new =
    let held = find-holds (has_decathlon_id shop_id commercial_id) db.orders m there in
    let same : shop_id ≡ m.shop_id = ground (arith, held, eq_iff m.shop_id shop_id) in
    subst (λ s. is_taken s m.id order_id db ≡ false) same
      (none-any shop_id order_id m.id db.orders
        (find-none (has_decathlon_id shop_id order_id) db.orders new))

module _ {Num R : Type 0} where
  pub repair_legacy_id-IsSound :
      (shop_id order_id commercial_id : String) (w : World Num R)
      → find_by_decathlon_id shop_id order_id w.db ≡ none
      → IsSound w
      → IsSound (repair_legacy_id shop_id order_id commercial_id w).1
  repair_legacy_id-IsSound shop_id order_id commercial_id w new h =
      elim (Option-cases (find_by_decathlon_id shop_id commercial_id w.db)) [
        | inl lost ↦ rw (repair_legacy_id, lost) h
        | inr (m, there) ↦ elim (Bool-cases (m.decathlon_order_id == order_id)) [
          | inl same ↦ rw (repair_legacy_id, there, same) h
          | inr differs ↦
              rw
                (
                  repair_legacy_id,
                  there,
                  differs,
                  is_taken-free shop_id order_id commercial_id m w.db there new,
                )
                (
                  rekey-AreDistinct shop_id order_id commercial_id m.id w.db.orders
                      (found-OwnsId shop_id commercial_id m w.db.orders h.0 there)
                      (find-none (has_decathlon_id shop_id order_id) w.db.orders new) h.0,
                  rekey-AreBelow shop_id order_id commercial_id m.id w.db.next_id w.db.orders h.1,
                )
        ]
      ]

  pub insert-IsSound :
      (y : OrderMapping) (w : World Num R)
      → y.id ≡ w.db.next_id
      → find_by_decathlon_id y.shop_id y.decathlon_order_id w.db ≡ none
      → IsSound w
      → AreDistinct (w.db.orders ++ y ∷ []) × AreBelow (w.db.next_id + 1) (w.db.orders ++ y ∷ [])
  insert-IsSound y w at new h = (
    append-AreDistinct w.db.orders y h.0 (subst (λ k. AreBelow k w.db.orders) (sym at) h.1)
        (find-none (has_decathlon_id y.shop_id y.decathlon_order_id) w.db.orders new),
    All-append (λ (o : OrderMapping). ltb o.id (w.db.next_id + 1) ≡ true) w.db.orders (y ∷ [])
        (AreBelow-suc w.db.next_id w.db.orders h.1) (ground (arith, at), tt),
  )
