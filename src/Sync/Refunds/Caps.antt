-- ===== src/Sync/Refunds/Caps.antt =====
-- A refund never asks for more than Decathlon still holds.
use mathlib.Core.List.{Memᴰ}
use decathlon_app.Base.{
  ◌≤◌, String, false, List, [], ◌∷◌, Option, some, ◌≡◌, ◌⊎◌, inl, inr, arith, ◌==◌, eq_iff, lookup,
  insert, lookup-insert, All, All-append, ok, Bool-cases, Option-cases,
}
use decathlon_app.Sync.Money.{NumOps, le_num, round2}
use decathlon_app.Sync.Lines.{OrderLineItem, ShopifyLineRef, Piece, truthy, resolve_lines}
use decathlon_app.Sync.Refunds.{
  DecathlonOrderLineDto, RefundInput, Built, Entry, remaining_of, by_id_from, refund_of, emit_one,
  emit, build_refunds, capped, allocate, allocation,
}

module _ {Num : Type 0} (n : NumOps Num) where
  -- The refund is for a line of the Decathlon order, asks for no more money and no more items than
  -- are left on it, and for more than a cent.
  pub record IsWithin (d_lines : List (DecathlonOrderLineDto Num)) (r : RefundInput Num)
      : Type 0 where
    pub line : DecathlonOrderLineDto Num
    pub listed : Memᴰ line d_lines
    pub named : truthy line.order_line_id ≡ some r.order_line_id
    pub amount_left : n.lt (remaining_of n line).amount r.amount ≡ false
    pub quantity_left : r.quantity ≤ (remaining_of n line).quantity
    pub over_a_cent : le_num n (n.add r.amount r.shipping_amount) n.cent ≡ false

  by_id_from-listed :
      (m : List (String × DecathlonOrderLineDto Num)) (ls : List (DecathlonOrderLineDto Num))
      (k : String) (l : DecathlonOrderLineDto Num)
      → lookup k (by_id_from n m ls) ≡ some l
      → (lookup k m ≡ some l) ⊎ (Memᴰ l ls × (truthy l.order_line_id ≡ some k))
  unfolding by_id_from
  by_id_from-listed m [] k l e = inl e
  by_id_from-listed m (a ∷ ls) k l e = elim (Option-cases (truthy a.order_line_id)) [
    | inl unnamed ↦ elim (by_id_from-listed m ls k l (rw unnamed at e)) [
      | inl before ↦ inl before
      | inr (later, named) ↦ inr (Memᴰ.tail later, named)
    ]
    | inr (id, name) ↦ elim (by_id_from-listed (insert id a m) ls k l (rw name at e)) [
      | inl before ↦ elim (Bool-cases (id == k)) [
        | inl same ↦
            let hit : l ≡ a = ground (arith, lookup-insert id k a m) in
            inr (Memᴰ.head hit, ground (arith, eq_iff id k))
        | inr differs ↦ inl (ground (arith, lookup-insert id k a m))
      ]
      | inr (later, named) ↦ inr (Memᴰ.tail later, named)
    ]
  ]

  module _ (irreflexive : (x : Num) → n.lt x x ≡ false) (currency : String)
      (reason_override : Option String) (d_lines : List (DecathlonOrderLineDto Num)) where
    capped-le : (amount limit : Num) → n.lt limit (capped n amount limit) ≡ false
    capped-le amount limit = elim (Bool-cases (n.lt limit amount)) [
      | inl above ↦ rw above (irreflexive limit)
      | inr within ↦ rw within within
    ]

    within :
        (id : String) (e : Entry Num) (line : DecathlonOrderLineDto Num)
        → lookup id (by_id_from n [] d_lines) ≡ some line
        → let r = refund_of n currency reason_override id line e in
          le_num n (n.add r.amount r.shipping_amount) n.cent ≡ false → IsWithin d_lines r
    unfolding refund_of lookup
    within id e line found something =
        let place = by_id_from-listed [] d_lines id line found in
        let here : Memᴰ line d_lines × (truthy line.order_line_id ≡ some id) = elim place [
          | inl before ↦ absurd (nothing before)
          | inr p ↦ p
        ] in
        record {
          line = line;
          listed = here.0;
          named = here.1;
          amount_left = capped-le (round2 n e.amount) (remaining_of n line).amount;
          quantity_left = omega arith;
          over_a_cent = something;
        }
      where
        nothing : lookup id [] ≡ some line → ⊥
        nothing h = cc

    emit_one-IsWithin :
        (out : Built Num) (id : String) (e : Entry Num)
        → All (IsWithin d_lines) out.refunds
        → All
            (IsWithin d_lines)
            (emit_one n currency reason_override (by_id_from n [] d_lines) out id e).refunds
    unfolding emit_one
    emit_one-IsWithin out id e h = elim (Option-cases (lookup id (by_id_from n [] d_lines))) [
      | inl absent ↦ rw (absent, emit_one) h
      | inr (line, found) ↦
          let r = refund_of n currency reason_override id line e in
          elim (Bool-cases (le_num n (n.add r.amount r.shipping_amount) n.cent)) [
            | inl nothing ↦ rw (found, emit_one, nothing) h
            | inr something ↦
                rw (found, emit_one, something)
                  (All-append (IsWithin d_lines) out.refunds (r ∷ []) h
                    (within id e line found something, tt))
          ]
    ]

    emit-IsWithin :
        (out : Built Num) (acc : List (String × Entry Num))
        → All (IsWithin d_lines) out.refunds
        → All
            (IsWithin d_lines)
            (emit n currency reason_override (by_id_from n [] d_lines) out acc).refunds
    unfolding emit
    emit-IsWithin out [] h = h
    emit-IsWithin out ((id, e) ∷ acc) h =
        emit-IsWithin (emit_one n currency reason_override (by_id_from n [] d_lines) out id e) acc
          (emit_one-IsWithin out id e h)

    allocate-IsWithin :
        (resolved : List (Piece Num)) (shipping unallocated : Option Num)
        → All
            (IsWithin d_lines)
            (allocate n d_lines resolved shipping unallocated currency reason_override).refunds
    unfolding allocate
    allocate-IsWithin resolved shipping unallocated =
        let (acc, problems) =
          allocation n (by_id_from n [] d_lines) resolved shipping unallocated currency in
        emit-IsWithin (record { refunds = []; problems = problems }) acc tt

-- Every refund that is built for a Shopify refund is for a line of the Decathlon order, asks for no
-- more money (shipping apart) and no more items than Decathlon still holds for that line, and for
-- more than a cent with its shipping. The comparison of numbers has to be irreflexive.
pub build_refunds-IsWithin :
    {Num : Type 0} (n : NumOps Num)
    → ((x : Num) → n.lt x x ≡ false)
    → (order_lines : List OrderLineItem) (d_lines : List (DecathlonOrderLineDto Num))
      (lines : List (ShopifyLineRef Num)) (shipping unallocated : Option Num) (currency : String)
      (reason_override : Option String) (built : Built Num)
    → build_refunds n order_lines d_lines lines shipping unallocated currency reason_override
      ≡ ok built
    → All (IsWithin n d_lines) built.refunds
unfolding build_refunds
build_refunds-IsWithin n irreflexive order_lines d_lines lines shipping unallocated currency
      reason_override built e =
    let same : built
        ≡ allocate n d_lines (resolve_lines order_lines lines).0 shipping unallocated currency
            reason_override =
      ground arith in
    rw same (
      allocate-IsWithin n irreflexive currency reason_override d_lines
        (resolve_lines order_lines lines).0 shipping unallocated)
