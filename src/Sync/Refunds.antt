-- ===== src/Sync/Refunds.antt =====
-- The builders of OR28 refunds of packages/sync/src/order-lifecycle.ts.
pub mod Cancellation
pub mod Caps
pub mod Tests
use decathlon_app.Base.{
  ℕ, ◌+◌, ◌-◌, min, String, Bool, true, false, not, ◌&&◌, ◌||◌, List, [], ◌∷◌, ◌++◌, map, Option,
  none, some, ◌==◌, eqb, ltb, get_or, lookup, insert, is_nil, keep, contains, concat, join, Result,
  ok, err, Error, other, if◌then◌else◌,
}
use decathlon_app.Sync.Money.{NumOps, zero_num, le_num, min_num, round2, sum}
use decathlon_app.Sync.Lines.{OrderLineItem, ShopifyLineRef, Piece, truthy, resolve_lines}

pub record RefundDto (Num : Type 0) : Type 0 where
  pub id : String
  pub amount : Option Num
  pub shipping_amount : Option Num
  pub quantity : Option ℕ

pub record DecathlonOrderLineDto (Num : Type 0) : Type 0 where
  pub order_line_id : Option String
  pub order_line_state : Option String
  pub quantity : Option ℕ
  pub price : Option Num
  pub shipping_price : Option Num
  pub can_refund : Option Bool
  pub refunds : Option (List (RefundDto Num))

pub record RefundInput (Num : Type 0) : Type 0 where
  pub order_line_id : String
  pub quantity : ℕ
  pub amount : Num
  pub shipping_amount : Num
  pub currency_iso_code : String
  pub reason_code : String

-- `quantity` is used by the program only as `Math.max(quantity, 0)`.
pub record Remaining (Num : Type 0) : Type 0 where
  pub amount : Num
  pub shipping : Num
  pub quantity : ℕ

pub record Built (Num : Type 0) : Type 0 where
  pub refunds : List (RefundInput Num)
  pub problems : List String

pub record Entry (Num : Type 0) : Type 0 where
  pub quantity : ℕ
  pub amount : Num
  pub shipping : Num
  pub gesture : Bool

abbrev pub sum_ℕ : List (Option ℕ) → ℕ
sum_ℕ [] = 0
sum_ℕ (q ∷ qs) = get_or q 0 + sum_ℕ qs

abbrev pub is_text : Option String → String → Bool
is_text none t = false
is_text (some s) t = s == t

abbrev pub is_false : Option Bool → Bool
is_false (some false) = true
is_false _ = false

abbrev pub out_of_stock : String
out_of_stock = "15"

abbrev pub item_returned : String
item_returned = "17"

abbrev pub agreement_with_vendor : String
agreement_with_vendor = "19"

module _ {Num : Type 0} (n : NumOps Num) where
  pub remaining_of : DecathlonOrderLineDto Num → Remaining Num
  remaining_of line =
      let refunds = get_or line.refunds [] in
      record {
        amount =
            round2 n (n.sub (get_or line.price (zero_num n)) (sum n (map (λ r. r.amount) refunds)));
        shipping = round2 n (
            n.sub (get_or line.shipping_price (zero_num n))
              (sum n (map (λ r. r.shipping_amount) refunds)));
        quantity = get_or line.quantity 0 - sum_ℕ (map (λ r. r.quantity) refunds);
      }

  pub reason_for : DecathlonOrderLineDto Num → Option String → Bool → String
  reason_for line override gesture = elim (truthy override) [
    | some code ↦ code
    | none ↦
        if gesture
        then agreement_with_vendor
        else if is_text line.order_line_state "SHIPPING"
        then out_of_stock
        else item_returned
  ]

  pub cancellation_refund :
      String → Option String → String → DecathlonOrderLineDto Num → RefundInput Num
  unfolding remaining_of reason_for
  cancellation_refund currency reason_override id line = record {
    order_line_id = id;
    quantity = (remaining_of line).quantity;
    amount = (remaining_of line).amount;
    shipping_amount = (remaining_of line).shipping;
    currency_iso_code = currency;
    reason_code = reason_for line reason_override false;
  }

  abbrev pub is_shipped : DecathlonOrderLineDto Num → Bool
  is_shipped line =
      is_text line.order_line_state "SHIPPED" || is_text line.order_line_state "RECEIVED"

  pub shipped_problem : String → DecathlonOrderLineDto Num → String
  shipped_problem id line = concat (
      id
      ∷ " is already "
      ∷ get_or line.order_line_state ""
      ∷ " — refund it from Shopify if it should be"
      ∷ [])

  -- What is left on the line is at most a cent.
  abbrev pub is_exhausted : Remaining Num → Bool
  is_exhausted left = le_num n (n.add left.amount left.shipping) n.cent

  -- One round of the loop.
  pub cancel_line : String → Option String → Built Num → DecathlonOrderLineDto Num → Built Num
  unfolding cancellation_refund shipped_problem
  cancel_line currency reason_override out line = elim (truthy line.order_line_id) [
    | none ↦ out
    | some id ↦
        if not (is_text line.order_line_state "SHIPPING")
        then (if is_shipped line
            then record out { problems = out.problems ++ shipped_problem id line ∷ [] }
            else out)
        else (if is_false line.can_refund
            then out
            else if is_exhausted (remaining_of line)
            then out
            else record out {
              refunds = out.refunds ++ cancellation_refund currency reason_override id line ∷ [];
            })
  ]

  pub cancellation_from :
      String → Option String → Built Num → List (DecathlonOrderLineDto Num) → Built Num
  unfolding cancel_line
  cancellation_from currency reason_override out [] = out
  cancellation_from currency reason_override out (line ∷ lines) =
      cancellation_from currency reason_override (cancel_line currency reason_override out line)
        lines

  unfoldable pub build_cancellation_refunds :
      List (DecathlonOrderLineDto Num) → String → Option String → Built Num
  unfolding cancellation_from
  build_cancellation_refunds d_lines currency reason_override =
      cancellation_from currency reason_override (record { refunds = []; problems = [] }) d_lines

  -- `new Map(dLines.filter((l) => l.order_line_id).map((l) => [l.order_line_id!, l]))`
  pub by_id_from :
      List (String × DecathlonOrderLineDto Num)
      → List (DecathlonOrderLineDto Num)
      → List (String × DecathlonOrderLineDto Num)
  by_id_from m [] = m
  by_id_from m (l ∷ ls) =
      by_id_from (elim (truthy l.order_line_id) [ none ↦ m | some id ↦ insert id l m ]) ls

  abbrev pub fresh_entry : Entry Num
  fresh_entry = record { quantity = 0; amount = zero_num n; shipping = zero_num n; gesture = false }

  abbrev pub entry : String → List (String × Entry Num) → Entry Num
  entry id acc = get_or (lookup id acc) fresh_entry

  -- The part of a refund line's amount that falls to a piece of it.
  pub share_of : Piece Num → Num
  share_of piece =
      if ltb 0 piece.ref.quantity
      then n.div (n.mul piece.ref.extra (n.of_ℕ piece.quantity)) (n.of_ℕ piece.ref.quantity)
      else piece.ref.extra

  pub add_pieces : List (Piece Num) → List (String × Entry Num) → List (String × Entry Num)
  unfolding share_of
  add_pieces [] acc = acc
  add_pieces (p ∷ ps) acc =
      let id = p.decathlon_order_line_id in
      let e = entry id acc in
      add_pieces ps (
        insert id
          (record e { quantity = e.quantity + p.quantity; amount = n.add e.amount (share_of p) })
          acc)

  abbrev pub amount_in : String → List (String × Entry Num) → Num
  amount_in id acc = elim (lookup id acc) [ none ↦ zero_num n | some e ↦ e.amount ]

  -- The loop over `remaining` that spreads a price gesture; it returns what is left of it too.
  pub spread_gesture :
      List (String × Remaining Num)
      → Num
      → List (String × Entry Num)
      → Num × List (String × Entry Num)
  spread_gesture [] gesture_left acc = (gesture_left, acc)
  spread_gesture ((id, left) ∷ more) gesture_left acc =
      let available = n.sub left.amount (amount_in id acc) in
      let taken = min_num n gesture_left available in
      let e = entry id acc in
      let acc' =
        insert id (record e { amount = n.add e.amount taken; gesture = eqb e.quantity 0 }) acc in
      let skip = spread_gesture more gesture_left acc in
      let go = spread_gesture more (round2 n (n.sub gesture_left taken)) acc' in
      if le_num n gesture_left (zero_num n)
      then (gesture_left, acc)
      else if le_num n taken (zero_num n)
      then skip
      else go

  abbrev pub shipping_of : String → List (String × Remaining Num) → Num
  shipping_of id remaining = elim (lookup id remaining) [ none ↦ zero_num n | some r ↦ r.shipping ]

  pub spread_shipping :
      List (String × Remaining Num)
      → List String
      → Num
      → List (String × Entry Num)
      → Num × List (String × Entry Num)
  spread_shipping remaining [] shipping_left acc = (shipping_left, acc)
  spread_shipping remaining (id ∷ ids) shipping_left acc =
      let taken = min_num n shipping_left (shipping_of id remaining) in
      let e = entry id acc in
      let acc' = insert id (record e { shipping = n.add e.shipping taken }) acc in
      let skip = spread_shipping remaining ids shipping_left acc in
      let go = spread_shipping remaining ids (round2 n (n.sub shipping_left taken)) acc' in
      if le_num n shipping_left (zero_num n)
      then (shipping_left, acc)
      else if le_num n taken (zero_num n)
      then skip
      else go

  pub keys_of {ℓ} : {V : Type ℓ} → List (String × V) → List String
  keys_of [] = []
  keys_of ((k, _) ∷ m) = k ∷ keys_of m

  pub capped_problem : String → Num → Num → String
  capped_problem id amount limit =
      concat (
        id
        ∷ ": capped "
        ∷ n.show amount
        ∷ " to the "
        ∷ n.show limit
        ∷ " Decathlon still holds"
        ∷ [])

  abbrev pub capped : Num → Num → Num
  capped amount limit = if n.lt limit amount then limit else amount

  pub refund_of :
      String → Option String → String → DecathlonOrderLineDto Num → Entry Num → RefundInput Num
  unfolding remaining_of reason_for
  refund_of currency reason_override id line e = record {
    order_line_id = id;
    quantity = min e.quantity (remaining_of line).quantity;
    amount = capped (round2 n e.amount) (remaining_of line).amount;
    shipping_amount = round2 n e.shipping;
    currency_iso_code = currency;
    reason_code = reason_for line reason_override e.gesture;
  }

  -- One round of the last loop, over `acc`.
  pub emit_one :
      String
      → Option String
      → List (String × DecathlonOrderLineDto Num)
      → Built Num
      → String
      → Entry Num
      → Built Num
  unfolding refund_of capped_problem
  emit_one currency reason_override by_id out id e = elim (lookup id by_id) [
    | none ↦ record out {
      problems = out.problems ++ concat (id ∷ " is not on the Decathlon order" ∷ []) ∷ [];
    }
    | some line ↦
        let r = refund_of currency reason_override id line e in
        let limit = (remaining_of line).amount in
        let problems =
          if n.lt limit (round2 n e.amount)
          then out.problems ++ capped_problem id (round2 n e.amount) limit ∷ []
          else out.problems in
        if le_num n (n.add r.amount r.shipping_amount) n.cent
        then record out { problems = problems }
        else record { refunds = out.refunds ++ r ∷ []; problems = problems }
  ]

  pub emit :
      String
      → Option String
      → List (String × DecathlonOrderLineDto Num)
      → Built Num
      → List (String × Entry Num)
      → Built Num
  unfolding emit_one
  emit currency reason_override by_id out [] = out
  emit currency reason_override by_id out ((id, e) ∷ acc) =
      emit currency reason_override by_id (emit_one currency reason_override by_id out id e) acc

  abbrev pub name_of : ShopifyLineRef Num → String
  name_of u = get_or u.sku (get_or u.variant_id "unknown")

  pub unresolved_problem : List (ShopifyLineRef Num) → String
  unresolved_problem us =
      join ", " (map (λ u. concat (name_of u ∷ " x" ∷ n.show (n.of_ℕ u.quantity) ∷ [])) us)

  pub unmatched : List (ShopifyLineRef Num) → Error
  unfolding unresolved_problem
  unmatched us = other (
      concat
        ("Could not match refunded line(s) to the Decathlon order: " ∷ unresolved_problem us ∷ []))

  abbrev pub over_problem : Num → String → String → List String
  over_problem left currency rest =
      if le_num n left (zero_num n)
      then []
      else concat (n.show left ∷ " " ∷ currency ∷ rest ∷ []) ∷ []

  -- What goes to each line, and the problems so far, when all refunded lines are matched.
  pub allocation :
      List (String × DecathlonOrderLineDto Num)
      → List (Piece Num)
      → (shipping_amount unallocated_amount : Option Num) → String
      → List (String × Entry Num) × List String
  unfolding spread_shipping spread_gesture add_pieces keys_of
  allocation by_id resolved shipping_amount unallocated_amount currency =
      let remaining =
        map (λ (kv : String × DecathlonOrderLineDto Num). (kv.0, remaining_of kv.1)) by_id in
      let (gesture_left, acc) =
        spread_gesture remaining (round2 n (get_or unallocated_amount (zero_num n)))
          (add_pieces resolved []) in
      let shipping_order =
        keys_of acc ++ keep (λ id. not (contains id (keys_of acc))) (keys_of remaining) in
      let (shipping_left, acc') =
        spread_shipping remaining shipping_order (round2 n (get_or shipping_amount (zero_num n)))
          acc in
      (
        acc',
        over_problem gesture_left currency
              " of the refund exceeds what Decathlon still holds for this order"
            ++ over_problem shipping_left currency
                " of shipping refund exceeds the shipping Decathlon still holds",
      )

  pub allocate :
      List (DecathlonOrderLineDto Num)
      → List (Piece Num)
      → (shipping_amount unallocated_amount : Option Num) → String
      → Option String
      → Built Num
  unfolding emit by_id_from allocation
  allocate d_lines resolved shipping_amount unallocated_amount currency reason_override =
      let by_id = by_id_from [] d_lines in
      let (acc, problems) = allocation by_id resolved shipping_amount unallocated_amount currency in
      emit currency reason_override by_id (record { refunds = []; problems = problems }) acc

  unfoldable pub build_refunds :
      List OrderLineItem
      → List (DecathlonOrderLineDto Num)
      → List (ShopifyLineRef Num)
      → (shipping_amount unallocated_amount : Option Num) → String
      → Option String
      → Result (Built Num)
  unfolding allocate unmatched
  build_refunds order_lines d_lines lines shipping_amount unallocated_amount currency
        reason_override =
      let (resolved, unresolved) = resolve_lines order_lines lines in
      if is_nil unresolved
      then ok
          (allocate d_lines resolved shipping_amount unallocated_amount currency reason_override)
      else err (unmatched unresolved)
