-- ===== src/Sync/Refunds/Cancellation.antt =====
-- A cancellation refunds what is left on the lines that are not shipped, and only that.
use mathlib.Core.List.{append-nil, append_assoc}
use decathlon_app.Base.{
  String, Bool, true, false, not, ◌&&◌, List, [], ◌∷◌, ◌++◌, Option, none, some, ◌≡◌, refl, sym,
  ◌∙◌, ap, ◌==◌, inl, inr, Bool-cases, Option-cases, if◌then◌else◌, flat_map, eq_iff, get_or, map,
  ◌-◌,
}
use decathlon_app.Sync.Money.{NumOps, zero_num, round2, sum}
use decathlon_app.Sync.Lines.{truthy}
use decathlon_app.Sync.Refunds.{
  DecathlonOrderLineDto, RefundInput, Built, Remaining, out_of_stock, reason_for, sum_ℕ, is_text,
  is_false, is_shipped, is_exhausted, remaining_of, cancellation_refund, shipped_problem,
  cancel_line, cancellation_from, build_cancellation_refunds,
}

module _ {Num : Type 0} (n : NumOps Num) (currency : String) (reason_override : Option String) where
  -- What is left on a line: its price, shipping price and quantity, less those of its refunds.
  abbrev pub left : DecathlonOrderLineDto Num → Remaining Num
  left line =
      let refunds = get_or line.refunds [] in
      record {
        amount =
            round2 n (n.sub (get_or line.price (zero_num n)) (sum n (map (λ r. r.amount) refunds)));
        shipping = round2 n (
            n.sub (get_or line.shipping_price (zero_num n))
              (sum n (map (λ r. r.shipping_amount) refunds)));
        quantity = get_or line.quantity 0 - sum_ℕ (map (λ r. r.quantity) refunds);
      }

  -- The refund of all that is left, with the reason of the shop or that the item is out of stock.
  abbrev pub full_refund : String → DecathlonOrderLineDto Num → RefundInput Num
  full_refund id line = record {
    order_line_id = id;
    quantity = (left line).quantity;
    amount = (left line).amount;
    shipping_amount = (left line).shipping;
    currency_iso_code = currency;
    reason_code = get_or (truthy reason_override) out_of_stock;
  }

  -- The line waits for shipment, may be refunded, and holds more than a cent.
  abbrev pub is_due : DecathlonOrderLineDto Num → Bool
  is_due line =
      is_text line.order_line_state "SHIPPING"
      && not (is_false line.can_refund)
      && not (is_exhausted n (left line))

  abbrev pub due_refunds : DecathlonOrderLineDto Num → List (RefundInput Num)
  due_refunds line = elim (truthy line.order_line_id) [
    | none ↦ []
    | some id ↦ if is_due line then full_refund id line ∷ [] else []
  ]

  abbrev pub due_problems : DecathlonOrderLineDto Num → List String
  due_problems line = elim (truthy line.order_line_id) [
    | none ↦ []
    | some id ↦ if is_shipped n line then shipped_problem n id line ∷ [] else []
  ]

  abbrev Due : Built Num → DecathlonOrderLineDto Num → Type 0
  Due out line =
      ((cancel_line n currency reason_override out line).refunds ≡ out.refunds ++ due_refunds line)
      × ((cancel_line n currency reason_override out line).problems
          ≡ out.problems ++ due_problems line)

  unnamed_case :
      (out : Built Num) (line : DecathlonOrderLineDto Num)
      → truthy line.order_line_id ≡ none
      → Due out line
  unfolding cancel_line
  unnamed_case out line unnamed =
      rw (unnamed, cancel_line, due_refunds, due_problems) (sym (append-nil _), sym (append-nil _))

  -- A line that waits for shipment has not been shipped.
  not_shipped :
      (line : DecathlonOrderLineDto Num)
      → is_text line.order_line_state "SHIPPING" ≡ true
      → is_shipped n line ≡ false
  unfolding ◌==◌
  not_shipped line waiting = elim (Option-cases line.order_line_state) [
    | inl unknown ↦ rw unknown refl
    | inr (state, known) ↦
        let e : line.order_line_state ≡ some "SHIPPING" =
          known ∙ ap some ((eq_iff state "SHIPPING").0 (rw known at waiting)) in
        rw e refl
  ]

  cancellation-full :
      (id : String) (line : DecathlonOrderLineDto Num)
      → is_text line.order_line_state "SHIPPING" ≡ true
      → cancellation_refund n currency reason_override id line ≡ full_refund id line
  unfolding cancellation_refund remaining_of reason_for
  cancellation-full id line waiting = elim (Option-cases (truthy reason_override)) [
    | inl not_set ↦ rw (cancellation_refund, reason_for, not_set, waiting) refl
    | inr (code, set) ↦ rw (cancellation_refund, reason_for, set) refl
  ]

  waiting_case :
      (out : Built Num) (line : DecathlonOrderLineDto Num) (id : String)
      → truthy line.order_line_id ≡ some id
      → is_text line.order_line_state "SHIPPING" ≡ true
      → Due out line
  unfolding cancel_line remaining_of
  waiting_case out line id named waiting =
      let stays = not_shipped line waiting in
      elim (Bool-cases (is_false line.can_refund)) [
        | inl refused ↦
            rw (named, cancel_line, waiting, refused, stays, due_refunds, due_problems)
              (sym (append-nil _), sym (append-nil _))
        | inr allowed ↦ elim (Bool-cases (is_exhausted n (left line))) [
          | inl empty ↦
              rw (named, cancel_line, waiting, allowed, empty, stays, due_refunds, due_problems)
                (sym (append-nil _), sym (append-nil _))
          | inr holds ↦
              rw (named, cancel_line, waiting, allowed, holds, stays, due_refunds, due_problems)
                (
                  ap (λ r. out.refunds ++ r ∷ []) (cancellation-full id line waiting),
                  sym (append-nil _),
                )
        ]
      ]

  cancel_line-flat_map : (out : Built Num) (line : DecathlonOrderLineDto Num) → Due out line
  unfolding cancel_line
  cancel_line-flat_map out line = elim (Option-cases (truthy line.order_line_id)) [
    | inl unnamed ↦ unnamed_case out line unnamed
    | inr (id, named) ↦ elim (Bool-cases (is_text line.order_line_state "SHIPPING")) [
      | inl waiting ↦ waiting_case out line id named waiting
      | inr other ↦ elim (Bool-cases (is_shipped n line)) [
        | inl gone ↦
            rw (named, cancel_line, other, gone, due_refunds, due_problems)
              (sym (append-nil _), refl)
        | inr stays ↦
            rw (named, cancel_line, other, stays, due_refunds, due_problems)
              (sym (append-nil _), sym (append-nil _))
      ]
    ]
  ]

  cancellation_from-flat_map :
      (out : Built Num) (lines : List (DecathlonOrderLineDto Num))
      → ((cancellation_from n currency reason_override out lines).refunds
          ≡ out.refunds ++ flat_map due_refunds lines)
        × ((cancellation_from n currency reason_override out lines).problems
            ≡ out.problems ++ flat_map due_problems lines)
  unfolding cancellation_from
  cancellation_from-flat_map out [] = (sym (append-nil _), sym (append-nil _))
  cancellation_from-flat_map out (line ∷ lines) =
      let (refunds, problems) =
        cancellation_from-flat_map (cancel_line n currency reason_override out line) lines in
      let (here, there) = cancel_line-flat_map out line in
      (refunds ∙ (rw (here, append_assoc) refl), problems ∙ (rw (there, append_assoc) refl))

-- When an order is cancelled, the refunds are exactly one for each line of the Decathlon order that
-- has an id, still waits for shipment, may be refunded and holds more than a cent: its price, its
-- shipping price and its quantity, less those of the refunds it has, in the order of the lines. Every shipped or received line is reported as a problem instead,
-- and no other line is mentioned.
pub build_cancellation_refunds-flat_map :
    {Num : Type 0} (n : NumOps Num) (d_lines : List (DecathlonOrderLineDto Num)) (currency : String)
    (reason_override : Option String)
    → let built = build_cancellation_refunds n d_lines currency reason_override in
      (built.refunds ≡ flat_map (due_refunds n currency reason_override) d_lines)
      × (built.problems ≡ flat_map (due_problems n currency reason_override) d_lines)
unfolding build_cancellation_refunds
build_cancellation_refunds-flat_map n d_lines currency reason_override =
    cancellation_from-flat_map n currency reason_override (record { refunds = []; problems = [] })
      d_lines
