-- ===== src/Sync/Lines/Capacity.antt =====
-- Nothing is lost and no line is overfilled when lines are resolved.
use decathlon_app.Base.{
  ℕ, ◌+◌, ◌-◌, ◌≤◌, min, String, not, ◌&&◌, List, [], ◌∷◌, ◌++◌, ◌≡◌, refl, arith, ◌==◌, eqb,
  eq_iff, get_or, lookup, lookup-insert, if◌then◌else◌, Bool-cases, inl, inr,
}
use decathlon_app.Sync.Lines.{
  OrderLineItem, ShopifyLineRef, Piece, Placing, candidates_for, put_on, place_on, place_all,
  resolve_from, capacity_of, resolve_lines,
}

abbrev pub room : String → List (String × ℕ) → ℕ
room k m = get_or (lookup k m) 0

module _ {E : Type 0} where
  -- How much of the pieces goes to the line `k`, and how much there is of pieces and of lines.
  abbrev pub placed_on : String → List (Piece E) → ℕ
  placed_on k [] = 0
  placed_on k (p ∷ ps) = (if p.decathlon_order_line_id == k then p.quantity else 0) + placed_on k ps

  abbrev pub total_placed : List (Piece E) → ℕ
  total_placed [] = 0
  total_placed (p ∷ ps) = p.quantity + total_placed ps

  abbrev pub total_quantity : List (ShopifyLineRef E) → ℕ
  total_quantity [] = 0
  total_quantity (r ∷ rs) = r.quantity + total_quantity rs

  placed_on-append :
      (k : String) (ps qs : List (Piece E))
      → placed_on k (ps ++ qs) ≡ placed_on k ps + placed_on k qs
  placed_on-append k [] qs = omega arith
  placed_on-append k (p ∷ ps) qs = omega (arith, placed_on-append k ps qs)

  total_placed-append :
      (ps qs : List (Piece E)) → total_placed (ps ++ qs) ≡ total_placed ps + total_placed qs
  total_placed-append [] qs = omega arith
  total_placed-append (p ∷ ps) qs = omega (arith, total_placed-append ps qs)

  total_quantity-append :
      (rs qs : List (ShopifyLineRef E))
      → total_quantity (rs ++ qs) ≡ total_quantity rs + total_quantity qs
  total_quantity-append [] qs = omega arith
  total_quantity-append (r ∷ rs) qs = omega (arith, total_quantity-append rs qs)

  -- Two states of the loop between which pieces only moved from rooms to lines.
  record Moves (p q : Placing E) : Type 0 where
    per_line :
        (k : String)
        → placed_on k q.resolved + room k q.capacity ≡ placed_on k p.resolved + room k p.capacity
    in_total : total_placed q.resolved + q.left ≡ total_placed p.resolved + p.left

  Moves-refl : (p : Placing E) → Moves p p
  Moves-refl p = record { per_line = λ k. refl; in_total = refl }

  Moves-trans : (p q r : Placing E) → Moves p q → Moves q r → Moves p r
  Moves-trans p q r pq qr = record {
    per_line = λ k. omega (arith, pq.per_line k, qr.per_line k);
    in_total = omega (arith, pq.in_total, qr.in_total);
  }

  put_on-Moves :
      (ref : ShopifyLineRef E) (id : String) (taken : ℕ) (p : Placing E)
      → taken ≤ p.left
      → taken ≤ room id p.capacity
      → Moves p (put_on ref id taken p)
  unfolding put_on
  put_on-Moves ref id taken p fits_left fits_room =
      let piece : Piece E = record { decathlon_order_line_id = id; quantity = taken; ref = ref } in
      record {
        per_line = λ k. ground (
          arith,
          placed_on-append k p.resolved (piece ∷ []),
          lookup-insert id k (room id p.capacity - taken) p.capacity,
          eq_iff id k,
        );
        in_total = omega (arith, total_placed-append p.resolved (piece ∷ []));
      }

  place_on-Moves :
      (ref : ShopifyLineRef E) (line : OrderLineItem) (p : Placing E)
      → Moves p (place_on ref line p)
  unfolding place_on
  place_on-Moves ref line p =
      let id = line.decathlon_order_line_id in
      let taken = min p.left (room id p.capacity) in
      elim (Bool-cases (eqb taken 0)) [
        | inl nothing ↦ rw (nothing, place_on) (Moves-refl p)
        | inr something ↦
            rw (something, place_on) (put_on-Moves ref id taken p (omega arith) (omega arith))
      ]

  place_all-Moves :
      (ref : ShopifyLineRef E) (lines : List OrderLineItem) (p : Placing E)
      → Moves p (place_all ref lines p)
  unfolding place_all
  place_all-Moves ref [] p = Moves-refl p
  place_all-Moves ref (line ∷ lines) p =
      let q = place_on ref line p in
      let first = place_on-Moves ref line p in
      elim (Bool-cases (eqb q.left 0 && not (eqb q.left p.left))) [
        | inl full ↦ rw (full, place_all) first
        | inr more ↦
            rw (more, place_all)
              (Moves-trans p q (place_all ref lines q) first (place_all-Moves ref lines q))
      ]

  -- A loop over all refs: per line, what is placed and what is left add up to what there was.
  resolve_from-Moves :
      (order_lines : List OrderLineItem) (refs : List (ShopifyLineRef E))
      (capacity : List (String × ℕ)) (resolved : List (Piece E))
      (unresolved : List (ShopifyLineRef E))
      → let (pieces, rest) = resolve_from order_lines refs capacity resolved unresolved in
        ((k : String) → placed_on k pieces ≤ placed_on k resolved + room k capacity)
        × (total_placed pieces + total_quantity rest
            ≡ total_placed resolved + total_quantity unresolved + total_quantity refs)
  unfolding resolve_from
  resolve_from-Moves order_lines [] capacity resolved unresolved = (λ k. omega arith, omega arith)
  resolve_from-Moves order_lines (ref ∷ refs) capacity resolved unresolved =
      let p : Placing E = record {
        capacity = capacity;
        resolved = resolved;
        left = ref.quantity;
      } in
      let q = place_all ref (candidates_for order_lines ref) p in
      let m = place_all-Moves ref (candidates_for order_lines ref) p in
      let kept : List (ShopifyLineRef E) =
        if eqb q.left 0
        then unresolved
        else unresolved ++ (record ref { quantity = q.left }) ∷ [] in
      let (bounded, total) = resolve_from-Moves order_lines refs q.capacity q.resolved kept in
      let left_over : total_quantity kept ≡ total_quantity unresolved + q.left =
        ground
          (arith, total_quantity-append unresolved ((record ref { quantity = q.left }) ∷ [])) in
      (λ k. omega (arith, bounded k, m.per_line k), omega (arith, m.in_total))

-- However the lines of a fulfilment or refund are matched, no quantity is invented or lost: what is
-- resolved and what is reported as unresolved add up to what was asked for. And no Decathlon order
-- line gets more than its own quantity.
pub resolve_lines-Moves :
    {E : Type 0} (order_lines : List OrderLineItem) (refs : List (ShopifyLineRef E)) (k : String)
    → let (pieces, rest) = resolve_lines order_lines refs in
      (total_placed pieces + total_quantity rest ≡ total_quantity refs)
      × (placed_on k pieces ≤ room k (capacity_of [] order_lines))
unfolding resolve_lines
resolve_lines-Moves order_lines refs k =
    let (bounded, total) = resolve_from-Moves order_lines refs (capacity_of [] order_lines) [] [] in
    (omega arith, omega (arith, bounded k))
