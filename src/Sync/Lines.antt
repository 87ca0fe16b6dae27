-- ===== src/Sync/Lines.antt =====
-- `resolveLines` of packages/sync/src/order-lifecycle.ts: which lines of a Decathlon order the lines
-- of a Shopify fulfilment or refund stand for.
pub mod Capacity
pub mod Tests
use decathlon_app.Base.{
  ℕ, ◌+◌, ◌-◌, min, String, Bool, true, false, not, ◌&&◌, List, [], ◌∷◌, ◌++◌, Option, none, some,
  ◌==◌, eqb, keep, is_nil, get_or, lookup, insert, if◌then◌else◌,
}

-- `variant` is the Shopify variant of the line's product mapping, if it has one.
pub record OrderLineItem : Type 0 where
  pub decathlon_order_line_id : String
  pub sku : String
  pub quantity : ℕ
  pub variant : Option String
  pub currency : String

-- A line of a fulfilment or a refund; `extra` is what a refund line has besides, its amount.
pub record ShopifyLineRef (E : Type 0) : Type 0 where
  pub decathlon_order_line_id : Option String
  pub variant_id : Option String
  pub sku : Option String
  pub quantity : ℕ
  pub extra : E

pub record Piece (E : Type 0) : Type 0 where
  pub decathlon_order_line_id : String
  pub quantity : ℕ
  pub ref : ShopifyLineRef E

-- An optional text that is missing or empty is false.
abbrev pub truthy : Option String → Option String
truthy none = none
truthy (some s) = if s == "" then none else some s

-- `lines.filter(test)` for a key that is there.
abbrev pub lines_with :
    (OrderLineItem → String → Bool) → Option String → List OrderLineItem → List OrderLineItem
lines_with test none lines = []
lines_with test (some key) lines = keep (λ l. test l key) lines

abbrev pub has_variant : OrderLineItem → String → Bool
has_variant l v = elim l.variant [ none ↦ false | some w ↦ w == v ]

abbrev pub or_lines : List OrderLineItem → List OrderLineItem → List OrderLineItem
or_lines [] others = others
or_lines (l ∷ ls) others = l ∷ ls

pub record Placing (E : Type 0) : Type 0 where
  pub capacity : List (String × ℕ)
  pub resolved : List (Piece E)
  pub left : ℕ

-- `new Map(orderLines.map((l) => [l.decathlonOrderLineId, l.quantity]))`
pub capacity_of : List (String × ℕ) → List OrderLineItem → List (String × ℕ)
capacity_of m [] = m
capacity_of m (l ∷ ls) = capacity_of (insert l.decathlon_order_line_id l.quantity m) ls

module _ {E : Type 0} where
  -- The line property, then the variant, then the SKU.
  pub candidates_for : List OrderLineItem → ShopifyLineRef E → List OrderLineItem
  candidates_for order_lines ref =
      or_lines
        (lines_with (λ l k. l.decathlon_order_line_id == k) (truthy ref.decathlon_order_line_id)
          order_lines)
        (or_lines (lines_with has_variant (truthy ref.variant_id) order_lines)
          (lines_with (λ l k. l.sku == k) (truthy ref.sku) order_lines))

  -- `resolved.push`, `capacity.set` and `left -= take`.
  pub put_on : ShopifyLineRef E → String → ℕ → Placing E → Placing E
  put_on ref id taken p = record {
    capacity = insert id (get_or (lookup id p.capacity) 0 - taken) p.capacity;
    resolved =
        p.resolved ++ record { decathlon_order_line_id = id; quantity = taken; ref = ref } ∷ [];
    left = p.left - taken;
  }

  -- One round of the inner loop.
  pub place_on : ShopifyLineRef E → OrderLineItem → Placing E → Placing E
  unfolding put_on
  place_on ref line p =
      let id = line.decathlon_order_line_id in
      let taken = min p.left (get_or (lookup id p.capacity) 0) in
      if eqb taken 0 then p else put_on ref id taken p

  -- The inner loop; after `break` the remaining candidates would take nothing.
  pub place_all : ShopifyLineRef E → List OrderLineItem → Placing E → Placing E
  unfolding place_on
  place_all ref [] p = p
  place_all ref (line ∷ lines) p =
      let q = place_on ref line p in
      let rest = place_all ref lines q in
      if eqb q.left 0 && not (eqb q.left p.left) then q else rest

  pub resolve_from :
      List OrderLineItem
      → List (ShopifyLineRef E)
      → List (String × ℕ)
      → List (Piece E)
      → List (ShopifyLineRef E)
      → List (Piece E) × List (ShopifyLineRef E)
  unfolding place_all candidates_for
  resolve_from order_lines [] capacity resolved unresolved = (resolved, unresolved)
  resolve_from order_lines (ref ∷ refs) capacity resolved unresolved =
      let p =
        place_all ref (candidates_for order_lines ref)
          (record { capacity = capacity; resolved = resolved; left = ref.quantity }) in
      resolve_from order_lines refs p.capacity p.resolved
        (if eqb p.left 0 then unresolved else unresolved ++ (record ref { quantity = p.left }) ∷ [])

  unfoldable pub resolve_lines :
      List OrderLineItem → List (ShopifyLineRef E) → List (Piece E) × List (ShopifyLineRef E)
  unfolding resolve_from capacity_of
  resolve_lines order_lines refs = resolve_from order_lines refs (capacity_of [] order_lines) [] []
