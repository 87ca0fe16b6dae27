-- ===== src/Sync/Money.antt =====
-- JavaScript's numbers as the program uses them for money and rates, taken as an interface; and
-- `round2` and `sum` of packages/sync/src/order-lifecycle.ts and packages/sync/src/pricing.ts.
-- The numbers are finite: `a <= b` is `!(b < a)`.
use mathlib.Core.List.{foldl}
use decathlon_app.Base.{ℕ, String, Bool, not, ◌||◌, List, Option, none, some, if◌then◌else◌, get_or}

pub record NumOps (Num : Type 0) : Type 0 where
  pub of_ℕ : ℕ → Num
  -- The literal 0.01.
  pub cent : Num
  pub add : Num → Num → Num
  pub sub : Num → Num → Num
  pub mul : Num → Num → Num
  pub div : Num → Num → Num
  -- `Math.round`, `a < b`, and the text of a number.
  pub round : Num → Num
  pub lt : Num → Num → Bool
  pub show : Num → String

module _ {Num : Type 0} (n : NumOps Num) where
  abbrev pub zero_num : Num
  zero_num = n.of_ℕ 0

  abbrev pub le_num : Num → Num → Bool
  le_num a b = not (n.lt b a)

  abbrev pub min_num : Num → Num → Num
  min_num a b = if n.lt b a then b else a

  abbrev pub max_num : Num → Num → Num
  max_num a b = if n.lt a b then b else a

  pub round2 : Num → Num
  round2 x = n.div (n.round (n.mul x (n.of_ℕ 100))) (n.of_ℕ 100)

  pub sum : List (Option Num) → Num
  sum xs = foldl (λ a x. n.add a (get_or x (n.of_ℕ 0))) (n.of_ℕ 0) xs

  -- `if (percent)` holds for a number other than 0.
  abbrev pub is_nonzero : Num → Bool
  is_nonzero x = not (le_num x (n.of_ℕ 0)) || not (le_num (n.of_ℕ 0) x)

  pub marked_up : Num → Option Num → Num
  marked_up price none = price
  marked_up price (some p) =
      if is_nonzero p then n.mul price (n.add (n.of_ℕ 1) (n.div p (n.of_ℕ 100))) else price

  pub discounted : Num → Option Num → Num
  discounted price none = price
  discounted price (some p) =
      if is_nonzero p then n.mul price (n.sub (n.of_ℕ 1) (n.div p (n.of_ℕ 100))) else price

  unfoldable pub compute_offer_price : Num → Option Num → Option Num → Num
  compute_offer_price variant_price markup_percent discount_percent =
      let price = discounted (marked_up variant_price markup_percent) discount_percent in
      max_num (n.of_ℕ 0) (round2 price)
