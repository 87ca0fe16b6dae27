-- ===== src/Sync/Gtin.antt =====
-- `isValidGtin` of packages/sync/src/adapters/decathlon.adapter.ts; a text is the list of its
-- character codes.
pub mod Errors
pub mod Tests
use decathlon_app.Base.{
  ℕ, zero, suc, ◌+◌, ◌-◌, ◌*◌, ◌%◌, Bool, true, false, ◌&&◌, ◌||◌, List, [], ◌∷◌, ◌++◌, map, eqb,
  leb, every, length, if◌then◌else◌,
}

abbrev pub is_digit : ℕ → Bool
is_digit c = leb b'0' c && leb c b'9'

-- `/^\d{8}$|^\d{12,14}$/`
pub has_gtin_form : List ℕ → Bool
has_gtin_form code =
    every is_digit code && (eqb (length code) 8 || (leb 12 (length code) && leb (length code) 14))

abbrev pub replicate : ℕ → ℕ → List ℕ
replicate zero c = []
replicate (suc n) c = c ∷ replicate n c

-- `padStart(14, "0").split("").map(Number)`
pub digits_of : List ℕ → List ℕ
digits_of code = map (λ c. c - b'0') (replicate (14 - length code) b'0' ++ code)

-- The `reduce` over all digits but the last, with the index and the sum so far; it returns the sum
-- and the last digit, which `pop` took off.
pub sum_and_check : ℕ → ℕ → List ℕ → ℕ × ℕ
sum_and_check i acc [] = (acc, 0)
sum_and_check i acc (d ∷ []) = (acc, d)
sum_and_check i acc (d ∷ e ∷ ds) =
    sum_and_check (i + 1) (acc + d * (if eqb (i % 2) 0 then 3 else 1)) (e ∷ ds)

unfoldable pub is_valid_gtin : List ℕ → Bool
unfolding has_gtin_form digits_of sum_and_check
is_valid_gtin code =
    if has_gtin_form code
    then (let (sum, check) = sum_and_check 0 0 (digits_of code) in eqb ((10 - sum % 10) % 10) check)
    else false
