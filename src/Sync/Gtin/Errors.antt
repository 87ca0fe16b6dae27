-- ===== src/Sync/Gtin/Errors.antt =====
-- The check digit finds every error in one digit.
use mathlib.Core.List.{append_assoc, map-append}
use decathlon_app.Base.{
  ℕ, suc, ◌+◌, ◌-◌, ◌*◌, ◌%◌, ◌<◌, Bool, true, length-append, List, [], ◌∷◌, ◌++◌, map, ◌≡◌, arith,
  eqb, length, every, if◌then◌else◌,
}
use decathlon_app.Sync.Gtin.{is_digit, digits_of, replicate, sum_and_check, is_valid_gtin}

abbrev Passes : ℕ × ℕ → Type 0
Passes (sum, check) = (10 - sum % 10) % 10 ≡ check

-- From here on both codes go the same way: the sums differ by a constant, and stay so.
same_rest :
    (i a b : ℕ) (ds : List ℕ) (d : ℕ)
    → Passes (sum_and_check i a (d ∷ ds))
    → Passes (sum_and_check i b (d ∷ ds))
    → a % 10 ≡ b % 10
unfolding sum_and_check
same_rest i a b [] d p q = ground arith
same_rest i a b (e ∷ ds) d p q = ground (
  arith,
  same_rest (i + 1) (a + d * (if eqb (i % 2) 0 then 3 else 1))
      (b + d * (if eqb (i % 2) 0 then 3 else 1)) ds e p q,
)

one_digit :
    (i acc : ℕ) (pre : List ℕ) (c d : ℕ) (post : List ℕ)
    → c < 10
    → d < 10
    → Passes (sum_and_check i acc (pre ++ c ∷ post))
    → Passes (sum_and_check i acc (pre ++ d ∷ post))
    → c ≡ d
unfolding sum_and_check
one_digit i acc [] c d [] hc hd p q = omega arith
one_digit i acc [] c d (e ∷ ds) hc hd p q = ground (
  arith,
  same_rest (i + 1) (acc + c * (if eqb (i % 2) 0 then 3 else 1))
      (acc + d * (if eqb (i % 2) 0 then 3 else 1)) ds e p q,
)
one_digit i acc (x ∷ []) c d post hc hd p q = one_digit (i + 1) _ [] c d post hc hd p q
one_digit i acc (x ∷ y ∷ pre) c d post hc hd p q = one_digit (i + 1) _ (y ∷ pre) c d post hc hd p q

digits_of-append :
    (pre : List ℕ) (c : ℕ) (post : List ℕ)
    → digits_of (pre ++ c ∷ post)
      ≡ map (λ x. x - b'0') (replicate (14 - (length pre + suc (length post))) b'0' ++ pre)
        ++ (c - b'0') ∷ map (λ x. x - b'0') post
unfolding digits_of
digits_of-append pre c post = simp (length-append, append_assoc, map-append)

every-append :
    (p : ℕ → Bool) (pre : List ℕ) (c : ℕ) (post : List ℕ)
    → every p (pre ++ c ∷ post) ≡ true
    → p c ≡ true
every-append p [] c post h = ground arith
every-append p (x ∷ pre) c post h = every-append p pre c post (ground arith)

digit_at :
    (pre : List ℕ) (c : ℕ) (post : List ℕ)
    → is_valid_gtin (pre ++ c ∷ post) ≡ true
    → (is_digit c ≡ true) × Passes (sum_and_check 0 0 (digits_of (pre ++ c ∷ post)))
unfolding is_valid_gtin
digit_at pre c post h = (every-append is_digit pre c post (ground arith), ground arith)

-- Two codes that differ in one place only are not both valid: if both pass, they are the same.
pub is_valid_gtin-single_error :
    (pre : List ℕ) (c d : ℕ) (post : List ℕ)
    → is_valid_gtin (pre ++ c ∷ post) ≡ true
    → is_valid_gtin (pre ++ d ∷ post) ≡ true
    → c ≡ d
is_valid_gtin-single_error pre c d post p q =
    let (dc, pc) = digit_at pre c post p in
    let (dd, pd) = digit_at pre d post q in
    let zeros = replicate (14 - (length pre + suc (length post))) b'0' in
    let same =
      one_digit 0 0 (map (λ (x : ℕ). x - b'0') (zeros ++ pre)) (c - b'0') (d - b'0')
        (map (λ (x : ℕ). x - b'0') post) (ground arith) (ground arith)
        (rw (digits_of-append pre c post) at pc) (rw (digits_of-append pre d post) at pd) in
    ground arith
