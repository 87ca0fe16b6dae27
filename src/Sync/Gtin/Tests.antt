-- ===== src/Sync/Gtin/Tests.antt =====
-- The code 96385074.
use decathlon_app.Base.{ℕ, List, [], ◌∷◌, ◌≡◌, refl}
use decathlon_app.Sync.Gtin.{is_valid_gtin}
use decathlon_app.Sync.Gtin.Errors.{is_valid_gtin-single_error}

abbrev before : List ℕ
before = b'9' ∷ b'6' ∷ b'3' ∷ []

abbrev after : List ℕ
after = b'5' ∷ b'0' ∷ b'7' ∷ b'4' ∷ []

abbrev eight : ℕ
eight = b'8'

is_valid_gtin-single_error_example : eight ≡ eight
unfolding is_valid_gtin
is_valid_gtin-single_error_example = is_valid_gtin-single_error before eight eight after refl refl
