-- ===== src/Decathlon/Csv/Tests.antt =====
-- Small inputs for the CSV writer and reader.
use decathlon_app.Base.{[], ◌∷◌, map, ◌≡◌, refl}
use decathlon_app.Decathlon.Csv.{
  Row, quote, semicolon, items, text, csv_line, row_line, rows_to_csv, format_csv_value, field_of,
  split_csv_line,
}
use decathlon_app.Decathlon.Csv.RoundTrip.{split_csv_line-row_line}

-- The columns "a" and "b", and a row whose value of "b" is `x;"y"`.
abbrev row : Row
row =
    (b'b' ∷ [], text (b'x' ∷ semicolon ∷ quote ∷ b'y' ∷ quote ∷ []))
    ∷ (b'a' ∷ [], items ((1 ∷ []) ∷ (2 ∷ []) ∷ []))
    ∷ []

program : Unit {0}
unfolding split_csv_line rows_to_csv
program = tt

written : rows_to_csv (((b'a' ∷ [], text (b'z' ∷ [])) ∷ []) ∷ []) ≡ b'a' ∷ 13 ∷ 10 ∷ b'z' ∷ []
unfolding program
written = refl

split_csv_line-row_line_example :
    (split_csv_line (csv_line ((b'a' ∷ []) ∷ (b'b' ∷ []) ∷ [])) semicolon
      ≡ (b'a' ∷ []) ∷ (b'b' ∷ []) ∷ [])
    × (split_csv_line (row_line ((b'a' ∷ []) ∷ (b'b' ∷ []) ∷ []) row) semicolon
        ≡ map (λ col. format_csv_value (field_of row col)) ((b'a' ∷ []) ∷ (b'b' ∷ []) ∷ []))
split_csv_line-row_line_example = split_csv_line-row_line (b'a' ∷ []) ((b'b' ∷ []) ∷ []) row
