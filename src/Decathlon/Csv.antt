-- ===== src/Decathlon/Csv.antt =====
-- packages/decathlon/src/csv.ts, and its reader `splitCsvLine` of
-- packages/sync/src/adapters/decathlon.adapter.ts. A text is the list of its character codes.
pub mod RoundTrip
pub mod Tests
use decathlon_app.Base.{
  ℕ, Bool, true, false, ◌||◌, ◌&&◌, List, [], ◌∷◌, ◌++◌, map, Option, none, some, eqb, any,
  if◌then◌else◌,
}

abbrev pub Text : Type 0
Text = List ℕ

abbrev pub quote : ℕ
quote = 34

abbrev pub semicolon : ℕ
semicolon = 59

abbrev pub eq_text : Text → Text → Bool
eq_text [] [] = true
eq_text (a ∷ s) (b ∷ t) = eqb a b && eq_text s t
eq_text _ _ = false

-- `undefined` and `null`, a list of texts, or anything else as its text.
pub data CsvValue : Type 0 where
  missing : CsvValue
  items : List Text → CsvValue
  text : Text → CsvValue

abbrev pub Row : Type 0
Row = List (Text × CsvValue)

abbrev pub join_text : Text → List Text → Text
join_text sep [] = []
join_text sep (s ∷ []) = s
join_text sep (s ∷ t ∷ ts) = s ++ (sep ++ join_text sep (t ∷ ts))

pub format_csv_value : CsvValue → Text
format_csv_value missing = []
format_csv_value (items xs) = join_text (b'|' ∷ []) xs
format_csv_value (text t) = t

-- The characters of the class `[";\r\n]`.
abbrev pub is_special : ℕ → Bool
is_special c = eqb c quote || eqb c semicolon || eqb c 13 || eqb c 10

abbrev pub doubled : Text → Text
doubled [] = []
doubled (c ∷ s) = if eqb c quote then quote ∷ quote ∷ doubled s else c ∷ doubled s

unfoldable pub escape_csv_field : Text → Text
escape_csv_field field =
    if any is_special field then quote ∷ (doubled field ++ quote ∷ []) else field

abbrev pub has_text : List Text → Text → Bool
has_text [] k = false
has_text (c ∷ cs) k = eq_text c k || has_text cs k

-- `set.add` for each key of a row, in order.
pub add_columns : List Text → Row → List Text
add_columns set [] = set
add_columns set ((k, _) ∷ row) = add_columns (if has_text set k then set else set ++ k ∷ []) row

pub columns_of : List Text → List Row → List Text
columns_of set [] = set
columns_of set (row ∷ rows) = columns_of (add_columns set row) rows

pub field_of : Row → Text → CsvValue
field_of [] col = missing
field_of ((k, v) ∷ row) col = if eq_text k col then v else field_of row col

pub csv_line : List Text → Text
csv_line fields = join_text (semicolon ∷ []) (map escape_csv_field fields)

pub row_line : List Text → Row → Text
row_line columns row = csv_line (map (λ col. format_csv_value (field_of row col)) columns)

pub rows_to_csv : List Row → Text
unfolding columns_of add_columns csv_line row_line field_of format_csv_value escape_csv_field
rows_to_csv [] = []
rows_to_csv (row ∷ rows) =
    let columns = columns_of [] (row ∷ rows) in
    join_text (13 ∷ 10 ∷ []) (csv_line columns ∷ map (row_line columns) (row ∷ rows))

-- The loop of `splitCsvLine`: the fields that are closed, the current one, and whether the
-- position is inside quotes.
pub split_from : ℕ → List Text → Text → Bool → Text → List Text
split_from delimiter fields current in_quotes [] = fields ++ current ∷ []
split_from delimiter fields current true (ch ∷ []) = elim (eqb ch quote) [
  | true ↦ fields ++ current ∷ []
  | false ↦ fields ++ (current ++ ch ∷ []) ∷ []
]
split_from delimiter fields current true (ch ∷ d ∷ line) = elim (eqb ch quote) [
  | true ↦ elim (eqb d quote) [
    | true ↦ split_from delimiter fields (current ++ quote ∷ []) true line
    | false ↦ split_from delimiter fields current false (d ∷ line)
  ]
  | false ↦ split_from delimiter fields (current ++ ch ∷ []) true (d ∷ line)
]
split_from delimiter fields current false (ch ∷ line) = elim (eqb ch quote) [
  | true ↦ split_from delimiter fields current true line
  | false ↦ elim (eqb ch delimiter) [
    | true ↦ split_from delimiter (fields ++ current ∷ []) [] false line
    | false ↦ split_from delimiter fields (current ++ ch ∷ []) false line
  ]
]

unfoldable pub split_csv_line : Text → ℕ → List Text
unfolding split_from
split_csv_line line delimiter = split_from delimiter [] [] false line
