-- ===== src/Decathlon/Csv/RoundTrip.antt =====
-- What `rowsToCsv` writes is read back by `splitCsvLine`.
use mathlib.Core.List.{append_assoc, append-nil}
use decathlon_app.Base.{
  ℕ, true, false, List, [], ◌∷◌, ◌++◌, map, ◌≡◌, refl, sym, ◌∙◌, inl, inr, arith, eqb, eqb_iff, any,
  Bool-cases,
}
use decathlon_app.Decathlon.Csv.{
  Text, Row, quote, semicolon, is_special, doubled, escape_csv_field, csv_line, row_line,
  format_csv_value, field_of, split_from, split_csv_line,
}

module _ (fields : List Text) where
  quoted_step :
      (cur : Text) (c : ℕ) (line : Text)
      → eqb c quote ≡ false
      → split_from semicolon fields cur true (c ∷ line)
        ≡ split_from semicolon fields (cur ++ c ∷ []) true line
  unfolding split_from
  quoted_step cur c [] h = rw (h, split_from)
  quoted_step cur c (d ∷ line) h = rw (h, split_from)

  -- Inside quotes, a doubled field is read whole.
  quoted_field :
      (cur f tail : Text)
      → split_from semicolon fields cur true (doubled f ++ tail)
        ≡ split_from semicolon fields (cur ++ f) true tail
  unfolding split_from
  quoted_field cur [] tail = rw append-nil
  quoted_field cur (c ∷ f) tail = elim (Bool-cases (eqb c quote)) [
    | inl q ↦
        let e : c ≡ quote = (eqb_iff c quote).0 q in
        rw e (quoted_field (cur ++ quote ∷ []) f tail ∙ (rw append_assoc))
    | inr n ↦ rw n (
        quoted_step cur c (doubled f ++ tail) n
        ∙ (quoted_field (cur ++ c ∷ []) f tail ∙ (rw append_assoc)))
  ]

  -- Outside quotes, a field with no special character is read whole.
  plain_field :
      (cur f tail : Text)
      → any is_special f ≡ false
      → split_from semicolon fields cur false (f ++ tail)
        ≡ split_from semicolon fields (cur ++ f) false tail
  unfolding split_from
  plain_field cur [] tail h = rw append-nil
  plain_field cur (c ∷ f) tail h =
      let q : eqb c quote ≡ false = ground arith in
      let s : eqb c semicolon ≡ false = ground arith in
      let r : any is_special f ≡ false = ground arith in
      rw (q, s, split_from) (plain_field (cur ++ c ∷ []) f tail r ∙ (rw append_assoc))

  -- The end of a line, or a delimiter and more fields.
  abbrev rest : List Text → Text
  rest [] = []
  rest (f ∷ fs) = semicolon ∷ csv_line (f ∷ fs)

  escaped_field :
      (f : Text) (fs : List Text)
      → split_from semicolon fields [] false (escape_csv_field f ++ rest fs)
        ≡ split_from semicolon fields f false (rest fs)
  unfolding split_from escape_csv_field
  escaped_field f fs = elim (Bool-cases (any is_special f)) [
    | inl s ↦ rw s ((rw append_assoc) ∙ (quoted_field [] f (quote ∷ rest fs) ∙ closing fs))
    | inr n ↦ rw n (plain_field [] f (rest fs) n)
  ]
    where
      closing :
          (fs : List Text)
          → split_from semicolon fields f true (quote ∷ rest fs)
            ≡ split_from semicolon fields f false (rest fs)
      closing [] = refl
      closing (g ∷ gs) = refl

csv_line-cons : (f : Text) (fs : List Text) → csv_line (f ∷ fs) ≡ escape_csv_field f ++ rest [] fs
unfolding csv_line
csv_line-cons f [] = sym (append-nil _)
csv_line-cons f (g ∷ gs) = refl

split_from-csv_line :
    (fields : List Text) (f : Text) (fs : List Text)
    → split_from semicolon fields [] false (csv_line (f ∷ fs)) ≡ fields ++ f ∷ fs
unfolding split_from
split_from-csv_line fields f [] = rw csv_line-cons (escaped_field fields f [])
split_from-csv_line fields f (g ∷ gs) = rw csv_line-cons (
    escaped_field fields f (g ∷ gs)
    ∙ (split_from-csv_line (fields ++ f ∷ []) g gs ∙ append_assoc fields (f ∷ []) (g ∷ gs)))

-- Reading a line that `rowsToCsv` writes with the semicolon gives back its fields, whatever
-- characters they hold (delimiters, quotes and line breaks too): the columns from the header line,
-- and from a row's line the text of its value in each column. There is at least one column.
pub split_csv_line-row_line :
    (column : Text) (columns : List Text) (row : Row)
    → (split_csv_line (csv_line (column ∷ columns)) semicolon ≡ column ∷ columns)
      × (split_csv_line (row_line (column ∷ columns) row) semicolon
          ≡ map (λ col. format_csv_value (field_of row col)) (column ∷ columns))
unfolding split_csv_line row_line
split_csv_line-row_line column columns row =
    (split_from-csv_line [] column columns, split_from-csv_line [] _ _)
