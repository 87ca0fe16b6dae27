-- ===== src/Sync/Imports/Reports.antt =====
-- `parseReportText` of packages/sync/src/adapters/decathlon.adapter.ts, and how `pollImportStatus` of
-- packages/sync/src/engine.ts merges the rows of two reports.
use decathlon_app.Base.{
  ℕ, zero, suc, String, Bool, false, not, ◌&&◌, ◌||◌, List, [], ◌∷◌, map, Option, none, some, ◌==◌,
  keep, first_some, is_some, lookup, insert, join, keep_some, if◌then◌else◌,
}
use decathlon_app.Decathlon.Csv.{split_csv_line}
use decathlon_app.Sync.Lines.{truthy}

pub record ParsedReportRow : Type 0 where
  pub ok : Bool
  pub decathlon_id : Option String
  pub error : Option String
  pub warning : Option String

-- Functions of the JavaScript runtime on texts: `split(/\r?\n/)`, the character codes of a text and
-- back, and `/error|fail/i`.
pub record ReportText : Type 0 where
  pub lines : String → List String
  pub codes : String → List ℕ
  pub text : List ℕ → String
  pub trim : String → String
  pub to_lower : String → String
  pub includes : String → String → Bool
  pub mentions_failure : String → Bool

-- `findIndex` and `cols[index]`, with `none` for -1 and for undefined.
unfoldable pub find_index : {A : Type 0} → (A → Bool) → List A → Option ℕ
find_index test [] = none
find_index test (x ∷ xs) =
    let rest = find_index test xs in
    if test x then some 0 else elim rest [ none ↦ none | some i ↦ some (suc i) ]

unfoldable pub get_elem? : {A : Type 0} → List A → ℕ → Option A
get_elem? [] i = none
get_elem? (x ∷ xs) zero = some x
get_elem? (x ∷ xs) (suc i) = get_elem? xs i

abbrev pub column : List String → Option ℕ → Option String
column cols none = none
column cols (some i) = get_elem? cols i

pub record Columns : Type 0 where
  pub sku : Option ℕ
  pub status : Option ℕ
  pub id : Option ℕ
  pub error : Option ℕ
  pub warning : Option ℕ

module _ (t : ReportText) where
  abbrev pub split_line : String → ℕ → List String
  split_line line delimiter = map t.text (split_csv_line (t.codes line) delimiter)

  -- Which column holds what; a message is better than an error that is no number of a line.
  pub columns_of : List String → Columns
  columns_of header = record {
    sku = find_index (λ h. t.includes h "sku" || (h == "productidentifier")) header;
    status = find_index (λ h. t.includes h "status" || t.includes h "state") header;
    id =
        find_index (λ h. (h == "id") || t.includes h "product_id" || t.includes h "offer_id")
          header;
    error = first_some (find_index (λ h. t.includes h "message") header) (
        find_index
          (λ h. t.includes h "error" && not (t.includes h "line") && not (t.includes h "number"))
          header);
    warning = find_index (λ h. t.includes h "warning") header;
  }

  abbrev pub is_failure : Option String → Bool
  is_failure none = false
  is_failure (some status) = t.mentions_failure status

  pub report_row : Columns → List String → ParsedReportRow
  report_row at cols =
      let error = truthy (column cols at.error) in
      record {
        ok = not (is_some error) && not (is_failure (truthy (column cols at.status)));
        decathlon_id = column cols at.id;
        error = error;
        warning = truthy (column cols at.warning);
      }

  pub add_lines :
      Columns → ℕ → List String → List (String × ParsedReportRow) → List (String × ParsedReportRow)
  add_lines at delimiter [] result = result
  add_lines at delimiter (line ∷ lines) result =
      let cols = map t.trim (split_line line delimiter) in
      add_lines at delimiter lines (elim (truthy (column cols at.sku)) [
        | none ↦ result
        | some sku ↦ insert sku (report_row at cols) result
      ])

  -- The lines after the header, if there are any.
  pub parse_lines : List String → List (String × ParsedReportRow)
  parse_lines [] = []
  parse_lines (first ∷ []) = []
  parse_lines (first ∷ line ∷ lines) =
      let delimiter = if t.includes first ";" then b';' else b',' in
      let at = columns_of (map (λ h. t.to_lower (t.trim h)) (split_line first delimiter)) in
      elim at.sku [ none ↦ [] | some _ ↦ add_lines at delimiter (line ∷ lines) [] ]

  pub parse_report_text : String → List (String × ParsedReportRow)
  parse_report_text text = parse_lines (keep (λ l. not (t.trim l == "")) (t.lines text))

-- `[a, b].filter(Boolean).join(separator)`
abbrev pub joined : String → Option String → Option String → String
joined separator a b = join separator (keep_some (truthy a ∷ truthy b ∷ []))

abbrev pub merged_with : Option ParsedReportRow → ParsedReportRow → ParsedReportRow
merged_with none row = record row {
  error = truthy (some (joined "; " none row.error));
  warning = truthy (some (joined "; " none row.warning));
}
merged_with (some prior) row = record {
  ok = prior.ok && row.ok;
  decathlon_id = first_some row.decathlon_id prior.decathlon_id;
  error = truthy (some (joined "; " prior.error row.error));
  warning = truthy (some (joined "; " prior.warning row.warning));
}

pub merge_rows :
    List (String × ParsedReportRow)
    → List (String × ParsedReportRow)
    → List (String × ParsedReportRow)
merge_rows [] parsed = parsed
merge_rows ((sku, row) ∷ rows) parsed =
    merge_rows rows (insert sku (merged_with (lookup sku parsed) row) parsed)

pub merge_reports :
    ReportText → List String → List (String × ParsedReportRow) → List (String × ParsedReportRow)
merge_reports t [] parsed = parsed
merge_reports t (text ∷ texts) parsed =
    merge_reports t texts (merge_rows (parse_report_text t text) parsed)
