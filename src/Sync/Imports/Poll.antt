-- ===== src/Sync/Imports/Poll.antt =====
-- `pollImportStatus` of packages/sync/src/engine.ts as a whole: the verdict, the reports, and what
-- becomes of the product mappings, the log and the job.
pub mod Synced
pub mod Tests
use decathlon_app.Base.{
  ℕ, String, Bool, true, false, not, ◌&&◌, ◌||◌, List, [], ◌∷◌, ◌++◌, map, Option, none, some, ◌==◌,
  any, get_or, first_some, is_some, is_nil, concat, join, lookup, M, pure, attempt, Result, ok, err,
  ◌>>=◌, ◌>>◌, if◌then◌else◌, ◌+◌,
}
use decathlon_app.Sync.Lines.{truthy}
use decathlon_app.Sync.Money.{NumOps}
use decathlon_app.Sync.Outside.{Outside, read}
use decathlon_app.Sync.Store.Rows.{SyncStatus, MappingStatus, ProductMapping, World, Db}
use decathlon_app.Sync.Store.Jobs.{on_db, resolve_pending, finish_job}
use decathlon_app.Sync.Lifecycle.{correlation_of}
use decathlon_app.Sync.Matching.{find_by_variant}
use decathlon_app.Sync.Imports.{
  ImportKind, product, offer, ImportStatusResult, PollOutcome, pending, terminal, import_verdict,
  status_of, lines_in_error_of, lines_in_success_of, failures_in, synced_in,
}
use decathlon_app.Sync.Imports.Stalled.{ImportStatusPollJobPayload, kind_text, job_type_of}
use decathlon_app.Sync.Imports.Reports.{ReportText, ParsedReportRow, merge_reports, joined}

-- The answer of P42 or OF02: what decides, and which reports there are.
pub record StatusAnswer : Type 0 where
  pub result : ImportStatusResult
  pub has_transformation_error_report : Bool
  pub has_error_report : Bool
  pub transform_lines_with_warning : Option ℕ

-- The calls of Decathlon, by the import id.
pub record ImportApi (R : Type 0) : Type 0 where
  pub get_import_status : ImportKind → String → R → Result StatusAnswer
  pub get_transformation_error_report : String → R → Result String
  pub get_error_report : String → R → Result String
  pub get_success_report : String → R → Result String
  pub get_offer_error_report : String → R → Result String

abbrev pub is_mapping_of : String → String → ProductMapping → Bool
is_mapping_of shop_id variant m = (m.shop_id == shop_id) && (m.shopify_variant_id == variant)

-- packages/database/src/repositories/product-mapping.repository.ts; `none` leaves the offer id alone.
abbrev pub synced_mapping : String → Option String → ProductMapping → ProductMapping
synced_mapping product_id offer_id m = record m {
  decathlon_product_id = some product_id;
  decathlon_offer_id = first_some offer_id m.decathlon_offer_id;
  status = MappingStatus.synced;
  last_error = none;
  retry_count = 0;
}

abbrev pub failed_mapping : String → ProductMapping → ProductMapping
failed_mapping error m = record m {
  status = MappingStatus.failed;
  last_error = some error;
  retry_count = m.retry_count + 1;
}

module _ {Num R : Type 0} where
  abbrev pub update_mapping :
      String → String → (ProductMapping → ProductMapping) → M (World Num R) (Unit {0})
  update_mapping shop_id variant f = on_db λ db. record db {
    products =
        map (λ (m : ProductMapping). if is_mapping_of shop_id variant m then f m else m)
          db.products;
  }

  abbrev pub mark_synced : String → String → String → Option String → M (World Num R) (Unit {0})
  mark_synced shop_id variant product_id offer_id =
      update_mapping shop_id variant (synced_mapping product_id offer_id)

  abbrev pub mark_failed : String → String → String → M (World Num R) (Unit {0})
  mark_failed shop_id variant error = update_mapping shop_id variant (failed_mapping error)

module _ {Num R : Type 0} (t : ReportText) where
  -- A report that cannot be had, or is blank, is left out.
  pub fetch_report : (R → Result String) → List String → M (World Num R) (List String)
  fetch_report fetcher texts = do
    fetched ← attempt (read fetcher)
    elim fetched [
      | err e ↦ pure texts
      | ok text ↦ pure (if t.trim text == "" then texts else texts ++ text ∷ [])
    ]

  pub fetch_if : Bool → (R → Result String) → List String → M (World Num R) (List String)
  fetch_if false fetcher texts = pure texts
  fetch_if true fetcher texts = fetch_report fetcher texts

module _ {Num R : Type 0} (t : ReportText) (n : NumOps Num) (o : Outside Num R)
    (api : ImportApi R) where
  pub collect_reports : ImportKind → String → StatusAnswer → Bool → M (World Num R) (List String)
  collect_reports product import_id a overall_ok = do
    first ←
        fetch_if t a.has_transformation_error_report (api.get_transformation_error_report import_id)
          []
    both ← fetch_if t a.has_error_report (api.get_error_report import_id) first
    fetch_if t (is_nil both && overall_ok) (api.get_success_report import_id) both
  collect_reports offer import_id a overall_ok =
      fetch_if t (a.has_error_report || not overall_ok) (api.get_offer_error_report import_id) []

  abbrev pub error_of : Option ParsedReportRow → Option String
  error_of none = none
  error_of (some row) = row.error

  abbrev pub warning_of : Option ParsedReportRow → Option String
  warning_of none = none
  warning_of (some row) = row.warning

  abbrev pub id_of : Option ParsedReportRow → Option String
  id_of none = none
  id_of (some row) = row.decathlon_id

  abbrev pub any_row_errors : List (String × ParsedReportRow) → Bool
  any_row_errors parsed = any (λ (e : String × ParsedReportRow). is_some (truthy e.1.error)) parsed

  -- The rows decide, if any has an error; otherwise the whole import does.
  abbrev pub variant_ok : Bool → List (String × ParsedReportRow) → String → Bool
  variant_ok overall_ok parsed sku =
      overall_ok || (any_row_errors parsed && not (is_some (truthy (error_of (lookup sku parsed)))))

  -- The ids that a mapping has after its import.
  abbrev pub product_id_of : ImportKind → Option String → ProductMapping → String
  product_id_of product id m = get_or (first_some id m.decathlon_product_id) ""
  product_id_of offer id m = get_or m.decathlon_product_id ""

  abbrev pub offer_id_of : ImportKind → Option String → ProductMapping → Option String
  offer_id_of product id m = m.decathlon_offer_id
  offer_id_of offer id m = first_some id m.decathlon_offer_id

  abbrev pub variant_error : String → ProductMapping → Option ParsedReportRow → String
  variant_error import_id m row = concat (
      m.sku
      ∷ ": "
      ∷ get_or (truthy (some (joined " | " (error_of row) (warning_of row))))
          (concat ("rejected by Decathlon (import " ∷ import_id ∷ ")" ∷ []))
      ∷ [])

  pub settle_mapping :
      ImportStatusPollJobPayload
      → Option String
      → Bool
      → Option ParsedReportRow
      → String
      → ProductMapping
      → M (World Num R) (Unit {0})
  settle_mapping p status accepted row variant m =
      if accepted
      then mark_synced p.shop_id variant (product_id_of p.kind (id_of row) m)
          (offer_id_of p.kind (id_of row) m)
      else mark_failed p.shop_id variant (
          get_or (first_some (error_of row) (warning_of row)) (
            concat (
              "Decathlon "
              ∷ kind_text p.kind
              ∷ " import reported failure (job status: "
              ∷ get_or status "undefined"
              ∷ ")"
              ∷ [])))

  -- The loop over the variants of the import, with the errors so far.
  pub settle_variants :
      ImportStatusPollJobPayload
      → Option String
      → Bool
      → List (String × ParsedReportRow)
      → List String
      → List String
      → M (World Num R) (List String)
  settle_variants p status overall_ok parsed [] errors w = pure errors w
  settle_variants p status overall_ok parsed (variant ∷ variants) errors w =
      elim (find_by_variant p.shop_id variant w.db) [
        | none ↦ settle_variants p status overall_ok parsed variants errors w
        | some m ↦
            let row = lookup m.sku parsed in
            let accepted = variant_ok overall_ok parsed m.sku in
            (settle_mapping p status accepted row variant m
                >> settle_variants p status overall_ok parsed variants
                    (if accepted then errors else errors ++ variant_error p.import_id m row ∷ []))
              w
      ]

  abbrev pub count_text : Option ℕ → String
  count_text count = n.show (n.of_ℕ (get_or count 0))

  pub stage_summary : ImportKind → StatusAnswer → String
  stage_summary kind a =
      let lines_in_error = lines_in_error_of kind a.result in
      let lines_in_success = lines_in_success_of kind a.result in
      let by_status = concat (
        "status: "
        ∷ get_or (status_of kind a.result) "undefined"
        ∷ (if is_some lines_in_error || is_some lines_in_success
            then concat (", " ∷ count_text lines_in_error ∷ " line(s) in error" ∷ [])
            else "")
        ∷ []) in
      elim kind [
        | offer ↦ by_status
        | product ↦ elim a.result.integration_details [
          | none ↦ by_status
          | some d ↦ concat (
              "transformation: "
              ∷ count_text lines_in_success
              ∷ " ok / "
              ∷ count_text lines_in_error
              ∷ " error / "
              ∷ count_text a.transform_lines_with_warning
              ∷ " warning; integration: "
              ∷ n.show (n.of_ℕ (synced_in (some d)))
              ∷ " published / "
              ∷ n.show (n.of_ℕ (failures_in (some d)))
              ∷ " refused"
              ∷ [])
        ]
      ]

  pub failure_message :
      ImportStatusPollJobPayload → StatusAnswer → List String → List String → String
  failure_message p a texts variant_errors =
      if is_nil variant_errors
      then concat (
          "Decathlon "
          ∷ kind_text p.kind
          ∷ " import "
          ∷ p.import_id
          ∷ " failed ("
          ∷ stage_summary p.kind a
          ∷ ")"
          ∷ (if join "\n\n" texts == ""
              then " — detailed error report not yet available from Decathlon; check again shortly or look up this import id in the Decathlon Seller Portal"
              else "")
          ∷ [])
      else concat (
          "Decathlon refused this import ("
          ∷ stage_summary p.kind a
          ∷ ") — "
          ∷ join "; " variant_errors
          ∷ [])

  -- The log row and the job of an import with a final result.
  pub record_result :
      ImportStatusPollJobPayload → String → Bool → Option String → M (World Num R) (Unit {0})
  record_result p correlation_id overall_ok error_message = do
    resolve_pending (record {
      shop_id = p.shop_id;
      sync_job_id = p.sync_job_id;
      type = job_type_of p.kind;
      status = if overall_ok then SyncStatus.success else SyncStatus.failed;
      decathlon_id = none;
      shopify_id = none;
      item_label = p.item_label;
      error_message = error_message;
      correlation_id = correlation_id;
    })
    elim p.sync_job_id [
      | none ↦ pure tt
      | some job ↦
          finish_job job (if overall_ok then SyncStatus.success else SyncStatus.failed)
            error_message
    ]

  pub conclude :
      ImportStatusPollJobPayload → String → StatusAnswer → Bool → M (World Num R) PollOutcome
  conclude p correlation_id a overall_ok = do
    texts ← collect_reports p.kind p.import_id a overall_ok
    variant_errors ←
        settle_variants p (status_of p.kind a.result) overall_ok (merge_reports t texts [])
          p.shopify_variant_ids []
    record_result p correlation_id overall_ok
        (if overall_ok then none else some (failure_message p a texts variant_errors))
    pure (terminal overall_ok)

  -- What the status says decides whether the import is concluded.
  pub judge :
      ImportStatusPollJobPayload → String → StatusAnswer → PollOutcome → M (World Num R) PollOutcome
  judge p correlation_id a pending = pure pending
  judge p correlation_id a (terminal overall_ok) = conclude p correlation_id a overall_ok

  pub poll_import_status : ImportStatusPollJobPayload → M (World Num R) PollOutcome
  poll_import_status p = do
    correlation_id ← correlation_of o p.correlation_id
    answer ← read (api.get_import_status p.kind p.import_id)
    judge p correlation_id answer (import_verdict p.kind answer.result)
