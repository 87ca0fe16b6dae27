-- ===== src/Sync/Imports/Verdicts.antt =====
-- When an import counts as done.
use decathlon_app.Base.{
  ◌<◌, ℕ, String, true, List, [], ◌∷◌, Option, some, ◌≡◌, arith, get_or, All, contains, not, ◌||◌,
  is_some, Option-cases, inl, inr, ◌==◌, sym, ap, ◌∙◌, subst,
}
use decathlon_app.Sync.Imports.{
  product, ImportStatusResult, ImportIntegrationDetails, terminal, import_verdict, transform_ok,
  failures_in, synced_in, is_final,
}

-- The six counters of refused products.
abbrev pub refused : ImportIntegrationDetails → List (Option ℕ)
refused d =
    d.rejected_products ∷ d.invalid_products ∷ d.products_with_wrong_identifiers
    ∷ d.products_with_synchronization_issues ∷ d.products_not_accepted_in_time
    ∷ d.products_not_synchronized_in_time ∷ []

-- The counter is 0, or is not given.
abbrev pub IsZero : Option ℕ → Type 0
IsZero count = get_or count 0 ≡ 0

-- What the result of a product import has to say for a success.
pub record IsDone (r : ImportStatusResult) (status : String) (d : ImportIntegrationDetails)
    : Type 0 where
  pub named : r.import_status ≡ some status
  pub final : contains status ("COMPLETE" ∷ "COMPLETE_WITH_ERRORS" ∷ "FAILED" ∷ []) ≡ true
  pub integrated : r.integration_details ≡ some d
  pub no_line_failed : IsZero r.transform_lines_in_error
  -- Without counts of lines the status decides.
  pub not_failed :
      (is_some r.transform_lines_in_error
        || is_some r.transform_lines_in_success
        || not (status == "FAILED"))
      ≡ true
  pub some_synced : 0 < get_or d.products_successfully_synchronized 0
  pub none_refused : All IsZero (refused d)

verdict_parts :
    (r : ImportStatusResult)
    → import_verdict product r ≡ terminal true
    → (is_final r.import_status ≡ true)
      × (transform_ok product r ≡ true)
      × (0 < synced_in r.integration_details)
      × (failures_in r.integration_details ≡ 0)
unfolding import_verdict
verdict_parts r h = ground arith

-- A product import is reported as a success only if Decathlon has given it one of its three final
-- statuses, no line is counted as failed in the transformation (and without any count of lines the
-- status is not FAILED), at least one product was integrated, and each of the six counters of refused
-- products is 0 or not given.
pub import_verdict-success :
    (r : ImportStatusResult)
    → import_verdict product r ≡ terminal true
    → (status : String) × (d : ImportIntegrationDetails) × IsDone r status d
import_verdict-success r h =
    let (final, transformed, synced, failures) = verdict_parts r h in
    elim (Option-cases r.import_status) [
      | inl unnamed ↦ absurd (ground (arith, unnamed, final))
      | inr (status, named) ↦ elim (Option-cases r.integration_details) [
        | inl absent ↦ absurd (ground (arith, absent, synced))
        | inr (d, given) ↦
            let some_refused : failures_in (some d) ≡ 0 = sym (ap failures_in given) ∙ failures in
            let ended : is_final (some status) ≡ true = sym (ap is_final named) ∙ final in
            (
              status,
              d,
              record {
                named = named;
                final = ground (arith, ended);
                integrated = given;
                no_line_failed = ground (arith, transformed);
                not_failed = ground (arith, transformed, named);
                some_synced = subst (λ x. 0 < synced_in x) given synced;
                none_refused = (
                  omega (arith, some_refused),
                  (
                    omega (arith, some_refused),
                    (
                      omega (arith, some_refused),
                      (
                        omega (arith, some_refused),
                        (omega (arith, some_refused), (omega (arith, some_refused), tt)),
                      ),
                    ),
                  ),
                );
              },
            )
      ]
    ]
