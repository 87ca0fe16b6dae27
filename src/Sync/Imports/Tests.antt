-- ===== src/Sync/Imports/Tests.antt =====
-- A product import that is transformed, then integrated.
use decathlon_app.Base.{ℕ, String, zero, suc, true, none, some, ◌≡◌, refl}
use decathlon_app.Sync.Imports.{
  product, ImportStatusResult, ImportIntegrationDetails, pending, terminal, import_verdict,
  import_poll_delay_ms, on_result, chain_from, poll_chain, sync_offers,
}
use decathlon_app.Sync.Imports.Verdicts.{IsDone, import_verdict-success}
use decathlon_app.Sync.Imports.Chain.{Ends, poll_chain-Ends}

abbrev transformed : ImportStatusResult
transformed = record {
  status = none;
  lines_in_error = none;
  lines_in_success = none;
  import_status = some "COMPLETE";
  transform_lines_in_error = some 0;
  transform_lines_in_success = some 4;
  integration_details = none;
}

abbrev integrated : ImportStatusResult
integrated = record transformed {
  integration_details = some (record {
    products_successfully_synchronized = some 4;
    rejected_products = none;
    invalid_products = none;
    products_with_wrong_identifiers = none;
    products_with_synchronization_issues = none;
    products_not_accepted_in_time = none;
    products_not_synchronized_in_time = none;
  });
}

-- An import that Decathlon calls failed, without an integration stage and with counts of 0, counts
-- as unfinished.
abbrev failed_early : ImportStatusResult
failed_early = record transformed {
  import_status = some "FAILED";
  transform_lines_in_success = some 0;
}

failed_early-pending : import_verdict product failed_early ≡ pending
unfolding import_verdict
failed_early-pending = refl

answers : ℕ → ImportStatusResult
answers (suc zero) = transformed
answers _ = integrated

second_check :
    poll_chain product answers
    ≡ record { polls = 2; waited_ms = 60000; outcome = terminal true; next = sync_offers }
unfolding poll_chain chain_from import_verdict on_result import_poll_delay_ms answers
second_check = refl

import_verdict-success_example :
    (status : String) × (d : ImportIntegrationDetails) × IsDone integrated status d
unfolding import_verdict
import_verdict-success_example = import_verdict-success integrated refl

poll_chain-Ends_example : Ends product answers (poll_chain product answers)
poll_chain-Ends_example = poll_chain-Ends product answers
