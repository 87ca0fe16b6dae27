-- ===== src/Sync/Imports.antt =====
-- How an import at Decathlon is followed: the verdict of `pollImportStatus` of
-- packages/sync/src/engine.ts, and the chain of status checks that worker/src/index.ts makes of it.
pub mod Verdicts
pub mod Chain
pub mod Stalled
pub mod Reports
pub mod Poll
pub mod Tests
use decathlon_app.Base.{
  ℕ, zero, suc, ◌+◌, ◌-◌, String, Bool, true, false, not, ◌&&◌, ◌||◌, List, [], ◌∷◌, Option, none,
  some, ◌==◌, get_or, is_some, eqb, leb, ltb, if◌then◌else◌,
}

pub data ImportKind : Type 0 where
  product offer : ImportKind

pub record ImportIntegrationDetails : Type 0 where
  pub products_successfully_synchronized : Option ℕ
  pub rejected_products : Option ℕ
  pub invalid_products : Option ℕ
  pub products_with_wrong_identifiers : Option ℕ
  pub products_with_synchronization_issues : Option ℕ
  pub products_not_accepted_in_time : Option ℕ
  pub products_not_synchronized_in_time : Option ℕ

-- The fields that decide; P42 answers with the second group, OF02 with the first.
pub record ImportStatusResult : Type 0 where
  pub status : Option String
  pub lines_in_error : Option ℕ
  pub lines_in_success : Option ℕ
  pub import_status : Option String
  pub transform_lines_in_error : Option ℕ
  pub transform_lines_in_success : Option ℕ
  pub integration_details : Option ImportIntegrationDetails

-- `PollOutcome`: pending, or terminal with its result.
pub data PollOutcome : Type 0 where
  pending : PollOutcome
  terminal : Bool → PollOutcome

abbrev pub is_status : String → Option String → Bool
is_status s none = false
is_status s (some t) = t == s

abbrev pub status_of : ImportKind → ImportStatusResult → Option String
status_of product r = r.import_status
status_of offer r = r.status

abbrev pub lines_in_error_of : ImportKind → ImportStatusResult → Option ℕ
lines_in_error_of product r = r.transform_lines_in_error
lines_in_error_of offer r = r.lines_in_error

abbrev pub lines_in_success_of : ImportKind → ImportStatusResult → Option ℕ
lines_in_success_of product r = r.transform_lines_in_success
lines_in_success_of offer r = r.lines_in_success

abbrev pub is_final : Option String → Bool
is_final s = is_status "COMPLETE" s || is_status "COMPLETE_WITH_ERRORS" s || is_status "FAILED" s

abbrev pub transform_ok : ImportKind → ImportStatusResult → Bool
transform_ok kind r =
    if is_some (lines_in_error_of kind r) || is_some (lines_in_success_of kind r)
    then eqb (get_or (lines_in_error_of kind r) 0) 0
    else not (is_status "FAILED" (status_of kind r))

abbrev pub failures_in : Option ImportIntegrationDetails → ℕ
failures_in none = 0
failures_in (some d) =
    get_or d.rejected_products 0
    + get_or d.invalid_products 0
    + get_or d.products_with_wrong_identifiers 0
    + get_or d.products_with_synchronization_issues 0
    + get_or d.products_not_accepted_in_time 0
    + get_or d.products_not_synchronized_in_time 0

abbrev pub synced_in : Option ImportIntegrationDetails → ℕ
synced_in none = 0
synced_in (some d) = get_or d.products_successfully_synchronized 0

unfoldable pub import_verdict : ImportKind → ImportStatusResult → PollOutcome
unfolding ◌==◌
import_verdict product r =
    if not (is_final (status_of product r))
    then pending
    else if transform_ok product r
        && eqb (synced_in r.integration_details) 0
        && eqb (failures_in r.integration_details) 0
    then pending
    else terminal (
        transform_ok product r
        && eqb (failures_in r.integration_details) 0
        && ltb 0 (synced_in r.integration_details))
import_verdict offer r =
    if not (is_final (status_of offer r)) then pending else terminal (transform_ok offer r)

-- packages/sync/src/queues.ts
abbrev pub max_import_poll_attempts : ℕ
max_import_poll_attempts = 60

unfoldable pub import_poll_delay_ms : ℕ → ℕ
import_poll_delay_ms attempt =
    if leb attempt 10 then 60000 else if leb attempt 25 then 300000 else 1800000

-- What the worker does with an outcome (`onResult`): the next check, the failure of a stalled import
-- with the number of its checks, the offers of the products, or nothing.
pub data Next : Type 0 where
  poll_again : ℕ → ℕ → Next
  give_up : ℕ → Next
  sync_offers : Next
  rest : Next

unfoldable pub on_result : ImportKind → Option ℕ → PollOutcome → Next
on_result kind poll_attempt pending =
    let attempt = get_or poll_attempt 1 + 1 in
    if ltb max_import_poll_attempts attempt
    then give_up (attempt - 1)
    else poll_again attempt (import_poll_delay_ms attempt)
on_result product poll_attempt (terminal true) = sync_offers
on_result kind poll_attempt (terminal ok) = rest

-- How a chain of checks ends: the number of the last check, what it found, and what was done then.
pub record ChainEnd : Type 0 where
  pub polls : ℕ
  pub waited_ms : ℕ
  pub outcome : PollOutcome
  pub next : Next

-- The checks from number `attempt` on; `answers` gives what Decathlon says at each. Every check is
-- answered: one that throws is a failed job of the queue, which is not modelled.
unfoldable pub chain_from : ImportKind → (ℕ → ImportStatusResult) → ℕ → ℕ → ℕ → ChainEnd
chain_from kind answers zero attempt waited = record {
  polls = attempt;
  waited_ms = waited;
  outcome = pending;
  next = rest;
}
chain_from kind answers (suc fuel) attempt waited =
    let outcome = import_verdict kind (answers attempt) in
    elim (on_result kind (some attempt) outcome) [
      | poll_again next delay ↦ chain_from kind answers fuel next (waited + delay)
      | give_up n ↦ record {
        polls = attempt;
        waited_ms = waited;
        outcome = outcome;
        next = give_up n;
      }
      | sync_offers ↦ record {
        polls = attempt;
        waited_ms = waited;
        outcome = outcome;
        next = sync_offers;
      }
      | rest ↦ record { polls = attempt; waited_ms = waited; outcome = outcome; next = rest }
    ]

unfoldable pub poll_chain : ImportKind → (ℕ → ImportStatusResult) → ChainEnd
poll_chain kind answers = chain_from kind answers max_import_poll_attempts 1 0
