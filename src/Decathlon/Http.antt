-- ===== src/Decathlon/Http.antt =====
-- `DecathlonHttpClient.request` and `requestMultipart` of packages/decathlon/src/http-client.ts: the
-- loop of attempts. The network is a function from the number of the attempt to what `fetch` and the
-- reading of the body give.
pub mod Attempts
pub mod Tests
use decathlon_app.Base.{
  ℕ, zero, suc, ◌+◌, ◌*◌, ◌^◌, String, Bool, true, false, not, ◌&&◌, ◌||◌, List, [], ◌∷◌, ◌++◌,
  Option, none, some, eqb, ltb, leb, if◌then◌else◌,
}

-- The errors that leave `request`.
pub data Failure : Type 0 where
  rate_limit : Option ℕ → Failure
  outcome_unknown : Failure
  api : Option ℕ → Failure

-- What one `fetch` gives: it throws (a timeout, a lost connection), or a response: its status, the
-- seconds of `Retry-After`, and whether the body can be read as what is expected.
pub data Answer (T : Type 0) : Type 0 where
  lost : Answer T
  response : ℕ → Option ℕ → Option T → Answer T

-- What an attempt comes to.
pub data Step (T : Type 0) : Type 0 where
  done : Option T → Step T
  fails : Failure → Step T
  again : ℕ → Step T
  gives_up : Step T

-- What `request` comes to, with the number of attempts made and the waits between them.
pub record Outcome (T : Type 0) : Type 0 where
  pub attempts : ℕ
  pub waits : List ℕ
  pub result : Step T

abbrev pub is_retryable : ℕ → Bool
is_retryable status = eqb status 429 || eqb status 502 || eqb status 503

abbrev pub is_ok : ℕ → Bool
is_ok status = leb 200 status && leb status 299

abbrev pub backoff_cap : ℕ
backoff_cap = 32000

unfoldable pub backoff_ms : ℕ → Option ℕ → ℕ
backoff_ms attempt (some (suc seconds)) = suc seconds * 1000
backoff_ms attempt _ =
    if leb (2 ^ attempt * 1000) backoff_cap then 2 ^ attempt * 1000 else backoff_cap

-- `safeOnly`, or the upload of a file by `requestMultipart`, which has no policy and in which a 204 is
-- no special case.
pub data RetryPolicy : Type 0 where
  default rate_limit_only multipart : RetryPolicy

abbrev pub safe_only : RetryPolicy → Bool
safe_only default = false
safe_only rate_limit_only = true
safe_only multipart = false

abbrev pub is_multipart : RetryPolicy → Bool
is_multipart multipart = true
is_multipart _ = false

module _ {T : Type 0} (policy : RetryPolicy) (max_retries attempt : ℕ) where
  -- The `catch` block for an error that is no `DecathlonApiError`.
  abbrev pub caught : Step T
  caught =
      if safe_only policy
      then fails outcome_unknown
      else if ltb max_retries attempt
      then gives_up
      else again (backoff_ms attempt none)

  abbrev pub read_body : ℕ → Option T → Step T
  read_body status body =
      if eqb status 204 && not (is_multipart policy)
      then done none
      else elim body [ none ↦ caught | some x ↦ done (some x) ]

  abbrev pub judge_response : ℕ → Option ℕ → Option T → Step T
  judge_response status retry_after body =
      if eqb status 429
      then if ltb max_retries attempt
        then fails (rate_limit retry_after)
        else again (backoff_ms attempt retry_after)
      else if safe_only policy && leb 500 status
      then fails outcome_unknown
      else if is_retryable status && leb attempt max_retries
      then again (backoff_ms attempt none)
      else if not (is_ok status)
      then fails (api (some status))
      else read_body status body

  unfoldable pub judge : Answer T → Step T
  judge lost = caught
  judge (response status retry_after body) = judge_response status retry_after body

-- The `while` loop, for `fuel` more attempts after `made`. The loop ends without an error of its own
-- in the last `throw`.
module _ {T : Type 0} (policy : RetryPolicy) (max_retries : ℕ) (network : ℕ → Answer T) where
  abbrev pub stopped : ℕ → List ℕ → Step T → Outcome T
  stopped made waits result = record { attempts = made; waits = waits; result = result }

  unfoldable pub attempts_from : ℕ → ℕ → List ℕ → Outcome T
  unfolding judge
  attempts_from zero made waits = stopped made waits (fails (api none))
  attempts_from (suc fuel) made waits =
      elim (judge policy max_retries (suc made) (network (suc made))) [
        | done x ↦ stopped (suc made) waits (done x)
        | fails e ↦ stopped (suc made) waits (fails e)
        | gives_up ↦ stopped (suc made) waits (fails (api none))
        | again ms ↦ attempts_from fuel (suc made) (waits ++ ms ∷ [])
      ]

  -- `attempt <= maxRetries` lets `max_retries + 1` attempts start.
  unfoldable pub request : Outcome T
  unfolding attempts_from
  request = attempts_from (suc max_retries) 0 []

unfoldable pub request_multipart : {T : Type 0} → ℕ → (ℕ → Answer T) → Outcome T
unfolding request
request_multipart max_retries network = request multipart max_retries network
