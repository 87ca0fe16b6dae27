-- ===== src/Decathlon/Http/Tests.antt =====
-- A request that is answered with 429 once.
use decathlon_app.Base.{ℕ, zero, suc, ◌+◌, ◌≤◌, true, [], ◌∷◌, none, some, ◌≡◌, refl, arith, length}
use decathlon_app.Decathlon.Http.{Answer, response, done, rate_limit_only, request, backoff_ms}
use decathlon_app.Decathlon.Http.Attempts.{is_settled, is_429, request-ends, request-is_429}

busy_once : ℕ → Answer ℕ
busy_once (suc zero) = response 429 none none
busy_once _ = response 200 none (some 5)

second_attempt :
    request rate_limit_only 5 busy_once
    ≡ record { attempts = 2; waits = 2000 ∷ []; result = done (some 5) }
unfolding request busy_once backoff_ms
second_attempt = refl

request-ends_example :
    (is_settled (request rate_limit_only 5 busy_once).result ≡ true)
    × (1 ≤ (request rate_limit_only 5 busy_once).attempts)
    × ((request rate_limit_only 5 busy_once).attempts ≤ 6)
    × (length (request rate_limit_only 5 busy_once).waits + 1
        ≡ (request rate_limit_only 5 busy_once).attempts)
request-ends_example = request-ends rate_limit_only 5 busy_once

request-is_429_example : is_429 (busy_once 1) ≡ true
unfolding request busy_once backoff_ms
request-is_429_example = request-is_429 5 busy_once 1 (omega arith) (omega arith)
