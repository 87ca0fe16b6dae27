-- ===== src/Decathlon/Http/Attempts.antt =====
-- How many requests `DecathlonHttpClient.request` makes, and when it makes another one.
use decathlon_app.Base.{
  ℕ, zero, suc, ◌+◌, ◌≤◌, ◌<◌, Bool, true, false, List, [], ◌∷◌, ◌++◌, Option, ◌≡◌, inl, inr, refl,
  Bool-cases, subst, sym, arith, eqb, length, length-append,
}
use decathlon_app.Decathlon.Http.{
  Answer, lost, response, Step, done, fails, again, gives_up, Outcome, RetryPolicy, rate_limit_only,
  default, multipart, judge, attempts_from, request, Failure,
}

module _ {T : Type 0} where
  unfoldable pub is_429 : Answer T → Bool
  is_429 lost = false
  is_429 (response status retry_after body) = eqb status 429

  unfoldable pub is_settled : Step T → Bool
  is_settled (done x) = true
  is_settled (fails e) = true
  is_settled (again ms) = false
  is_settled gives_up = false

  data Verdict (s : Step T) : Type 0 where
    succeeds : (x : Option T) → s ≡ done x → Verdict s
    refuses : (e : Failure) → s ≡ fails e → Verdict s
    stops : s ≡ gives_up → Verdict s
    resends : (ms : ℕ) → s ≡ again ms → Verdict s

  verdict : (s : Step T) → Verdict s
  verdict (done x) = succeeds x refl
  verdict (fails e) = refuses e refl
  verdict (again ms) = resends ms refl
  verdict gives_up = stops refl

  -- Another attempt is made only while there are some left.
  judge-again :
      (policy : RetryPolicy) (max_retries attempt : ℕ) (a : Answer T) (ms : ℕ)
      → judge policy max_retries attempt a ≡ again ms
      → attempt ≤ max_retries
  unfolding judge
  judge-again default max_retries attempt lost ms h = ground arith
  judge-again rate_limit_only max_retries attempt lost ms h = ground arith
  judge-again default max_retries attempt (response status retry_after body) ms h = ground arith
  judge-again rate_limit_only max_retries attempt (response status retry_after body) ms h =
      ground arith
  judge-again multipart max_retries attempt lost ms h = ground arith
  judge-again multipart max_retries attempt (response status retry_after body) ms h = ground arith

  judge-is_429 :
      (max_retries attempt : ℕ) (a : Answer T) (ms : ℕ)
      → judge rate_limit_only max_retries attempt a ≡ again ms
      → is_429 a ≡ true
  unfolding judge is_429
  judge-is_429 max_retries attempt lost ms h = ground arith
  judge-is_429 max_retries attempt (response status retry_after body) ms h = ground arith

module _ {T : Type 0} (policy : RetryPolicy) (max_retries : ℕ) (network : ℕ → Answer T) where
  -- What holds of a loop that has `fuel` attempts left after `made`.
  record IsBounded (made : ℕ) (waits : List ℕ) (out : Outcome T) : Type 0 where
    pub settled : is_settled out.result ≡ true
    pub one_more : made < out.attempts
    pub at_most : out.attempts ≤ suc max_retries
    pub waited : length out.waits + suc made ≡ length waits + out.attempts

  stopped-IsBounded :
      (fuel made : ℕ) (waits : List ℕ) (last : Step T)
      → suc fuel + made ≡ suc max_retries
      → is_settled last ≡ true
      → IsBounded made waits (record { attempts = suc made; waits = waits; result = last })
  stopped-IsBounded fuel made waits last left settled = record {
    settled = settled;
    one_more = omega arith;
    at_most = omega arith;
    waited = refl;
  }

  resent-IsBounded :
      (made : ℕ) (waits : List ℕ) (ms : ℕ) (out : Outcome T)
      → IsBounded (suc made) (waits ++ ms ∷ []) out
      → IsBounded made waits out
  resent-IsBounded made waits ms out rest =
      let longer = length-append waits (ms ∷ []) in
      record {
        settled = rest.settled;
        one_more = omega (arith, rest.one_more);
        at_most = rest.at_most;
        waited = omega (arith, longer, rest.waited);
      }

  -- The rest of a loop after an attempt that is followed by another.
  abbrev Rest : ℕ → Type 0
  Rest fuel =
      (made : ℕ) (waits : List ℕ)
      → fuel + made ≡ suc max_retries
      → made ≤ max_retries
      → IsBounded made waits (attempts_from policy max_retries network fuel made waits)

  attempts_from-IsBounded : (fuel : ℕ) → Rest fuel
  unfolding attempts_from is_settled
  attempts_from-IsBounded zero made waits left more = absurd (omega arith)
  attempts_from-IsBounded (suc fuel) made waits left more =
      elim (verdict (judge policy max_retries (suc made) (network (suc made)))) [
        | succeeds x s ↦ rw (s, attempts_from) (stopped-IsBounded fuel made waits _ left refl)
        | refuses e s ↦ rw (s, attempts_from) (stopped-IsBounded fuel made waits _ left refl)
        | stops s ↦ rw (s, attempts_from) (stopped-IsBounded fuel made waits _ left refl)
        | resends ms s ↦
            let more = judge-again policy max_retries (suc made) (network (suc made)) ms s in
            rw (s, attempts_from)
              (resent-IsBounded made waits ms _
                (attempts_from-IsBounded fuel (suc made) (waits ++ ms ∷ []) (omega arith) more))
      ]

-- With the policy `rate-limit-only`, every answer but the last one was a 429.
module _ {T : Type 0} (max_retries : ℕ) (network : ℕ → Answer T) where
  attempts_from-is_429 :
      (fuel made : ℕ) (waits : List ℕ) (k : ℕ)
      → made < k
      → k < (attempts_from rate_limit_only max_retries network fuel made waits).attempts
      → is_429 (network k) ≡ true
  unfolding attempts_from
  attempts_from-is_429 zero made waits k after before = ground arith
  attempts_from-is_429 (suc fuel) made waits k after before =
      let only_one : (attempts_from rate_limit_only max_retries network (suc fuel) made
              waits).attempts
            ≡ suc made
          → is_429 (network k) ≡ true =
        λ e. absurd (omega (arith, e)) in
      elim (verdict (judge rate_limit_only max_retries (suc made) (network (suc made)))) [
        | succeeds x s ↦ only_one (rw (s, attempts_from) refl)
        | refuses r s ↦ only_one (rw (s, attempts_from) refl)
        | stops s ↦ only_one (rw (s, attempts_from) refl)
        | resends ms s ↦ elim (Bool-cases (eqb k (suc made))) [
          | inl this ↦
              let same : k ≡ suc made = ground arith in
              subst (λ i. is_429 (network i) ≡ true) (sym same)
                (judge-is_429 max_retries (suc made) (network (suc made)) ms s)
          | inr later ↦
              let e : attempts_from rate_limit_only max_retries network (suc fuel) made waits
                  ≡ attempts_from rate_limit_only max_retries network fuel (suc made)
                      (waits ++ ms ∷ []) =
                rw (s, attempts_from) refl in
              attempts_from-is_429 fuel (suc made) (waits ++ ms ∷ []) k (ground arith)
                (subst (λ out. k < out.attempts) e before)
        ]
      ]

-- A request comes to an end: after at least one and at most `maxRetries + 1` attempts there is a
-- result or an error, and the client waits once between any two attempts.
pub request-ends :
    {T : Type 0} (policy : RetryPolicy) (max_retries : ℕ) (network : ℕ → Answer T)
    → (is_settled (request policy max_retries network).result ≡ true)
      × (1 ≤ (request policy max_retries network).attempts)
      × ((request policy max_retries network).attempts ≤ max_retries + 1)
      × (length (request policy max_retries network).waits + 1
          ≡ (request policy max_retries network).attempts)
unfolding request
request-ends policy max_retries network =
    let b =
      attempts_from-IsBounded policy max_retries network (suc max_retries) 0 [] (omega arith)
        (omega arith) in
    (b.settled, b.one_more, omega (arith, b.at_most), omega (arith, b.waited))

-- With the policy `rate-limit-only` every attempt before the last one was answered with a 429, so
-- that only the last one can have been applied by Decathlon.
pub request-is_429 :
    {T : Type 0} (max_retries : ℕ) (network : ℕ → Answer T) (k : ℕ)
    → 1 ≤ k
    → k < (request rate_limit_only max_retries network).attempts
    → is_429 (network k) ≡ true
unfolding request
request-is_429 max_retries network k first before =
    attempts_from-is_429 max_retries network (suc max_retries) 0 [] k first before
