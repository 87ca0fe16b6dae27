-- ===== src/Sync/Imports/Chain.antt =====
-- A chain of status checks ends, and how.
use decathlon_app.Base.{
  ℕ, zero, suc, ◌+◌, ◌≤◌, ◌<◌, Bool, true, false, some, ◌≡◌, ◌⊎◌, inl, inr, refl, ap, arith, eqb,
  ltb, Bool-cases,
}
use decathlon_app.Sync.Imports.{
  ImportKind, product, offer, ImportStatusResult, PollOutcome, pending, terminal, import_verdict,
  give_up, sync_offers, rest, on_result, ChainEnd, chain_from, poll_chain, max_import_poll_attempts,
  import_poll_delay_ms,
}

unfoldable pub is_pending : PollOutcome → Bool
is_pending pending = true
is_pending (terminal ok) = false

data OutcomeCases (x : PollOutcome) : Type 0 where
  waits : x ≡ pending → OutcomeCases x
  ends : (ok : Bool) → x ≡ terminal ok → OutcomeCases x

outcome_cases : (x : PollOutcome) → OutcomeCases x
outcome_cases pending = waits refl
outcome_cases (terminal ok) = ends ok refl

on_result-terminal :
    (kind : ImportKind) (attempt : ℕ) (ok : Bool)
    → (on_result kind (some attempt) (terminal ok) ≡ sync_offers)
      ⊎ (on_result kind (some attempt) (terminal ok) ≡ rest)
unfolding on_result
on_result-terminal product attempt true = inl refl
on_result-terminal product attempt false = inr refl
on_result-terminal offer attempt true = inr refl
on_result-terminal offer attempt false = inr refl

module _ (kind : ImportKind) (answers : ℕ → ImportStatusResult) where
  -- Check number `k` finds the import unfinished.
  abbrev pub IsPendingAt : ℕ → Type 0
  IsPendingAt k = is_pending (import_verdict kind (answers k)) ≡ true

  -- The chain ends with a check that finds a result, or gives up after the last one.
  pub record Closes (out : ChainEnd) : Type 0 where
    pub at_most : out.polls ≤ max_import_poll_attempts
    pub found : out.outcome ≡ import_verdict kind (answers out.polls)
    pub closed :
        (is_pending out.outcome ≡ false)
        ⊎ ((out.polls ≡ max_import_poll_attempts) × (out.next ≡ give_up max_import_poll_attempts))

  ended :
      (fuel attempt waited : ℕ) (ok : Bool)
      → attempt ≤ max_import_poll_attempts
      → import_verdict kind (answers attempt) ≡ terminal ok
      → Closes (chain_from kind answers (suc fuel) attempt waited)
  unfolding chain_from is_pending
  ended fuel attempt waited ok le e = elim (on_result-terminal kind attempt ok) [
    | inl offers ↦
        rw (e, chain_from, offers)
          (record { at_most = le; found = refl; closed = inl (ap is_pending e) })
    | inr done ↦
        rw (e, chain_from, done)
          (record { at_most = le; found = refl; closed = inl (ap is_pending e) })
  ]

  ended-polls :
      (fuel attempt waited : ℕ) (ok : Bool)
      → import_verdict kind (answers attempt) ≡ terminal ok
      → (chain_from kind answers (suc fuel) attempt waited).polls ≡ attempt
  unfolding chain_from
  ended-polls fuel attempt waited ok e = elim (on_result-terminal kind attempt ok) [
    | inl offers ↦ rw (e, chain_from, offers) refl
    | inr done ↦ rw (e, chain_from, done) refl
  ]

  chain_from-Closes :
      (fuel attempt waited : ℕ)
      → fuel + attempt ≡ suc max_import_poll_attempts
      → attempt ≤ max_import_poll_attempts
      → Closes (chain_from kind answers fuel attempt waited)
  unfolding chain_from on_result is_pending
  chain_from-Closes zero attempt waited left le = absurd (omega arith)
  chain_from-Closes (suc fuel) attempt waited left le =
      elim (outcome_cases (import_verdict kind (answers attempt))) [
        | ends ok e ↦ ended fuel attempt waited ok le e
        | waits e ↦ elim (Bool-cases (ltb max_import_poll_attempts (attempt + 1))) [
          | inl last ↦
              let here : attempt ≡ 60 = ground arith in
              rw (e, chain_from, on_result, last)
                (record {
                  at_most = le;
                  found = refl;
                  closed = inr (here, ap give_up (omega arith));
                })
          | inr more ↦
              rw (e, chain_from, on_result, more)
                (chain_from-Closes fuel (attempt + 1) (waited + import_poll_delay_ms (attempt + 1))
                  (omega arith) (ground arith))
        ]
      ]

  -- No check before the last one finds a result.
  chain_from-IsPendingAt :
      (fuel attempt waited k : ℕ)
      → attempt ≤ k
      → k < (chain_from kind answers fuel attempt waited).polls
      → IsPendingAt k
  unfolding chain_from on_result is_pending
  chain_from-IsPendingAt zero attempt waited k first before = absurd (omega arith)
  chain_from-IsPendingAt (suc fuel) attempt waited k first before =
      let only_one : (chain_from kind answers (suc fuel) attempt waited).polls ≡ attempt → ⊥ =
        λ one. omega arith in
      elim (outcome_cases (import_verdict kind (answers attempt))) [
        | ends ok e ↦ absurd (only_one (ended-polls fuel attempt waited ok e))
        | waits e ↦ elim (Bool-cases (ltb max_import_poll_attempts (attempt + 1))) [
          | inl last ↦ absurd (only_one (rw (e, chain_from, on_result, last) refl))
          | inr more ↦ elim (Bool-cases (eqb k attempt)) [
            | inl this ↦ let same : k ≡ attempt = ground arith in rw (same, e) refl
            | inr later ↦
                let step : (chain_from kind answers (suc fuel) attempt waited).polls
                    ≡ (chain_from kind answers fuel (attempt + 1)
                        (waited + import_poll_delay_ms (attempt + 1))).polls =
                  rw (e, chain_from, on_result, more) refl in
                chain_from-IsPendingAt fuel (attempt + 1)
                  (waited + import_poll_delay_ms (attempt + 1)) k (ground arith)
                  (omega (arith, step))
          ]
        ]
      ]

-- The chain ends with the first check that finds a result, or gives up after the last one.
pub record Ends (kind : ImportKind) (answers : ℕ → ImportStatusResult) (out : ChainEnd)
    : Type 0 where
  pub closes : Closes kind answers out
  pub first : (k : ℕ) → 1 ≤ k → k < out.polls → IsPendingAt kind answers k

-- A chain of checks of an import ends after at most 60 of them: with the first check that finds a
-- result, or, if all 60 find the import unfinished, by the failure of a stalled import.
pub poll_chain-Ends :
    (kind : ImportKind) (answers : ℕ → ImportStatusResult)
    → Ends kind answers (poll_chain kind answers)
unfolding poll_chain
poll_chain-Ends kind answers = record {
  closes = chain_from-Closes kind answers 60 1 0 refl (omega arith);
  first = λ k from before. chain_from-IsPendingAt kind answers 60 1 0 k from before;
}
