-- ===== src/Base/Effects.antt =====
-- Statements that change a state and may throw: what was written before a throw stays written.
use Prim.Native.String.{String}
use mathlib.Core.List.{List, [], ◌∷◌}
use mathlib.Core.Path.{◌≡◌, refl}
use mathlib.Core.Logic.{◌⊎◌, inl, inr}

-- The errors of packages/shared/src/errors.ts that the program tells apart, with their messages.
pub data Error : Type 0 where
  validation : String → Error
  api : String → Error
  rate_limit : String → Error
  outcome_unknown : String → Error
  other : String → Error

abbrev pub message : Error → String
message (validation m) = m
message (api m) = m
message (rate_limit m) = m
message (outcome_unknown m) = m
message (other m) = m

pub data Result {ℓ} (A : Type ℓ) : Type ℓ where
  ok : A → Result A
  err : Error → Result A

pub Result-cases {ℓ} :
    {A : Type ℓ} (r : Result A) → ((a : A) × (r ≡ ok a)) ⊎ ((e : Error) × (r ≡ err e))
Result-cases (ok a) = inl (a, refl)
Result-cases (err e) = inr (e, refl)

-- A property of the value, if there is one.
abbrev pub OnOk {ℓ κ} : {A : Type ℓ} → (A → Type κ) → Result A → Type κ
OnOk P (ok a) = P a
OnOk P (err e) = Unit

abbrev pub M : Type 0 → Type 0 → Type 0
M S A = S → Result A × S

module _ {S : Type 0} where
  abbrev pub pure : {A : Type 0} → A → M S A
  pure a s = (ok a, s)

  abbrev pub throw : {A : Type 0} → Error → M S A
  throw e s = (err e, s)

  abbrev pub gets : {A : Type 0} → (S → A) → M S A
  gets f s = (ok (f s), s)

  abbrev pub modify : (S → S) → M S (Unit {0})
  modify f s = (ok tt, f s)

  abbrev pub and_then : {A B : Type 0} → Result A → (A → M S B) → M S B
  and_then (ok a) f = f a
  and_then (err e) f = throw e

  infixl 5 ◌>>=◌ ◌>>◌
  abbrev pub ◌>>=◌ : {A B : Type 0} → M S A → (A → M S B) → M S B
  ◌>>=◌ m f s = let (r, s') = m s in and_then r f s'

  abbrev pub ◌>>◌ : {B : Type 0} → M S (Unit {0}) → M S B → M S B
  m >> k = m >>= λ _. k

  -- `try { m } catch (err) { handler(err) }`
  abbrev pub recover : {A : Type 0} → (Error → M S A) → Result A → M S A
  recover handler (ok a) s = (ok a, s)
  recover handler (err e) s = handler e s

  abbrev pub try_catch : {A : Type 0} → M S A → (Error → M S A) → M S A
  try_catch m handler s = let (r, s') = m s in recover handler r s'

  -- The value of a `try` as data, for code that continues in both branches.
  abbrev pub attempt : {A : Type 0} → M S A → M S (Result A)
  attempt m s = let (r, s') = m s in (ok r, s')

  -- `for (const x of xs) await body(x)`
  abbrev pub for_each : {A : Type 0} → List A → (A → M S (Unit {0})) → M S (Unit {0})
  for_each [] body = pure tt
  for_each (x ∷ xs) body = body x >> for_each xs body

-- What holds of the value and the state of a run that does not throw.
module _ {ℓ} {S A : Type 0} where
  abbrev pub Ensures : (A → S → Type ℓ) → Result A × S → Type ℓ
  Ensures P out = OnOk (λ a. P a out.1) out.0

module _ {ℓ κ} {S A B : Type 0} (P : A → S → Type ℓ) (Q : B → S → Type κ) (f : A → M S B)
    (then : (a : A) (s : S) → P a s → Ensures Q (f a s)) where
  and_then-Ensures : (r : Result A) (s : S) → Ensures P (r, s) → Ensures Q (and_then r f s)
  and_then-Ensures (ok a) s h = then a s h
  and_then-Ensures (err e) s h = tt

  pub >>=-Ensures : (m : M S A) (s : S) → Ensures P (m s) → Ensures Q ((m >>= f) s)
  >>=-Ensures m s h = and_then-Ensures (m s).0 (m s).1 h

pub OnOk-nothing : {A : Type 0} (r : Result A) → OnOk (λ _. Unit {0}) r
OnOk-nothing (ok a) = tt
OnOk-nothing (err e) = tt

-- An invariant of the state, kept whether or not a run throws.
module _ {ℓ} {S : Type 0} (P : S → Type ℓ) where
  abbrev pub Keeps : {A : Type 0} → M S A → Type ℓ
  Keeps m = (s : S) → P s → P (m s).1

  module _ {A B : Type 0} (m : M S A) (f : A → M S B) (kept : Keeps m)
      (then : (a : A) → Keeps (f a)) where
    and_then-Keeps : (r : Result A) → Keeps (and_then r f)
    and_then-Keeps (ok a) s h = then a s h
    and_then-Keeps (err e) s h = h

    pub >>=-Keeps : Keeps (m >>= f)
    >>=-Keeps s h = and_then-Keeps (m s).0 (m s).1 (kept s h)

  module _ {A : Type 0} (m : M S A) (handler : Error → M S A) (kept : Keeps m)
      (handled : (e : Error) → Keeps (handler e)) where
    recover-Keeps : (r : Result A) → Keeps (recover handler r)
    recover-Keeps (ok a) s h = h
    recover-Keeps (err e) s h = handled e s h

    pub try_catch-Keeps : Keeps (try_catch m handler)
    try_catch-Keeps s h = recover-Keeps (m s).0 (m s).1 (kept s h)
