-- ===== src/Sync/Batching.antt =====
-- packages/sync/src/batching.ts
pub mod Pieces
pub mod Tests
use decathlon_app.Base.{
  ℕ, zero, suc, ◌+◌, List, [], ◌∷◌, ◌++◌, Result, ok, err, other, true, false, eqb, ltb, length,
  take, drop, if◌then◌else◌,
}

abbrev pub default_import_batch_size : ℕ
default_import_batch_size = 200

module _ {A : Type 0} where
  -- The `for` loop, with fuel: the index `i` and the pieces so far.
  pub chunk_from : ℕ → List A → ℕ → ℕ → List (List A) → List (List A)
  chunk_from zero items size i out = out
  chunk_from (suc fuel) items size i out = elim (ltb i (length items)) [
    | true ↦ chunk_from fuel items size (i + size) (out ++ take size (drop i items) ∷ [])
    | false ↦ out
  ]

  -- A round moves the index by at least one, so there are at most as many rounds as items.
  unfoldable pub chunk : List A → ℕ → Result (List (List A))
  unfolding chunk_from
  chunk items size =
      if eqb size 0
      then err (other "chunk: size must be > 0")
      else ok (chunk_from (length items) items size 0 [])
