-- ===== src/Sync/Batching/Pieces.antt =====
-- Chunking loses nothing, keeps the order, and respects the size.
use Prim.Native.Nat.add
use native.Mathlib.Nat.{add-zero, suc-add}
use mathlib.Core.List.{append_assoc, append-nil}
use decathlon_app.Base.{
  ℕ, zero, suc, ◌+◌, ◌≤◌, ◌<◌, List, [], ◌∷◌, ◌++◌, ◌≡◌, refl, ok, arith, All, length, take, drop,
  All-append, length-drop, length-take-le, take-append-drop, ltb, ltb→lt, Bool-cases, inl, inr, ◌∙◌,
}
use decathlon_app.Sync.Batching.{chunk_from, chunk}

module _ {A : Type 0} where
  abbrev pub flatten : List (List A) → List A
  flatten [] = []
  flatten (xs ∷ xss) = xs ++ flatten xss

  flatten-append : (xss yss : List (List A)) → flatten (xss ++ yss) ≡ flatten xss ++ flatten yss
  flatten-append [] yss = refl
  flatten-append (xs ∷ xss) yss = rw (flatten-append xss yss, append_assoc)

  drop-add : (i k : ℕ) (xs : List A) → drop (i + k) xs ≡ drop k (drop i xs)
  drop-add zero k xs = simp add.zero
  drop-add (suc i) zero [] = simp add-zero
  drop-add (suc i) (suc k) [] = simp (add.suc)
  drop-add (suc i) k (x ∷ xs) = simp (suc-add) (drop-add i k xs)

  drop_of_length-le : (i : ℕ) (xs : List A) → length xs ≤ i → drop i xs ≡ []
  drop_of_length-le zero [] h = refl
  drop_of_length-le (suc i) [] h = refl
  drop_of_length-le zero (x ∷ xs) h = absurd (omega arith)
  drop_of_length-le (suc i) (x ∷ xs) h = drop_of_length-le i xs (omega arith)

  length-pos_of_drop : (i : ℕ) (xs : List A) → i < length xs → 0 < length (drop i xs)
  length-pos_of_drop i xs h = omega (arith, length-drop i xs)

  length-take-pos : (k : ℕ) (xs : List A) → 0 < k → 0 < length xs → 0 < length (take k xs)
  length-take-pos zero xs hk hx = absurd (omega arith)
  length-take-pos (suc k) [] hk hx = absurd (omega arith)
  length-take-pos (suc k) (x ∷ xs) hk hx = omega arith

  -- A piece is not empty, and holds at most `size` items.
  abbrev pub IsPiece : ℕ → List A → Type 0
  IsPiece size p = (0 < length p) × (length p ≤ size)

  chunk_from-pieces :
      (fuel : ℕ) (items : List A) (size i : ℕ) (out : List (List A))
      → 0 < size
      → length items ≤ i + fuel
      → All (IsPiece size) out
      → (flatten (chunk_from fuel items size i out) ≡ flatten out ++ drop i items)
        × All (IsPiece size) (chunk_from fuel items size i out)
  unfolding chunk_from
  chunk_from-pieces zero items size i out hs enough ok_out =
      (rw (drop_of_length-le i items (omega arith), append-nil), ok_out)
  chunk_from-pieces (suc fuel) items size i out hs enough ok_out =
      elim (Bool-cases (ltb i (length items))) [
        | inr done ↦
            let stop : chunk_from (suc fuel) items size i out ≡ out = rw (done, chunk_from) in
            rw stop (rw (drop_of_length-le i items (ground arith), append-nil), ok_out)
        | inl more ↦
            let p = take size (drop i items) in
            let next : chunk_from (suc fuel) items size i out
                ≡ chunk_from fuel items size (i + size) (out ++ p ∷ []) =
              rw (more, chunk_from) in
            let piece : IsPiece size p = (
              length-take-pos size (drop i items) hs (length-pos_of_drop i items (ltb→lt _ _ more)),
              length-take-le size (drop i items),
            ) in
            let (all, sizes) =
              chunk_from-pieces fuel items size (i + size) (out ++ p ∷ []) hs (omega arith)
                (All-append (IsPiece size) out (p ∷ []) ok_out (piece, tt)) in
            rw next (
              all ∙ (simp (flatten-append, append_assoc, append-nil, drop-add, take-append-drop)),
              sizes,
            )
      ]

-- With a size above 0, `chunk` returns pieces that put together are the items in their order, and
-- each piece has at least one item and at most `size` of them.
pub chunk-pieces :
    {A : Type 0} (items : List A) (size : ℕ)
    → 0 < size
    → (pieces : List (List A)) × (chunk items size ≡ ok pieces)
      × (flatten pieces ≡ items)
      × All (IsPiece size) pieces
unfolding chunk
chunk-pieces items size hs =
    let (all, sizes) = chunk_from-pieces (length items) items size 0 [] hs (omega arith) tt in
    (chunk_from (length items) items size 0 [], ground arith, all, sizes)
