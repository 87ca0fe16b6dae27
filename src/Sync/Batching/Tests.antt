-- ===== src/Sync/Batching/Tests.antt =====
-- Chunks of a short list.
use decathlon_app.Base.{ℕ, List, [], ◌∷◌, ◌≡◌, arith, ok, All}
use decathlon_app.Sync.Batching.{chunk}
use decathlon_app.Sync.Batching.Pieces.{flatten, IsPiece, chunk-pieces}

abbrev three : List ℕ
three = 7 ∷ 8 ∷ 9 ∷ []

chunk-pieces_example :
    (pieces : List (List ℕ)) × (chunk three 2 ≡ ok pieces)
    × (flatten pieces ≡ three)
    × All (IsPiece 2) pieces
chunk-pieces_example = chunk-pieces three 2 (omega arith)
