-- ===== src/Sync/Lines/Tests.antt =====
-- One refunded line on the lines of the sample order.
use decathlon_app.Base.{◌+◌, ◌≤◌, [], ◌∷◌, ◌≡◌}
use decathlon_app.Sync.Samples.{two_lines, line_ref}
use decathlon_app.Sync.Lines.{capacity_of, resolve_lines}
use decathlon_app.Sync.Lines.Capacity.{
  room, placed_on, total_placed, total_quantity, resolve_lines-Moves,
}

resolve_lines-Moves_example :
    (total_placed (resolve_lines two_lines (line_ref tt ∷ [])).0
        + total_quantity (resolve_lines two_lines (line_ref tt ∷ [])).1
      ≡ 1)
    × (placed_on "D1-1" (resolve_lines two_lines (line_ref tt ∷ [])).0
        ≤ room "D1-1" (capacity_of [] two_lines))
resolve_lines-Moves_example = resolve_lines-Moves {E = Unit {0}} two_lines (line_ref tt ∷ []) "D1-1"
