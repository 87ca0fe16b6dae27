-- ===== src/Sync/Refunds/Tests.antt =====
-- Refunds of the sample order.
use decathlon_app.Base.{ℕ, [], ◌∷◌, none, ◌≡◌, refl, All, flat_map, ◌==◌, lookup, insert}
use decathlon_app.Sync.Samples.{euros, ltb-irreflexive, two_lines, shown_line, line_ref}
use decathlon_app.Sync.Lines.{resolve_lines}
use decathlon_app.Sync.Refunds.{Built, allocate, build_refunds, build_cancellation_refunds}
use decathlon_app.Sync.Refunds.Cancellation.{
  due_refunds, due_problems, build_cancellation_refunds-flat_map,
}
use decathlon_app.Sync.Refunds.Caps.{IsWithin, build_refunds-IsWithin}

build_cancellation_refunds-flat_map_example :
    ((build_cancellation_refunds euros (shown_line ∷ []) "EUR" none).refunds
      ≡ flat_map (due_refunds euros "EUR" none) (shown_line ∷ []))
    × ((build_cancellation_refunds euros (shown_line ∷ []) "EUR" none).problems
        ≡ flat_map (due_problems euros "EUR" none) (shown_line ∷ []))
build_cancellation_refunds-flat_map_example =
    build_cancellation_refunds-flat_map euros (shown_line ∷ []) "EUR" none

abbrev built : Built ℕ
built =
    allocate euros (shown_line ∷ []) (resolve_lines two_lines (line_ref 10 ∷ [])).0 none none "EUR"
      none

build_refunds-IsWithin_example : All (IsWithin euros (shown_line ∷ [])) built.refunds
unfolding build_refunds resolve_lines ◌==◌ lookup insert
build_refunds-IsWithin_example =
    build_refunds-IsWithin euros ltb-irreflexive two_lines (shown_line ∷ []) (line_ref 10 ∷ []) none
      none "EUR" none built refl
