-- ===== src/Sync/Lifecycle/Returns/Isolation.antt =====
-- A return that cannot be applied does not stop the others.
use decathlon_app.Base.{
  String, List, [], ◌∷◌, ◌≡◌, ok, is_some, lookup, Bool, true, none, Result, All, ◌⊎◌,
}
use decathlon_app.Sync.Outside.{Outside, DecathlonReturnDto}
use decathlon_app.Sync.Store.Rows.{World}
use decathlon_app.Sync.Store.Claims.{find_return}
use decathlon_app.Sync.Lifecycle.Returns.{apply_return, order_of_return}

module _ {Num R : Type 0} (o : Outside Num R) where
  -- The state after every return has been applied, one after the other, as far as each one gets.
  abbrev pub each_applied :
      String → String → List (String × DecathlonReturnDto) → World Num R → World Num R
  each_applied shop_id correlation_id [] w = w
  each_applied shop_id correlation_id (entry ∷ entries) w =
      each_applied shop_id correlation_id entries
        (apply_return o shop_id entry.1 correlation_id w).1

  -- The shop has a row for a return.
  abbrev pub has_row : String → String → World Num R → Bool
  has_row shop_id id w = is_some (find_return shop_id id w.db)

  -- The shop has no order for a return, or has a row for it.
  abbrev pub IsKept : String → World Num R → World Num R → String × DecathlonReturnDto → Type 0
  IsKept shop_id w after entry =
      (order_of_return shop_id entry.1 w.db ≡ none) ⊎ (has_row shop_id entry.1.id after ≡ true)

  -- What a run of `syncReturns` promises: it ends well, after every return of the newest page, and
  -- every open one that was asked for, has been applied.
  pub record AppliesAll (shop_id correlation_id : String) (newest : List DecathlonReturnDto)
      (w : World Num R) (out : Result (Unit {0}) × World Num R) : Type 0 where
    pub seen : List (String × DecathlonReturnDto)
    pub newest_seen : All (λ (ret : DecathlonReturnDto). is_some (lookup ret.id seen) ≡ true) newest
    pub result : out ≡ (ok tt, each_applied shop_id correlation_id seen w)
    pub kept : All (IsKept shop_id w out.1) seen

-- Every key of the one list is one of the other.
abbrev Grows : List (String × DecathlonReturnDto) → List (String × DecathlonReturnDto) → Type 0
Grows seen seen' =
    (id : String) → is_some (lookup id seen) ≡ true → is_some (lookup id seen') ≡ true
