-- ===== src/Sync/Lifecycle/Returns/Tests.antt =====
-- A run of `syncReturns` on the sample shop, which has one return.
use decathlon_app.Base.{ℕ, [], ◌∷◌, none, some, ok}
use decathlon_app.Sync.Samples.{sample_outside}
use decathlon_app.Sync.Outside.{Outside, DecathlonReturnDto}
use decathlon_app.Sync.Lifecycle.Returns.{ReturnSyncJobPayload}

abbrev poll : ReturnSyncJobPayload
poll = record { shop_id = "shop"; correlation_id = none }

abbrev one_return : DecathlonReturnDto
one_return = record {
  id = "ret1";
  order_id = some "D1";
  order_commercial_id = none;
  state = some "RECEIVED";
  reason_code = none;
  rma = none;
  tracking = none;
}

abbrev returning : Outside ℕ ℕ
returning = record sample_outside { list_newest_returns = λ _. ok (one_return ∷ []) }
