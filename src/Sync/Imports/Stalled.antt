-- ===== src/Sync/Imports/Stalled.antt =====
-- `failStalledImport` of packages/sync/src/engine.ts: the end of a chain of checks that found no result.
use decathlon_app.Base.{
  ℕ, String, List, [], ◌∷◌, Option, none, some, get_or, concat, M, pure, ◌>>=◌, ◌>>◌,
}
use decathlon_app.Sync.Money.{NumOps}
use decathlon_app.Sync.Outside.{Outside}
use decathlon_app.Sync.Store.Rows.{SyncJobType, product_sync, offer_sync, SyncStatus, World}
use decathlon_app.Sync.Store.Jobs.{resolve_pending, finish_job}
use decathlon_app.Sync.Lifecycle.{correlation_of}
use decathlon_app.Sync.Imports.{ImportKind, product, offer, max_import_poll_attempts}

pub record ImportStatusPollJobPayload : Type 0 where
  pub shop_id : String
  pub import_id : String
  pub kind : ImportKind
  pub shopify_variant_ids : List String
  pub correlation_id : Option String
  pub sync_job_id : Option ℕ
  pub item_label : Option String
  pub poll_attempt : Option ℕ

abbrev pub kind_text : ImportKind → String
kind_text product = "product"
kind_text offer = "offer"

abbrev pub job_type_of : ImportKind → SyncJobType
job_type_of product = product_sync
job_type_of offer = offer_sync

module _ {Num R : Type 0} (n : NumOps Num) (o : Outside Num R) where
  pub stalled_message : ImportStatusPollJobPayload → String
  stalled_message p = concat (
      "Decathlon "
      ∷ kind_text p.kind
      ∷ " import "
      ∷ p.import_id
      ∷ " never reported a final result after "
      ∷ n.show (n.of_ℕ (get_or p.poll_attempt max_import_poll_attempts))
      ∷ " status checks — look this import id up in the Decathlon Seller Portal to see where it stalled."
      ∷ [])

  pub fail_stalled_import : ImportStatusPollJobPayload → M (World Num R) (Unit {0})
  fail_stalled_import p = do
    correlation_id ← correlation_of o p.correlation_id
    resolve_pending (record {
      shop_id = p.shop_id;
      sync_job_id = p.sync_job_id;
      type = job_type_of p.kind;
      status = SyncStatus.failed;
      decathlon_id = none;
      shopify_id = none;
      item_label = p.item_label;
      error_message = some (stalled_message p);
      correlation_id = correlation_id;
    })
    elim p.sync_job_id [
      | none ↦ pure tt
      | some id ↦ finish_job id SyncStatus.failed (some (stalled_message p))
    ]
