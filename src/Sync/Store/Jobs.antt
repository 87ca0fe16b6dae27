-- ===== src/Sync/Store/Jobs.antt =====
-- packages/database/src/repositories/sync-job.repository.ts and sync-log.repository.ts
use decathlon_app.Base.{
  ℕ, ◌+◌, String, Bool, true, false, ◌&&◌, List, [], ◌∷◌, ◌++◌, map, Option, none, some, ◌==◌, eqb,
  first_some, M, pure, modify, ◌>>=◌, ◌>>◌, if◌then◌else◌,
}
use decathlon_app.Sync.Store.Rows.{
  SyncJobType, SyncStatus, SyncJob, SyncLog, Db, World, product_sync, offer_sync, order_import,
  fulfillment_sync, refund_sync, return_sync, import_status_poll, retry_failed,
}

abbrev pub is_processing : SyncStatus → Bool
is_processing SyncStatus.processing = true
is_processing _ = false

abbrev pub same_type : SyncJobType → SyncJobType → Bool
same_type product_sync product_sync = true
same_type offer_sync offer_sync = true
same_type order_import order_import = true
same_type fulfillment_sync fulfillment_sync = true
same_type refund_sync refund_sync = true
same_type return_sync return_sync = true
same_type import_status_poll import_status_poll = true
same_type retry_failed retry_failed = true
same_type _ _ = false

-- A change of the job with an id.
abbrev pub update_jobs : ℕ → (SyncJob → SyncJob) → List SyncJob → List SyncJob
update_jobs id f jobs = map (λ (j : SyncJob). if eqb j.id id then f j else j) jobs

-- The newest log row that a poll resolves, replaced by its resolution.
abbrev pub is_pending_log : String → String → SyncJobType → SyncLog → Bool
is_pending_log shop_id correlation_id type l =
    (l.shop_id == shop_id)
    && (l.correlation_id == correlation_id)
    && same_type l.type type
    && is_processing l.status

-- `data: { ...input, itemLabel: input.itemLabel ?? pending.itemLabel ?? undefined }`; an undefined
-- field is left alone.
pub resolved_log : SyncLog → SyncLog → SyncLog
resolved_log input pending = record {
  shop_id = input.shop_id;
  sync_job_id = first_some input.sync_job_id pending.sync_job_id;
  type = input.type;
  status = input.status;
  decathlon_id = first_some input.decathlon_id pending.decathlon_id;
  shopify_id = first_some input.shopify_id pending.shopify_id;
  item_label = first_some input.item_label pending.item_label;
  error_message = first_some input.error_message pending.error_message;
  correlation_id = input.correlation_id;
}

-- The last row that fits, which is the newest, is resolved; `none` if no row fits.
pub resolve_newest : SyncLog → List SyncLog → Option (List SyncLog)
unfolding resolved_log
resolve_newest input [] = none
resolve_newest input (l ∷ ls) = elim (resolve_newest input ls) [
  | some ls' ↦ some (l ∷ ls')
  | none ↦
      if is_pending_log input.shop_id input.correlation_id input.type l
      then some (resolved_log input l ∷ ls)
      else none
]

module _ {Num R : Type 0} where
  abbrev pub on_db : (Db Num → Db Num) → M (World Num R) (Unit {0})
  on_db f = modify (λ w. record w { db = f w.db })

  abbrev pub create_job : String → SyncJobType → M (World Num R) ℕ
  create_job shop_id type w =
      let job : SyncJob = record {
        id = w.db.next_id;
        shop_id = shop_id;
        type = type;
        status = SyncStatus.pending;
        progress_current = 0;
        progress_total = none;
        retry_count = 0;
        last_error = none;
      } in
      pure w.db.next_id (record w {
        db = record (w.db) { next_id = w.db.next_id + 1; jobs = w.db.jobs ++ job ∷ [] };
      })

  abbrev pub change_job : ℕ → (SyncJob → SyncJob) → M (World Num R) (Unit {0})
  change_job id f = on_db (λ db. record db { jobs = update_jobs id f db.jobs })

  abbrev pub mark_started : ℕ → M (World Num R) (Unit {0})
  mark_started id = change_job id (λ j. record j { status = SyncStatus.processing })

  abbrev pub update_progress : ℕ → ℕ → ℕ → M (World Num R) (Unit {0})
  update_progress id current total =
      change_job id (λ j. record j { progress_current = current; progress_total = some total })

  -- With no error given, the last error stays.
  abbrev pub finish_job : ℕ → SyncStatus → Option String → M (World Num R) (Unit {0})
  finish_job id status error =
      change_job id (λ j. record j { status = status; last_error = first_some error j.last_error })

  abbrev pub write_log : SyncLog → M (World Num R) (Unit {0})
  write_log l = on_db (λ db. record db { logs = db.logs ++ l ∷ [] })

  abbrev pub resolve_pending : SyncLog → M (World Num R) (Unit {0})
  resolve_pending input w = elim (resolve_newest input w.db.logs) [
    | none ↦ write_log input w
    | some logs ↦ pure tt (record w { db = record (w.db) { logs = logs } })
  ]

  -- `startJob` of order-lifecycle.ts and `ensureSyncJob` of engine.ts.
  abbrev pub start_job : String → SyncJobType → Option ℕ → M (World Num R) ℕ
  start_job shop_id type (some id) = mark_started id >> pure id
  start_job shop_id type none = do id ← create_job shop_id type; mark_started id; pure id

  -- `ensureSyncJob` of engine.ts does the same as `startJob`.
  abbrev pub ensure_sync_job : String → SyncJobType → Option ℕ → M (World Num R) ℕ
  ensure_sync_job = start_job
