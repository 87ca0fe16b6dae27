-- ===== src/Sync/Imports/Poll/Synced.antt =====
-- The end of a successful import: all its variants that have a mapping are synced.
use decathlon_app.Base.{
  String, Bool, true, false, not, ◌&&◌, ◌||◌, List, [], ◌∷◌, map, Option, none, some, ◌≡◌, refl,
  sym, subst, arith, inl, inr, Bool-cases, Option-cases, Result-cases, All, find-none, ok, Result,
  ◌==◌, is_nil, if◌then◌else◌, lookup, ◌++◌,
}
use decathlon_app.Sync.Money.{NumOps}
use decathlon_app.Sync.Outside.{Outside}
use decathlon_app.Sync.Store.Rows.{MappingStatus, ProductMapping, World}
use decathlon_app.Sync.Matching.{find_by_variant}
use decathlon_app.Sync.Imports.{ImportKind, product, offer, terminal, import_verdict, status_of}
use decathlon_app.Sync.Imports.Stalled.{ImportStatusPollJobPayload}
use decathlon_app.Sync.Imports.Reports.{ReportText, ParsedReportRow, merge_reports}
use decathlon_app.Sync.Imports.Poll.{
  StatusAnswer, ImportApi, is_mapping_of, synced_mapping, fetch_report, fetch_if, collect_reports,
  settle_mapping, settle_variants, record_result, conclude, judge, poll_import_status, mark_synced,
  product_id_of, offer_id_of, id_of,
}

abbrev pub is_synced : MappingStatus → Bool
is_synced MappingStatus.synced = true
is_synced _ = false

-- Every mapping of the variant has the status SYNCED.
abbrev pub IsSyncedRow : String → String → ProductMapping → Type 0
IsSyncedRow shop_id variant m = (not (is_mapping_of shop_id variant m) || is_synced m.status) ≡ true

abbrev pub IsSynced : {Num R : Type 0} → String → World Num R → String → Type 0
IsSynced shop_id w variant = All (IsSyncedRow shop_id variant) w.db.products

module _ (shop_id variant product_id : String) (offer_id : Option String) where
  abbrev marked : ProductMapping → ProductMapping
  marked m = if is_mapping_of shop_id variant m then synced_mapping product_id offer_id m else m

  marked-keeps :
      (other : String) (m : ProductMapping)
      → IsSyncedRow shop_id other m
      → IsSyncedRow shop_id other (marked m)
  marked-keeps other m h = elim (Bool-cases (is_mapping_of shop_id variant m)) [
    | inl its ↦ rw its (ground arith)
    | inr others ↦ rw others h
  ]

  marked-synced : (m : ProductMapping) → IsSyncedRow shop_id variant (marked m)
  marked-synced m = elim (Bool-cases (is_mapping_of shop_id variant m)) [
    | inl its ↦ rw its (ground arith)
    | inr others ↦ rw (others, others) refl
  ]

  map-keeps :
      (other : String) (ms : List ProductMapping)
      → All (IsSyncedRow shop_id other) ms
      → All (IsSyncedRow shop_id other) (map marked ms)
  map-keeps other [] h = tt
  map-keeps other (m ∷ ms) h = (marked-keeps other m h.0, map-keeps other ms h.1)

  map-synced : (ms : List ProductMapping) → All (IsSyncedRow shop_id variant) (map marked ms)
  map-synced [] = tt
  map-synced (m ∷ ms) = (marked-synced m, map-synced ms)

unmapped-IsSynced :
    (shop_id variant : String) (ms : List ProductMapping)
    → All (λ m. is_mapping_of shop_id variant m ≡ false) ms
    → All (IsSyncedRow shop_id variant) ms
unmapped-IsSynced shop_id variant [] h = tt
unmapped-IsSynced shop_id variant (m ∷ ms) h =
    (ground (arith, h.0), unmapped-IsSynced shop_id variant ms h.1)

module _ {Num R : Type 0} (t : ReportText) (n : NumOps Num) (o : Outside Num R)
    (api : ImportApi R) where
  fetch_if-reads :
      (b : Bool) (fetcher : R → Result String) (texts : List String) (w : World Num R)
      → (texts' : List String) × (fetch_if t b fetcher texts w ≡ (ok texts', w))
  unfolding fetch_if fetch_report
  fetch_if-reads false fetcher texts w = (texts, refl)
  fetch_if-reads true fetcher texts w = elim (Result-cases (fetcher w.outside)) [
    | inl (text, told) ↦ (
      if t.trim text == "" then texts else texts ++ text ∷ [],
      rw (told, fetch_if, fetch_report) refl,
    )
    | inr (e, refused) ↦ (texts, rw (refused, fetch_if, fetch_report) refl)
  ]

  collect_reports-reads :
      (kind : ImportKind) (import_id : String) (a : StatusAnswer) (accepted : Bool)
      (w : World Num R)
      → (texts : List String) × (collect_reports t n o api kind import_id a accepted w
          ≡ (ok texts, w))
  unfolding collect_reports
  collect_reports-reads offer import_id a accepted w =
      fetch_if-reads (a.has_error_report || not accepted) (api.get_offer_error_report import_id) []
        w
  collect_reports-reads product import_id a accepted w =
      let (first, e1) =
        fetch_if-reads a.has_transformation_error_report
          (api.get_transformation_error_report import_id) [] w in
      let (both, e2) = fetch_if-reads a.has_error_report (api.get_error_report import_id) first w in
      let (all, e3) =
        fetch_if-reads (is_nil both && accepted) (api.get_success_report import_id) both w in
      (all, rw (collect_reports, e1, e2, e3) refl)

  module _ (p : ImportStatusPollJobPayload) (status : Option String)
      (parsed : List (String × ParsedReportRow)) where
    settle_variants-keeps :
        (other : String) (variants errors : List String) (w : World Num R)
        → IsSynced p.shop_id w other
        → IsSynced p.shop_id
            (settle_variants t n o api p status true parsed variants errors w).1
            other
    unfolding settle_variants settle_mapping
    settle_variants-keeps other [] errors w h = h
    settle_variants-keeps other (variant ∷ variants) errors w h =
        elim (Option-cases (find_by_variant p.shop_id variant w.db)) [
          | inl unmapped ↦
              rw (unmapped, settle_variants) (settle_variants-keeps other variants errors w h)
          | inr (m, there) ↦
              rw (there, settle_variants, settle_mapping)
                (settle_variants-keeps other variants errors _
                  (map-keeps p.shop_id variant _ _ other w.db.products h))
        ]

    AllSynced : List String → Result (List String) × World Num R → Type 0
    AllSynced variants out = All (IsSynced p.shop_id out.1) variants

    -- The state after the mapping of one variant is marked.
    abbrev after : String → ProductMapping → World Num R → World Num R
    after variant m w =
        let id = id_of t n o api (lookup m.sku parsed) in
        (mark_synced p.shop_id variant (product_id_of t n o api p.kind id m)
          (offer_id_of t n o api p.kind id m) w).1

    skip :
        (variant : String) (variants errors : List String) (w : World Num R)
        → find_by_variant p.shop_id variant w.db ≡ none
        → settle_variants t n o api p status true parsed (variant ∷ variants) errors w
          ≡ settle_variants t n o api p status true parsed variants errors w
    unfolding settle_variants
    skip variant variants errors w unmapped = rw (unmapped, settle_variants) refl

    settle :
        (variant : String) (variants errors : List String) (w : World Num R) (m : ProductMapping)
        → find_by_variant p.shop_id variant w.db ≡ some m
        → settle_variants t n o api p status true parsed (variant ∷ variants) errors w
          ≡ settle_variants t n o api p status true parsed variants errors (after variant m w)
    unfolding settle_variants settle_mapping
    settle variant variants errors w m there = rw (there, settle_variants, settle_mapping) refl

    settle_variants-IsSynced :
        (variants errors : List String) (w : World Num R)
        → All
            (IsSynced p.shop_id
              (settle_variants t n o api p status true parsed variants errors w).1)
            variants
    unfolding settle_variants settle_mapping AllSynced
    settle_variants-IsSynced [] errors w = tt
    settle_variants-IsSynced (variant ∷ variants) errors w =
        elim (Option-cases (find_by_variant p.shop_id variant w.db)) [
          | inl unmapped ↦
              subst (AllSynced (variant ∷ variants)) (sym (skip variant variants errors w unmapped))
                (
                  settle_variants-keeps variant variants errors w (
                      unmapped-IsSynced p.shop_id variant w.db.products
                        (find-none (is_mapping_of p.shop_id variant) w.db.products unmapped)),
                  settle_variants-IsSynced variants errors w,
                )
          | inr (m, there) ↦
              subst (AllSynced (variant ∷ variants))
                (sym (settle variant variants errors w m there))
                (
                  settle_variants-keeps variant variants errors (after variant m w) (
                      map-synced p.shop_id variant
                        (product_id_of t n o api p.kind (id_of t n o api (lookup m.sku parsed)) m)
                        (offer_id_of t n o api p.kind (id_of t n o api (lookup m.sku parsed)) m)
                        w.db.products),
                  settle_variants-IsSynced variants errors (after variant m w),
                )
        ]

    settled :
        (variants errors : List String) (w : World Num R)
        → (errors' : List String) × ((settle_variants t n o api p status true parsed variants errors
              w).0
            ≡ ok errors')
    unfolding settle_variants settle_mapping
    settled [] errors w = (errors, refl)
    settled (variant ∷ variants) errors w =
        elim (Option-cases (find_by_variant p.shop_id variant w.db)) [
          | inl unmapped ↦
              let (errors', e) = settled variants errors w in
              (errors', rw (skip variant variants errors w unmapped) e)
          | inr (m, there) ↦
              let (errors', e) = settled variants errors (after variant m w) in
              (errors', rw (settle variant variants errors w m there) e)
        ]

  record_result-products :
      (p : ImportStatusPollJobPayload) (correlation_id : String) (accepted : Bool)
      (message : Option String) (w : World Num R)
      → ((record_result t n o api p correlation_id accepted message w).0 ≡ ok tt)
        × ((record_result t n o api p correlation_id accepted message w).1.db.products
            ≡ w.db.products)
  unfolding record_result
  record_result-products p correlation_id accepted message w = (ground arith, ground arith)

  conclude-AllSynced :
      (p : ImportStatusPollJobPayload) (correlation_id : String) (a : StatusAnswer)
      (w : World Num R)
      → ((conclude t n o api p correlation_id a true w).0 ≡ ok (terminal true))
        × All
            (IsSynced p.shop_id (conclude t n o api p correlation_id a true w).1)
            p.shopify_variant_ids
  unfolding conclude AllSynced
  conclude-AllSynced p correlation_id a w =
      let (texts, read_all) = collect_reports-reads p.kind p.import_id a true w in
      let parsed = merge_reports t texts [] in
      let status = status_of p.kind a.result in
      let (errors, e) = settled p status parsed p.shopify_variant_ids [] w in
      let synced = settle_variants-IsSynced p status parsed p.shopify_variant_ids [] w in
      let (done, kept) =
        record_result-products p correlation_id true none
          (settle_variants t n o api p status true parsed p.shopify_variant_ids [] w).1 in
      rw (conclude, read_all, e, done)
        (
          refl,
          subst
              (λ ms. All (λ variant. All (IsSyncedRow p.shop_id variant) ms) p.shopify_variant_ids)
              (sym kept) synced,
        )

-- If Decathlon's answer makes an import a success, then the poll reports that, and every mapping of
-- every variant of the import has the status SYNCED afterwards, whichever reports can be had and
-- whatever they say; a variant without a mapping is passed over.
pub poll_import_status-IsSynced :
    {Num R : Type 0} (t : ReportText) (n : NumOps Num) (o : Outside Num R) (api : ImportApi R)
    (p : ImportStatusPollJobPayload) (a : StatusAnswer) (w : World Num R)
    → api.get_import_status p.kind p.import_id w.outside ≡ ok a
    → import_verdict p.kind a.result ≡ terminal true
    → ((poll_import_status t n o api p w).0 ≡ ok (terminal true))
      × All (IsSynced p.shop_id (poll_import_status t n o api p w).1) p.shopify_variant_ids
unfolding poll_import_status judge
poll_import_status-IsSynced t n o api p a w told success =
    rw (poll_import_status, told, success, judge) (conclude-AllSynced t n o api p _ a w)
