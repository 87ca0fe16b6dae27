-- ===== src/Sync/Lifecycle/Refund/Settled.antt =====
-- The row of a settled refund under the statements of packages/database/src/repositories/fulfillment.repository.ts.
use decathlon_app.Base.{
  ℕ, ◌+◌, String, Bool, true, false, not, ◌&&◌, ◌||◌, List, [], ◌∷◌, ◌++◌, map, none, some, inl,
  inr, ◌≡◌, refl, sym, subst, arith, ◌∙◌, ◌==◌, eqb, ltb, is_some, find, Bool-cases, Keeps, All,
  All-append, find-All, eq_iff, eqb_iff, if◌then◌else◌,
}
use decathlon_app.Sync.Store.Rows.{SyncStatus, World, RefundMapping}
use decathlon_app.Sync.Store.Claims.{
  RefundPatch, find_refund, has_refund_key, is_failed, finish_refund, finished_refund,
  reclaimed_refund, reclaim_refunds, new_refund,
}

abbrev pub is_success : SyncStatus → Bool
is_success SyncStatus.success = true
is_success _ = false

module _ {Num : Type 0} (shop_id key : String) (id : ℕ) where
  -- The row with the id is the one of the refund, and it is a success.
  abbrev pub IsSettledRow : RefundMapping Num → Type 0
  IsSettledRow r =
      (eqb r.id id ≡ has_refund_key shop_id key r)
      × ((not (eqb r.id id) || is_success r.status) ≡ true)

module _ {Num R : Type 0} (shop_id key : String) (id : ℕ) where
  -- The shop has a row for the refund, which is the one with the id, and it is a success.
  abbrev pub IsSettled : World Num R → Type 0
  IsSettled w =
      (ltb id w.db.next_id ≡ true)
      × (is_some (find_refund shop_id key w.db) ≡ true)
      × All (IsSettledRow shop_id key id) w.db.refunds

failed-other :
    (at : Bool) (status : SyncStatus) (others : Bool)
    → (others && is_failed status) ≡ true
    → (not at || is_success status) ≡ true
    → at ≡ false
failed-other false status others h k = refl
failed-other true SyncStatus.failed others h k = ground arith
failed-other true SyncStatus.success true h k = ground arith
failed-other true SyncStatus.success false h k = ground arith
failed-other true SyncStatus.pending others h k = ground arith
failed-other true SyncStatus.processing others h k = ground arith
failed-other true SyncStatus.retrying others h k = ground arith
failed-other true SyncStatus.skipped others h k = ground arith
failed-other true SyncStatus.canceled others h k = ground arith

module _ {Num : Type 0} (shop_id key : String) (id : ℕ) where
  -- A change of rows that leaves their keys and ids, and the row with the id, as they are.
  module _ (f : RefundMapping Num → RefundMapping Num)
      (same_key : (r : RefundMapping Num)
        → has_refund_key shop_id key (f r) ≡ has_refund_key shop_id key r)
      (kept : (r : RefundMapping Num)
        → IsSettledRow shop_id key id r
        → IsSettledRow shop_id key id (f r)) where
    map-there :
        (rs : List (RefundMapping Num))
        → is_some (find (has_refund_key shop_id key) rs) ≡ true
        → is_some (find (has_refund_key shop_id key) (map f rs)) ≡ true
    map-there [] h = h
    map-there (r ∷ rs) h = elim (Bool-cases (has_refund_key shop_id key r)) [
      | inl its ↦ rw (same_key r, its) refl
      | inr others ↦
          rw (same_key r, others)
            (map-there rs (
              subst
                (λ b. is_some (if b then some r else find (has_refund_key shop_id key) rs) ≡ true)
                others h))
    ]

    map-IsSettledRow :
        (rs : List (RefundMapping Num))
        → All (IsSettledRow shop_id key id) rs
        → All (IsSettledRow shop_id key id) (map f rs)
    map-IsSettledRow [] h = tt
    map-IsSettledRow (r ∷ rs) h = (kept r h.0, map-IsSettledRow rs h.1)

  finished : ℕ → SyncStatus → RefundPatch Num → RefundMapping Num → RefundMapping Num
  finished claim_id status p r = if eqb r.id claim_id then finished_refund status p r else r

  finished-key :
      (claim_id : ℕ) (status : SyncStatus) (p : RefundPatch Num) (r : RefundMapping Num)
      → has_refund_key shop_id key (finished claim_id status p r) ≡ has_refund_key shop_id key r
  unfolding finished
  finished-key claim_id status p r = elim (Bool-cases (eqb r.id claim_id)) [
    | inl its ↦ rw its refl
    | inr others ↦ rw others refl
  ]

  finished-IsSettledRow :
      (claim_id : ℕ) (status : SyncStatus) (p : RefundPatch Num)
      → eqb claim_id id ≡ false
      → (r : RefundMapping Num) → IsSettledRow shop_id key id r
      → IsSettledRow shop_id key id (finished claim_id status p r)
  unfolding finished
  finished-IsSettledRow claim_id status p other r h = elim (Bool-cases (eqb r.id claim_id)) [
    | inr others ↦ rw others h
    | inl its ↦
        let elsewhere : eqb r.id id ≡ false =
          ground (arith, other, its, eqb_iff r.id claim_id, eqb_iff r.id id, eqb_iff claim_id id) in
        rw its (h.0, rw elsewhere refl)
  ]

  -- A claim of a failed row changes no settled one.
  reclaimed-IsSettledRow :
      (other_shop other_key : String) (r : RefundMapping Num)
      → IsSettledRow shop_id key id r
      → IsSettledRow shop_id key id (
          if has_refund_key other_shop other_key r && is_failed r.status
          then reclaimed_refund r
          else r)
  reclaimed-IsSettledRow other_shop other_key r h =
      elim (Bool-cases (has_refund_key other_shop other_key r && is_failed r.status)) [
        | inr others ↦ rw others h
        | inl its ↦
            let elsewhere : eqb r.id id ≡ false =
              failed-other (eqb r.id id) r.status (has_refund_key other_shop other_key r) its h.1 in
            rw its (h.0, rw elsewhere refl)
      ]

  reclaimed-key :
      (other_shop other_key : String) (r : RefundMapping Num)
      → has_refund_key shop_id key (
          if has_refund_key other_shop other_key r && is_failed r.status
          then reclaimed_refund r
          else r)
        ≡ has_refund_key shop_id key r
  reclaimed-key other_shop other_key r =
      elim (Bool-cases (has_refund_key other_shop other_key r && is_failed r.status)) [
        | inr others ↦ rw others refl
        | inl its ↦ rw its refl
      ]

module _ {Num R : Type 0} (shop_id key : String) (id : ℕ) where
  pub finish_refund-IsSettled :
      (claim_id : ℕ) (status : SyncStatus) (p : RefundPatch Num)
      → eqb claim_id id ≡ false
      → Keeps (IsSettled {Num = Num} {R = R} shop_id key id) (finish_refund claim_id status p)
  unfolding finished
  finish_refund-IsSettled claim_id status p other w (below, there, rows) = (
    below,
    map-there shop_id key id (finished shop_id key id claim_id status p)
        (finished-key shop_id key id claim_id status p)
        (finished-IsSettledRow shop_id key id claim_id status p other) w.db.refunds there,
    map-IsSettledRow shop_id key id (finished shop_id key id claim_id status p)
        (finished-key shop_id key id claim_id status p)
        (finished-IsSettledRow shop_id key id claim_id status p other) w.db.refunds rows,
  )

module _ {Num : Type 0} (shop_id key : String) where
  append-there :
      (rs : List (RefundMapping Num)) (r : RefundMapping Num)
      → is_some (find (has_refund_key shop_id key) rs) ≡ true
      → is_some (find (has_refund_key shop_id key) (rs ++ r ∷ [])) ≡ true
  append-there [] r h = ground arith
  append-there (s ∷ rs) r h = elim (Bool-cases (has_refund_key shop_id key s)) [
    | inl its ↦ rw its refl
    | inr others ↦ rw others (
        append-there rs r (
          subst (λ b. is_some (if b then some s else find (has_refund_key shop_id key) rs) ≡ true)
            others h))
  ]

  -- A key without a row is not the one that has a row.
  unlike :
      (other_shop other_key : String) (rs : List (RefundMapping Num))
      → find (has_refund_key other_shop other_key) rs ≡ none
      → is_some (find (has_refund_key shop_id key) rs) ≡ true
      → ((other_shop == shop_id) && (other_key == key)) ≡ false
  unlike other_shop other_key rs lost there =
      elim (Bool-cases ((other_shop == shop_id) && (other_key == key))) [
        | inr others ↦ others
        | inl same ↦
            let same_shop : other_shop ≡ shop_id =
              ground (arith, same, eq_iff other_shop shop_id) in
            let same_key : other_key ≡ key = ground (arith, same, eq_iff other_key key) in
            let gone : find (has_refund_key shop_id key) rs ≡ none =
              subst (λ s. find (has_refund_key s key) rs ≡ none) same_shop
                (subst (λ k. find (has_refund_key other_shop k) rs ≡ none) same_key lost) in
            grind (arith, gone, there)
      ]

module _ {Num R : Type 0} (shop_id key : String) (id : ℕ) where
  pub moved :
      (w w' : World Num R)
      → ltb id w'.db.next_id ≡ true
      → w'.db.refunds ≡ w.db.refunds
      → IsSettled shop_id key id w
      → IsSettled shop_id key id w'
  moved w w' later same (below, there, rows) = (
    later,
    subst (λ rs. is_some (find (has_refund_key shop_id key) rs) ≡ true) (sym same) there,
    subst (All (IsSettledRow shop_id key id)) (sym same) rows,
  )

  pub inserted-IsSettled :
      (other_shop other_key : String) (order : ℕ) (w : World Num R)
      → find_refund other_shop other_key w.db ≡ none
      → IsSettled shop_id key id w
      → IsSettled shop_id key id (record w {
        db = record (w.db) {
          next_id = w.db.next_id + 1;
          refunds = w.db.refunds ++ new_refund other_shop order other_key w.db.next_id ∷ [];
        };
      })
  inserted-IsSettled other_shop other_key order w new (below, there, rows) =
      let elsewhere : eqb w.db.next_id id ≡ false =
        ground (arith, below, eqb_iff w.db.next_id id) in
      (
        ground (arith, below),
        append-there shop_id key w.db.refunds _ there,
        All-append (IsSettledRow shop_id key id) w.db.refunds _ rows (
          (
            elsewhere ∙ sym (unlike shop_id key other_shop other_key w.db.refunds new there),
            rw elsewhere refl,
          ),
          tt,
        ),
      )

  pub reclaimed-IsSettled :
      (other_shop other_key : String) (w : World Num R)
      → IsSettled shop_id key id w
      → IsSettled shop_id key id (record w {
        db = record (w.db) { refunds = reclaim_refunds other_shop other_key w.db.refunds };
      })
  reclaimed-IsSettled other_shop other_key w (below, there, rows) = (
    below,
    map-there shop_id key id _ (reclaimed-key shop_id key id other_shop other_key)
        (reclaimed-IsSettledRow shop_id key id other_shop other_key) w.db.refunds there,
    map-IsSettledRow shop_id key id _ (reclaimed-key shop_id key id other_shop other_key)
        (reclaimed-IsSettledRow shop_id key id other_shop other_key) w.db.refunds rows,
  )

  -- A claimed row that has failed is not the settled one.
  pub claimed-other :
      (other_shop other_key : String) (r : RefundMapping Num) (w : World Num R)
      → find_refund other_shop other_key w.db ≡ some r
      → is_failed r.status ≡ true
      → IsSettled shop_id key id w
      → eqb r.id id ≡ false
  claimed-other other_shop other_key r w found failed (below, there, rows) =
      failed-other (eqb r.id id) r.status true failed
        (find-All (IsSettledRow shop_id key id) (has_refund_key other_shop other_key) w.db.refunds r
          rows found).1
