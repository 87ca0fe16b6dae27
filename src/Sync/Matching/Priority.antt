-- ===== src/Sync/Matching/Priority.antt =====
-- What a match of an order line rests on.
use decathlon_app.Base.{
  String, Bool, true, ◌&&◌, Option, none, some, ◌≡◌, ◌==◌, refl, sym, ◌∙◌, arith, find-holds, ◌⊎◌,
  Option-cases, inl, inr,
}
use decathlon_app.Sync.Lines.{truthy}
use decathlon_app.Sync.Refunds.{is_text}
use decathlon_app.Sync.Store.Rows.{ProductMapping, Db}
use decathlon_app.Sync.Matching.{
  OrderItemKeys, find_product, find_by_product_id, find_by_sku, find_by_ean, with_key,
  match_order_line,
}

find_product-holds :
    {Num : Type 0} (shop_id : String) (test : ProductMapping → Bool) (db : Db Num)
    (m : ProductMapping)
    → find_product shop_id test db ≡ some m
    → ((m.shop_id == shop_id) ≡ true) × (test m ≡ true)
find_product-holds shop_id test db m h =
    let both =
      find-holds (λ (x : ProductMapping). (x.shop_id == shop_id) && test x) db.products m h in
    (ground arith, ground arith)

with_key-holds :
    (key : Option String) (look : String → Option ProductMapping) (m : ProductMapping)
    → with_key key look ≡ some m
    → (k : String) × (truthy key ≡ some k) × (look k ≡ some m)
with_key-holds key look m h = elim (Option-cases (truthy key)) [
  | inl keyless ↦ absurd (let e : with_key key look ≡ none = rw (keyless, with_key) refl in cc)
  | inr (k, there) ↦
      let e : with_key key look ≡ look k = rw (there, with_key) refl in (k, there, sym e ∙ h)
]

-- The mapping agrees with a key of the line, which is not empty.
abbrev pub AgreesOn : Option String → (String → Bool) → Type 0
AgreesOn key agrees = (k : String) × (truthy key ≡ some k) × (agrees k ≡ true)

agrees :
    {Num : Type 0} (shop_id : String) (key : Option String) (test : String → ProductMapping → Bool)
    (db : Db Num) (m : ProductMapping)
    → with_key key (λ k. find_product shop_id (test k) db) ≡ some m
    → ((m.shop_id == shop_id) ≡ true) × AgreesOn key (λ k. test k m)
agrees shop_id key test db m h =
    let (k, there, found) = with_key-holds key (λ k. find_product shop_id (test k) db) m h in
    let (own, same) = find_product-holds shop_id (test k) db m found in (own, (k, there, same))

-- A line of a Decathlon order is matched only with a product mapping of the shop, and never by title:
-- the mapping has the product id of the line, or its SKU, or its EAN, and that key is not empty.
pub match_order_line-agrees :
    {Num : Type 0} (shop_id : String) (item : OrderItemKeys) (db : Db Num) (m : ProductMapping)
    → match_order_line shop_id item db ≡ some m
    → ((m.shop_id == shop_id) ≡ true)
      × (AgreesOn item.decathlon_product_id (λ k. is_text m.decathlon_product_id k)
          ⊎ (AgreesOn (some item.sku) (λ k. m.sku == k) ⊎ AgreesOn item.ean (λ k. is_text m.ean k)))
unfolding match_order_line
match_order_line-agrees shop_id item db m h =
    elim (Option-cases
      (with_key item.decathlon_product_id (λ k. find_by_product_id shop_id k db))) [
        | inr (x, by_id) ↦
            let same : match_order_line shop_id item db ≡ some x =
              rw (by_id, match_order_line) refl in
            let (own, key) =
              agrees shop_id item.decathlon_product_id (λ k x. is_text x.decathlon_product_id k) db
                m (by_id ∙ (sym same ∙ h)) in
            (own, inl key)
        | inl no_id ↦
            elim (Option-cases (with_key (some item.sku) (λ k. find_by_sku shop_id k db))) [
              | inr (x, by_sku) ↦
                  let same : match_order_line shop_id item db ≡ some x =
                    rw (no_id, by_sku, match_order_line) refl in
                  let (own, key) =
                    agrees shop_id (some item.sku) (λ k x. x.sku == k) db m
                      (by_sku ∙ (sym same ∙ h)) in
                  (own, inr (inl key))
              | inl no_sku ↦
                  let same : match_order_line shop_id item db
                      ≡ with_key item.ean (λ k. find_by_ean shop_id k db) =
                    rw (no_id, no_sku, match_order_line) refl in
                  let (own, key) =
                    agrees shop_id item.ean (λ k x. is_text x.ean k) db m (sym same ∙ h) in
                  (own, inr (inr key))
            ]
      ]
