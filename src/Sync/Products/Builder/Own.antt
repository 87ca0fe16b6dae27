-- ===== src/Sync/Products/Builder/Own.antt =====
-- The `shop_sku` of a row stays that of its variant while the row is filled.
use decathlon_app.Base.{
  String, Bool, true, false, List, [], ◌∷◌, Option, none, some, ◌≡◌, refl, arith, inl, inr, ◌==◌,
  not, Bool-cases, Option-cases, All, lookup, insert, lookup-insert, find, find-All, find-holds,
  eq_iff, if◌then◌else◌, subst, ◌||◌,
}
use decathlon_app.Decathlon.Attributes.{
  DecathlonAttribute, required_attributes_for_category, required_from,
}
use decathlon_app.Sync.Products.Models.{
  Words, NormalizedProduct, NormalizedVariant, ProductImportRow, ProductImportContext,
}
use decathlon_app.Sync.Products.Fillings.{
  Draft, Filling, fill, lack, put, is_filled, override, fill_required, size_filling,
}
use decathlon_app.Sync.Products.Builder.{
  fill_all, set_size, with_size, set_text, set_texts, override_all, draft_of,
}

-- The attribute is not called `shop_sku`.
abbrev pub IsOther : DecathlonAttribute → Type 0
IsOther a = (a.code == "shop_sku") ≡ false

abbrev pub HasSku : String → ProductImportRow → Type 0
HasSku sku row = lookup "shop_sku" row ≡ some sku

module _ (sku : String) where
  if-HasSku :
      (b : Bool) (x y : ProductImportRow)
      → HasSku sku x
      → HasSku sku y
      → HasSku sku (if b then x else y)
  if-HasSku true x y hx hy = hx
  if-HasSku false x y hx hy = hy

  insert-HasSku :
      (key value : String) (row : ProductImportRow)
      → (key == "shop_sku") ≡ false
      → HasSku sku row
      → HasSku sku (insert key value row)
  insert-HasSku key value row other h = rw (lookup-insert key "shop_sku" value row, other) h

  put-HasSku :
      (f : Filling) (key : String) (d : Draft)
      → (key == "shop_sku") ≡ false
      → HasSku sku d.row
      → HasSku sku (put key f d).row
  put-HasSku (fill value) key d other h = insert-HasSku key value d.row other h
  put-HasSku (lack _) key d other h = h

  required-HasSku :
      (filling : DecathlonAttribute → Filling) (attrs : List DecathlonAttribute) (d : Draft)
      → All IsOther attrs
      → HasSku sku d.row
      → HasSku sku (fill_all filling attrs d).row
  unfolding fill_all
  required-HasSku filling [] d others h = h
  required-HasSku filling (attr ∷ attrs) d others h =
      elim (Bool-cases (is_filled attr.code d.row)) [
        | inl there ↦ rw (fill_all, there) (required-HasSku filling attrs d others.1 h)
        | inr empty ↦
            rw (fill_all, empty)
              (required-HasSku filling attrs _ others.1
                (put-HasSku (filling attr) attr.code d others.0 h))
      ]

  with_size-HasSku :
      (t : Words) (c : ProductImportContext) (size : Option String) (d : Draft)
      → HasSku sku d.row
      → HasSku sku (with_size t c size d).row
  unfolding with_size ◌==◌
  with_size-HasSku t c none d h = h
  with_size-HasSku t c (some size) d h = elim (Bool-cases (is_filled "SIZE" d.row)) [
    | inl filled ↦ rw (with_size, filled) h
    | inr empty ↦ rw (with_size, empty) (put-HasSku (size_filling t c size) "SIZE" d refl h)
  ]

  module _ (t : Words) where
    set_text-HasSku :
        {Num : Type 0} (product : NormalizedProduct Num) (row : ProductImportRow)
        (attr : DecathlonAttribute)
        → IsOther attr
        → HasSku sku row
        → HasSku sku (set_text t product row attr)
    unfolding set_text
    set_text-HasSku product row attr other h =
        let inserted = λ (value : String). insert-HasSku attr.code value row other h in
        if-HasSku (not (attr.hierarchy_code == "")) row _ h (
          if-HasSku (t.starts_with attr.code "productTitle-") _ _ (inserted _) (
            if-HasSku ((attr.code == "mainTitle") || t.starts_with attr.code "webcatchline-") _ _
              (inserted _)
              (if-HasSku (t.starts_with attr.code "longDescription-") _ row (inserted _) h)))

    set_texts-HasSku :
        {Num : Type 0} (product : NormalizedProduct Num) (attrs : List DecathlonAttribute)
        (row : ProductImportRow)
        → All IsOther attrs
        → HasSku sku row
        → HasSku sku (set_texts t product attrs row)
    unfolding set_texts
    set_texts-HasSku product [] row others h = h
    set_texts-HasSku product (attr ∷ attrs) row others h =
        set_texts-HasSku product attrs _ others.1 (set_text-HasSku product row attr others.0 h)

    overridden-HasSku :
        (c : ProductImportContext) (code value : String) (d : Draft)
        → All IsOther c.attributes
        → HasSku sku d.row
        → HasSku sku (put code (override t c code value) d).row
    unfolding override
    overridden-HasSku c code value d others h =
        elim (Option-cases (find (λ (a : DecathlonAttribute). a.code == code) c.attributes)) [
          | inl unknown ↦ rw (override, unknown) h
          | inr (attr, there) ↦
              let other : (attr.code == "shop_sku") ≡ false =
                find-All IsOther (λ (a : DecathlonAttribute). a.code == code) c.attributes attr
                  others there in
              let same : (attr.code == code) ≡ true =
                find-holds (λ (a : DecathlonAttribute). a.code == code) c.attributes attr there in
              let e : attr.code ≡ code = ground (arith, same, eq_iff attr.code code) in
              put-HasSku _ code d (subst (λ k. (k == "shop_sku") ≡ false) e other) h
        ]

    override_all-HasSku :
        (c : ProductImportContext) (given : List (String × String)) (d : Draft)
        → All IsOther c.attributes
        → HasSku sku d.row
        → HasSku sku (override_all t c given d).row
    unfolding override_all
    override_all-HasSku c [] d others h = h
    override_all-HasSku c ((code, value) ∷ rest) d others h =
        override_all-HasSku c rest _ others (overridden-HasSku c code value d others h)

required_from-IsOther :
    (applicable : DecathlonAttribute → Bool) (seen : List String) (all : List DecathlonAttribute)
    → All IsOther all
    → All IsOther (required_from applicable seen all)
unfolding required_from
required_from-IsOther applicable seen [] others = tt
required_from-IsOther applicable seen (a ∷ all) others = ground (
  arith,
  others,
  required_from-IsOther applicable seen all others.1,
  required_from-IsOther applicable (a.code ∷ seen) all others.1,
)

required-IsOther :
    (all : List DecathlonAttribute) (category_code : String) (ancestor_codes : List String)
    → All IsOther all
    → All IsOther (required_attributes_for_category all category_code ancestor_codes)
unfolding required_attributes_for_category
required-IsOther all category_code ancestor_codes others = required_from-IsOther _ [] all others

start-HasSku :
    (sku title category_code : String)
    → HasSku sku
        (insert "label" title (insert "category_code" category_code (insert "shop_sku" sku [])))
unfolding lookup insert ◌==◌
start-HasSku sku title category_code = refl

pub draft_of-HasSku :
    {Num : Type 0} (t : Words) (c : ProductImportContext) (product : NormalizedProduct Num)
    (variant : NormalizedVariant Num) (category_code : String)
    → All IsOther c.attributes
    → HasSku variant.sku (draft_of t c product variant category_code).row
unfolding set_size
draft_of-HasSku t c product variant category_code others =
    let sku = variant.sku in
    with_size-HasSku sku t c _ _ (
      required-HasSku sku (fill_required t c product variant category_code) _ _
        (required-IsOther c.attributes category_code c.ancestor_codes others)
        (override_all-HasSku sku t c product.attributes _ others (
          set_texts-HasSku sku t product c.attributes _ others
            (start-HasSku sku product.title category_code))))
