-- ===== src/Sync/Products/Builder/Complete.antt =====
-- A row that is built has every attribute that Decathlon requires.
use decathlon_app.Base.{
  String, true, false, List, [], ◌∷◌, ◌++◌, Option, none, some, ◌≡◌, refl, sym, subst, arith,
  get_or, inl, inr, Bool-cases, Option-cases, Result-cases, All, is_nil, is_some, lookup, insert,
  lookup-insert, ok, OnOk, eq_refl, if◌then◌else◌,
}
use decathlon_app.Sync.Lines.{truthy}
use decathlon_app.Decathlon.Attributes.{DecathlonAttribute, required_attributes_for_category}
use decathlon_app.Sync.Products.Models.{
  Words, NormalizedProduct, NormalizedVariant, ProductImportRow, ProductImportContext,
}
use decathlon_app.Sync.Products.Values.{option_value_for}
use decathlon_app.Sync.Products.Fillings.{
  Draft, Filling, fill, lack, put, is_filled, fill_required, size_filling,
}
use decathlon_app.Sync.Products.Builder.{
  fill_all, set_size, with_size, draft_of, build_row, build_product_import_payload,
}

-- The row has a column.
abbrev pub IsPresent : ProductImportRow → String → Type 0
IsPresent row code = is_some (lookup code row) ≡ true

insert-IsPresent :
    (key code value : String) (row : ProductImportRow)
    → IsPresent row code
    → IsPresent (insert key value row) code
insert-IsPresent key code value row h = rw (lookup-insert key code value row) (ground (arith, h))

inserted-IsPresent :
    (code value : String) (row : ProductImportRow) → IsPresent (insert code value row) code
inserted-IsPresent code value row =
    rw (lookup-insert code code value row) (ground (arith, eq_refl code))

put-IsPresent :
    (key code : String) (f : Filling) (d : Draft)
    → IsPresent d.row code
    → IsPresent (put key f d).row code
put-IsPresent key code (fill value) d h = insert-IsPresent key code value d.row h
put-IsPresent key code (lack problem) d h = h

filled-IsPresent :
    (code : String) (row : ProductImportRow) → is_filled code row ≡ true → IsPresent row code
filled-IsPresent code row h = ground (arith, h)

-- Nothing is missing after a step only if nothing was missing before it.
pub append-is_nil : (xs : List String) (x : String) → is_nil (xs ++ x ∷ []) ≡ false
append-is_nil [] x = refl
append-is_nil (y ∷ ys) x = refl

put_complete :
    (code : String) (f : Filling) (d : Draft)
    → is_nil (put code f d).missing ≡ true
    → (is_nil d.missing ≡ true) × IsPresent (put code f d).row code
put_complete code (fill value) d none_missing = (none_missing, inserted-IsPresent code value d.row)
put_complete code (lack problem) d none_missing =
    ground (arith, none_missing, append-is_nil d.missing problem)

module _ (filling : DecathlonAttribute → Filling) where
  abbrev step : DecathlonAttribute → Draft → Draft
  step attr d = if is_filled attr.code d.row then d else put attr.code (filling attr) d

  step-IsPresent :
      (attr : DecathlonAttribute) (d : Draft) (code : String)
      → IsPresent d.row code
      → IsPresent (step attr d).row code
  step-IsPresent attr d code h = elim (Bool-cases (is_filled attr.code d.row)) [
    | inl there ↦ rw there h
    | inr new ↦ rw new (put-IsPresent attr.code code (filling attr) d h)
  ]

  step_complete :
      (attr : DecathlonAttribute) (d : Draft)
      → is_nil (step attr d).missing ≡ true
      → (is_nil d.missing ≡ true) × IsPresent (step attr d).row attr.code
  step_complete attr d h = elim (Bool-cases (is_filled attr.code d.row)) [
    | inl there ↦ rw there (
      subst (λ b. is_nil (if b then d else put attr.code (filling attr) d).missing ≡ true) there h,
      filled-IsPresent attr.code d.row there,
    )
    | inr new ↦ rw new (
        put_complete attr.code (filling attr) d (
          subst (λ b. is_nil (if b then d else put attr.code (filling attr) d).missing ≡ true) new
            h))
  ]

  fill_all-IsPresent :
      (attrs : List DecathlonAttribute) (d : Draft) (code : String)
      → IsPresent d.row code
      → IsPresent (fill_all filling attrs d).row code
  unfolding fill_all
  fill_all-IsPresent [] d code h = h
  fill_all-IsPresent (attr ∷ attrs) d code h =
      fill_all-IsPresent attrs (step attr d) code (step-IsPresent attr d code h)

  -- With nothing missing in the end, nothing was missing at the start and every column is there.
  pub fill_all_complete :
      (attrs : List DecathlonAttribute) (d : Draft)
      → is_nil (fill_all filling attrs d).missing ≡ true
      → (is_nil d.missing ≡ true)
        × All (λ (a : DecathlonAttribute). IsPresent (fill_all filling attrs d).row a.code) attrs
  unfolding fill_all
  fill_all_complete [] d h = (h, tt)
  fill_all_complete (attr ∷ attrs) d h =
      let (before, later) = fill_all_complete attrs (step attr d) h in
      let (start, there) = step_complete attr d before in
      (start, (fill_all-IsPresent attrs (step attr d) attr.code there, later))

-- Every attribute that is required of the category of the product has a column in the row.
abbrev pub IsComplete :
    {Num : Type 0} → ProductImportContext → NormalizedProduct Num → ProductImportRow → Type 0
IsComplete c product row =
    All (λ (a : DecathlonAttribute). IsPresent row a.code)
      (required_attributes_for_category c.attributes (get_or product.category_code "")
        c.ancestor_codes)

All-mono :
    (row row' : ProductImportRow) (attrs : List DecathlonAttribute)
    → ((code : String) → IsPresent row code → IsPresent row' code)
    → All (λ (a : DecathlonAttribute). IsPresent row a.code) attrs
    → All (λ (a : DecathlonAttribute). IsPresent row' a.code) attrs
All-mono row row' [] more h = tt
All-mono row row' (a ∷ attrs) more h = (more a.code h.0, All-mono row row' attrs more h.1)

module _ (t : Words) (c : ProductImportContext) where
  with_size-IsPresent :
      (size : Option String) (d : Draft) (code : String)
      → IsPresent d.row code
      → IsPresent (with_size t c size d).row code
  unfolding with_size
  with_size-IsPresent none d code h = h
  with_size-IsPresent (some size) d code h = elim (Bool-cases (is_filled "SIZE" d.row)) [
    | inl filled ↦ rw (with_size, filled) h
    | inr empty ↦ rw (with_size, empty) (put-IsPresent "SIZE" code (size_filling t c size) d h)
  ]

  pub with_size-missing :
      (size : Option String) (d : Draft)
      → is_nil (with_size t c size d).missing ≡ true
      → is_nil d.missing ≡ true
  unfolding with_size
  with_size-missing none d h = h
  with_size-missing (some size) d h = elim (Bool-cases (is_filled "SIZE" d.row)) [
    | inl filled ↦
        subst (λ b. is_nil (if b then d else put "SIZE" (size_filling t c size) d).missing ≡ true)
          filled h
    | inr empty ↦
        (put_complete "SIZE" (size_filling t c size) d (
          subst (λ b. is_nil (if b then d else put "SIZE" (size_filling t c size) d).missing ≡ true)
            empty h)).0
  ]

pub truthy-get_or : (o : Option String) (s : String) → truthy o ≡ some s → get_or o "" ≡ s
truthy-get_or none s h = ground arith
truthy-get_or (some x) s h = ground (arith, h)

module _ {Num : Type 0} (t : Words) (c : ProductImportContext) (product : NormalizedProduct Num)
    (variant : NormalizedVariant Num) where
  draft_of_complete :
      (category_code : String)
      → is_nil (draft_of t c product variant category_code).missing ≡ true
      → All
          (λ (a : DecathlonAttribute).
            IsPresent (draft_of t c product variant category_code).row a.code)
          (required_attributes_for_category c.attributes category_code c.ancestor_codes)
  unfolding set_size
  draft_of_complete category_code h =
      let size = option_value_for t variant.option_values (get_or c.size_option_names []) in
      All-mono _ _ _ (λ code. with_size-IsPresent t c size _ code)
        (fill_all_complete (fill_required t c product variant category_code) _ _
          (with_size-missing t c size _ h)).1

  build_row-OnOk : OnOk (IsComplete c product) (build_row t c product variant)
  unfolding build_row
  build_row-OnOk = elim (Option-cases (truthy product.category_code)) [
    | inl absent ↦ rw (absent, build_row) tt
    | inr (category_code, there) ↦
        elim (Bool-cases (is_nil (draft_of t c product variant category_code).missing)) [
          | inr problems ↦ rw (there, problems, build_row) tt
          | inl fine ↦
              rw (there, fine, build_row)
                (subst
                  (λ code.
                    All
                      (λ (a : DecathlonAttribute).
                        IsPresent (draft_of t c product variant category_code).row a.code)
                      (required_attributes_for_category c.attributes code c.ancestor_codes))
                  (sym (truthy-get_or product.category_code category_code there))
                  (draft_of_complete category_code fine))
        ]
  ]

-- The rows of an import, one for each variant, in order, and each complete for its product.
abbrev pub AreComplete :
    {Num : Type 0}
    → ProductImportContext
    → List (NormalizedProduct Num × NormalizedVariant Num)
    → List ProductImportRow
    → Type 0
AreComplete c [] [] = Unit
AreComplete c [] (row ∷ rows) = ⊥
AreComplete c (pair ∷ pairs) [] = ⊥
AreComplete c (pair ∷ pairs) (row ∷ rows) = IsComplete c pair.0 row × AreComplete c pairs rows

payload-OnOk :
    {Num : Type 0} (t : Words) (c : ProductImportContext)
    (pairs : List (NormalizedProduct Num × NormalizedVariant Num))
    → OnOk (AreComplete c pairs) (build_product_import_payload t pairs c)
unfolding build_product_import_payload
payload-OnOk t c [] = tt
payload-OnOk t c ((product, variant) ∷ pairs) =
    let row = build_row-OnOk t c product variant in
    let rest = payload-OnOk t c pairs in
    elim (Result-cases (build_row t c product variant)) [
      | inr (e, bad) ↦ rw (bad, build_product_import_payload) tt
      | inl (made, good) ↦ elim (Result-cases (build_product_import_payload t pairs c)) [
        | inr (e, bad) ↦ rw (good, build_product_import_payload, bad) tt
        | inl (others, fine) ↦
            rw (good, build_product_import_payload, fine)
              (
                subst (OnOk (IsComplete c product)) good row,
                subst (OnOk (AreComplete c pairs)) fine rest,
              )
      ]
    ]

-- A product import that is built has one row for each variant, in order, and each row has a column
-- for every attribute that Decathlon requires of the category of its product, itself or by its
-- ancestors. (The column may be empty where the mapping or the entry of a list that it comes from
-- is.)
pub build_product_import_payload-AreComplete :
    {Num : Type 0} (t : Words) (c : ProductImportContext)
    (pairs : List (NormalizedProduct Num × NormalizedVariant Num)) (rows : List ProductImportRow)
    → build_product_import_payload t pairs c ≡ ok rows
    → AreComplete c pairs rows
build_product_import_payload-AreComplete t c pairs rows built =
    subst (OnOk (AreComplete c pairs)) built (payload-OnOk t c pairs)
