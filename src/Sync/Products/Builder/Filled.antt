-- ===== src/Sync/Products/Builder/Filled.antt =====
-- A row that is built is the variant's own, and no required column of it is empty.
use decathlon_app.Base.{
  String, Bool, ◌&&◌, ◌||◌, true, false, List, [], ◌∷◌, map, Option, none, some, ◌≡◌, refl, arith,
  head?, inl, inr, Bool-cases, Option-cases, All, is_some, lookup, find-All, first_some, keep_some,
  eq_iff, ◌==◌, if◌then◌else◌, ◌∙◌, ap,
}
use decathlon_app.Sync.Lines.{truthy}
use decathlon_app.Sync.Gtin.{is_valid_gtin}
use decathlon_app.Decathlon.Attributes.{
  DecathlonAttribute, DecathlonValueListEntry, find_value_list_entry, find_value_list_entry_fuzzy,
}
use decathlon_app.Sync.Products.Models.{
  Words, NormalizedProduct, NormalizedVariant, ProductImportContext,
}
use decathlon_app.Sync.Products.Values.{resolve_attribute_value, entry_code}
use decathlon_app.Sync.Products.Fillings.{
  Filling, fill, lack, fill_required, fill_main_image, fill_ean, fill_brand, fill_gender,
  fill_email, fill_other, brand_entry, first_resolved, candidates,
}

-- A text that is not empty.
abbrev pub IsText : String → Type 0
IsText s = is_some (truthy (some s)) ≡ true

abbrev pub IsTextAt : Option String → Type 0
IsTextAt none = Unit
IsTextAt (some s) = IsText s

-- What is filled in is not empty.
abbrev pub FillsText : Filling → Type 0
FillsText (fill value) = IsText value
FillsText (lack _) = Unit

if-FillsText :
    (b : Bool) (f g : Filling) → FillsText f → FillsText g → FillsText (if b then f else g)
if-FillsText true f g hf hg = hf
if-FillsText false f g hf hg = hg

pub truthy-IsText : (o : Option String) (s : String) → truthy o ≡ some s → IsText s
truthy-IsText none s h = ground arith
truthy-IsText (some x) s h = ground (arith, h)

first_some-IsTextAt : (a b : Option String) → IsTextAt a → IsTextAt b → IsTextAt (first_some a b)
first_some-IsTextAt none b ha hb = hb
first_some-IsTextAt (some x) b ha hb = ha

lookup-IsTextAt :
    (key : String) (entries : List (String × String))
    → All (λ (m : String × String). IsText m.1) entries
    → IsTextAt (lookup key entries)
unfolding lookup
lookup-IsTextAt key [] h = tt
lookup-IsTextAt key ((here, value) ∷ rest) h = elim (Bool-cases (here == key)) [
  | inl same ↦ rw (lookup, same) h.0
  | inr other ↦ rw (lookup, other) (lookup-IsTextAt key rest h.1)
]

keep_some-IsTextAt : (xs : List (Option String)) → All IsTextAt xs → IsTextAt (head? (keep_some xs))
keep_some-IsTextAt [] h = tt
keep_some-IsTextAt (none ∷ xs) h = keep_some-IsTextAt xs h.1
keep_some-IsTextAt (some x ∷ xs) h = h.0

module _ (t : Words) (lists : List DecathlonValueListEntry)
    (codes : All (λ (e : DecathlonValueListEntry). IsText e.code) lists) where
  exact-IsText :
      (list value : String) (e : DecathlonValueListEntry)
      → find_value_list_entry t.ops lists list value ≡ some e
      → IsText e.code
  unfolding find_value_list_entry
  exact-IsText list value e found = find-All (λ e. IsText e.code) _ lists e codes found

  abbrev loose_test : String → String → DecathlonValueListEntry → Bool
  loose_test list value e =
      let normalized = t.ops.to_lower (t.ops.trim value) in
      (e.list_code == list)
      && (t.ops.includes (t.ops.to_lower e.label) normalized
          || t.ops.includes normalized (t.ops.to_lower e.label))

  loose-IsText :
      (list value : String) (e : DecathlonValueListEntry)
      → find_value_list_entry_fuzzy t.ops lists list value ≡ some e
      → IsText e.code
  unfolding find_value_list_entry_fuzzy
  loose-IsText list value e found =
      elim (Bool-cases (t.ops.has_min_length 3 (t.ops.to_lower (t.ops.trim value)))) [
        | inl long_enough ↦
            find-All (λ e. IsText e.code) (loose_test list value) lists e codes
              (ground (arith, found, long_enough))
        | inr short ↦ ground (arith, found, short)
      ]

  -- What `entry_code` returns for an exact and a loose match.
  found-IsTextAt :
      (exact loose : Option DecathlonValueListEntry)
      → ((e : DecathlonValueListEntry) → exact ≡ some e → IsText e.code)
      → ((e : DecathlonValueListEntry) → loose ≡ some e → IsText e.code)
      → IsTextAt (elim (first_some exact loose) [ none ↦ none | some e ↦ some e.code ])
  found-IsTextAt (some e) loose h h' = h e refl
  found-IsTextAt none (some e) h h' = h' e refl
  found-IsTextAt none none h h' = tt

  entry-IsTextAt : (list value : String) → IsTextAt (entry_code t lists list value)
  entry-IsTextAt list value = found-IsTextAt _ _ (exact-IsText list value) (loose-IsText list value)

  module _ (mappings : List (String × String))
      (mapped : All (λ (m : String × String). IsText m.1) mappings) where
    listed-IsTextAt :
        (attr : DecathlonAttribute) (value : String)
        → t.starts_with attr.type "LIST" ≡ true
        → is_some (truthy attr.values_list) ≡ true
        → IsTextAt (resolve_attribute_value t attr value lists mappings)
    unfolding resolve_attribute_value
    listed-IsTextAt attr value list_type has_list = elim (Option-cases (truthy attr.values_list)) [
      | inl absent ↦ ground (arith, absent, has_list)
      | inr (list, there) ↦
          rw (resolve_attribute_value, list_type, there)
            (first_some-IsTextAt _ _ (lookup-IsTextAt _ mappings mapped)
              (entry-IsTextAt list value))
    ]

module _ (t : Words) (c : ProductImportContext)
    (codes : All (λ (e : DecathlonValueListEntry). IsText e.code) c.value_lists)
    (mapped : All (λ (m : String × String). IsText m.1) c.value_mappings) where
  fallback-IsTextAt :
      (l : String) (name : Option String)
      → IsTextAt (elim name [ none ↦ none | some f ↦ entry_code t c.value_lists l f ])
  fallback-IsTextAt l none = tt
  fallback-IsTextAt l (some f) = entry-IsTextAt t c.value_lists codes l f

  listed_brand-IsTextAt :
      (list : Option String) (brand : String)
      → IsTextAt (elim list [
        | none ↦ none
        | some l ↦
            first_some (entry_code t c.value_lists l brand) (elim (truthy c.fallback_brand_name) [
              | none ↦ none
              | some f ↦ entry_code t c.value_lists l f
            ])
      ])
  listed_brand-IsTextAt none brand = tt
  listed_brand-IsTextAt (some l) brand =
      first_some-IsTextAt _ _ (entry-IsTextAt t c.value_lists codes l brand)
        (fallback-IsTextAt l (truthy c.fallback_brand_name))

  brand-IsTextAt : (list : Option String) (brand : String) → IsTextAt (brand_entry t c list brand)
  brand-IsTextAt list brand = listed_brand-IsTextAt (truthy list) brand

  all_listed :
      (attr : DecathlonAttribute) (values : List String)
      → t.starts_with attr.type "LIST" ≡ true
      → is_some (truthy attr.values_list) ≡ true
      → All IsTextAt
          (map (λ v. resolve_attribute_value t attr v c.value_lists c.value_mappings) values)
  all_listed attr [] list_type has_list = tt
  all_listed attr (v ∷ values) list_type has_list = (
    listed-IsTextAt t c.value_lists codes c.value_mappings mapped attr v list_type has_list,
    all_listed attr values list_type has_list,
  )

  fill_email-FillsText : (attr : DecathlonAttribute) → FillsText (fill_email t c attr)
  unfolding fill_email
  fill_email-FillsText attr = elim (Option-cases (truthy c.manufacturer_email)) [
    | inl absent ↦ rw (fill_email, absent) tt
    | inr (email, there) ↦ rw (fill_email, there) (truthy-IsText c.manufacturer_email email there)
  ]

  first_resolved-IsTextAt :
      (attr : DecathlonAttribute) (values : List String)
      → t.starts_with attr.type "LIST" ≡ true
      → is_some (truthy attr.values_list) ≡ true
      → IsTextAt (first_resolved t c attr values)
  first_resolved-IsTextAt attr values list_type has_list =
      keep_some-IsTextAt _ (all_listed attr values list_type has_list)

  filled_or-FillsText :
      (o : Option String) (problem : String)
      → IsTextAt o
      → FillsText (elim o [ some value ↦ fill value | none ↦ lack problem ])
  filled_or-FillsText none problem h = tt
  filled_or-FillsText (some value) problem h = h

  truthy-IsTextAt : (o : Option String) → IsTextAt (truthy o)
  truthy-IsTextAt none = tt
  truthy-IsTextAt (some s) = elim (Bool-cases (s == "")) [
    | inl empty ↦ rw empty tt
    | inr text ↦ rw text (rw text refl)
  ]

  module _ {Num : Type 0} (prefix : t.starts_with "LIST" "LIST" ≡ true)
      (product : NormalizedProduct Num) (variant : NormalizedVariant Num) where
    fill_main_image-FillsText :
        (attr : DecathlonAttribute) → FillsText (fill_main_image t product attr)
    unfolding fill_main_image
    fill_main_image-FillsText attr =
        filled_or-FillsText _ _ (truthy-IsTextAt (head? product.images))

    fill_ean-FillsText : (attr : DecathlonAttribute) → FillsText (fill_ean t variant attr)
    unfolding fill_ean
    fill_ean-FillsText attr = elim (Option-cases (truthy variant.ean)) [
      | inl absent ↦ rw (fill_ean, absent) tt
      | inr (ean, there) ↦ elim (Bool-cases (is_valid_gtin (t.codes ean))) [
        | inl valid ↦ rw (fill_ean, there, valid) (truthy-IsText variant.ean ean there)
        | inr invalid ↦ rw (fill_ean, there, invalid) tt
      ]
    ]

    fill_gender-FillsText : (attr : DecathlonAttribute) → FillsText (fill_gender t c product attr)
    unfolding fill_gender
    fill_gender-FillsText attr =
        filled_or-FillsText _ _
          (truthy-IsTextAt (elim c.type_rule [ none ↦ none | some rule ↦ rule.gender ]))

    fill_brand-FillsText : (attr : DecathlonAttribute) → FillsText (fill_brand t c product attr)
    unfolding fill_brand
    fill_brand-FillsText attr = elim (Option-cases (truthy product.brand)) [
      | inl absent ↦ rw (fill_brand, absent) tt
      | inr (brand, there) ↦
          rw (fill_brand, there)
            (filled_or-FillsText _ _ (
              first_some-IsTextAt _ _ (lookup-IsTextAt _ c.value_mappings mapped)
                (brand-IsTextAt attr.values_list brand)))
    ]

    fill_other-FillsText : (attr : DecathlonAttribute) → FillsText (fill_other t c variant attr)
    unfolding fill_other
    fill_other-FillsText attr =
        elim (Bool-cases
          (attr.variant && (attr.type == "LIST") && is_some (truthy attr.values_list))) [
            | inr not_listed ↦ rw (fill_other, not_listed) tt
            | inl listed ↦
                let list_type : attr.type ≡ "LIST" =
                  ground (arith, listed, eq_iff attr.type "LIST") in
                rw (fill_other, listed)
                  (filled_or-FillsText _ _ (
                    first_resolved-IsTextAt attr (candidates t c variant attr)
                      (ap (λ s. t.starts_with s "LIST") list_type ∙ prefix)
                      (ground (arith, listed))))
          ]

    pub fill_required-FillsText :
        (category_code : String) (attr : DecathlonAttribute)
        → IsText category_code
        → IsText variant.sku
        → FillsText (fill_required t c product variant category_code attr)
    unfolding fill_required
    fill_required-FillsText category_code attr category sku =
        if-FillsText (attr.code == "category") _ _ category (
          if-FillsText (attr.code == "ProductIdentifier") _ _ sku (
            if-FillsText (attr.code == "main_image") _ _ (fill_main_image-FillsText attr) (
              if-FillsText (attr.code == "ean_codes") _ _ (fill_ean-FillsText attr) (
                if-FillsText (attr.code == "brandName") _ _ (fill_brand-FillsText attr) (
                  if-FillsText (attr.code == "Gender_apparel") _ _ (fill_gender-FillsText attr) (
                    if-FillsText (attr.code == "GPSR_MANUFACTURER_EMAIL_ADDRESS") _ _
                      (fill_email-FillsText attr) (fill_other-FillsText attr)))))))
