-- ===== src/Sync/Store/Rules/Lookup.antt =====
-- A category rule is found again, under every spelling of its product type, and hides no other.
use decathlon_app.Base.{
  String, true, false, ◌&&◌, List, [], ◌∷◌, ◌++◌, map, Option, none, some, ◌≡◌, refl, subst, arith,
  inl, inr, ◌==◌, find, is_some, Bool-cases, eq_iff, eq_refl, if◌then◌else◌,
}
use decathlon_app.Sync.Store.Rows.{CategoryMapping, Db}
use decathlon_app.Sync.Store.Catalog.{normalize_key, find_by_product_type}
use decathlon_app.Sync.Products.Models.{Words}
use decathlon_app.Sync.Store.Rules.{has_rule, new_rule, upsert_rule}

abbrev pub code_of : Option CategoryMapping → Option String
code_of none = none
code_of (some m) = some m.decathlon_category_code

-- The category of a product type, as `findByProductType` finds it.
abbrev pub category_of : String → String → List CategoryMapping → Option String
category_of shop_id key rules = code_of (find (has_rule shop_id key) rules)

module _ (shop_id key code : String) where
  abbrev written : CategoryMapping → CategoryMapping
  written m = if has_rule shop_id key m then record m { decathlon_category_code = code } else m

  written-found :
      (rules : List CategoryMapping)
      → is_some (find (has_rule shop_id key) rules) ≡ true
      → category_of shop_id key (map written rules) ≡ some code
  written-found [] h = ground arith
  written-found (m ∷ rules) h = elim (Bool-cases (has_rule shop_id key m)) [
    | inl its ↦ rw (its, its) refl
    | inr others ↦
        rw (others, others)
          (written-found rules (
            subst (λ b. is_some (if b then some m else find (has_rule shop_id key) rules) ≡ true)
              others h))
  ]

  added-found :
      (rules : List CategoryMapping)
      → is_some (find (has_rule shop_id key) rules) ≡ false
      → category_of shop_id key (rules ++ new_rule shop_id key code ∷ []) ≡ some code
  added-found [] h = rw (eq_refl shop_id, eq_refl key) refl
  added-found (m ∷ rules) h = elim (Bool-cases (has_rule shop_id key m)) [
    | inl its ↦ grind (arith, its)
    | inr others ↦ rw others (
        added-found rules (
          subst (λ b. is_some (if b then some m else find (has_rule shop_id key) rules) ≡ false)
            others h))
  ]

  module _ (other_shop other_key : String)
      (differs : ((other_shop == shop_id) && (other_key == key)) ≡ false) where
    unlike :
        (m : CategoryMapping)
        → has_rule shop_id key m ≡ true
        → has_rule other_shop other_key m ≡ false
    unlike m its = ground (
      arith,
      its,
      differs,
      eq_iff m.shop_id shop_id,
      eq_iff m.shopify_product_type key,
      eq_iff m.shop_id other_shop,
      eq_iff m.shopify_product_type other_key,
      eq_iff other_shop shop_id,
      eq_iff other_key key,
    )

    written-other :
        (rules : List CategoryMapping)
        → category_of other_shop other_key (map written rules)
          ≡ category_of other_shop other_key rules
    written-other [] = refl
    written-other (m ∷ rules) = elim (Bool-cases (has_rule shop_id key m)) [
      | inl its ↦ rw (its, unlike m its) (written-other rules)
      | inr others ↦ elim (Bool-cases (has_rule other_shop other_key m)) [
        | inl here ↦ rw (others, here) refl
        | inr later ↦ rw (others, later) (written-other rules)
      ]
    ]

    added-other :
        (rules : List CategoryMapping)
        → category_of other_shop other_key (rules ++ new_rule shop_id key code ∷ [])
          ≡ category_of other_shop other_key rules
    added-other [] = ground (
      arith,
      differs,
      eq_iff other_shop shop_id,
      eq_iff other_key key,
      eq_iff shop_id other_shop,
      eq_iff key other_key,
    )
    added-other (m ∷ rules) = elim (Bool-cases (has_rule other_shop other_key m)) [
      | inl here ↦ rw here refl
      | inr later ↦ rw later (added-other rules)
    ]

module _ (t : Words) (shop_id product_type code : String) (rules : List CategoryMapping) where
  abbrev key : String
  key = normalize_key t product_type

  same-category_of :
      category_of shop_id key (upsert_rule t shop_id product_type code rules) ≡ some code
  unfolding upsert_rule
  same-category_of = elim (Bool-cases (is_some (find (has_rule shop_id key) rules))) [
    | inl there ↦ rw (there, upsert_rule) (written-found shop_id key code rules there)
    | inr new ↦ rw (new, upsert_rule) (added-found shop_id key code rules new)
  ]

  other-category_of :
      (other_shop other_key : String)
      → ((other_shop == shop_id) && (other_key == key)) ≡ false
      → category_of other_shop other_key (upsert_rule t shop_id product_type code rules)
        ≡ category_of other_shop other_key rules
  unfolding upsert_rule
  other-category_of other_shop other_key differs =
      elim (Bool-cases (is_some (find (has_rule shop_id key) rules))) [
        | inl there ↦
            rw (there, upsert_rule)
              (written-other shop_id key code other_shop other_key differs rules)
        | inr new ↦
            rw (new, upsert_rule) (added-other shop_id key code other_shop other_key differs rules)
      ]

-- After a category has been set for a product type of a shop, the lookup returns it for every
-- spelling of the type that is the same up to case and outer blanks, and returns for every other type
-- and shop what it returned before.
pub upsert_rule-find_by_product_type :
    {Num : Type 0} (t : Words) (shop_id product_type code other_shop other_type : String)
    (db : Db Num)
    → code_of (
        find_by_product_type t other_shop other_type (record db {
          category_mappings = upsert_rule t shop_id product_type code db.category_mappings;
        }))
      ≡ (if (other_shop == shop_id) && (normalize_key t other_type == normalize_key t product_type)
          then some code
          else code_of (find_by_product_type t other_shop other_type db))
upsert_rule-find_by_product_type t shop_id product_type code other_shop other_type db =
    let other_key = normalize_key t other_type in
    let its_key = normalize_key t product_type in
    elim (Bool-cases ((other_shop == shop_id) && (other_key == its_key))) [
      | inr differs ↦ rw differs (
          other-category_of t shop_id product_type code db.category_mappings other_shop other_key
            differs)
      | inl same ↦
          let same_shop : shop_id ≡ other_shop = ground (arith, same, eq_iff other_shop shop_id) in
          let same_key : its_key ≡ other_key = ground (arith, same, eq_iff other_key its_key) in
          let after = upsert_rule t shop_id product_type code db.category_mappings in
          rw same (
            subst (λ s. category_of s other_key after ≡ some code) same_shop
              (subst (λ k. category_of shop_id k after ≡ some code) same_key
                (same-category_of t shop_id product_type code db.category_mappings)))
    ]
