-- ===== src/Decathlon/Attributes.antt =====
-- packages/decathlon/src/attributes.ts: the category tree and the attributes of a category.
-- The parsers of the raw responses are left out.
pub mod Ancestors
pub mod Required
pub mod Tests
use decathlon_app.Base.{
  ℕ, zero, suc, String, Bool, true, false, not, ◌||◌, ◌&&◌, List, [], ◌∷◌, ◌++◌, Option, none, some,
  ◌==◌, find, contains, lookup, insert, if◌then◌else◌,
}

pub record DecathlonAttribute : Type 0 where
  pub code : String
  pub hierarchy_code : String
  pub label : String
  pub type : String
  pub required : Bool
  pub variant : Bool
  pub values_list : Option String

pub record DecathlonValueListEntry : Type 0 where
  pub list_code : String
  pub code : String
  pub label : String

pub record DecathlonHierarchy : Type 0 where
  pub code : String
  pub label : String
  pub level : ℕ
  pub parent_code : String

-- `new Map(hierarchies.map((h) => [h.code, h]))`
pub by_code_from :
    List (String × DecathlonHierarchy)
    → List DecathlonHierarchy
    → List (String × DecathlonHierarchy)
unfolding insert
by_code_from m [] = m
by_code_from m (h ∷ hs) = by_code_from (insert h.code h m) hs

-- The loop of `ancestorCodesFor`, with the rounds that are left.
pub ancestors_from :
    ℕ → List (String × DecathlonHierarchy) → DecathlonHierarchy → List String → List String
unfolding lookup
ancestors_from zero by_code cur chain = chain
ancestors_from (suc rounds) by_code cur chain = elim (cur.parent_code == "") [
  | true ↦ chain
  | false ↦ elim (lookup cur.parent_code by_code) [
    | none ↦ chain
    | some parent ↦ ancestors_from rounds by_code parent (parent.code ∷ chain)
  ]
]

pub ancestor_codes_for : List DecathlonHierarchy → String → List String
unfolding ancestors_from by_code_from
ancestor_codes_for hierarchies category_code =
    let by_code = by_code_from [] hierarchies in
    elim (lookup category_code by_code) [ none ↦ [] | some cur ↦ ancestors_from 32 by_code cur [] ]

pub is_applicable : String → List String → DecathlonAttribute → Bool
is_applicable category_code ancestor_codes a =
    contains a.hierarchy_code ("" ∷ category_code ∷ ancestor_codes)

-- The `filter` of `requiredAttributesForCategory`, with its set `seen`.
unfoldable pub required_from :
    (DecathlonAttribute → Bool) → List String → List DecathlonAttribute → List DecathlonAttribute
required_from applicable seen [] = []
required_from applicable seen (a ∷ all) =
    elim (not a.required || not (applicable a) || contains a.code seen) [
      | true ↦ required_from applicable seen all
      | false ↦ a ∷ required_from applicable (a.code ∷ seen) all
    ]

unfoldable pub required_attributes_for_category :
    List DecathlonAttribute → String → List String → List DecathlonAttribute
unfolding required_from is_applicable
required_attributes_for_category all category_code ancestor_codes =
    required_from (is_applicable category_code ancestor_codes) [] all

-- JavaScript's `trim`, `toLowerCase`, `includes` and `length` of texts.
pub record TextOps : Type 0 where
  pub trim : String → String
  pub to_lower : String → String
  pub includes : String → String → Bool
  pub has_min_length : ℕ → String → Bool

module _ (t : TextOps) where
  unfoldable pub find_value_list_entry :
      List DecathlonValueListEntry → String → String → Option DecathlonValueListEntry
  find_value_list_entry entries list_code needle =
      let normalized = t.to_lower (t.trim needle) in
      find
        (λ e.
          (e.list_code == list_code)
          && ((t.to_lower e.code == normalized) || (t.to_lower e.label == normalized)))
        entries

  unfoldable pub find_value_list_entry_fuzzy :
      List DecathlonValueListEntry → String → String → Option DecathlonValueListEntry
  find_value_list_entry_fuzzy entries list_code needle =
      let normalized = t.to_lower (t.trim needle) in
      if t.has_min_length 3 normalized
      then find
          (λ e.
            (e.list_code == list_code)
            && (t.includes (t.to_lower e.label) normalized
                || t.includes normalized (t.to_lower e.label)))
          entries
      else none
