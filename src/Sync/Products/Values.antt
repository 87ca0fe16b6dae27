-- ===== src/Sync/Products/Values.antt =====
-- `optionRoleNames`, `optionValueFor`, `resolveAttributeValue` and `truncateTitle` of
-- packages/sync/src/adapters/decathlon.adapter.ts.
use decathlon_app.Base.{
  ℕ, String, not, ◌&&◌, List, [], ◌∷◌, map, Option, none, some, ◌==◌, leb, ltb, keep, contains,
  first_some, lookup, if◌then◌else◌,
}
use decathlon_app.Sync.Lines.{truthy}
use decathlon_app.Decathlon.Attributes.{
  DecathlonAttribute, DecathlonValueListEntry, find_value_list_entry, find_value_list_entry_fuzzy,
}
use decathlon_app.Sync.Products.Models.{Words, attribute_value_key}

module _ (t : Words) where
  -- The `split` of `optionRoleNames`: the configured names, or the usual ones.
  pub role_names : Option String → List String → List String
  role_names none usual = usual
  role_names (some configured) usual =
      if t.ops.trim configured == ""
      then usual
      else keep (λ s. not (s == ""))
          (map (λ s. t.ops.to_lower (t.ops.trim s)) (t.split "," configured))

  abbrev pub option_role_names : Option String → Option String → List String × List String
  option_role_names color_option_name size_option_name = (
    role_names color_option_name ("color" ∷ "colour" ∷ []),
    role_names size_option_name ("size" ∷ []),
  )

  -- With no names, no option has one of them.
  unfoldable pub option_value_for : List (String × String) → List String → Option String
  option_value_for [] names = none
  option_value_for ((name, value) ∷ options) names =
      if contains (t.ops.to_lower (t.ops.trim name)) names && not (t.ops.trim value == "")
      then some (t.ops.trim value)
      else option_value_for options names

  -- Any list type, with a list.
  abbrev pub list_of : DecathlonAttribute → Option String
  list_of attr = if t.starts_with attr.type "LIST" then truthy attr.values_list else none

  -- An exact entry of a list, or one that matches loosely.
  abbrev pub entry_code : List DecathlonValueListEntry → String → String → Option String
  entry_code value_lists list value =
      elim (first_some (find_value_list_entry t.ops value_lists list value)
        (find_value_list_entry_fuzzy t.ops value_lists list value)) [
          | none ↦ none
          | some e ↦ some e.code
        ]

  unfoldable pub resolve_attribute_value :
      DecathlonAttribute
      → String
      → List DecathlonValueListEntry
      → List (String × String)
      → Option String
  resolve_attribute_value attr value value_lists value_mappings = elim (list_of attr) [
    | none ↦ some value
    | some list ↦
        first_some (lookup (attribute_value_key t attr.code value) value_mappings)
          (entry_code value_lists list value)
  ]

  abbrev pub max_product_title_length : ℕ
  max_product_title_length = 80

  pub truncate_title : String → String
  truncate_title title =
      if leb (t.length title) max_product_title_length
      then title
      else let clipped = t.slice_to max_product_title_length title in
        t.trim_end (elim (t.last_space clipped) [
          | none ↦ clipped
          | some last ↦ if ltb 40 last then t.slice_to last clipped else clipped
        ])
