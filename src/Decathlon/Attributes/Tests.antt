-- ===== src/Decathlon/Attributes/Tests.antt =====
-- A small category tree and its attributes.
use mathlib.Core.List.{Memᴰ}
use decathlon_app.Base.{◌≤◌, ◌⊎◌, true, List, [], ◌∷◌, none, ◌≡◌, refl, All, length, contains, ◌==◌}
use decathlon_app.Decathlon.Attributes.{
  DecathlonAttribute, DecathlonHierarchy, by_code_from, ancestor_codes_for, is_applicable,
  required_attributes_for_category,
}
use decathlon_app.Decathlon.Attributes.Ancestors.{
  IsLineage, IsTop, farthest, ancestor_codes_for-IsLineage,
}
use decathlon_app.Decathlon.Attributes.Required.{
  codes, IsDistinct, IsWanted, required_attributes_for_category-covers,
  required_attributes_for_category-IsDistinct,
}

abbrev tree : List DecathlonHierarchy
tree =
    record { code = "sport"; label = "Sport"; level = 1; parent_code = "" }
    ∷ record { code = "shoes"; label = "Shoes"; level = 2; parent_code = "sport" }
    ∷ []

ancestor_codes_for-IsLineage_example :
    IsLineage (by_code_from [] tree) (ancestor_codes_for tree "shoes") "shoes"
    × (length (ancestor_codes_for tree "shoes") ≤ 32)
    × ((length (ancestor_codes_for tree "shoes") ≡ 32)
        ⊎ IsTop (by_code_from [] tree) (farthest (ancestor_codes_for tree "shoes") "shoes"))
ancestor_codes_for-IsLineage_example = ancestor_codes_for-IsLineage tree "shoes"

abbrev colour : DecathlonAttribute
colour = record {
  code = "COLOR";
  hierarchy_code = "sport";
  label = "Colour";
  type = "LIST";
  required = true;
  variant = true;
  values_list = none;
}

required_attributes_for_category-covers_example :
    contains "COLOR" (codes (required_attributes_for_category (colour ∷ []) "shoes" ("sport" ∷ [])))
    ≡ true
unfolding is_applicable ◌==◌
required_attributes_for_category-covers_example =
    required_attributes_for_category-covers (colour ∷ []) "shoes" ("sport" ∷ []) colour
      (Memᴰ.head refl) refl refl

required_attributes_for_category-IsDistinct_example :
    All
      (IsWanted (is_applicable "shoes" ("sport" ∷ [])))
      (required_attributes_for_category (colour ∷ colour ∷ []) "shoes" ("sport" ∷ []))
    × IsDistinct
        (codes (required_attributes_for_category (colour ∷ colour ∷ []) "shoes" ("sport" ∷ [])))
required_attributes_for_category-IsDistinct_example =
    required_attributes_for_category-IsDistinct (colour ∷ colour ∷ []) "shoes" ("sport" ∷ [])
