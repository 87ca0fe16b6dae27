-- ===== src/Sync/Products/Models.antt =====
-- The models of packages/shared/src/normalized-models.ts for a product, and what the builders of
-- packages/sync/src/adapters/decathlon.adapter.ts are given besides.
use decathlon_app.Base.{ℕ, String, Bool, List, Option, concat, ◌∷◌, []}
use decathlon_app.Decathlon.Attributes.{DecathlonAttribute, DecathlonValueListEntry, TextOps}

-- The option values stand in the order of `Object.entries`.
pub record NormalizedVariant (Num : Type 0) : Type 0 where
  pub shopify_variant_id : Option String
  pub sku : String
  pub ean : Option String
  pub price : Num
  pub currency : String
  pub inventory_quantity : Num
  pub option_values : List (String × String)

pub record NormalizedProduct (Num : Type 0) : Type 0 where
  pub shop_sku : String
  pub title : String
  pub status : Option String
  pub description : Option String
  pub brand : Option String
  pub category_code : Option String
  pub product_type : Option String
  pub images : List String
  pub variants : List (NormalizedVariant Num)
  pub attributes : List (String × String)

-- A row of a product import: the columns in the order of their first assignment.
abbrev pub ProductImportRow : Type 0
ProductImportRow = List (String × String)

-- More functions of the JavaScript runtime on texts, and the regular expressions of the adapter, by
-- what they match. `index` and `length` count characters.
pub record Words : Type 0 where
  pub ops : TextOps
  pub starts_with : String → String → Bool
  pub length : String → ℕ
  -- `slice(0, n)`, `slice(n)`, `lastIndexOf(" ")`, `trimEnd()`, `indexOf`
  pub slice_to : ℕ → String → String
  pub slice_from : ℕ → String → String
  pub last_space : String → Option ℕ
  pub trim_end : String → String
  pub index_of : String → String → Option ℕ
  -- `split(separator)`
  pub split : String → String → List String
  pub to_upper : String → String
  -- `a.localeCompare(b) < 0`
  pub locale_before : String → String → Bool
  -- The character code 0 as a text, and the codes of the characters of a text.
  pub nul : String
  pub codes : String → List ℕ
  -- `/size/i`, `/women/i`
  pub mentions_size : String → Bool
  pub mentions_women : String → Bool
  -- `/^(.*?)\s*\((Z\d+):\s*([^)]*)\)\s*$/`: the first and the third group
  pub size_label : String → Option (String × String)
  -- `/^(x+)(s|l)$/` and `/^(\d)x(s|l)$/`: the other spelling of the size, as a text
  pub many_x : String → Option String
  pub counted_x : String → Option String
  -- `/^(?:eu\s*)?(\d+(?:[.,]5)?)$/` and `/^us\s*(\d+(?:[.,]5)?)$/`
  pub eu_size : String → Option String
  pub us_size : String → Option String
  -- The UK size of a US one, lower by a number.
  pub uk_size : ℕ → String → String
  -- The expressions that are built from a size: `eu` or `uk` before it, and no more of a number after.
  pub names_size : String → String → String → Bool

pub record TypeRule : Type 0 where
  pub product_type : String
  pub gender : Option String
  pub size_chart : Option String

-- Empty lists stand for option names that are not given.
pub record ProductImportContext : Type 0 where
  pub attributes : List DecathlonAttribute
  pub value_lists : List DecathlonValueListEntry
  pub ancestor_codes : List String
  pub manufacturer_email : Option String
  pub fallback_brand_name : Option String
  pub value_mappings : List (String × String)
  pub color_option_names : Option (List String)
  pub size_option_names : Option (List String)
  pub type_rule : Option TypeRule

-- `attributeValueKey`
abbrev pub attribute_value_key : Words → String → String → String
attribute_value_key t code value = concat (code ∷ t.nul ∷ t.ops.to_lower (t.ops.trim value) ∷ [])
