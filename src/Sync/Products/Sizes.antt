-- ===== src/Sync/Products/Sizes.antt =====
-- `parseSizeEntry` and `matchSizeInChart` of packages/sync/src/adapters/decathlon.adapter.ts.
use decathlon_app.Base.{
  String, Bool, true, false, ◌&&◌, ◌||◌, List, [], ◌∷◌, Option, none, some, eqb, ltb, keep,
  keep_some, contains, concat, get_or, head?, first_some, if◌then◌else◌, ◌≡◌, subst, All,
  Bool-cases, Option-cases, inl, inr,
}
use decathlon_app.Decathlon.Attributes.{DecathlonValueListEntry}
use decathlon_app.Sync.Products.Models.{Words}

-- The name of the chart and the value; the code of the chart is not used.
pub record SizeEntry : Type 0 where
  pub chart_name : Option String
  pub value : String

module _ (t : Words) where
  abbrev pub parse_size_entry : DecathlonValueListEntry → SizeEntry
  parse_size_entry e = elim (t.size_label e.label) [
    | none ↦ record { chart_name = none; value = t.ops.trim e.label }
    | some (value, name) ↦ record { chart_name = some (t.ops.trim name); value = t.ops.trim value }
  ]

  -- The order of `pick`: by the length of the code, then by the code.
  abbrev pub comes_before : DecathlonValueListEntry → DecathlonValueListEntry → Bool
  comes_before a b =
      ltb (t.length a.code) (t.length b.code)
      || (eqb (t.length a.code) (t.length b.code) && t.locale_before a.code b.code)

  -- `sort(…)[0]`: the first of the entries that none comes before.
  unfoldable pub first_sorted : List DecathlonValueListEntry → Option DecathlonValueListEntry
  first_sorted [] = none
  first_sorted (e ∷ es) = elim (first_sorted es) [
    | none ↦ some e
    | some best ↦ if comes_before best e then some best else some e
  ]

  unfoldable pub pick :
      (DecathlonValueListEntry → Bool)
      → List DecathlonValueListEntry
      → Option DecathlonValueListEntry
  pick test entries = first_sorted (keep test entries)

  abbrev pub value_in : DecathlonValueListEntry → String
  value_in e = t.ops.to_lower (parse_size_entry e).value

  abbrev pub aliases_of : String → List String
  aliases_of v = v ∷ keep_some (t.many_x v ∷ t.counted_x v ∷ [])

  abbrev pub is_women_chart : List DecathlonValueListEntry → Bool
  is_women_chart in_chart = elim (head? in_chart) [
    | none ↦ false
    | some e ↦ t.mentions_women (get_or (parse_size_entry e).chart_name "")
  ]

  abbrev pub by_eu : String → List DecathlonValueListEntry → Option DecathlonValueListEntry
  by_eu v in_chart = elim (t.eu_size v) [
    | none ↦ none
    | some eu ↦ pick (λ e. t.names_size "eu" eu (value_in e)) in_chart
  ]

  abbrev pub by_us : String → List DecathlonValueListEntry → Option DecathlonValueListEntry
  by_us v in_chart = elim (t.us_size v) [
    | none ↦ none
    | some us ↦
        let uk = t.uk_size (if is_women_chart in_chart then 2 else 1) us in
        pick (λ e. t.names_size "uk" uk (value_in e)) in_chart
  ]

  abbrev pub in_chart_of : String → DecathlonValueListEntry → Bool
  in_chart_of chart e = t.starts_with e.code (concat (chart ∷ "_" ∷ []))

  unfoldable pub match_size_in_chart :
      List DecathlonValueListEntry → String → String → Option DecathlonValueListEntry
  match_size_in_chart entries chart shopify_value =
      let in_chart = keep (in_chart_of chart) entries in
      let v = t.ops.to_lower (t.ops.trim shopify_value) in
      first_some (pick (λ e. contains (value_in e) (aliases_of v)) in_chart)
        (first_some (by_eu v in_chart) (by_us v in_chart))

module _ (t : Words) (chart : String) where
  -- An entry of the chart, if there is one.
  IsOf : Option DecathlonValueListEntry → Type 0
  IsOf none = Unit
  IsOf (some e) = in_chart_of t chart e ≡ true

  abbrev AreOf : List DecathlonValueListEntry → Type 0
  AreOf = All (λ e. in_chart_of t chart e ≡ true)

  keep-AreOf :
      (test : DecathlonValueListEntry → Bool) (es : List DecathlonValueListEntry)
      → AreOf es
      → AreOf (keep test es)
  keep-AreOf test [] h = tt
  keep-AreOf test (e ∷ es) h = elim (Bool-cases (test e)) [
    | inl kept ↦ rw kept (h.0, keep-AreOf test es h.1)
    | inr dropped ↦ rw dropped (keep-AreOf test es h.1)
  ]

  kept-AreOf : (es : List DecathlonValueListEntry) → AreOf (keep (in_chart_of t chart) es)
  kept-AreOf [] = tt
  kept-AreOf (e ∷ es) = elim (Bool-cases (in_chart_of t chart e)) [
    | inl kept ↦ rw kept (kept, kept-AreOf es)
    | inr dropped ↦ rw dropped (kept-AreOf es)
  ]

  first_sorted-IsOf : (es : List DecathlonValueListEntry) → AreOf es → IsOf (first_sorted t es)
  unfolding first_sorted IsOf
  first_sorted-IsOf [] h = tt
  first_sorted-IsOf (e ∷ es) h =
      let later = first_sorted-IsOf es h.1 in
      elim (Option-cases (first_sorted t es)) [
        | inl no_more ↦ rw (no_more, first_sorted) h.0
        | inr (best, there) ↦ elim (Bool-cases (comes_before t best e)) [
          | inl before ↦ rw (there, before, first_sorted) (subst IsOf there later)
          | inr after ↦ rw (there, after, first_sorted) h.0
        ]
      ]

  pick-IsOf :
      (test : DecathlonValueListEntry → Bool) (es : List DecathlonValueListEntry)
      → AreOf es
      → IsOf (pick t test es)
  unfolding pick
  pick-IsOf test es h = first_sorted-IsOf (keep test es) (keep-AreOf test es h)

  first_some-IsOf : (a b : Option DecathlonValueListEntry) → IsOf a → IsOf b → IsOf (first_some a b)
  unfolding IsOf
  first_some-IsOf none b ha hb = hb
  first_some-IsOf (some e) b ha hb = ha

  by_eu-IsOf : (v : String) (es : List DecathlonValueListEntry) → AreOf es → IsOf (by_eu t v es)
  unfolding IsOf
  by_eu-IsOf v es h = elim (Option-cases (t.eu_size v)) [
    | inl other ↦ rw (by_eu, other) tt
    | inr (eu, there) ↦ rw (by_eu, there) (pick-IsOf _ es h)
  ]

  by_us-IsOf : (v : String) (es : List DecathlonValueListEntry) → AreOf es → IsOf (by_us t v es)
  unfolding IsOf
  by_us-IsOf v es h = elim (Option-cases (t.us_size v)) [
    | inl other ↦ rw (by_us, other) tt
    | inr (us, there) ↦ rw (by_us, there) (pick-IsOf _ es h)
  ]

  matched-IsOf :
      (entries : List DecathlonValueListEntry) (size : String)
      → IsOf (match_size_in_chart t entries chart size)
  unfolding match_size_in_chart
  matched-IsOf entries size =
      let h = kept-AreOf entries in
      first_some-IsOf _ _ (pick-IsOf _ _ h)
        (first_some-IsOf _ _ (by_eu-IsOf _ _ h) (by_us-IsOf _ _ h))

-- A size is only ever matched with an entry of the chart that was asked for: one whose code starts
-- with the code of the chart and an underscore.
pub match_size_in_chart-in_chart_of :
    (t : Words) (entries : List DecathlonValueListEntry) (chart size : String)
    (e : DecathlonValueListEntry)
    → match_size_in_chart t entries chart size ≡ some e
    → in_chart_of t chart e ≡ true
unfolding IsOf
match_size_in_chart-in_chart_of t entries chart size e found =
    subst (IsOf t chart) found (matched-IsOf t chart entries size)
