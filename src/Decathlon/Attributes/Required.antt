-- ===== src/Decathlon/Attributes/Required.antt =====
-- Which attributes a product row of a category must carry.
use mathlib.Core.List.{Memᴰ}
use decathlon_app.Base.{
  String, Bool, true, false, ◌||◌, List, [], ◌∷◌, ◌≡◌, arith, contains, All, eq_iff, eq_refl,
}
use decathlon_app.Decathlon.Attributes.{
  DecathlonAttribute, is_applicable, required_from, required_attributes_for_category,
}

abbrev pub codes : List DecathlonAttribute → List String
codes [] = []
codes (a ∷ rest) = a.code ∷ codes rest

-- No code stands twice.
abbrev pub IsDistinct : List String → Type 0
IsDistinct [] = Unit
IsDistinct (k ∷ ks) = (contains k ks ≡ false) × IsDistinct ks

module _ (applicable : DecathlonAttribute → Bool) where
  abbrev pub IsWanted : DecathlonAttribute → Type 0
  IsWanted a = (a.required ≡ true) × (applicable a ≡ true)

  required_from-IsWanted :
      (seen : List String) (all : List DecathlonAttribute)
      → All IsWanted (required_from applicable seen all)
  unfolding required_from
  required_from-IsWanted seen [] = tt
  required_from-IsWanted seen (a ∷ all) =
      ground (arith, required_from-IsWanted seen all, required_from-IsWanted (a.code ∷ seen) all)

  -- A code that is in the result is not in `seen`.
  required_from-unseen :
      (seen : List String) (all : List DecathlonAttribute) (k : String)
      → contains k (codes (required_from applicable seen all)) ≡ true
      → contains k seen ≡ false
  unfolding required_from
  required_from-unseen seen [] k h = cc
  required_from-unseen seen (a ∷ all) k h = ground (
    arith,
    required_from-unseen seen all k,
    required_from-unseen (a.code ∷ seen) all k,
    eq_iff k a.code,
  )

  required_from-IsDistinct :
      (seen : List String) (all : List DecathlonAttribute)
      → IsDistinct (codes (required_from applicable seen all))
  unfolding required_from
  required_from-IsDistinct seen [] = tt
  required_from-IsDistinct seen (a ∷ all) = ground (
    arith,
    required_from-IsDistinct seen all,
    required_from-IsDistinct (a.code ∷ seen) all,
    required_from-unseen (a.code ∷ seen) all a.code,
    eq_refl a.code,
  )

  -- The code of a wanted attribute is in the result, or had been seen.
  abbrev pub IsCovered : List String → List DecathlonAttribute → DecathlonAttribute → Type 0
  IsCovered seen result a =
      IsWanted a → (contains a.code (codes result) || contains a.code seen) ≡ true

  IsCovered-cons :
      (seen : List String) (b : DecathlonAttribute) (result all : List DecathlonAttribute)
      → All (IsCovered (b.code ∷ seen) result) all
      → All (IsCovered seen (b ∷ result)) all
  IsCovered-cons seen b result [] h = tt
  IsCovered-cons seen b result (a ∷ all) h =
      (λ w. ground (arith, h.0 w, eq_iff a.code b.code), IsCovered-cons seen b result all h.1)

  required_from-IsCovered :
      (seen : List String) (all : List DecathlonAttribute)
      → All (IsCovered seen (required_from applicable seen all)) all
  unfolding required_from
  required_from-IsCovered seen [] = tt
  required_from-IsCovered seen (a ∷ all) = ground (
    arith,
    required_from-IsCovered seen all,
    IsCovered-cons seen a (required_from applicable (a.code ∷ seen) all) all
        (required_from-IsCovered (a.code ∷ seen) all),
    eq_refl a.code,
  )

All-at : {A : Type 0} (P : A → Type 0) (x : A) (xs : List A) → All P xs → Memᴰ x xs → P x
All-at P x [] h listed = elim listed [ ]
All-at P x (y ∷ ys) h (Memᴰ.head e) = rw e h.0
All-at P x (y ∷ ys) h (Memᴰ.tail later) = All-at P x ys h.1 later

-- Every required attribute that belongs to every category, to the one asked for or to an ancestor of
-- it is in the result, by its code.
pub required_attributes_for_category-covers :
    (all : List DecathlonAttribute) (category_code : String) (ancestor_codes : List String)
    (a : DecathlonAttribute)
    → Memᴰ a all
    → a.required ≡ true
    → is_applicable category_code ancestor_codes a ≡ true
    → contains a.code (codes (required_attributes_for_category all category_code ancestor_codes))
      ≡ true
unfolding required_attributes_for_category
required_attributes_for_category-covers all category_code ancestor_codes a listed required
      applicable =
    let p = is_applicable category_code ancestor_codes in
    ground (
      arith,
      All-at (IsCovered p [] (required_from p [] all)) a all (required_from-IsCovered p [] all)
          listed (required, applicable),
    )

-- The result lists only required attributes that belong to every category, to the one asked for or
-- to an ancestor of it, and lists no code twice.
pub required_attributes_for_category-IsDistinct :
    (all : List DecathlonAttribute) (category_code : String) (ancestor_codes : List String)
    → All
        (IsWanted (is_applicable category_code ancestor_codes))
        (required_attributes_for_category all category_code ancestor_codes)
      × IsDistinct (codes (required_attributes_for_category all category_code ancestor_codes))
unfolding required_attributes_for_category
required_attributes_for_category-IsDistinct all category_code ancestor_codes =
    let p = is_applicable category_code ancestor_codes in
    (required_from-IsWanted p [] all, required_from-IsDistinct p [] all)
