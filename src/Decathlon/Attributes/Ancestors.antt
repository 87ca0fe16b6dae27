-- ===== src/Decathlon/Attributes/Ancestors.antt =====
-- The ancestors of a category are its chain of parents, at most 32 of them.
use decathlon_app.Base.{
  ℕ, zero, suc, String, ◌+◌, ◌≤◌, List, [], ◌∷◌, none, some, ◌≡◌, ◌⊎◌, true, arith, subst, ap, ◌∙◌,
  ◌==◌, length, lookup, insert, lookup-insert, sym, inl, inr, Bool-cases, Option-cases, eq_iff,
}
use decathlon_app.Decathlon.Attributes.{
  DecathlonHierarchy, by_code_from, ancestors_from, ancestor_codes_for,
}

-- In the tree, `parent` is what the node `code` names as its parent.
abbrev pub IsParent : List (String × DecathlonHierarchy) → String → String → Type 0
IsParent by_code parent code =
    (h : DecathlonHierarchy) × (lookup code by_code ≡ some h) × (h.parent_code ≡ parent)

-- The codes run from the farthest ancestor down to the parent of `code`.
abbrev pub IsLineage : List (String × DecathlonHierarchy) → List String → String → Type 0
IsLineage by_code [] code = Unit
IsLineage by_code (a ∷ []) code = IsParent by_code a code
IsLineage by_code (a ∷ b ∷ rest) code = IsParent by_code a b × IsLineage by_code (b ∷ rest) code

-- The farthest ancestor so far, or the code itself.
abbrev pub farthest : List String → String → String
farthest [] code = code
farthest (a ∷ _) code = a

IsLineage-cons :
    (m : List (String × DecathlonHierarchy)) (a : String) (chain : List String) (code : String)
    → IsParent m a (farthest chain code)
    → IsLineage m chain code
    → IsLineage m (a ∷ chain) code
IsLineage-cons m a [] code p l = p
IsLineage-cons m a (b ∷ chain) code p l = (p, l)

-- Every entry of the map stands under its own code.
abbrev IsKeyed : List (String × DecathlonHierarchy) → Type 0
IsKeyed m = (k : String) (h : DecathlonHierarchy) → lookup k m ≡ some h → h.code ≡ k

by_code_from-IsKeyed :
    (m : List (String × DecathlonHierarchy)) (hs : List DecathlonHierarchy)
    → IsKeyed m
    → IsKeyed (by_code_from m hs)
unfolding by_code_from
by_code_from-IsKeyed m [] keyed = keyed
by_code_from-IsKeyed m (h ∷ hs) keyed =
    by_code_from-IsKeyed (insert h.code h m) hs
      λ k g e. ground (arith, keyed k g, lookup-insert h.code k h m, eq_iff h.code k)

module _ (m : List (String × DecathlonHierarchy)) (keyed : IsKeyed m) (code : String) where
  ancestors_from-IsLineage :
      (rounds : ℕ) (cur : DecathlonHierarchy) (chain : List String)
      → lookup (farthest chain code) m ≡ some cur
      → IsLineage m chain code
      → IsLineage m (ancestors_from rounds m cur chain) code
  unfolding ancestors_from
  ancestors_from-IsLineage zero cur chain found l = l
  ancestors_from-IsLineage (suc rounds) cur chain found l =
      elim (Bool-cases (cur.parent_code == "")) [
        | inl root ↦
            let stop : ancestors_from (suc rounds) m cur chain ≡ chain =
              rw (root, ancestors_from) in
            subst (λ c. IsLineage m c code) (sym stop) l
        | inr inner ↦ elim (Option-cases (lookup cur.parent_code m)) [
          | inl lost ↦
              let stop : ancestors_from (suc rounds) m cur chain ≡ chain =
                rw (inner, ancestors_from, lost) in
              subst (λ c. IsLineage m c code) (sym stop) l
          | inr (parent, e) ↦
              let next : ancestors_from (suc rounds) m cur chain
                  ≡ ancestors_from rounds m parent (parent.code ∷ chain) =
                rw (inner, ancestors_from, e) in
              subst (λ c. IsLineage m c code) (sym next)
                (ancestors_from-IsLineage rounds parent (parent.code ∷ chain)
                  (ap (λ k. lookup k m) (keyed _ _ e) ∙ e)
                  (IsLineage-cons m parent.code chain code (cur, found, sym (keyed _ _ e)) l))
        ]
      ]

-- The walk cannot go on from a code: it is not in the tree, or it names no parent, or one that is not
-- in the tree.
pub data IsTop (by_code : List (String × DecathlonHierarchy)) (code : String) : Type 0 where
  unknown : lookup code by_code ≡ none → IsTop by_code code
  root :
      (h : DecathlonHierarchy)
      → lookup code by_code ≡ some h
      → (h.parent_code == "") ≡ true
      → IsTop by_code code
  orphan :
      (h : DecathlonHierarchy)
      → lookup code by_code ≡ some h
      → lookup h.parent_code by_code ≡ none
      → IsTop by_code code

module _ (m : List (String × DecathlonHierarchy)) (keyed : IsKeyed m) (code : String) where
  ancestors_from-IsTop :
      (rounds : ℕ) (cur : DecathlonHierarchy) (chain : List String)
      → lookup (farthest chain code) m ≡ some cur
      → (length (ancestors_from rounds m cur chain) ≡ rounds + length chain)
        ⊎ IsTop m (farthest (ancestors_from rounds m cur chain) code)
  unfolding ancestors_from
  ancestors_from-IsTop zero cur chain found = inl (omega arith)
  ancestors_from-IsTop (suc rounds) cur chain found = elim (Bool-cases (cur.parent_code == "")) [
    | inl at_root ↦ rw (at_root, ancestors_from) (inr (root cur found at_root))
    | inr inner ↦ elim (Option-cases (lookup cur.parent_code m)) [
      | inl lost ↦ rw (inner, ancestors_from, lost) (inr (orphan cur found lost))
      | inr (parent, e) ↦
          rw (inner, ancestors_from, e)
            (elim (ancestors_from-IsTop rounds parent (parent.code ∷ chain)
              (ap (λ k. lookup k m) (keyed _ _ e) ∙ e)) [
                | inl full ↦ inl (full ∙ omega arith)
                | inr top ↦ inr top
              ])
    ]
  ]

length-ancestors_from-le :
    (rounds : ℕ) (m : List (String × DecathlonHierarchy)) (cur : DecathlonHierarchy)
    (chain : List String)
    → length (ancestors_from rounds m cur chain) ≤ rounds + length chain
unfolding ancestors_from
length-ancestors_from-le zero m cur chain = omega arith
length-ancestors_from-le (suc rounds) m cur chain = elim (Option-cases (lookup cur.parent_code m)) [
  | inl lost ↦ ground arith
  | inr (parent, e) ↦ ground (arith, length-ancestors_from-le rounds m parent (parent.code ∷ chain))
]

-- The result is the chain of parents of the category in the tree, farthest first: each code is the
-- one that its successor names as its parent, and the last is the category's own parent. It has at
-- most 32 codes, whether the tree is cyclic or not, and the chain is not cut short: if there are fewer,
-- the farthest code (or the category, if there is none) is not in the tree, or names no parent, or
-- one that is not in the tree.
pub ancestor_codes_for-IsLineage :
    (hierarchies : List DecathlonHierarchy) (category_code : String)
    → IsLineage
        (by_code_from [] hierarchies)
        (ancestor_codes_for hierarchies category_code)
        category_code
      × (length (ancestor_codes_for hierarchies category_code) ≤ 32)
      × ((length (ancestor_codes_for hierarchies category_code) ≡ 32)
          ⊎ IsTop
              (by_code_from [] hierarchies)
              (farthest (ancestor_codes_for hierarchies category_code) category_code))
unfolding ancestor_codes_for
ancestor_codes_for-IsLineage hierarchies category_code =
    let m = by_code_from [] hierarchies in
    elim (Option-cases (lookup category_code m)) [
      | inl lost ↦
          let none_found : ancestor_codes_for hierarchies category_code ≡ [] =
            rw (lost, ancestor_codes_for) in
          rw none_found (tt, omega arith, inr (unknown lost))
      | inr (cur, e) ↦
          let found : ancestor_codes_for hierarchies category_code ≡ ancestors_from 32 m cur [] =
            rw (e, ancestor_codes_for) in
          rw found (
            ancestors_from-IsLineage m (by_code_from-IsKeyed [] hierarchies (λ k h absent. cc))
                category_code 32 cur [] e tt,
            omega (arith, length-ancestors_from-le 32 m cur []),
            ancestors_from-IsTop m (by_code_from-IsKeyed [] hierarchies (λ k h absent. cc))
                category_code 32 cur [] e,
          )
    ]
