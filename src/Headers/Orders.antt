-- ===== src/Headers/Orders.antt =====
-- The edits of headers take their maps and sets as the program iterates over them. What they do
-- does not depend on that order, but for renames that run into one another.
use mantalon.Base.{
  List, [], ◌∷◌, Option, none, some, true, false, ◌≡◌, refl, ap, ap₂, subst, fun_ext, ◌∙◌, sym,
  if◌then◌else◌, arith, Bool-cases, Option-cases, inl, inr, ◌⊎◌,
}
use mantalon.Http.{Http}
use mantalon.Headers.{rename, rename_all, edit_headers}
use mantalon.Headers.Views.{values_of, last_value, listed, edited, get_all-edited, get_all-rename}
use mantalon.Headers.Rename.{is_source, is_target, rename_source_gone}

List-cases {ℓ} :
    {A : Type ℓ} (xs : List A) → (xs ≡ []) ⊎ ((x : A) × (rest : List A) × (xs ≡ x ∷ rest))
List-cases [] = inl refl
List-cases (x ∷ xs) = inr (x, xs, refl)

module _ (http : Http) where
  open http use {HeaderName, HeaderValue, HeaderMap, get_all, name_eq, name_eq_iff}

  -- Two lists have the entries of one map, or the members of one set.
  abbrev pub SameMap : List (HeaderName × HeaderValue) → List (HeaderName × HeaderValue) → Type 0
  SameMap kvs kvs' = (j : HeaderName) → values_of http kvs j ≡ values_of http kvs' j

  abbrev pub SameSet : List HeaderName → List HeaderName → Type 0
  SameSet ks ks' = (j : HeaderName) → listed http ks j ≡ listed http ks' j

  abbrev last : List HeaderValue → Option HeaderValue
  last [] = none
  last (v ∷ vs) = elim (last vs) [ some w ↦ some w | none ↦ some v ]

  last-values_of :
      (kvs : List (HeaderName × HeaderValue)) (j : HeaderName)
      → last_value http kvs j ≡ last (values_of http kvs j)
  last-values_of [] j = refl
  last-values_of ((k, v) ∷ kvs) j = elim (Bool-cases (name_eq k j)) [
    | inl e ↦ ground (arith, last-values_of kvs j)
    | inr e ↦ ground (arith, last-values_of kvs j)
  ]

  edited-same :
      (removed removed' : List HeaderName)
      (inserted inserted' appended appended' : List (HeaderName × HeaderValue)) (m : HeaderMap)
      → SameSet removed removed'
      → SameMap inserted inserted'
      → SameMap appended appended'
      → (j : HeaderName)
      → edited http removed inserted appended m j ≡ edited http removed' inserted' appended' m j
  edited-same removed removed' inserted inserted' appended appended' m r i a j =
      rw (last-values_of inserted j, last-values_of inserted' j, r j, i j, a j) refl

  -- The name whose value a rename moves to `j`.
  abbrev pub source_of : List (HeaderName × HeaderName) → HeaderName → Option HeaderName
  source_of [] j = none
  source_of ((a, b) ∷ pairs) j = if name_eq b j then some a else source_of pairs j

  -- No name stands in two places of the renames.
  abbrev pub IsApart : List (HeaderName × HeaderName) → Type 0
  IsApart [] = Unit
  IsApart ((a, b) ∷ pairs) =
      (name_eq a b ≡ false)
      × (is_source http pairs a ≡ false)
      × (is_target http pairs a ≡ false)
      × (is_source http pairs b ≡ false)
      × (is_target http pairs b ≡ false)
      × IsApart pairs

  -- What renames that are apart make of the values of each header.
  abbrev moved : List HeaderValue → List HeaderValue → List HeaderValue
  moved [] there = there
  moved (v ∷ vs) there = v ∷ []

  abbrev renamed_view :
      List (HeaderName × HeaderName)
      → (HeaderName → List HeaderValue)
      → HeaderName
      → List HeaderValue
  renamed_view pairs view j =
      if is_source http pairs j
      then []
      else elim (source_of pairs j) [ none ↦ view j | some a ↦ moved (view a) (view j) ]

  no_source :
      (pairs : List (HeaderName × HeaderName)) (j : HeaderName)
      → is_target http pairs j ≡ false
      → source_of pairs j ≡ none
  no_source [] j h = refl
  no_source ((a, b) ∷ pairs) j h = ground (arith, no_source pairs j)

  source_of-is_source :
      (pairs : List (HeaderName × HeaderName)) (j a : HeaderName)
      → source_of pairs j ≡ some a
      → is_source http pairs a ≡ true
  source_of-is_source [] j a h = cc
  source_of-is_source ((c, d) ∷ pairs) j a h =
      ground (arith, source_of-is_source pairs j a, name_eq_iff c a)

  rename_other :
      (a b : HeaderName) (m : HeaderMap) (j : HeaderName)
      → name_eq a j ≡ false
      → name_eq b j ≡ false
      → get_all (rename http a b m) j ≡ get_all m j
  rename_other a b m j ha hb = ground (arith, get_all-rename http a b m j)

  rename_target :
      (a b : HeaderName) (m : HeaderMap)
      → get_all (rename http a b m) b ≡ moved (get_all m a) (get_all m b)
  rename_target a b m = elim (List-cases (get_all m a)) [
    | inl e ↦ get_all-rename http a b m b ∙ ground (arith)
    | inr (v, vs, e) ↦ get_all-rename http a b m b ∙ ground (arith, name_eq_iff b b)
  ]

  name_eq_sym : (a b : HeaderName) → name_eq a b ≡ false → name_eq b a ≡ false
  name_eq_sym a b h = ground (arith, name_eq_iff a b, name_eq_iff b a)

  not_source :
      (pairs : List (HeaderName × HeaderName)) (j a : HeaderName)
      → is_source http pairs j ≡ false
      → is_source http pairs a ≡ true
      → name_eq j a ≡ false
  not_source pairs j a h k = ground (arith, name_eq_iff j a)

  renamed_view-rename :
      (a b : HeaderName) (pairs : List (HeaderName × HeaderName)) (m : HeaderMap) (j : HeaderName)
      → IsApart ((a, b) ∷ pairs)
      → renamed_view pairs (get_all (rename http a b m)) j
        ≡ renamed_view ((a, b) ∷ pairs) (get_all m) j
  renamed_view-rename a b pairs m j (ab, a_s, a_t, b_s, b_t, h) = elim (Bool-cases (name_eq a j)) [
    | inl e ↦
        let same = (name_eq_iff a j).0 e in
        let s = subst (λ k. is_source http pairs k ≡ false) same a_s in
        let n = subst (λ k. source_of pairs k ≡ none) same (no_source pairs a a_t) in
        let gone =
          subst (λ k. get_all (rename http a b m) k ≡ []) same
            (rename_source_gone http a b m (name_eq_sym a b ab)) in
        rw (e, s, n, gone) refl
    | inr e ↦ elim (Bool-cases (is_source http pairs j)) [
      | inl s ↦ rw (e, s) refl
      | inr s ↦ elim (Bool-cases (name_eq b j)) [
        | inl t ↦
            let same = (name_eq_iff b j).0 t in
            let n = subst (λ k. source_of pairs k ≡ none) same (no_source pairs b b_t) in
            rw (e, s, t, n)
              (subst (λ k. get_all (rename http a b m) k ≡ moved (get_all m a) (get_all m k)) same
                (rename_target a b m))
        | inr t ↦ elim (Option-cases (source_of pairs j)) [
          | inl n ↦ rw (e, s, t, n) (rename_other a b m j e t)
          | inr (c, n) ↦
              let c_s = source_of-is_source pairs j c n in
              rw (e, s, t, n)
                (ap₂ moved
                  (rename_other a b m c (not_source pairs a c a_s c_s)
                    (not_source pairs b c b_s c_s))
                  (rename_other a b m j e t))
        ]
      ]
    ]
  ]

  get_all-rename_all :
      (pairs : List (HeaderName × HeaderName)) (m : HeaderMap) (j : HeaderName)
      → IsApart pairs
      → get_all (rename_all http pairs m) j ≡ renamed_view pairs (get_all m) j
  unfolding rename_all
  get_all-rename_all [] m j h = refl
  get_all-rename_all ((a, b) ∷ pairs) m j h =
      get_all-rename_all pairs (rename http a b m) j h.5 ∙ renamed_view-rename a b pairs m j h

  -- The renames of one map of names.
  abbrev pub SameRenames : List (HeaderName × HeaderName) → List (HeaderName × HeaderName) → Type 0
  SameRenames pairs pairs' =
      (j : HeaderName)
      → (source_of pairs j ≡ source_of pairs' j)
        × (is_source http pairs j ≡ is_source http pairs' j)

  pub record SameEdits (removed removed' : List HeaderName)
      (inserted inserted' appended appended' : List (HeaderName × HeaderValue))
      (renamed renamed' : List (HeaderName × HeaderName)) : Type 0 where
    pub removes : SameSet removed removed'
    pub inserts : SameMap inserted inserted'
    pub appends : SameMap appended appended'
    pub renames : SameRenames renamed renamed'
    pub apart : IsApart renamed
    pub apart' : IsApart renamed'

  renamed_view-same :
      (pairs pairs' : List (HeaderName × HeaderName)) (view view' : HeaderName → List HeaderValue)
      → SameRenames pairs pairs'
      → ((k : HeaderName) → view k ≡ view' k)
      → (j : HeaderName) → renamed_view pairs view j ≡ renamed_view pairs' view' j
  renamed_view-same pairs pairs' view view' same h j =
      rw ((same j).0, (same j).1)
        (ap (λ (v : HeaderName → List HeaderValue). renamed_view pairs' v j) (fun_ext h))

  -- Two orders of iteration over the same set of removals, the same maps of inserted and appended
  -- headers and the same renames, of which no name stands in two places, leave the same values
  -- under each header.
  pub edit_headers-same :
      (removed removed' : List HeaderName)
      (inserted inserted' appended appended' : List (HeaderName × HeaderValue))
      (renamed renamed' : List (HeaderName × HeaderName)) (m : HeaderMap)
      → SameEdits removed removed' inserted inserted' appended appended' renamed renamed'
      → (j : HeaderName)
      → get_all (edit_headers http removed inserted appended renamed m) j
        ≡ get_all (edit_headers http removed' inserted' appended' renamed' m) j
  unfolding edit_headers
  edit_headers-same removed removed' inserted inserted' appended appended' renamed renamed' m same
        j =
      get_all-rename_all renamed _ j same.apart
      ∙ renamed_view-same renamed renamed' _ _ same.renames
          (λ k.
            get_all-edited http removed inserted appended m k
            ∙ edited-same removed removed' inserted inserted' appended appended' m same.removes
                same.inserts same.appends k
            ∙ sym (get_all-edited http removed' inserted' appended' m k))
          j
      ∙ sym (get_all-rename_all renamed' _ j same.apart')
