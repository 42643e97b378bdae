-- ===== src/Headers/Views.antt =====
-- The values that each header has after the edits.
use mantalon.Base.{
  List, [], ◌∷◌, ◌++◌, Option, none, some, Bool, false, ◌≡◌, refl, ◌||◌, ◌∙◌, if◌then◌else◌,
  append_assoc, append-nil, arith, sym, Bool-cases, inl, inr, any, Option-cases,
}
use mathlib.Core.List.{head?}
use mantalon.Http.{Http, first_value}
use mantalon.Headers.{remove_all, insert_all, append_all, rename, rename_all, edit_headers}

module _ (http : Http) where
  open http use {
    HeaderName, HeaderValue, HeaderMap, insert, append, remove, get_all, name_eq, name_eq_iff,
    get_all-insert, get_all-append, get_all-remove,
  }

  -- The last value that a list of pairs has for a name, and all of them.
  abbrev pub last_value : List (HeaderName × HeaderValue) → HeaderName → Option HeaderValue
  last_value [] j = none
  last_value ((k, v) ∷ kvs) j = elim (last_value kvs j) [
    | some w ↦ some w
    | none ↦ if name_eq k j then some v else none
  ]

  abbrev pub values_of : List (HeaderName × HeaderValue) → HeaderName → List HeaderValue
  values_of [] j = []
  values_of ((k, v) ∷ kvs) j = if name_eq k j then v ∷ values_of kvs j else values_of kvs j

  abbrev pub listed : List HeaderName → HeaderName → Bool
  listed ks j = any (λ k. name_eq k j) ks

  get_all-remove_all :
      (ks : List HeaderName) (m : HeaderMap) (j : HeaderName)
      → get_all (remove_all http ks m) j ≡ (if listed ks j then [] else get_all m j)
  unfolding remove_all
  get_all-remove_all [] m j = refl
  get_all-remove_all (k ∷ ks) m j =
      ground (arith, get_all-remove_all ks (remove m k) j, get_all-remove m k j)

  pub head?-none : (vs : List HeaderValue) → head? vs ≡ none → vs ≡ []
  head?-none [] e = refl
  head?-none (v ∷ vs) e = cc

  abbrev pub replaced : Option HeaderValue → List HeaderValue → List HeaderValue
  replaced none vs = vs
  replaced (some v) vs = v ∷ []

  get_all-insert_all :
      (kvs : List (HeaderName × HeaderValue)) (m : HeaderMap) (j : HeaderName)
      → get_all (insert_all http kvs m) j ≡ replaced (last_value kvs j) (get_all m j)
  unfolding insert_all
  get_all-insert_all [] m j = refl
  get_all-insert_all ((k, v) ∷ kvs) m j =
      ground (arith, get_all-insert_all kvs (insert m k v) j, get_all-insert m k v j)

  get_all-append_all :
      (kvs : List (HeaderName × HeaderValue)) (m : HeaderMap) (j : HeaderName)
      → get_all (append_all http kvs m) j ≡ get_all m j ++ values_of kvs j
  unfolding append_all
  get_all-append_all [] m j = sym (append-nil _)
  get_all-append_all ((k, v) ∷ kvs) m j = elim (Bool-cases (name_eq k j)) [
    | inl e ↦
        get_all-append_all kvs (append m k v) j
        ∙ (rw (get_all-append m k v j, e) (simp append_assoc))
    | inr e ↦ get_all-append_all kvs (append m k v) j ∙ (rw (get_all-append m k v j, e))
  ]

  -- What a header has after the removals, insertions and appends.
  abbrev pub edited :
      (removed : List HeaderName) (inserted appended : List (HeaderName × HeaderValue))
      → HeaderMap
      → HeaderName
      → List HeaderValue
  edited removed inserted appended m j =
      replaced (last_value inserted j) (if listed removed j then [] else get_all m j)
      ++ values_of appended j

  pub get_all-edited :
      (removed : List HeaderName) (inserted appended : List (HeaderName × HeaderValue))
      (m : HeaderMap) (j : HeaderName)
      → get_all (append_all http appended (insert_all http inserted (remove_all http removed m))) j
        ≡ edited removed inserted appended m j
  get_all-edited removed inserted appended m j =
      rw (get_all-append_all, get_all-insert_all, get_all-remove_all)

  -- A rename moves the first value of its source to its target, and drops the others of both.
  pub get_all-rename :
      (a b : HeaderName) (m : HeaderMap) (j : HeaderName)
      → get_all (rename http a b m) j ≡ elim (first_value http m a) [
        | none ↦ get_all m j
        | some v ↦ if name_eq b j then v ∷ [] else if name_eq a j then [] else get_all m j
      ]
  unfolding rename
  get_all-rename a b m j = elim (Option-cases (first_value http m a)) [
    | inl e ↦
        rw (e, rename, get_all-remove m a j)
          (ground (arith, name_eq_iff a j, head?-none (get_all m a) e))
    | inr (v, e) ↦ rw (e, rename, get_all-insert (remove m a) b v j, get_all-remove m a j)
  ]

  abbrev is_renamed : List (HeaderName × HeaderName) → HeaderName → Bool
  is_renamed [] j = false
  is_renamed ((a, b) ∷ pairs) j = name_eq a j || name_eq b j || is_renamed pairs j

  get_all-rename_all_other :
      (pairs : List (HeaderName × HeaderName)) (m : HeaderMap) (j : HeaderName)
      → is_renamed pairs j ≡ false
      → get_all (rename_all http pairs m) j ≡ get_all m j
  unfolding rename_all
  get_all-rename_all_other [] m j h = refl
  get_all-rename_all_other ((a, b) ∷ pairs) m j h =
      ground (arith, get_all-rename_all_other pairs (rename http a b m) j, get_all-rename a b m j)

  -- A header that no rename names, as its source or its target, ends with the values that the
  -- loops in front give it: those it had, unless it is removed; in their place the inserted value,
  -- if there is one; and then the appended values.
  get_all-edit_headers :
      (removed : List HeaderName) (inserted appended : List (HeaderName × HeaderValue))
      (renamed : List (HeaderName × HeaderName)) (m : HeaderMap) (j : HeaderName)
      → is_renamed renamed j ≡ false
      → get_all (edit_headers http removed inserted appended renamed m) j
        ≡ edited removed inserted appended m j
  unfolding edit_headers
  get_all-edit_headers removed inserted appended renamed m j h =
      get_all-rename_all_other renamed _ j h ∙ get_all-edited removed inserted appended m j
