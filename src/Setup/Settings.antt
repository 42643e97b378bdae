-- ===== src/Setup/Settings.antt =====
-- Which edit a request has, and the settings of it.
use mantalon.Base.{
  ℕ, zero, suc, ◌+◌, List, [], ◌∷◌, ◌++◌, Option, some, Bool, true, false, Result, err, ok,
  Result-cases, Option-cases, any, ◌≡◌, refl, sym, ap, subst, ◌∙◌, arith, Bool-cases, inl, inr,
}
use mantalon.Http.{Http}
use mantalon.ContentEdit.{ContentEdit, Manifest, ParsedManifest}
use mantalon.Loading.{UpdateManifestError}
use mantalon.Setup.{
  Patterns, Parsed, wildcard_edit, parse_override, parse_edit, parsed_edit, parse_edits, parse_root,
  parse_base, parse_manifest, find_edit, get_content_edit, unwrap_or,
}

-- The element of a list at an index.
abbrev pub IsAt : {A : Type 0} → ℕ → List A → A → Type 0
IsAt i [] a = ⊥
IsAt zero (x ∷ xs) a = x ≡ a
IsAt (suc i) (x ∷ xs) a = IsAt i xs a

module _ (http : Http) (patterns : Patterns) where
  open patterns use {Url, parse_url, test}

  abbrev pub is_match : Url → Parsed http patterns → Bool
  is_match url e = any (λ pattern_. test pattern_ url) e.matches

  -- The edit at the index is the first that matches the URL.
  abbrev pub IsFirst : ℕ → List (Parsed http patterns) → Url → Parsed http patterns → Type 0
  IsFirst i [] url e = ⊥
  IsFirst zero (x ∷ xs) url e = (is_match url x ≡ true) × (x ≡ e)
  IsFirst (suc i) (x ∷ xs) url e = (is_match url x ≡ false) × IsFirst i xs url e

  find_edit-IsFirst :
      (n i : ℕ) (edits : List (Parsed http patterns)) (url : Url) (e : Parsed http patterns)
      → find_edit http patterns n edits url ≡ some (i, e)
      → (j : ℕ) × ((i ≡ n + j) × IsFirst j edits url e)
  unfolding find_edit
  find_edit-IsFirst n i [] url e h = cc
  find_edit-IsFirst n i (x ∷ edits) url e h = elim (Bool-cases (is_match url x)) [
    | inl y ↦
        let here : find_edit http patterns n (x ∷ edits) url ≡ some (n, x) =
          rw (y, find_edit) refl in
        let same : n ≡ i = cc in let taken : x ≡ e = cc in (0, (omega (arith, same), (y, taken)))
    | inr y ↦
        let there : find_edit http patterns n (x ∷ edits) url
            ≡ find_edit http patterns (suc n) edits url =
          rw (y, find_edit) refl in
        let (j, (later, first)) = find_edit-IsFirst (suc n) i edits url e (sym there ∙ h) in
        (suc j, (omega (arith, later), (y, first)))
  ]

  -- The settings of an edit, each from the edit itself, else from the manifest, else by default.
  abbrev pub IsSetBy : Manifest → ContentEdit → Parsed http patterns → Type 0
  IsSetBy manifest edit e =
      (e.lock_browsing ≡ unwrap_or edit.lock_browsing (unwrap_or manifest.lock_browsing false))
      × (e.https_only ≡ unwrap_or edit.https_only (unwrap_or manifest.https_only false))
      × (e.rewrite_location
          ≡ unwrap_or edit.rewrite_location (unwrap_or manifest.rewrite_location true))
      × (e.js_redirect ≡ unwrap_or edit.js_redirect (unwrap_or manifest.js_redirect false))
      × (e.substitute ≡ edit.substitute)

  parsed_edit-IsSetBy :
      (manifest : Manifest) (base : Url) (edit : ContentEdit) (uri : Option http.Uri)
      → IsSetBy manifest edit
          (parsed_edit http patterns (parse_root http patterns manifest) base edit uri)
  unfolding parsed_edit parse_root
  parsed_edit-IsSetBy manifest base edit uri = (refl, refl, refl, refl, refl)

  -- The first of the edits is parsed first.
  parse_edits-∷ :
      (root : ParsedManifest http patterns.UrlPattern) (base : Url) (edit : ContentEdit)
      (edits : List ContentEdit) (parsed : List (Parsed http patterns))
      → parse_edits http patterns root base (edit ∷ edits) ≡ ok parsed
      → (uri : Option http.Uri) × (rest : List (Parsed http patterns)) × ((parsed
            ≡ parsed_edit http patterns root base edit uri ∷ rest)
          × (parse_edits http patterns root base edits ≡ ok rest))
  unfolding parse_edits parse_edit
  parse_edits-∷ root base edit edits parsed =
      elim (Result-cases (parse_override http edit.override_url)) [
        | inl (e, x) ↦ rw (x, parse_edit, parse_edits) (λ h. cc)
        | inr (uri, x) ↦ elim (Result-cases (parse_edits http patterns root base edits)) [
          | inl (e, y) ↦ rw (x, parse_edit, y, parse_edits) (λ h. cc)
          | inr (rest, y) ↦ rw (x, parse_edit, y, parse_edits) (λ h. (uri, rest, (cc, refl)))
        ]
      ]

  parse_edits-IsAt :
      (manifest : Manifest) (base : Url) (edits : List ContentEdit)
      (parsed : List (Parsed http patterns)) (url : Url) (i : ℕ) (e : Parsed http patterns)
      → parse_edits http patterns (parse_root http patterns manifest) base edits ≡ ok parsed
      → IsFirst i parsed url e
      → (edit : ContentEdit) × (IsAt i edits edit × IsSetBy manifest edit e)
  unfolding parse_edits
  parse_edits-IsAt manifest base [] parsed url i e h first =
      let none_left : parsed ≡ [] = cc in absurd (subst (λ l. IsFirst i l url e) none_left first)
  parse_edits-IsAt manifest base (edit ∷ edits) parsed url zero e h first =
      let (uri, rest, (split, more)) =
        parse_edits-∷ (parse_root http patterns manifest) base edit edits parsed h in
      (
        edit,
        (
          refl,
          subst (IsSetBy manifest edit) (subst (λ l. IsFirst zero l url e) split first).1
              (parsed_edit-IsSetBy manifest base edit uri),
        ),
      )
  parse_edits-IsAt manifest base (edit ∷ edits) parsed url (suc i) e h first =
      let (uri, rest, (split, more)) =
        parse_edits-∷ (parse_root http patterns manifest) base edit edits parsed h in
      parse_edits-IsAt manifest base edits rest url i e more
        (subst (λ l. IsFirst (suc i) l url e) split first).1

  edits_of :
      Result UpdateManifestError (ParsedManifest http patterns.UrlPattern)
      → Result UpdateManifestError (List (Parsed http patterns))
  edits_of (err e) = err e
  edits_of (ok parsed) = ok parsed.content_edits

  -- What a manifest that is parsed consists of.
  parse_manifest-ok :
      (manifest : Manifest) (parsed : ParsedManifest http patterns.UrlPattern)
      → parse_manifest http patterns manifest ≡ ok parsed
      → (base : Url) × (parse_edits http patterns
            (parse_root http patterns manifest)
            base
            (manifest.content_edits ++ wildcard_edit ∷ [])
          ≡ ok parsed.content_edits)
  unfolding parse_manifest edits_of
  parse_manifest-ok manifest parsed =
      elim (Result-cases (parse_base http patterns manifest.domains)) [
        | inl (e, x) ↦ rw (x, parse_manifest) (λ h. cc)
        | inr (base, x) ↦
            elim (Result-cases (
              parse_edits http patterns (parse_root http patterns manifest) base
                (manifest.content_edits ++ wildcard_edit ∷ []))) [
                  | inl (e, y) ↦ rw (x, y, parse_manifest) (λ h. cc)
                  | inr (edits, y) ↦ rw (x, y, parse_manifest) (λ h. (base, y ∙ ap edits_of h))
                ]
      ]

  -- The edit that is looked up for a URI in a manifest that was parsed is the first that matches its
  -- URL, and it is the edit of the manifest at this index, or the one for all pages behind them,
  -- with its settings: each its own, else that of the manifest, else off, but for the rewriting of
  -- locations, which is on.
  pub get_content_edit-IsFirst :
      (manifest : Manifest) (parsed : ParsedManifest http patterns.UrlPattern) (uri : http.Uri)
      (i : ℕ) (e : Parsed http patterns)
      → parse_manifest http patterns manifest ≡ ok parsed
      → get_content_edit http patterns parsed uri ≡ some (i, e)
      → (url : Url) × (edit : ContentEdit) × ((parse_url (http.uri_to_string uri) ≡ some url)
          × IsFirst i parsed.content_edits url e
          × IsAt i (manifest.content_edits ++ wildcard_edit ∷ []) edit
          × IsSetBy manifest edit e)
  unfolding get_content_edit
  get_content_edit-IsFirst manifest parsed uri i e h =
      elim (Option-cases (parse_url (http.uri_to_string uri))) [
        | inl x ↦ rw (x, get_content_edit) (λ at. cc)
        | inr (url, x) ↦
            rw (x, get_content_edit)
              (λ at.
                let (j, (same, found)) = find_edit-IsFirst 0 i parsed.content_edits url e at in
                let index : j ≡ i = omega (arith, same) in
                let first = subst (λ k. IsFirst k parsed.content_edits url e) index found in
                let (base, edits) = parse_manifest-ok manifest parsed h in
                let (edit, (here, settings)) =
                  parse_edits-IsAt manifest base (manifest.content_edits ++ wildcard_edit ∷ [])
                    parsed.content_edits url i e edits first in
                (url, edit, (refl, first, here, settings)))
      ]
