-- ===== src/Setup/Matching.antt =====
-- Loading a manifest and looking up the edit of a request: which requests have one.
use mantalon.Base.{
  ℕ, suc, ◌+◌, ◌≤◌, List, [], ◌∷◌, ◌++◌, Option, none, some, Text, ok, any, length, ◌≡◌, refl, ap,
  ◌∙◌, arith, Bool-cases, inl, inr, All,
}
use mantalon.Http.{Http}
use mantalon.ContentEdit.{ContentEdit, Manifest, ParsedManifest}
use mantalon.Loading.{Scope, UpdateManifestError, load_manifest}
use mantalon.Setup.{
  Patterns, Parsed, wildcard_edit, parse_override, parse_edit, parsed_edit, parse_edits, parse_root,
  parse_base, parse_matches, parse_manifest, update_manifest, find_edit, get_content_edit,
}

module _ (http : Http) (patterns : Patterns) where
  open patterns use {Url, parse_url, test}

  -- The URI that an edit puts in place of that of a request, if any, can be parsed.
  abbrev pub HasUri : ContentEdit → Type 0
  HasUri edit = (uri : Option http.Uri) × (parse_override http edit.override_url ≡ ok uri)

  -- The edits of a manifest behind which there is the one for all pages, as they are parsed: one of
  -- them is found for each URL.
  IsCovering : ℕ → ParsedManifest http patterns.UrlPattern → Url → List ContentEdit → Type 0
  IsCovering n root base edits =
      (parsed : List (Parsed http patterns)) × ((parse_edits http patterns root base edits
          ≡ ok parsed)
        × ((url : Url) (i : ℕ)
            → (j : ℕ) × (e : Parsed http patterns) × ((find_edit http patterns i parsed url
                  ≡ some (j, e))
                × (j ≤ i + n))))

  covering-wildcard :
      (root : ParsedManifest http patterns.UrlPattern) (base : Url)
      → IsCovering 0 root base (wildcard_edit ∷ [])
  unfolding IsCovering parse_edits parse_edit parse_override parse_matches find_edit parsed_edit
  covering-wildcard root base =
      let parsed = parsed_edit http patterns root base wildcard_edit none in
      (
        parsed ∷ [],
        (refl, λ url i. (i, parsed, (rw (patterns.test-wildcard url) refl, omega arith))),
      )

  covering-∷ :
      (n : ℕ) (root : ParsedManifest http patterns.UrlPattern) (base : Url) (edit : ContentEdit)
      (edits : List ContentEdit)
      → HasUri edit
      → IsCovering n root base edits
      → IsCovering (suc n) root base (edit ∷ edits)
  unfolding IsCovering find_edit parse_edits parse_edit
  covering-∷ n root base edit edits (uri, has) (parsed, (e, found)) =
      let first = parsed_edit http patterns root base edit uri in
      (
        first ∷ parsed,
        (
          rw (has, parse_edit, e, parse_edits) refl,
          λ url i. elim (Bool-cases (any (λ pattern_. test pattern_ url) first.matches)) [
            | inl y ↦ (i, first, (rw (y, find_edit) refl, omega arith))
            | inr y ↦
                let (j, later, (at, bound)) = found url (suc i) in
                (j, later, (rw (y, find_edit) at, omega (arith, bound)))
          ],
        ),
      )

  covering :
      (root : ParsedManifest http patterns.UrlPattern) (base : Url) (edits : List ContentEdit)
      → All HasUri edits
      → IsCovering (length edits) root base (edits ++ wildcard_edit ∷ [])
  covering root base [] h = covering-wildcard root base
  covering root base (edit ∷ edits) (h, hs) =
      covering-∷ (length edits) root base edit (edits ++ wildcard_edit ∷ []) h
        (covering root base edits hs)

  update_manifest-parsed :
      {Json : Type 0} (scope : Scope Json) (manifest_url : Text) (manifest : Manifest)
      (current : ParsedManifest http patterns.UrlPattern) (base : Url)
      (parsed : List (Parsed http patterns))
      → load_manifest scope manifest_url ≡ ok manifest
      → parse_base http patterns manifest.domains ≡ ok base
      → parse_edits http patterns
          (parse_root http patterns manifest)
          base
          (manifest.content_edits ++ wildcard_edit ∷ [])
        ≡ ok parsed
      → update_manifest http patterns scope manifest_url current
        ≡ (record (parse_root http patterns manifest) { content_edits = parsed }, none)
  unfolding update_manifest parse_manifest
  update_manifest-parsed scope manifest_url manifest current base parsed loads has_base e =
      rw (loads, has_base, e, parse_manifest, update_manifest) refl

  -- A manifest that can be fetched, with a domain that makes a URL, and in which each URI of an edit
  -- can be parsed, is taken over, whatever was there before; then each request whose URI is a URL has an edit: the one
  -- at an index that is at most the number of the edits in the manifest.
  pub update_manifest-get_content_edit :
      {Json : Type 0} (scope : Scope Json) (manifest_url : Text) (manifest : Manifest)
      (current : ParsedManifest http patterns.UrlPattern) (base : Url)
      → load_manifest scope manifest_url ≡ ok manifest
      → parse_base http patterns manifest.domains ≡ ok base
      → All HasUri manifest.content_edits
      → ((update_manifest http patterns scope manifest_url current).1 ≡ none)
        × ((uri : http.Uri) (url : Url)
            → parse_url (http.uri_to_string uri) ≡ some url
            → (i : ℕ) × (e : Parsed http patterns) × ((get_content_edit http patterns
                    (update_manifest http patterns scope manifest_url current).0
                    uri
                  ≡ some (i, e))
                × (i ≤ length manifest.content_edits)))
  unfolding IsCovering get_content_edit covering
  update_manifest-get_content_edit scope manifest_url manifest current base loads has_base
        has_uris =
      let (parsed, (e, found)) =
        covering (parse_root http patterns manifest) base manifest.content_edits has_uris in
      let loaded =
        update_manifest-parsed scope manifest_url manifest current base parsed loads has_base e in
      (
        ap (λ (r : ParsedManifest http patterns.UrlPattern × Option UpdateManifestError). r.1)
            loaded,
        λ uri url is_url.
            let (i, edit, (at, bound)) = found url 0 in
            (
              i,
              edit,
              (
                ap
                      (λ (r : ParsedManifest http patterns.UrlPattern × Option UpdateManifestError).
                        get_content_edit http patterns r.0 uri)
                      loaded
                    ∙ rw (is_url, get_content_edit) at,
                omega (arith, bound),
              ),
            ),
      )
