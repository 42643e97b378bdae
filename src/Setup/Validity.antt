-- ===== src/Setup/Validity.antt =====
-- When a manifest is taken over.
use mantalon.Base.{
  List, [], ◌∷◌, ◌++◌, none, some, Text, err, ok, Result-cases, All, ◌≡◌, refl, inl, inr,
}
use mantalon.Http.{Http}
use mantalon.ContentEdit.{ContentEdit, Manifest, ParsedManifest}
use mantalon.Loading.{Scope, load_manifest}
use mantalon.Loading.Laws.{IsLoaded, load_manifest-IsLoaded, IsLoaded-load_manifest}
use mantalon.Setup.{
  Patterns, Parsed, wildcard_edit, parse_override, parse_edit, parse_edits, parse_root, parse_base,
  parse_manifest, update_manifest,
}
use mantalon.Setup.Matching.{HasUri, update_manifest-get_content_edit}

module _ (http : Http) (patterns : Patterns) where
  -- A manifest that is loaded from a URL, with a base domain, and with edits that can be parsed.
  pub record IsUsable {Json : Type 0} (scope : Scope Json) (manifest_url : Text) : Type 0 where
    pub manifest : Manifest
    pub base : patterns.Url
    pub loaded : IsLoaded scope manifest_url manifest
    pub has_base : parse_base http patterns manifest.domains ≡ ok base
    pub has_uris : All (HasUri http patterns) manifest.content_edits

  parse_edit-HasUri :
      (root : ParsedManifest http patterns.UrlPattern) (base : patterns.Url) (edit : ContentEdit)
      (parsed : Parsed http patterns)
      → parse_edit http patterns root base edit ≡ ok parsed
      → HasUri http patterns edit
  unfolding parse_edit
  parse_edit-HasUri root base edit parsed h =
      elim (Result-cases (parse_override http edit.override_url)) [
        | inl (e, x) ↦
            let refused : parse_edit http patterns root base edit ≡ err e =
              rw (x, parse_edit) refl in
            cc
        | inr (uri, x) ↦ (uri, x)
      ]

  -- The parts of a list of edits that could be parsed.
  parse_edits-ok :
      (root : ParsedManifest http patterns.UrlPattern) (base : patterns.Url) (edit : ContentEdit)
      (edits : List ContentEdit) (parsed : List (Parsed http patterns))
      → parse_edits http patterns root base (edit ∷ edits) ≡ ok parsed
      → HasUri http patterns edit
        × ((rest : List (Parsed http patterns)) × (parse_edits http patterns root base edits
              ≡ ok rest))
  unfolding parse_edits
  parse_edits-ok root base edit edits parsed h =
      elim (Result-cases (parse_edit http patterns root base edit)) [
        | inl (e, x) ↦
            let refused : parse_edits http patterns root base (edit ∷ edits) ≡ err e =
              rw (x, parse_edits) refl in
            cc
        | inr (first, x) ↦ elim (Result-cases (parse_edits http patterns root base edits)) [
          | inl (e, y) ↦
              let refused : parse_edits http patterns root base (edit ∷ edits) ≡ err e =
                rw (x, y, parse_edits) refl in
              cc
          | inr (rest, y) ↦ (parse_edit-HasUri root base edit first x, (rest, y))
        ]
      ]

  parse_edits-HasUri :
      (root : ParsedManifest http patterns.UrlPattern) (base : patterns.Url)
      (edits last : List ContentEdit) (parsed : List (Parsed http patterns))
      → parse_edits http patterns root base (edits ++ last) ≡ ok parsed
      → All (HasUri http patterns) edits
  parse_edits-HasUri root base [] last parsed h = tt
  parse_edits-HasUri root base (edit ∷ edits) last parsed h =
      let (has, (rest, e)) = parse_edits-ok root base edit (edits ++ last) parsed h in
      (has, parse_edits-HasUri root base edits last rest e)

  parse_manifest-ok :
      (manifest : Manifest) (parsed : ParsedManifest http patterns.UrlPattern)
      → parse_manifest http patterns manifest ≡ ok parsed
      → (base : patterns.Url) × (parse_base http patterns manifest.domains ≡ ok base)
        × All (HasUri http patterns) manifest.content_edits
  unfolding parse_manifest
  parse_manifest-ok manifest parsed h =
      elim (Result-cases (parse_base http patterns manifest.domains)) [
        | inl (e, x) ↦
            let refused : parse_manifest http patterns manifest ≡ err e =
              rw (x, parse_manifest) refl in
            cc
        | inr (base, x) ↦
            elim (Result-cases (
              parse_edits http patterns (parse_root http patterns manifest) base
                (manifest.content_edits ++ wildcard_edit ∷ []))) [
                  | inl (e, y) ↦
                      let refused : parse_manifest http patterns manifest ≡ err e =
                        rw (x, y, parse_manifest) refl in
                      cc
                  | inr (edits, y) ↦ (
                    base,
                    x,
                    parse_edits-HasUri (parse_root http patterns manifest) base
                        manifest.content_edits (wildcard_edit ∷ []) edits y,
                  )
                ]
      ]

  pub update_manifest-IsUsable :
      {Json : Type 0} (scope : Scope Json) (manifest_url : Text)
      (current : ParsedManifest http patterns.UrlPattern)
      → (update_manifest http patterns scope manifest_url current).1 ≡ none
      → IsUsable scope manifest_url
  unfolding update_manifest
  update_manifest-IsUsable scope manifest_url current h =
      elim (Result-cases (load_manifest scope manifest_url)) [
        | inl (e, x) ↦
            let refused : (update_manifest http patterns scope manifest_url current).1 ≡ some e =
              rw (x, update_manifest) refl in
            cc
        | inr (manifest, x) ↦ elim (Result-cases (parse_manifest http patterns manifest)) [
          | inl (e, y) ↦
              let refused : (update_manifest http patterns scope manifest_url current).1 ≡ some e =
                rw (x, y, update_manifest) refl in
              cc
          | inr (parsed, y) ↦
              let (base, has_base, has_uris) = parse_manifest-ok manifest parsed y in
              record {
                manifest = manifest;
                base = base;
                loaded = load_manifest-IsLoaded scope manifest_url manifest x;
                has_base = has_base;
                has_uris = has_uris;
              }
        ]
      ]

  pub IsUsable-update_manifest :
      {Json : Type 0} (scope : Scope Json) (manifest_url : Text)
      (current : ParsedManifest http patterns.UrlPattern)
      → IsUsable scope manifest_url
      → (update_manifest http patterns scope manifest_url current).1 ≡ none
  IsUsable-update_manifest scope manifest_url current u =
      (update_manifest-get_content_edit http patterns scope manifest_url u.manifest current u.base
        (IsLoaded-load_manifest scope manifest_url u.manifest u.loaded) u.has_base u.has_uris).0
