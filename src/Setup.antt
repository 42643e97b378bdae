-- ===== src/Setup.antt =====
-- `update_manifest` of mantalon-client/src/manifest.rs, and `get_content_edit` of
-- mantalon-client/src/exports.rs, which looks the edit of a request up in the manifest. URLs and their
-- patterns are a parameter.
pub mod Matching
pub mod Settings
pub mod Validity
use mantalon.Base.{
  ℕ, suc, List, [], ◌∷◌, ◌++◌, Option, none, some, Bool, true, false, Text, Result, err, ok, codes,
  eqb, any, if◌then◌else◌, ◌≡◌,
}
use mantalon.Http.{Http, Request}
use mantalon.Loading.{
  Scope, UpdateManifestError, missing_domain, invalid_base_url, invalid_override_url, load_manifest,
}
use mantalon.ContentEdit.{
  FileInsertion, from_file_insertion, ContentEdit, Manifest, ParsedContentEdit, ParsedManifest,
}

-- The crates `url` and `urlpattern`.
pub record Patterns : Type 1 where
  pub Url : Type 0
  pub UrlPattern : Type 0
  -- `Url::parse`
  pub parse_url : Text → Option Url
  -- `UrlPattern::parse(UrlPatternInit::default())`
  pub wildcard : UrlPattern
  -- `UrlPatternInit::parse_constructor_string` with a base URL, and `UrlPattern::parse`
  pub parse_pattern : Text → Url → Option UrlPattern
  -- `pattern.test(url).unwrap_or_default()`
  pub test : UrlPattern → Url → Bool
  pub test-wildcard : (url : Url) → test wildcard url ≡ true

abbrev pub unwrap_or {ℓ} : {A : Type ℓ} → Option A → A → A
unwrap_or none default = default
unwrap_or (some a) default = a

abbrev pub files_of : Option FileInsertion → List Text
files_of none = []
files_of (some insertion) = from_file_insertion insertion

-- `ContentEdit { matches: vec!["*"], ..Default::default() }`
abbrev pub wildcard_edit : ContentEdit
wildcard_edit = record {
  matches = codes "*" ∷ [];
  lock_browsing = none;
  https_only = none;
  rewrite_location = none;
  js_redirect = none;
  js = none;
  css = none;
  override_url = none;
  substitute = [];
  append_headers = [];
  insert_headers = [];
  remove_headers = [];
  append_request_headers = [];
  insert_request_headers = [];
  remove_request_headers = [];
  rename_headers = [];
  rename_request_headers = [];
}

module _ (http : Http) where
  open http use {HeaderName, HeaderValue, name_eq, name_from_bytes, value_from_bytes}

  -- `HashMap::insert` and `HashSet::insert`: an entry that is there keeps its key.
  unfoldable pub insert_entry :
      {V : Type 0} → HeaderName → V → List (HeaderName × V) → List (HeaderName × V)
  insert_entry k v [] = (k, v) ∷ []
  insert_entry k v ((j, w) ∷ m) =
      let rest = insert_entry k v m in if name_eq j k then (j, v) ∷ m else (j, w) ∷ rest

  unfoldable pub insert_name : HeaderName → List HeaderName → List HeaderName
  insert_name k [] = k ∷ []
  insert_name k (j ∷ m) = let rest = insert_name k m in if name_eq j k then j ∷ m else j ∷ rest

  -- The loops of `parse_headers`, `parse_header_list` and `parse_header_rename`, from the entries
  -- that they have made so far.
  unfoldable pub parse_headers :
      List (Text × Text) → List (HeaderName × HeaderValue) → List (HeaderName × HeaderValue)
  parse_headers [] parsed = parsed
  parse_headers ((k, v) ∷ headers) parsed = elim (name_from_bytes k) [
    | none ↦ parse_headers headers parsed
    | some name ↦ elim (value_from_bytes v) [
      | none ↦ parse_headers headers parsed
      | some value ↦ parse_headers headers (insert_entry name value parsed)
    ]
  ]

  unfoldable pub parse_header_list : List Text → List HeaderName → List HeaderName
  parse_header_list [] parsed = parsed
  parse_header_list (h ∷ headers) parsed = elim (name_from_bytes h) [
    | none ↦ parse_header_list headers parsed
    | some name ↦ parse_header_list headers (insert_name name parsed)
  ]

  unfoldable pub parse_header_rename :
      List (Text × Text) → List (HeaderName × HeaderName) → List (HeaderName × HeaderName)
  parse_header_rename [] parsed = parsed
  parse_header_rename ((k, v) ∷ headers) parsed = elim (name_from_bytes k) [
    | none ↦ parse_header_rename headers parsed
    | some from ↦ elim (name_from_bytes v) [
      | none ↦ parse_header_rename headers parsed
      | some to ↦ parse_header_rename headers (insert_entry from to parsed)
    ]
  ]

  -- `override_url.map(Uri::try_from).transpose()`
  unfoldable pub parse_override : Option Text → Result UpdateManifestError (Option http.Uri)
  parse_override none = ok none
  parse_override (some url) = elim (http.uri_parse url) [
    | none ↦ err invalid_override_url
    | some uri ↦ ok (some uri)
  ]

module _ (http : Http) (patterns : Patterns) where
  open patterns use {Url, UrlPattern, parse_url, wildcard, parse_pattern, test}

  abbrev pub Parsed : Type 0
  Parsed = ParsedContentEdit http UrlPattern

  -- The patterns of an edit; those that do not parse are left out.
  unfoldable pub parse_matches : Url → List Text → List UrlPattern
  parse_matches base [] = []
  parse_matches base (pattern_ ∷ matches) =
      let rest = parse_matches base matches in
      if eqb pattern_ (codes "*")
      then wildcard ∷ rest
      else elim (parse_pattern pattern_ base) [ none ↦ rest | some parsed ↦ parsed ∷ rest ]

  -- The manifest in front of the loop, with the settings that an edit falls back on.
  unfoldable pub parse_root : Manifest → ParsedManifest http UrlPattern
  parse_root manifest = record {
    domains = manifest.domains;
    lock_browsing = unwrap_or manifest.lock_browsing false;
    https_only = unwrap_or manifest.https_only false;
    rewrite_location = unwrap_or manifest.rewrite_location true;
    js_redirect = unwrap_or manifest.js_redirect false;
    content_edits = [];
  }

  -- An edit, with its URI in place of its `override_url`.
  unfoldable pub parsed_edit :
      ParsedManifest http UrlPattern → Url → ContentEdit → Option http.Uri → Parsed
  parsed_edit root base edit override_uri = record {
    matches = parse_matches base edit.matches;
    lock_browsing = unwrap_or edit.lock_browsing root.lock_browsing;
    https_only = unwrap_or edit.https_only root.https_only;
    rewrite_location = unwrap_or edit.rewrite_location root.rewrite_location;
    js_redirect = unwrap_or edit.js_redirect root.js_redirect;
    js = files_of edit.js;
    css = files_of edit.css;
    override_uri = override_uri;
    substitute = edit.substitute;
    append_headers = parse_headers http edit.append_headers [];
    insert_headers = parse_headers http edit.insert_headers [];
    remove_headers = parse_header_list http edit.remove_headers [];
    append_request_headers = parse_headers http edit.append_request_headers [];
    insert_request_headers = parse_headers http edit.insert_request_headers [];
    remove_request_headers = parse_header_list http edit.remove_request_headers [];
    rename_headers = parse_header_rename http edit.rename_headers [];
    rename_request_headers = parse_header_rename http edit.rename_request_headers [];
  }

  unfoldable pub parse_edit :
      ParsedManifest http UrlPattern → Url → ContentEdit → Result UpdateManifestError Parsed
  parse_edit root base edit = elim (parse_override http edit.override_url) [
    | err e ↦ err e
    | ok override_uri ↦ ok (parsed_edit root base edit override_uri)
  ]

  unfoldable pub parse_edits :
      ParsedManifest http UrlPattern
      → Url
      → List ContentEdit
      → Result UpdateManifestError (List Parsed)
  parse_edits root base [] = ok []
  parse_edits root base (edit ∷ edits) = elim (parse_edit root base edit) [
    | err e ↦ err e
    | ok parsed ↦ elim (parse_edits root base edits) [
      | err e ↦ err e
      | ok rest ↦ ok (parsed ∷ rest)
    ]
  ]

  unfoldable pub parse_base : List Text → Result UpdateManifestError Url
  parse_base [] = err missing_domain
  parse_base (domain ∷ domains) = elim (parse_url (codes "https://" ++ domain ++ codes "/")) [
    | none ↦ err invalid_base_url
    | some url ↦ ok url
  ]

  unfoldable pub parse_manifest :
      Manifest → Result UpdateManifestError (ParsedManifest http UrlPattern)
  parse_manifest manifest = elim (parse_base manifest.domains) [
    | err e ↦ err e
    | ok base ↦
        elim (parse_edits (parse_root manifest) base
          (manifest.content_edits ++ wildcard_edit ∷ [])) [
            | err e ↦ err e
            | ok edits ↦ ok (record (parse_root manifest) { content_edits = edits })
          ]
  ]

  -- `update_manifest` on the static manifest.
  unfoldable pub update_manifest :
      {Json : Type 0}
      → Scope Json
      → (manifest_url : Text) → ParsedManifest http UrlPattern
      → ParsedManifest http UrlPattern × Option UpdateManifestError
  update_manifest scope manifest_url current = elim (load_manifest scope manifest_url) [
    | err e ↦ (current, some e)
    | ok manifest ↦ elim (parse_manifest manifest) [
      | err e ↦ (current, some e)
      | ok parsed ↦ (parsed, none)
    ]
  ]

  -- `.enumerate().find(..)`, with the index of the first edit that is left
  unfoldable pub find_edit : ℕ → List Parsed → Url → Option (ℕ × Parsed)
  find_edit i [] url = none
  find_edit i (e ∷ edits) url =
      let rest = find_edit (suc i) edits url in
      if any (λ pattern_. test pattern_ url) e.matches then some (i, e) else rest

  unfoldable pub get_content_edit : ParsedManifest http UrlPattern → http.Uri → Option (ℕ × Parsed)
  get_content_edit manifest uri = elim (parse_url (http.uri_to_string uri)) [
    | none ↦ none
    | some url ↦ find_edit 0 manifest.content_edits url
  ]
