-- ===== src/Loading/Laws.antt =====
-- When the manifest and the files of an edit are loaded.
use mantalon.Base.{
  Option, none, some, Text, ok, codes, ◌++◌, ◌≡◌, refl, ◌↔◌, ◌⊎◌, inl, inr, Option-cases, ◌∙◌, ap,
  arith,
}
use mantalon.ContentEdit.{Manifest}
use mantalon.Loading.{
  Read, throws, rejects, resolves, Fetched, rejected, no_response, response, Scope, fetch_with_str,
  fetched_text, manifest_of, fetched_manifest, load_replacement_file, load_manifest,
}

module _ {Json : Type 0} (scope : Scope Json) where
  -- The response that a `fetch` of a URL comes to: that of the window, or without a window that of
  -- the worker.
  pub record IsFetched (url : Text) (text : Read Text) (json : Read Json) : Type 0 where
    pub fetch : Text → Fetched Json
    pub in_scope :
        (scope.window ≡ some fetch) ⊎ ((scope.window ≡ none) × (scope.worker ≡ some fetch))
    pub resolved : fetch url ≡ response text json

  pub record IsLoaded (url : Text) (manifest : Manifest) : Type 0 where
    pub text : Read Text
    pub json : Json
    pub fetched : IsFetched url text (resolves json)
    pub read : scope.from_value json ≡ some manifest

  fetch_with_str-IsFetched :
      (url : Text) (text : Read Text) (json : Read Json)
      → fetch_with_str scope url ≡ some (response text json)
      → IsFetched url text json
  unfolding fetch_with_str
  fetch_with_str-IsFetched url text json h = elim (Option-cases scope.window) [
    | inr (f, w) ↦
        let e : fetch_with_str scope url ≡ some (f url) = rw (w, fetch_with_str) refl in
        record { fetch = f; in_scope = inl w; resolved = cc }
    | inl w ↦ elim (Option-cases scope.worker) [
      | inr (f, k) ↦
          let e : fetch_with_str scope url ≡ some (f url) = rw (w, k, fetch_with_str) refl in
          record { fetch = f; in_scope = inr (w, k); resolved = cc }
      | inl k ↦ let e : fetch_with_str scope url ≡ none = rw (w, k, fetch_with_str) refl in cc
    ]
  ]

  IsFetched-fetch_with_str :
      (url : Text) (text : Read Text) (json : Read Json)
      → IsFetched url text json
      → fetch_with_str scope url ≡ some (response text json)
  unfolding fetch_with_str
  IsFetched-fetch_with_str url text json f = elim f.in_scope [
    | inl w ↦ rw (w, fetch_with_str) (ap some f.resolved)
    | inr (w, k) ↦ rw (w, k, fetch_with_str) (ap some f.resolved)
  ]

  manifest_fetched :
      (o : Option (Fetched Json)) (manifest : Manifest)
      → fetched_manifest scope o ≡ ok manifest
      → (text : Read Text) × (json : Json) × (o ≡ some (response text (resolves json)))
        × (scope.from_value json ≡ some manifest)
  manifest_fetched none manifest h = cc
  manifest_fetched (some rejected) manifest h = cc
  manifest_fetched (some no_response) manifest h = cc
  manifest_fetched (some (response text throws)) manifest h = cc
  manifest_fetched (some (response text rejects)) manifest h = cc
  manifest_fetched (some (response text (resolves json))) manifest h =
      (text, json, refl, ground arith)

  pub load_manifest-IsLoaded :
      (url : Text) (manifest : Manifest)
      → load_manifest scope url ≡ ok manifest
      → IsLoaded url manifest
  unfolding load_manifest
  load_manifest-IsLoaded url manifest h =
      let (text, json, e, read) = manifest_fetched (fetch_with_str scope url) manifest h in
      record {
        text = text;
        json = json;
        fetched = fetch_with_str-IsFetched url text (resolves json) e;
        read = read;
      }

  parsed :
      (json : Json) (manifest : Manifest)
      → scope.from_value json ≡ some manifest
      → manifest_of scope (resolves json) ≡ ok manifest
  parsed json manifest read = ground arith

  pub IsLoaded-load_manifest :
      (url : Text) (manifest : Manifest)
      → IsLoaded url manifest
      → load_manifest scope url ≡ ok manifest
  unfolding load_manifest
  IsLoaded-load_manifest url manifest l =
      ap (fetched_manifest scope) (IsFetched-fetch_with_str url l.text (resolves l.json) l.fetched)
      ∙ parsed l.json manifest l.read

  file_fetched :
      (o : Option (Fetched Json)) (text : Text)
      → fetched_text scope o ≡ some text
      → (json : Read Json) × (o ≡ some (response (resolves text) json))
  file_fetched none text h = cc
  file_fetched (some rejected) text h = cc
  file_fetched (some no_response) text h = cc
  file_fetched (some (response throws json)) text h = cc
  file_fetched (some (response rejects json)) text h = cc
  file_fetched (some (response (resolves t) json)) text h = (json, ground arith)

  -- The file of a substitution is loaded exactly when the `fetch` of its name below pkg/config comes
  -- to a response that has that text.
  load_replacement_file_iff :
      (file text : Text)
      → (load_replacement_file scope file ≡ some text)
        ↔ ((json : Read Json) × IsFetched (codes "pkg/config/" ++ file) (resolves text) json)
  unfolding load_replacement_file
  load_replacement_file_iff file text =
      let url = codes "pkg/config/" ++ file in
      (
        λ h.
            let (json, e) = file_fetched (fetch_with_str scope url) text h in
            (json, fetch_with_str-IsFetched url (resolves text) json e),
        λ (json, f). rw (IsFetched-fetch_with_str url (resolves text) json f) refl,
      )
