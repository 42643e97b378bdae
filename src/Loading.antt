-- ===== src/Loading.antt =====
-- The fetches of mantalon-client/src/manifest.rs: `load_replacement_file`, and the first part of
-- `update_manifest`, which loads the manifest. The browser's `fetch` is a parameter, by what its
-- promises find; a text promise resolves to a text.
pub mod Laws
use mantalon.Base.{Option, none, some, Text, Result, err, ok, codes, ◌++◌}
use mantalon.ContentEdit.{Manifest}

-- `response.text()` or `response.json()`: an exception, or what its promise comes to.
pub data Read (A : Type 0) : Type 0 where
  throws rejects : Read A
  resolves : A → Read A

-- What the promise of a `fetch` comes to.
pub data Fetched (Json : Type 0) : Type 0 where
  rejected no_response : Fetched Json
  response : (text : Read Text) → (json : Read Json) → Fetched Json

-- `window()` and the `ServiceWorkerGlobalScope`, where there are such, by their `fetch_with_str`.
pub record Scope (Json : Type 0) : Type 0 where
  pub window : Option (Text → Fetched Json)
  pub worker : Option (Text → Fetched Json)
  -- `serde_wasm_bindgen::from_value::<Manifest>`
  pub from_value : Json → Option Manifest

-- `UpdateManifestError`, without the errors of the libraries that it carries
pub data UpdateManifestError : Type 0 where
  no_window fetch_error type_error json_error json_error2 serde_error : UpdateManifestError
  missing_domain invalid_base_url invalid_override_url : UpdateManifestError

module _ {Json : Type 0} (scope : Scope Json) where
  -- The window's `fetch`, and without a window the worker's.
  unfoldable pub fetch_with_str : Text → Option (Fetched Json)
  fetch_with_str url = elim scope.window [
    | some fetch ↦ some (fetch url)
    | none ↦ elim scope.worker [ some fetch ↦ some (fetch url) | none ↦ none ]
  ]

  abbrev pub text_of : Read Text → Option Text
  text_of (resolves text) = some text
  text_of _ = none

  abbrev pub fetched_text : Option (Fetched Json) → Option Text
  fetched_text (some (response text json)) = text_of text
  fetched_text _ = none

  -- `none` is an error.
  unfoldable pub load_replacement_file : Text → Option Text
  unfolding fetch_with_str
  load_replacement_file replacement_file =
      fetched_text (fetch_with_str (codes "pkg/config/" ++ replacement_file))

  abbrev pub manifest_of : Read Json → Result UpdateManifestError Manifest
  manifest_of throws = err json_error
  manifest_of rejects = err json_error2
  manifest_of (resolves json) = elim (scope.from_value json) [
    | none ↦ err serde_error
    | some manifest ↦ ok manifest
  ]

  abbrev pub fetched_manifest : Option (Fetched Json) → Result UpdateManifestError Manifest
  fetched_manifest none = err no_window
  fetched_manifest (some rejected) = err fetch_error
  fetched_manifest (some no_response) = err type_error
  fetched_manifest (some (response text json)) = manifest_of json

  unfoldable pub load_manifest : Text → Result UpdateManifestError Manifest
  unfolding fetch_with_str
  load_manifest manifest_url = fetched_manifest (fetch_with_str manifest_url)
