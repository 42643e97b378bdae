-- ===== src/ContentEdit.antt =====
-- The manifest's data types of mantalon-client/src/manifest.rs: the manifest as it is read, and
-- the parsed one. A `HashMap` or a `HashSet` is the list of its entries in the order in which it
-- is iterated, which the program cannot choose.
use mantalon.Base.{ℕ, List, [], ◌∷◌, Option, Bool, true, false, not, Text, ◌||◌, codes}
use mantalon.Http.{Http}

pub data FileInsertion : Type 0 where
  file : Text → FileInsertion
  files : List Text → FileInsertion

-- `impl From<FileInsertion> for Vec<String>`
unfoldable pub from_file_insertion : FileInsertion → List Text
from_file_insertion (file f) = f ∷ []
from_file_insertion (files f) = f

pub record Substitution : Type 0 where
  pub pattern_ : Text
  pub replacement : Option Text
  pub replacement_file : Option Text
  pub max_replacements : Option ℕ

pub record ContentEdit : Type 0 where
  pub matches : List Text
  pub lock_browsing : Option Bool
  pub https_only : Option Bool
  pub rewrite_location : Option Bool
  pub js_redirect : Option Bool
  pub js : Option FileInsertion
  pub css : Option FileInsertion
  pub override_url : Option Text
  pub substitute : List Substitution
  pub append_headers : List (Text × Text)
  pub insert_headers : List (Text × Text)
  pub remove_headers : List Text
  pub append_request_headers : List (Text × Text)
  pub insert_request_headers : List (Text × Text)
  pub remove_request_headers : List Text
  pub rename_headers : List (Text × Text)
  pub rename_request_headers : List (Text × Text)

pub record Manifest : Type 0 where
  pub domains : List Text
  pub lock_browsing : Option Bool
  pub https_only : Option Bool
  pub rewrite_location : Option Bool
  pub js_redirect : Option Bool
  pub content_edits : List ContentEdit

module _ (http : Http) (UrlPattern : Type 0) where
  open http use {HeaderName, HeaderValue, Uri}

  pub record ParsedContentEdit : Type 0 where
    pub matches : List UrlPattern
    pub lock_browsing : Bool
    pub https_only : Bool
    pub rewrite_location : Bool
    pub js_redirect : Bool
    pub js : List Text
    pub css : List Text
    pub override_uri : Option Uri
    pub substitute : List Substitution
    pub append_headers : List (HeaderName × HeaderValue)
    pub insert_headers : List (HeaderName × HeaderValue)
    pub remove_headers : List HeaderName
    pub rename_headers : List (HeaderName × HeaderName)
    pub append_request_headers : List (HeaderName × HeaderValue)
    pub insert_request_headers : List (HeaderName × HeaderValue)
    pub remove_request_headers : List HeaderName
    pub rename_request_headers : List (HeaderName × HeaderName)

  pub record ParsedManifest : Type 0 where
    pub domains : List Text
    pub lock_browsing : Bool
    pub https_only : Bool
    pub rewrite_location : Bool
    pub js_redirect : Bool
    pub content_edits : List ParsedContentEdit

abbrev pub is_empty {ℓ} : {A : Type ℓ} → List A → Bool
is_empty [] = true
is_empty (x ∷ xs) = false

module _ {http : Http} {UrlPattern : Type 0} where
  unfoldable pub needs_body_response : ParsedContentEdit http UrlPattern → Bool
  needs_body_response e =
      e.lock_browsing
      || not (is_empty e.js)
      || not (is_empty e.css)
      || not (is_empty e.substitute)
      || e.js_redirect

  -- `StaticManifest::default()`
  abbrev pub default_manifest : ParsedManifest http UrlPattern
  default_manifest = record {
    domains = codes "localhost" ∷ [];
    lock_browsing = false;
    https_only = false;
    rewrite_location = true;
    js_redirect = false;
    content_edits = [];
  }
