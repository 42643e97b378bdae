-- ===== src/Exports/Startup/Readiness.antt =====
-- What the client is ready for behind `init`.
use mantalon.Base.{ℕ, [], some, ok, true, Text, All, ◌≡◌, refl}
use mantalon.Http.{Http}
use mantalon.ContentEdit.{Manifest}
use mantalon.Loading.{Scope}
use mantalon.Loading.Laws.{IsLoaded, IsLoaded-load_manifest}
use mantalon.Setup.{Patterns, Parsed, parse_base, update_manifest, get_content_edit}
use mantalon.Setup.Matching.{HasUri, update_manifest-get_content_edit}
use mantalon.Cookies.{CookieCrate, CookieStore, save, on_storage_opened}
use mantalon.Cookies.Persistence.{IsPersistent, save-on_storage_opened}
use mantalon.Exports.Startup.{Storage, Globals, open_cookie_storage, init}

module _ (http : Http) (patterns : Patterns) (crate_ : CookieCrate) where
  open patterns use {Url, parse_url}

  -- Every request whose URI is a URL has an edit, and each name has the cookie that the store has.
  pub record IsReady (globals : Globals http patterns crate_) (saved : CookieStore http crate_)
      : Type 0 where
    pub edits :
        (uri : http.Uri) (url : Url)
        → parse_url (http.uri_to_string uri) ≡ some url
        → (i : ℕ) × (e : Parsed http patterns) × (get_content_edit http patterns globals.manifest
              uri
            ≡ some (i, e))
    pub cookies : (n : Text) → crate_.get globals.cookies.cookies n ≡ crate_.get saved.cookies n

  -- With a manifest that can be fetched, by the window or else by the worker, has a domain which makes
  -- a URL, and in which each URI of an edit can be parsed, and a cache that opens and holds what a store without overrides has saved in it, whose
  -- cookies are each written as a line of text from which it is read back: `init` does not panic,
  -- whatever manifest was there before; then each request whose URI is a URL has an edit, and a
  -- client that began without cookies has those of that store.
  pub init-IsReady :
      {Json : Type 0} (scope : Scope Json) (manifest_url : Text) (manifest : Manifest) (base : Url)
      (storage : Storage) (text : Text) (globals : Globals http patterns crate_)
      (saved : CookieStore http crate_)
      → IsLoaded scope manifest_url manifest
      → parse_base http patterns manifest.domains ≡ ok base
      → All (HasUri http patterns) manifest.content_edits
      → ((storage.is_worker ≡ true)
          × (storage.has_caches ≡ true)
          × (storage.opens ≡ true)
          × (storage.is_cache ≡ true)
          × (storage.match_text ≡ some text))
      → globals.cookies.cookies ≡ crate_.empty_jar
      → saved.overriden_cookies ≡ []
      → All (IsPersistent http crate_) (crate_.iter saved.cookies)
      → save http crate_ saved ≡ some text
      → (ready : Globals http patterns crate_) × ((init http patterns crate_ scope manifest_url
              storage globals
            ≡ some ready)
          × IsReady ready saved)
  unfolding init open_cookie_storage
  init-IsReady scope manifest_url manifest base storage text globals saved is_loaded has_base
        has_uris (worker, caches, opens, cast, found) empty plain persistent written =
      let (loaded, edits) =
        update_manifest-get_content_edit http patterns scope manifest_url manifest globals.manifest
          base (IsLoaded-load_manifest scope manifest_url manifest is_loaded) has_base has_uris in
      (
        (record {
          manifest = (update_manifest http patterns scope manifest_url globals.manifest).0;
          cookies = on_storage_opened http crate_ (some text) globals.cookies;
        }),
        (
          rw (loaded, init, worker, caches, opens, cast, found, open_cookie_storage) refl,
          record {
            edits = λ uri url is_url. let (i, e, (at, _)) = edits uri url is_url in (i, e, at);
            cookies =
                save-on_storage_opened http crate_ saved globals.cookies [] text plain tt persistent
                  empty written;
          },
        ),
      )
