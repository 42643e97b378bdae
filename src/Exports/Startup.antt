-- ===== src/Exports/Startup.antt =====
-- `init` of mantalon-client/src/exports.rs and the operations on what it loads, with `open_cookie_storage` of mantalon-client/src/cookies.rs. The
-- caches of the browser are an argument, by what they give.
pub mod Readiness
pub mod Outcome
use mantalon.Base.{List, Option, none, some, Bool, Text, if◌then◌else◌}
use mantalon.Http.{Http}
use mantalon.ContentEdit.{ParsedManifest}
use mantalon.Loading.{Scope}
use mantalon.Setup.{Patterns, update_manifest}
use mantalon.Cookies.{CookieCrate, CookieStore, on_storage_opened, override_cookie}

-- The steps to the cache, each of which may fail, and the text that is then found there.
pub record Storage : Type 0 where
  pub is_worker : Bool
  pub has_caches : Bool
  pub opens : Bool
  pub is_cache : Bool
  pub match_text : Option Text

-- The statics of the client.
pub record Globals (http : Http) (patterns : Patterns) (crate_ : CookieCrate) : Type 0 where
  pub manifest : ParsedManifest http patterns.UrlPattern
  pub cookies : CookieStore http crate_

module _ (http : Http) (patterns : Patterns) (crate_ : CookieCrate) where
  unfoldable pub open_cookie_storage : Storage → CookieStore http crate_ → CookieStore http crate_
  open_cookie_storage storage store =
      if storage.is_worker
      then (if storage.has_caches
          then (if storage.opens
              then (if storage.is_cache
                  then on_storage_opened http crate_ storage.match_text store
                  else store)
              else store)
          else store)
      else store

  -- `none` is the panic for a manifest that is not loaded.
  unfoldable pub init :
      {Json : Type 0}
      → Scope Json
      → (manifest_url : Text) → Storage
      → Globals http patterns crate_
      → Option (Globals http patterns crate_)
  init scope manifest_url storage globals =
      let (loaded, error) = update_manifest http patterns scope manifest_url globals.manifest in
      elim error [
        | some e ↦ none
        | none ↦
            some
              (record { manifest = loaded; cookies = open_cookie_storage storage globals.cookies })
      ]

  -- `overrideCookie` and `getProxiedDomains`
  unfoldable override_global_cookie :
      (name value : Text) → Globals http patterns crate_ → Globals http patterns crate_
  override_global_cookie name value globals = record globals {
    cookies = override_cookie http crate_ name value globals.cookies;
  }

  unfoldable get_proxied_domains : Globals http patterns crate_ → List Text
  get_proxied_domains globals = globals.manifest.domains
