-- ===== src/Exports/Startup/Outcome.antt =====
-- When the client starts.
use mantalon.Base.{none, some, Text, ◌≡◌, ◌↔◌, refl, Option-cases, inl, inr}
use mantalon.Http.{Http}
use mantalon.Loading.{Scope}
use mantalon.Setup.{Patterns, update_manifest}
use mantalon.Setup.Validity.{IsUsable, update_manifest-IsUsable, IsUsable-update_manifest}
use mantalon.Cookies.{CookieCrate}
use mantalon.Exports.Startup.{Storage, Globals, open_cookie_storage, init}

module _ (http : Http) (patterns : Patterns) (crate_ : CookieCrate) where
  init-IsUsable :
      {Json : Type 0} (scope : Scope Json) (manifest_url : Text) (storage : Storage)
      (globals ready : Globals http patterns crate_)
      → init http patterns crate_ scope manifest_url storage globals ≡ some ready
      → IsUsable http patterns scope manifest_url
  unfolding init
  init-IsUsable scope manifest_url storage globals ready h =
      elim (Option-cases (update_manifest http patterns scope manifest_url globals.manifest).1) [
        | inl e ↦ update_manifest-IsUsable http patterns scope manifest_url globals.manifest e
        | inr (error, e) ↦
            let panics : init http patterns crate_ scope manifest_url storage globals ≡ none =
              rw (e, init) refl in
            cc
      ]

  -- `init` does not panic exactly when the manifest can be fetched, by the window or without one by the
  -- worker, can be read, has a first domain which makes a URL, and each URI of its edits can be
  -- parsed; whatever the caches of the browser do, and whatever was loaded before.
  pub init_iff :
      {Json : Type 0} (scope : Scope Json) (manifest_url : Text) (storage : Storage)
      (globals : Globals http patterns crate_)
      → ((ready : Globals http patterns crate_) × (init http patterns crate_ scope manifest_url
              storage globals
            ≡ some ready))
        ↔ IsUsable http patterns scope manifest_url
  unfolding init
  init_iff scope manifest_url storage globals = (
    λ (ready, h). init-IsUsable scope manifest_url storage globals ready h,
    λ u. (
      record {
        manifest = (update_manifest http patterns scope manifest_url globals.manifest).0;
        cookies = open_cookie_storage http patterns crate_ storage globals.cookies;
      },
      rw (IsUsable-update_manifest http patterns scope manifest_url globals.manifest u, init) refl,
    ),
  )
