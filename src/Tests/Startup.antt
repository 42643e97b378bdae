-- ===== src/Tests/Startup.antt =====
-- Saved cookies, and the start of the client.
use mantalon.Base.{
  List, [], ◌∷◌, none, some, true, false, Text, All, codes, ◌≡◌, any, any-IsFree, ◌==◌, ap, sym,
  ◌∙◌, refl, inr, ◌↔◌,
}
use mantalon.Http.Toy.{toy}
use mantalon.ContentEdit.{Manifest, default_manifest, is_empty}
use mantalon.Loading.{Scope, response, rejects, resolves}
use mantalon.Loading.Laws.{IsLoaded}
use mantalon.Setup.Validity.{IsUsable}
use mantalon.Setup.{parse_base, parse_override}
use mantalon.Cookies.{
  override_cookie, CookieStore, saved_cookies, save, on_storage_opened, not_overriden, is_overriden,
  old_cookies,
}
use mantalon.Cookies.Toy.{ToyCookie, toy_crate}
use mantalon.Cookies.Persistence.{AreFirst, override_all, IsPersistent, save-on_storage_opened}
use mantalon.Exports.Startup.{Storage, Globals, init}
use mantalon.Exports.Startup.Outcome.{init_iff}
use mantalon.Exports.Startup.Readiness.{IsReady, init-IsReady}
use mantalon.Base.Assoc.{lookup}
use mantalon.Tests.Manifests.{prefixes, manifest}

abbrev kept : ToyCookie
kept = record { name = codes "id"; value = codes "7"; domain = none }

abbrev kept_too : ToyCookie
kept_too = record { name = codes "lang"; value = codes "en"; domain = none }

abbrev old_store : CookieStore toy toy_crate
old_store = record { cookies = kept ∷ kept_too ∷ []; has_cache = true; overriden_cookies = [] }

abbrev new_store : CookieStore toy toy_crate
new_store = record { cookies = []; has_cache = false; overriden_cookies = [] }

abbrev text : Text
text = codes "id=7\nlang=en"

saved : save toy toy_crate old_store ≡ some text
unfolding save saved_cookies not_overriden is_overriden old_cookies lookup
saved = refl

is_persistent :
    (c : ToyCookie)
    → is_empty (toy_crate.encoded c) ≡ false
    → any (λ x. x == b'\n') (toy_crate.encoded c) ≡ false
    → any (λ x. x == b'\r') (toy_crate.encoded c) ≡ false
    → toy_crate.parse_encoded (toy_crate.encoded c) ≡ some c
    → IsPersistent toy toy_crate c
is_persistent c filled one_line no_return read = (
  (
    (λ e. let found = sym filled ∙ ap is_empty e in cc),
    any-IsFree b'\n' (toy_crate.encoded c) one_line,
    any-IsFree b'\r' (toy_crate.encoded c) no_return,
  ),
  read,
)

persistent : All (IsPersistent toy toy_crate) (toy_crate.iter old_store.cookies)
persistent =
    (is_persistent kept refl refl refl refl, (is_persistent kept_too refl refl refl refl, tt))

abbrev overrides : List (Text × Text)
overrides = (codes "lang", codes "fr") ∷ []

overrides-AreFirst : AreFirst toy toy_crate overrides old_store
unfolding lookup
overrides-AreFirst = (refl, tt)

saved_overridden : save toy toy_crate (override_all toy toy_crate overrides old_store) ≡ some text
unfolding save saved_cookies not_overriden is_overriden old_cookies override_cookie lookup
    mantalon.Base.Assoc.insert
saved_overridden = refl

save-on_storage_opened_example :
    toy_crate.get (on_storage_opened toy toy_crate (some text) new_store).cookies (codes "lang")
    ≡ some kept_too
save-on_storage_opened_example =
    save-on_storage_opened toy toy_crate old_store new_store overrides text refl overrides-AreFirst
      persistent refl saved_overridden (codes "lang")

abbrev storage : Storage
storage = record {
  is_worker = true;
  has_caches = true;
  opens = true;
  is_cache = true;
  match_text = some text;
}

abbrev globals : Globals toy prefixes toy_crate
globals = record { manifest = default_manifest; cookies = new_store }

-- A worker, without a window, that fetches the manifest as it is.
abbrev scope : Scope Manifest
scope = record {
  window = none;
  worker = some (λ url. response rejects (resolves manifest));
  from_value = some;
}

abbrev manifest_url : Text
manifest_url = codes "pkg/config/mantalon.json"

is_loaded : IsLoaded scope manifest_url manifest
is_loaded = record {
  text = rejects;
  json = manifest;
  fetched = record {
    fetch = λ url. response rejects (resolves manifest);
    in_scope = inr (refl, refl);
    resolved = refl;
  };
  read = refl;
}

init_iff_example :
    ((ready : Globals toy prefixes toy_crate) × (init toy prefixes toy_crate scope manifest_url
          storage globals
        ≡ some ready))
    ↔ IsUsable toy prefixes scope manifest_url
init_iff_example = init_iff toy prefixes toy_crate scope manifest_url storage globals

init-IsReady_example :
    (ready : Globals toy prefixes toy_crate) × ((init toy prefixes toy_crate scope manifest_url
          storage globals
        ≡ some ready)
      × IsReady toy prefixes toy_crate ready old_store)
unfolding parse_base parse_override
init-IsReady_example =
    init-IsReady toy prefixes toy_crate scope manifest_url manifest (codes "https://a.org/") storage
      text globals old_store is_loaded refl ((none, refl), tt) (refl, refl, refl, refl, refl) refl
      refl persistent saved
