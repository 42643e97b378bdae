-- ===== src/RequestEdit.antt =====
-- `ParsedContentEdit::apply_on_request` of mantalon-client/src/manifest.rs. `none` is the panic of
-- `Uri::from_parts(parts).expect(..)`.
pub mod Laws
use mathlib.Core.Option
use mantalon.Base.{
  Option, none, some, Bool, true, false, not, ◌&&◌, Text, codes, eqb, if◌then◌else◌,
}
use mantalon.Http.{Http, Request, scheme_str}
use mantalon.ContentEdit.{ParsedContentEdit}
use mantalon.Headers.{edit_headers}

module _ (http : Http) where
  open http use {Uri, into_parts, from_parts, https_scheme}

  -- `uri.scheme_str() == Some(scheme)`
  abbrev pub has_scheme : Uri → Text → Bool
  has_scheme uri scheme = elim (scheme_str http uri) [ none ↦ false | some s ↦ eqb s scheme ]

  unfoldable pub overridden : Option Uri → Uri → Uri
  overridden none uri = uri
  overridden (some override_uri) uri = override_uri

  unfoldable pub force_https : Bool → Uri → Option Uri
  force_https https_only uri =
      if https_only && not (has_scheme uri (codes "https"))
      then from_parts (record (into_parts uri) { scheme = some https_scheme })
      else some uri

module _ (http : Http) {UrlPattern Body : Type 0} where
  unfoldable pub apply_on_request :
      ParsedContentEdit http UrlPattern → Request http Body → Option (Request http Body)
  unfolding overridden force_https
  apply_on_request e request =
      Option.map
        (λ uri. record request {
          uri = uri;
          headers =
              edit_headers http e.remove_request_headers e.insert_request_headers
                e.append_request_headers e.rename_request_headers request.headers;
        })
        (force_https http e.https_only (overridden http e.override_uri request.uri))
