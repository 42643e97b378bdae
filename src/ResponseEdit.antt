-- ===== src/ResponseEdit.antt =====
-- `ParsedContentEdit::apply_on_response` of mantalon-client/src/manifest.rs, the part in front of
-- the body. `domains` is `MANIFEST.domains` and `self_origin` is `SELF_ORIGIN`; `none` is a panic
-- of one of its `unwrap()`.
pub mod Laws
pub mod Panics
use mathlib.Core.Option
use mantalon.Base.{
  List, Option, none, some, Bool, true, false, Text, codes, eqb, if◌then◌else◌, starts_with,
  trim_start_matches, any,
}
use mantalon.Http.{Http, Response, first_value}
use mantalon.ContentEdit.{ParsedContentEdit}
use mantalon.Headers.{edit_headers}

infixl 5 ◌>>=◌
abbrev ◌>>=◌ {ℓ κ} : {A : Type ℓ} {B : Type κ} → Option A → (A → Option B) → Option B
none >>= k = none
some a >>= k = k a

module _ (http : Http) where
  open http use {HeaderMap, Uri, static_name, value_to_str, uri_parse, into_parts, authority_host}

  -- The header that is parsed as a URI, where all three steps succeed.
  unfoldable pub location_of : HeaderMap → Option Uri
  location_of headers = do
    value ← first_value http headers (static_name (codes "location"))
    text ← value_to_str value
    uri_parse text

  -- The location has an authority, and its host is one of the domains.
  abbrev pub is_proxied : List Text → Uri → Bool
  is_proxied domains location = elim (into_parts location).authority [
    | none ↦ false
    | some authority ↦ any (λ d. eqb (authority_host authority) d) domains
  ]

module _ (http : Http) (self_origin : Text) where
  open http use {
    HeaderMap, HeaderValue, Uri, Scheme, Authority, insert, static_name, value_from_str,
    uri_to_string, into_parts, from_parts, authority_parse, http_scheme, https_scheme,
  }

  -- `parts.scheme` and `parts.authority` of the proxy itself
  abbrev pub self_scheme : Scheme
  self_scheme = if starts_with self_origin (codes "https://") then https_scheme else http_scheme

  abbrev pub self_authority : Option Authority
  self_authority = authority_parse (
      if starts_with self_origin (codes "https://")
      then trim_start_matches self_origin (codes "https://")
      else trim_start_matches self_origin (codes "http://"))

  -- the two insertions
  abbrev pub set_location : HeaderMap → HeaderValue → HeaderValue → HeaderMap
  set_location headers rewritten original =
      insert (insert headers (static_name (codes "location")) rewritten)
        (static_name (codes "x-mantalon-location")) original

  unfoldable pub redirect_to_self : Uri → HeaderMap → Option HeaderMap
  redirect_to_self location headers = do
    authority ← self_authority
    uri ← from_parts (record {
      scheme = some self_scheme;
      authority = some authority;
      path_and_query = (into_parts location).path_and_query;
    })
    rewritten ← value_from_str (uri_to_string uri)
    original ← value_from_str (uri_to_string location)
    some (set_location headers rewritten original)

module _ (http : Http) (domains : List Text) (self_origin : Text) where
  unfoldable pub edit_location : Bool → http.HeaderMap → Option http.HeaderMap
  edit_location false headers = some headers
  edit_location true headers = elim (location_of http headers) [
    | none ↦ some headers
    | some location ↦
        if is_proxied http domains location
        then redirect_to_self http self_origin location headers
        else some headers
  ]

  unfoldable pub apply_on_response :
      {Body UrlPattern : Type 0}
      → ParsedContentEdit http UrlPattern
      → Response http Body
      → Option (Response http Body)
  unfolding edit_location
  apply_on_response e response =
      Option.map
        (λ headers. record response {
          headers =
              edit_headers http e.remove_headers e.insert_headers e.append_headers e.rename_headers
                headers;
        })
        (edit_location e.rewrite_location response.headers)
