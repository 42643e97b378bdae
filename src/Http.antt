-- ===== src/Http.antt =====
-- The `http` crate, which the client uses for URIs and header maps: its types and functions are a
-- parameter of the model, with the documented behaviour that the program relies on.
pub mod Toy
use mantalon.Base.{
  ℕ, List, [], ◌∷◌, ◌++◌, Option, none, some, Bool, true, false, Text, ◌≡◌, ◌↔◌, codes,
  if◌then◌else◌, All, ◌≤◌, ◌⊎◌,
}
use mathlib.Core.Option
use mathlib.Core.List.{head?}

-- `http::uri::Parts`
pub record Parts (Scheme Authority PathAndQuery : Type 0) : Type 0 where
  pub scheme : Option Scheme
  pub authority : Option Authority
  pub path_and_query : Option PathAndQuery

-- `Method`; `extension` is any other token
pub data Method : Type 0 where
  get post put delete head options connect patch trace : Method
  extension : Text → Method

-- Lower-case letters and dashes.
abbrev pub IsToken : Text → Type 0
IsToken s = All (λ c. ((b'a' ≤ c) × (c ≤ b'z')) ⊎ (c ≡ b'-')) s

-- The values of a name among the entries of a map, in their order.
abbrev pub values_of : {K V : Type 0} → (K → K → Bool) → K → List (K × V) → List V
values_of eq k [] = []
values_of eq k ((j, v) ∷ entries) =
    let rest = values_of eq k entries in if eq j k then v ∷ rest else rest

pub record Http : Type 1 where
  pub HeaderName : Type 0
  pub HeaderValue : Type 0
  pub HeaderMap : Type 0
  pub Scheme : Type 0
  pub Authority : Type 0
  pub PathAndQuery : Type 0
  pub Uri : Type 0
  pub name_eq : HeaderName → HeaderName → Bool
  pub name_eq_iff : (a b : HeaderName) → (name_eq a b ≡ true) ↔ (a ≡ b)
  -- `HeaderName::from_bytes`, and a name that the program writes as a literal
  pub name_from_bytes : Text → Option HeaderName
  pub static_name : Text → HeaderName
  pub name_as_str : HeaderName → Text
  pub name_as_str-static_name : (s : Text) → IsToken s → name_as_str (static_name s) ≡ s
  -- `HeaderValue::from_bytes`, `HeaderValue::from_str` and `HeaderValue::to_str`
  pub value_from_bytes : Text → Option HeaderValue
  pub value_from_str : Text → Option HeaderValue
  pub value_to_str : HeaderValue → Option Text
  -- the multimap: `get_all` lists the values of a name in the order of their arrival
  pub empty : HeaderMap
  pub get_all : HeaderMap → HeaderName → List HeaderValue
  pub insert : HeaderMap → HeaderName → HeaderValue → HeaderMap
  pub append : HeaderMap → HeaderName → HeaderValue → HeaderMap
  pub remove : HeaderMap → HeaderName → HeaderMap
  -- `HeaderMap::iter`
  pub iter : HeaderMap → List (HeaderName × HeaderValue)
  pub get_all-iter : (m : HeaderMap) (k : HeaderName) → get_all m k ≡ values_of name_eq k (iter m)
  pub get_all-empty : (k : HeaderName) → get_all empty k ≡ []
  pub get_all-insert :
      (m : HeaderMap) (k : HeaderName) (v : HeaderValue) (j : HeaderName)
      → get_all (insert m k v) j ≡ (if name_eq k j then v ∷ [] else get_all m j)
  pub get_all-append :
      (m : HeaderMap) (k : HeaderName) (v : HeaderValue) (j : HeaderName)
      → get_all (append m k v) j ≡ (if name_eq k j then get_all m j ++ v ∷ [] else get_all m j)
  pub get_all-remove :
      (m : HeaderMap) (k j : HeaderName)
      → get_all (remove m k) j ≡ (if name_eq k j then [] else get_all m j)
  -- URIs
  pub scheme_as_str : Scheme → Text
  pub http_scheme : Scheme
  pub https_scheme : Scheme
  pub scheme_as_str-http : scheme_as_str http_scheme ≡ codes "http"
  pub scheme_as_str-https : scheme_as_str https_scheme ≡ codes "https"
  pub authority_parse : Text → Option Authority
  pub authority_host : Authority → Text
  pub authority_port : Authority → Option ℕ
  pub path_and_query_path : PathAndQuery → Text
  pub uri_parse : Text → Option Uri
  pub uri_to_string : Uri → Text
  pub into_parts : Uri → Parts Scheme Authority PathAndQuery
  pub from_parts : Parts Scheme Authority PathAndQuery → Option Uri
  pub into_parts-from_parts :
      (p : Parts Scheme Authority PathAndQuery) (u : Uri) → from_parts p ≡ some u → into_parts u ≡ p
  -- a URI with a scheme needs an authority and a path, and they suffice
  pub from_parts_total :
      (s : Scheme) (a : Authority) (p : PathAndQuery)
      → (u : Uri) × (from_parts
            (record { scheme = some s; authority = some a; path_and_query = some p })
          ≡ some u)
  pub from_parts_no_authority :
      (s : Scheme) (p : Option PathAndQuery)
      → from_parts (record { scheme = some s; authority = none; path_and_query = p }) ≡ none
  pub from_parts_no_path :
      (s : Scheme) (a : Option Authority)
      → from_parts (record { scheme = some s; authority = a; path_and_query = none }) ≡ none
  -- a printed URI is a header value
  pub value_from_uri : (u : Uri) → (v : HeaderValue) × (value_from_str (uri_to_string u) ≡ some v)

module _ (http : Http) where
  open http use {
    HeaderName, HeaderValue, HeaderMap, Uri, get_all, into_parts, scheme_as_str, authority_host,
    authority_port, path_and_query_path,
  }

  -- `HeaderMap::get`, and what `HeaderMap::remove` returns: the first value of the name
  abbrev pub first_value : HeaderMap → HeaderName → Option HeaderValue
  first_value m k = head? (get_all m k)

  -- `Uri::scheme_str`, `Uri::host`, `Uri::port_u16` and `Uri::path`
  abbrev pub scheme_str : Uri → Option Text
  scheme_str u = Option.map scheme_as_str (into_parts u).scheme

  abbrev pub uri_host : Uri → Option Text
  uri_host u = Option.map authority_host (into_parts u).authority

  abbrev pub port_u16 : Uri → Option ℕ
  port_u16 u = Option.bind (into_parts u).authority authority_port

  abbrev pub uri_path : Uri → Text
  uri_path u = elim (into_parts u).path_and_query [ none ↦ [] | some p ↦ path_and_query_path p ]

-- `http::Request` and `http::Response`
pub record Request (http : Http) (Body : Type 0) : Type 0 where
  pub method : Method
  pub uri : http.Uri
  pub headers : http.HeaderMap
  pub body : Body

pub record Response (http : Http) (Body : Type 0) : Type 0 where
  pub status : ℕ
  pub headers : http.HeaderMap
  pub body : Body
