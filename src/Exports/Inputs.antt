-- ===== src/Exports/Inputs.antt =====
-- What `proxiedFetch` reads of its two arguments. A JavaScript value is seen through the conversions
-- that the program tries on it.
pub mod Methods
pub mod Precedence
use mathlib.Core.Option
use mantalon.Base.{
  List, [], ◌∷◌, Option, none, some, Bool, true, false, Text, codes, eqb, if◌then◌else◌,
}
use mantalon.Http.{Http, Method, get, post, put, delete, head, options, connect, patch, trace}
use mantalon.MantalonBody.{MantalonBody, known}

-- What an entry of an iterator is: an error or no array, or an array whose first two items are
-- texts or not.
pub data Entry : Type 0 where
  no_array : Entry
  pair : (name value : Option Text) → Entry

-- `value.as_string()`, and what calling its `entries` gives.
pub record JsValue : Type 0 where
  pub as_string : Option Text
  pub entries : Option (List Entry)

abbrev pub text_value : Text → JsValue
text_value s = record { as_string = some s; entries = none }

-- An entry of the options: its key, if that is a text, and its value.
pub data OptionEntry : Type 0 where
  no_option : OptionEntry
  option : (key : Option Text) → JsValue → OptionEntry

pub data Options : Type 0 where
  url_options : Text → Options
  map_options : List OptionEntry → Options
  other_options : Options

-- A `Request`. `array_buffer` is none where the promise, or what it gives, fails.
pub record JsRequest : Type 0 where
  pub method : Text
  pub url : Text
  pub headers : JsValue
  pub body : Option MantalonBody
  pub array_buffer : Option Text

-- Any other value is seen through its `toString`.
pub data Resource : Type 0 where
  url_resource : Text → Resource
  request_resource : JsRequest → Resource
  other_resource : (to_string : Option Text) → Resource

-- The texts of the arms, in their order; the first that is the name of the method counts.
abbrev pub method_names : List (Text × Method)
method_names =
    (codes "GET", get)
    ∷ (codes "POST", post)
    ∷ (codes "PUT", put)
    ∷ (codes "DELETE", delete)
    ∷ (codes "HEAD", head)
    ∷ (codes "OPTIONS", options)
    ∷ (codes "CONNECT", connect)
    ∷ (codes "PATCH", patch)
    ∷ (codes "TRACE", trace)
    ∷ []

match_method : List (Text × Method) → Text → Method
match_method [] name = get
match_method ((arm, method) ∷ arms) name = if eqb arm name then method else match_method arms name

unfoldable pub from_method : JsValue → Method
unfolding match_method
from_method value = elim value.as_string [ none ↦ get | some name ↦ match_method method_names name ]

-- The variables of `proxiedFetch` while it reads its arguments.
pub record Inputs (http : Http) : Type 0 where
  pub headers : http.HeaderMap
  pub method : Method
  pub url : Text
  pub body : Option MantalonBody

-- `url.is_empty()`
abbrev pub or_url : Text → Text → Text
or_url [] other = other
or_url (x ∷ url) other = x ∷ url

-- The body of a request, and else its bytes.
unfoldable pub request_body : JsRequest → Option MantalonBody
request_body request = elim request.body [
  | some body ↦ some body
  | none ↦ Option.map (λ bytes. known (some bytes)) request.array_buffer
]

module _ (http : Http) where
  open http use {HeaderMap, name_from_bytes, value_from_str}

  -- The loop of `from_headers`, from the headers that it has so far.
  unfoldable pub append_entries : List Entry → HeaderMap → HeaderMap
  append_entries [] headers = headers
  append_entries (no_array ∷ entries) headers = append_entries entries headers
  append_entries (pair name value ∷ entries) headers = elim (Option.bind name name_from_bytes) [
    | none ↦ append_entries entries headers
    | some name ↦ elim (Option.bind value value_from_str) [
      | none ↦ append_entries entries headers
      | some value ↦ append_entries entries (http.append headers name value)
    ]
  ]

  unfoldable pub from_headers : JsValue → HeaderMap
  unfolding append_entries
  from_headers value = elim value.entries [
    | none ↦ http.empty
    | some entries ↦ append_entries entries http.empty
  ]

  abbrev pub initial : Inputs http
  initial = record { headers = http.empty; method = get; url = []; body = none }

  -- One option; all but two keys are only logged.
  unfoldable pub read_option : Text → JsValue → Inputs http → Inputs http
  read_option key value inputs =
      if eqb key (codes "headers")
      then record inputs { headers = from_headers value }
      else if eqb key (codes "method")
      then record inputs { method = from_method value }
      else inputs

  unfoldable pub read_entries : List OptionEntry → Inputs http → Inputs http
  read_entries [] inputs = inputs
  read_entries (no_option ∷ entries) inputs = read_entries entries inputs
  read_entries (option none value ∷ entries) inputs = read_entries entries inputs
  read_entries (option (some key) value ∷ entries) inputs =
      read_entries entries (read_option key value inputs)

  unfoldable pub read_options : Options → Inputs http → Inputs http
  read_options (url_options url) inputs = record inputs { url = url }
  read_options (map_options entries) inputs = read_entries entries inputs
  read_options other_options inputs = inputs

  unfoldable pub read_resource : Resource → Inputs http → Inputs http
  read_resource (url_resource url) inputs = record inputs { url = url }
  read_resource (request_resource request) inputs = record {
    method = from_method (text_value request.method);
    url = or_url inputs.url request.url;
    headers = from_headers request.headers;
    body = request_body request;
  }
  read_resource (other_resource none) inputs = inputs
  read_resource (other_resource (some url)) inputs = record inputs { url = url }

  unfoldable pub read_inputs : Resource → Options → Inputs http
  unfolding read_options read_resource
  read_inputs resource options_ = read_resource resource (read_options options_ initial)
