-- ===== src/Exports/Inputs/Precedence.antt =====
-- Which of the two arguments of `proxiedFetch` decides what.
use mantalon.Base.{
  List, [], ◌∷◌, Option, none, some, Text, codes, eqb, eqb_iff, if◌then◌else◌, ◌≡◌, refl, ap, ◌∙◌,
  arith,
}
use mantalon.Http.{Http, Method, get}
use mantalon.Exports.Inputs.{
  JsValue, text_value, OptionEntry, no_option, option, Options, url_options, map_options,
  other_options, Resource, url_resource, request_resource, other_resource, from_method,
  from_headers, Inputs, read_option, read_entries, read_inputs, read_options, read_resource,
  initial, request_body, or_url,
}

-- The value of the last entry with the key.
abbrev pub last_option : Text → List OptionEntry → Option JsValue
last_option key [] = none
last_option key (no_option ∷ entries) = last_option key entries
last_option key (option none value ∷ entries) = last_option key entries
last_option key (option (some k) value ∷ entries) = elim (last_option key entries) [
  | some later ↦ some later
  | none ↦ if eqb k key then some value else none
]

abbrev pub entry_of : Text → Options → Option JsValue
entry_of key (map_options entries) = last_option key entries
entry_of key _ = none

-- The method and the headers that the options ask for.
abbrev pub method_of : Option JsValue → Method
method_of none = get
method_of (some value) = from_method value

abbrev pub headers_of : (http : Http) → Option JsValue → http.HeaderMap
headers_of http none = http.empty
headers_of http (some value) = from_headers http value

abbrev pub option_url : Options → Text
option_url (url_options url) = url
option_url _ = []

-- The inputs that the two arguments stand for.
abbrev pub decided : (http : Http) → Resource → Options → Inputs http
decided http (url_resource url) options_ = record {
  headers = headers_of http (entry_of (codes "headers") options_);
  method = method_of (entry_of (codes "method") options_);
  url = url;
  body = none;
}
decided http (other_resource to_string) options_ = record {
  headers = headers_of http (entry_of (codes "headers") options_);
  method = method_of (entry_of (codes "method") options_);
  url = elim to_string [ none ↦ option_url options_ | some url ↦ url ];
  body = none;
}
decided http (request_resource request) options_ = record {
  headers = from_headers http request.headers;
  method = from_method (text_value request.method);
  url = or_url (option_url options_) request.url;
  body = request_body request;
}

module _ (http : Http) where
  -- What a value of an option makes of what there was before.
  method_or : Option JsValue → Method → Method
  method_or none method = method
  method_or (some value) method = from_method value

  headers_or : Option JsValue → http.HeaderMap → http.HeaderMap
  headers_or none headers = headers
  headers_or (some value) headers = from_headers http value

  read_later :
      (key : Text) (value : JsValue) (inputs : Inputs http) (h m : Option JsValue)
      → record (read_option http key value inputs) {
        headers = headers_or h (read_option http key value inputs).headers;
        method = method_or m (read_option http key value inputs).method;
      }
        ≡ record inputs {
          headers =
              headers_or
                (elim h [
                  | some later ↦ some later
                  | none ↦ if eqb key (codes "headers") then some value else none
                ])
                inputs.headers;
          method =
              method_or
                (elim m [
                  | some later ↦ some later
                  | none ↦ if eqb key (codes "method") then some value else none
                ])
                inputs.method;
        }
  unfolding read_option method_or headers_or
  read_later key value inputs none none = ground (arith, eqb_iff key (codes "headers"))
  read_later key value inputs none (some m) = ground (arith, eqb_iff key (codes "headers"))
  read_later key value inputs (some h) none = ground (arith, eqb_iff key (codes "headers"))
  read_later key value inputs (some h) (some m) = ground arith

  read_entries_lem :
      (entries : List OptionEntry) (inputs : Inputs http)
      → read_entries http entries inputs ≡ record inputs {
        headers = headers_or (last_option (codes "headers") entries) inputs.headers;
        method = method_or (last_option (codes "method") entries) inputs.method;
      }
  unfolding read_entries method_or headers_or
  read_entries_lem [] inputs = refl
  read_entries_lem (no_option ∷ entries) inputs = read_entries_lem entries inputs
  read_entries_lem (option none value ∷ entries) inputs = read_entries_lem entries inputs
  read_entries_lem (option (some key) value ∷ entries) inputs =
      read_entries_lem entries (read_option http key value inputs)
      ∙ read_later key value inputs (last_option (codes "headers") entries)
          (last_option (codes "method") entries)

  from_options :
      (h m : Option JsValue) (url : Text)
      → ◌≡◌ {A = Inputs http}
          (record {
            headers = headers_or h http.empty;
            method = method_or m get;
            url = url;
            body = none;
          })
          (record { headers = headers_of http h; method = method_of m; url = url; body = none })
  unfolding method_or headers_or
  from_options none none url = refl
  from_options none (some m) url = refl
  from_options (some h) none url = refl
  from_options (some h) (some m) url = refl

  read_options_lem :
      (options_ : Options)
      → read_options http options_ (initial http) ≡ record {
        headers = headers_of http (entry_of (codes "headers") options_);
        method = method_of (entry_of (codes "method") options_);
        url = option_url options_;
        body = none;
      }
  unfolding read_options
  read_options_lem (url_options url) = refl
  read_options_lem other_options = refl
  read_options_lem (map_options entries) =
      read_entries_lem entries (initial http)
      ∙ from_options (last_option (codes "headers") entries) (last_option (codes "method") entries)
          []

  -- What the two arguments decide. The URL is the resource, by itself or by its `toString`; of a
  -- `Request`, and where there is no such text, it is the text given as options, and only then
  -- that of the request. The method and the headers are those of a request, and else those of the
  -- last options of that name, and a GET without headers by default; a body comes from a request
  -- only.
  pub read_inputs_lem :
      (resource : Resource) (options_ : Options)
      → read_inputs http resource options_ ≡ decided http resource options_
  unfolding read_inputs read_resource
  read_inputs_lem (url_resource url) options_ =
      ap (read_resource http (url_resource url)) (read_options_lem options_)
  read_inputs_lem (other_resource none) options_ =
      ap (read_resource http (other_resource none)) (read_options_lem options_)
  read_inputs_lem (other_resource (some url)) options_ =
      ap (read_resource http (other_resource (some url))) (read_options_lem options_)
  read_inputs_lem (request_resource request) options_ =
      ap (read_resource http (request_resource request)) (read_options_lem options_)
