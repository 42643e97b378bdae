-- ===== src/Http/Toy.antt =====
-- A small `http` crate for the tests: association lists, and URIs as their parts.
use mantalon.Base.{
  List, [], ◌∷◌, ◌++◌, Option, none, some, Text, ◌≡◌, refl, codes, eqb, eqb_iff, ◌==◌,
  if◌then◌else◌, arith,
}
use mantalon.Http.{Parts, Http, values_of}

abbrev pub Pairs : Type 0
Pairs = List (Text × Text)

abbrev pub values : Pairs → Text → List Text
values [] j = []
values ((k, v) ∷ m) j = if eqb k j then v ∷ values m j else values m j

abbrev pub without : Pairs → Text → Pairs
without [] j = []
without ((k, v) ∷ m) j = let rest = without m j in if eqb k j then rest else (k, v) ∷ rest

pub values-values_of : (m : Pairs) (k : Text) → values m k ≡ values_of eqb k m
values-values_of [] k = refl
values-values_of ((j, v) ∷ m) k = ground (arith, values-values_of m k)

pub values-without :
    (m : Pairs) (k j : Text) → values (without m k) j ≡ (if eqb k j then [] else values m j)
values-without [] k j = ground arith
values-without ((i, v) ∷ m) k j =
    ground (arith, values-without m k j, eqb_iff i k, eqb_iff i j, eqb_iff k j)

pub values-append :
    (m : Pairs) (k v j : Text)
    → values (m ++ (k, v) ∷ []) j ≡ (if eqb k j then values m j ++ v ∷ [] else values m j)
values-append [] k v j = ground arith
values-append ((i, w) ∷ m) k v j = ground (arith, values-append m k v j)

pub values-insert :
    (m : Pairs) (k v j : Text)
    → values ((k, v) ∷ without m k) j ≡ (if eqb k j then v ∷ [] else values m j)
values-insert m k v j = ground (arith, values-without m k j)

abbrev pub UriParts : Type 0
UriParts = Parts Text Text Text

-- The rule of `Uri::from_parts` for a URI with a scheme; without one any parts are taken.
abbrev pub valid_parts : UriParts → Option UriParts
valid_parts p = elim p.scheme [
  | none ↦ some p
  | some s ↦ elim p.authority [
    | none ↦ none
    | some a ↦ elim p.path_and_query [ none ↦ none | some q ↦ some p ]
  ]
]

pub valid_parts-same : (p u : UriParts) → valid_parts p ≡ some u → u ≡ p
valid_parts-same p u e = ground arith

pub valid_parts_no_path :
    (s : Text) (a : Option Text)
    → valid_parts (record { scheme = some s; authority = a; path_and_query = none }) ≡ none
valid_parts_no_path s none = refl
valid_parts_no_path s (some a) = refl

abbrev pub part : Text → Option Text
part [] = none
part (x ∷ s) = some (x ∷ s)

-- The text in front of the first slash, and the text from it on.
abbrev pub before_slash : Text → Text
before_slash [] = []
before_slash (x ∷ s) = if x == b'/' then [] else x ∷ before_slash s

abbrev pub from_slash : Text → Text
from_slash [] = []
from_slash (x ∷ s) = if x == b'/' then x ∷ s else from_slash s

-- `host/path`, `host` or `/path`
abbrev pub uri_of : Text → UriParts
uri_of s = record {
  scheme = none;
  authority = part (before_slash s);
  path_and_query = part (from_slash s);
}

abbrev pub toy : Http
toy = record {
  HeaderName = Text;
  HeaderValue = Text;
  HeaderMap = Pairs;
  Scheme = Text;
  Authority = Text;
  PathAndQuery = Text;
  Uri = UriParts;
  name_eq = eqb;
  name_eq_iff = eqb_iff;
  name_from_bytes = some;
  static_name = λ s. s;
  name_as_str = λ s. s;
  name_as_str-static_name = λ s _. refl;
  value_from_bytes = some;
  value_from_str = some;
  value_to_str = some;
  empty = [];
  get_all = values;
  insert = λ m k v. (k, v) ∷ without m k;
  append = λ m k v. m ++ (k, v) ∷ [];
  remove = without;
  iter = λ m. m;
  get_all-iter = values-values_of;
  get_all-empty = λ k. refl;
  get_all-insert = values-insert;
  get_all-append = values-append;
  get_all-remove = values-without;
  scheme_as_str = λ s. s;
  http_scheme = codes "http";
  https_scheme = codes "https";
  scheme_as_str-http = refl;
  scheme_as_str-https = refl;
  authority_parse = some;
  authority_host = λ a. a;
  authority_port = λ a. none;
  path_and_query_path = λ p. p;
  uri_parse = λ s. some (uri_of s);
  uri_to_string = λ u. elim u.path_and_query [ none ↦ [] | some p ↦ p ];
  into_parts = λ u. u;
  from_parts = valid_parts;
  into_parts-from_parts = valid_parts-same;
  from_parts_total = λ s a p. (_, refl);
  from_parts_no_authority = λ s p. refl;
  from_parts_no_path = valid_parts_no_path;
  value_from_uri = λ u. (_, refl);
}
