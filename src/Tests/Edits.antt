-- ===== src/Tests/Edits.antt =====
-- The content edits.
use mantalon.Base.{
  ◌≢◌, arith, ◌+◌, ◌*◌, ◌≤◌, length, List, [], ◌∷◌, none, some, true, false, Text, codes, ◌≡◌, ◌↔◌,
  refl, trim_start_matches,
}
use mantalon.Http.{Request, Response, get}
use mantalon.Http.Toy.{toy, uri_of}
use mantalon.ContentEdit.{ParsedContentEdit}
use mantalon.Substitution.{replace_in_vec}
use mantalon.Substitution.Bounds.{length-replace_in_vec}
use mantalon.Substitution.Replace.{replace_scan, replace_in_vec-replace_scan}
use mantalon.Headers.{edit_headers, rename_all}
use mantalon.Headers.Rename.{rename_all_order}
use mantalon.RequestEdit.{apply_on_request, overridden}
use mantalon.RequestEdit.Laws.{
  IsForced, apply_on_request_lem, asked, HasNoHttps, apply_on_request_panics_iff,
}
use mantalon.ResponseEdit.{apply_on_response, location_of}
use mantalon.ResponseEdit.Laws.{IsRedirected, apply_on_response-IsRedirected}
use mantalon.ResponseEdit.Panics.{HasNoPath, apply_on_response_panics_iff}

replaced_twice : replace_in_vec (codes "aa") (codes "b") 2 (codes "xaaaaaa") ≡ some (codes "xbbaa")
unfolding replace_in_vec
replaced_twice = refl

replace_in_vec-replace_scan_example :
    replace_in_vec (codes "ab") (codes "c") 0 (codes "abab")
    ≡ some (replace_scan (codes "ab") (codes "c") 1 0 (codes "abab"))
replace_in_vec-replace_scan_example =
    replace_in_vec-replace_scan b'a' (codes "b") (codes "c") (codes "abab") 0

length-replace_in_vec_example :
    (r : Text) × (replace_in_vec (codes "a") (codes "bcd") 2 (codes "xaaa") ≡ some r)
    × (length r ≤ length (codes "xaaa") + 2 * 3)
    × (length r ≤ length (codes "xaaa") * 3)
length-replace_in_vec_example = length-replace_in_vec b'a' [] (codes "bcd") (codes "xaaa") 2

abbrev headers : List (Text × Text)
headers = (codes "x", codes "1") ∷ (codes "y", codes "2") ∷ (codes "x", codes "3") ∷ []

x_ne_w : codes "x" ≢ codes "w"
x_ne_w e = ground arith

w_ne_z : codes "w" ≢ codes "z"
w_ne_z e = ground arith

abbrev single : List (Text × Text)
single = (codes "x", codes "1") ∷ []

rename_all_order_example :
    (toy.get_all
        (rename_all toy ((codes "x", codes "w") ∷ (codes "w", codes "z") ∷ []) single)
        (codes "z")
      ≡ codes "1" ∷ [])
    × (toy.get_all
          (rename_all toy ((codes "w", codes "z") ∷ (codes "x", codes "w") ∷ []) single)
          (codes "w")
        ≡ codes "1" ∷ [])
    × (toy.get_all
          (rename_all toy ((codes "x", codes "w") ∷ (codes "w", codes "z") ∷ []) single)
          (codes "w")
        ≡ [])
rename_all_order_example =
    rename_all_order toy (codes "x") (codes "w") (codes "z") (codes "1") single x_ne_w w_ne_z refl
      refl

-- An edit over patterns that are texts.
abbrev pub edit : ParsedContentEdit toy Text
edit = record {
  matches = [];
  lock_browsing = false;
  https_only = true;
  rewrite_location = true;
  js_redirect = false;
  js = [];
  css = [];
  override_uri = none;
  substitute = [];
  append_headers = [];
  insert_headers = [];
  remove_headers = [];
  rename_headers = [];
  append_request_headers = [];
  insert_request_headers = [];
  remove_request_headers = [];
  rename_request_headers = [];
}

abbrev pub request : Request toy Text
request = record { method = get; uri = uri_of (codes "a.org/b"); headers = headers; body = [] }

apply_on_request_lem_example :
    (r : Request toy Text) × (apply_on_request toy edit request ≡ some r)
    × IsForced toy true (uri_of (codes "a.org/b")) r.uri
    × (r.headers ≡ edit_headers toy [] [] [] [] headers)
    × (r.method ≡ get)
    × (r.body ≡ [])
unfolding overridden
apply_on_request_lem_example =
    apply_on_request_lem toy edit request (codes "a.org", codes "/b", refl, refl)

abbrev pub located : Text → Response toy Text
located l = record { status = 302; headers = (codes "location", l) ∷ []; body = [] }

abbrev pub domains : List Text
domains = codes "a.org" ∷ []

abbrev pub origin : Text
origin = codes "https://proxy"

found : (l : Text) → location_of toy (located l).headers ≡ some (uri_of l)
unfolding location_of
found l = refl

apply_on_response-IsRedirected_example :
    (r : Response toy Text) × (after : toy.HeaderMap) × (apply_on_response toy domains origin edit
        (located (codes "a.org/b"))
      ≡ some r)
    × IsRedirected toy origin
        (uri_of (codes "a.org/b"))
        ((codes "location", codes "a.org/b") ∷ [])
        after
    × (r.headers ≡ edit_headers toy [] [] [] [] after)
    × (r.status ≡ 302)
    × (r.body ≡ [])
unfolding trim_start_matches
apply_on_response-IsRedirected_example =
    apply_on_response-IsRedirected toy domains origin edit (located (codes "a.org/b"))
      (uri_of (codes "a.org/b")) (codes "proxy") (codes "/b") refl (found (codes "a.org/b")) refl
      refl refl

apply_on_response_panics_iff_example :
    (apply_on_response toy domains origin edit (located (codes "a.org")) ≡ none)
    ↔ HasNoPath toy domains origin true (located (codes "a.org"))
unfolding trim_start_matches
apply_on_response_panics_iff_example =
    apply_on_response_panics_iff toy domains origin edit (located (codes "a.org")) (codes "proxy")
      refl

abbrev to_path : ParsedContentEdit toy Text
to_path = record edit { override_uri = some (uri_of (codes "/b")) }

apply_on_request_panics_iff_example :
    (apply_on_request toy to_path request ≡ none)
    ↔ ((true ≡ true) × HasNoHttps toy (asked toy to_path request))
apply_on_request_panics_iff_example = apply_on_request_panics_iff toy to_path request
