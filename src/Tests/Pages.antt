-- ===== src/Tests/Pages.antt =====
-- The edits of a page.
use mantalon.Base.{[], ◌∷◌, Option, none, some, true, false, Text, codes, ◌≡◌, refl}
use mantalon.Http.Toy.{toy}
use mantalon.ContentEdit.{ParsedContentEdit}
use mantalon.Loading.{Scope, response, rejects, resolves, load_replacement_file}
use mantalon.Substitution.{search_haystack, splice}
use mantalon.BodyEdit.{
  strip_newlines, insert_js, insert_css, insert_lock, insert_stylesheet, stylesheet_link,
  apply_on_response_body,
}

-- After one stylesheet the closing head tag is gone, so the second one is not inserted.
second_stylesheet_lost :
    insert_css (codes "a.css" ∷ codes "b.css" ∷ []) (codes "a</head>b")
    ≡ insert_css (codes "a.css" ∷ []) (codes "a</head>b")
unfolding insert_css search_haystack splice
second_stylesheet_lost = refl

abbrev edit : ParsedContentEdit toy Text
edit = record {
  matches = [];
  lock_browsing = false;
  https_only = false;
  rewrite_location = true;
  js_redirect = false;
  js = codes "a.js" ∷ [];
  css = [];
  override_uri = none;
  substitute =
      record {
        pattern_ = codes "a";
        replacement = none;
        replacement_file = some (codes "b.txt");
        max_replacements = some 2;
      }
      ∷ [];
  append_headers = [];
  insert_headers = [];
  remove_headers = [];
  rename_headers = [];
  append_request_headers = [];
  insert_request_headers = [];
  remove_request_headers = [];
  rename_request_headers = [];
}

abbrev idle : ParsedContentEdit toy Text
idle = record edit { js = []; substitute = [] }

-- A window that fetches each file as the text "b".
abbrev scope : Scope Unit
scope = record {
  window = some (λ url. response (resolves (codes "b")) rejects);
  worker = none;
  from_value = λ json. none;
}

abbrev load : Text → Option Text
load = load_replacement_file scope

file_loaded :
    apply_on_response_body load [] [] edit (codes "aa</html>")
    ≡ some (codes "bb<script src=\"/pkg/config/a.js\"></script></html>")
unfolding apply_on_response_body strip_newlines insert_js insert_css insert_lock
    mantalon.BodyEdit.substitute_all mantalon.BodyEdit.substitute_one
    mantalon.Substitution.replace_in_vec load_replacement_file
file_loaded = refl
