-- ===== src/BodyEdit.antt =====
-- `ParsedContentEdit::apply_on_response_body` of mantalon-client/src/manifest.rs: the edits of a
-- page. The browser's fetch of a replacement file and the text of scripts/lock_browsing.js are
-- parameters; `none` in place of a body would mean that the loop of `replace_in_vec` did not end.
pub mod Newlines
pub mod Scripts
pub mod Stylesheets
pub mod Whole
use mantalon.Base.{
  ℕ, zero, suc, ◌+◌, ◌-◌, ◌^◌, List, [], ◌∷◌, ◌++◌, Option, none, some, Bool, true, false, Text,
  codes, if◌then◌else◌, ends_with, length, take, drop, join, str_replace, map,
}
use mantalon.Http.{Http}
use mantalon.ContentEdit.{ParsedContentEdit, Substitution}
use mantalon.Substitution.{search_haystack, splice, replace_in_vec}

-- `while body.ends_with(b"\n") { body.pop(); }`, with a round of fuel for each byte.
pop_newlines : ℕ → Text → Text
pop_newlines zero body = body
pop_newlines (suc fuel) body =
    let shorter = pop_newlines fuel (take (length body - 1) body) in
    if ends_with body (b'\n' ∷ []) then shorter else body

unfoldable pub strip_newlines : Text → Text
unfolding pop_newlines
strip_newlines body = pop_newlines (length body) body

-- A tag that takes the place of the closing html tag at the end of the body, and ends with it; a
-- body that ends otherwise stays.
unfoldable pub before_html_end : Text → Text → Text
before_html_end tag body =
    if ends_with body (codes "</html>") then take (length body - 7) body ++ tag else body

abbrev pub script_src : Text → Text
script_src js_path = codes "<script src=\"/pkg/config/" ++ (js_path ++ codes "\"></script></html>")

unfoldable pub insert_js : List Text → Text → Text
unfolding before_html_end
insert_js [] body = body
insert_js (js_path ∷ js) body = insert_js js (before_html_end (script_src js_path) body)

abbrev pub stylesheet_link : Text → Text
stylesheet_link css_path =
    codes "<link rel=\"stylesheet\" href=\"/pkg/config/" ++ (css_path ++ codes "\">")

unfoldable pub insert_stylesheet : Text → Text → Text
insert_stylesheet css_path body = elim (search_haystack (codes "</head>") body) [
  | none ↦ body
  | some idx ↦ elim (search_haystack (codes "</head>") (drop (idx + 7) body)) [
    | none ↦ splice body idx (idx + 7) (stylesheet_link css_path)
    | some _ ↦ body
  ]
]

unfoldable pub insert_css : List Text → Text → Text
unfolding insert_stylesheet
insert_css [] body = body
insert_css (css_path ∷ css) body = insert_css css (insert_stylesheet css_path body)

module _ (lock_script : Text) (domains : List Text) where
  abbrev pub quoted : Text → Text
  quoted d = codes "\"" ++ (d ++ codes "\"")

  unfoldable pub lock_tag : Text
  lock_tag =
      codes "<script>"
      ++ (str_replace lock_script (codes "proxiedDomains") (join (map quoted domains) (codes ","))
          ++ codes "</script></html>")

  unfoldable pub insert_lock : Bool → Text → Text
  unfolding before_html_end
  insert_lock true body = before_html_end lock_tag body
  insert_lock false body = body

-- usize::MAX of wasm32
abbrev pub usize_max : ℕ
usize_max = 2 ^ 32 - 1

-- `load` is `load_replacement_file`; its failure and a substitution with neither a replacement nor
-- a file skip the substitution.
module _ (load : Text → Option Text) where
  unfoldable pub replacement_of : Substitution → Option Text
  replacement_of s = elim s.replacement [
    | some replacement ↦ some replacement
    | none ↦ elim s.replacement_file [ some replacement_file ↦ load replacement_file | none ↦ none ]
  ]

  abbrev pub max_of : Option ℕ → ℕ
  max_of none = usize_max
  max_of (some n) = n

  unfoldable pub substitute_one : Substitution → Text → Option Text
  unfolding replacement_of
  substitute_one s body = elim (replacement_of s) [
    | none ↦ some body
    | some replacement ↦ replace_in_vec s.pattern_ replacement (max_of s.max_replacements) body
  ]

  unfoldable pub substitute_all : List Substitution → Text → Option Text
  substitute_all [] body = some body
  substitute_all (s ∷ ss) body = elim (substitute_one s body) [
    | none ↦ none
    | some body' ↦ substitute_all ss body'
  ]

module _ (load : Text → Option Text) (lock_script : Text) (domains : List Text) where
  unfoldable pub apply_on_response_body :
      {http : Http} {UrlPattern : Type 0} → ParsedContentEdit http UrlPattern → Text → Option Text
  apply_on_response_body e body = substitute_all load e.substitute (
      insert_lock lock_script domains e.lock_browsing
        (insert_css e.css (insert_js e.js (strip_newlines body))))
