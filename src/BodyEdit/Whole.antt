-- ===== src/BodyEdit/Whole.antt =====
-- The edit of a page as a whole.
use mantalon.Base.{
  ℕ, List, [], ◌∷◌, ◌++◌, Option, none, some, true, false, Text, ◌≡◌, refl, max, arith, concat,
  replicate,
}
use mantalon.Http.{Http}
use mantalon.ContentEdit.{ParsedContentEdit, Substitution, needs_body_response, is_empty}
use mantalon.Substitution.{replace_in_vec}
use mantalon.Substitution.Replace.{replace_scan, replace_in_vec-replace_scan, replace_in_vec-empty}
use mantalon.BodyEdit.{
  strip_newlines, insert_js, insert_css, insert_lock, replacement_of, max_of, substitute_one,
  substitute_all, apply_on_response_body,
}

-- What `replace_in_vec` returns.
abbrev pub replaced : Text → Text → ℕ → Text → Text
replaced [] replacement n body = concat (replicate n replacement) ++ body
replaced (y ∷ tail) replacement n body = replace_scan (y ∷ tail) replacement n 0 body

replace_in_vec_lem :
    (pattern_ replacement bytes : Text) (max_replacements : ℕ)
    → replace_in_vec pattern_ replacement max_replacements bytes
      ≡ some (replaced pattern_ replacement (max 1 max_replacements) bytes)
replace_in_vec_lem [] replacement bytes m = replace_in_vec-empty replacement bytes m
replace_in_vec_lem (y ∷ tail) replacement bytes m =
    replace_in_vec-replace_scan y tail replacement bytes m

replaced_if :
    (o : Option Text) (pattern_ body : Text) (m : ℕ)
    → ◌≡◌ {A = Option Text}
        (elim o [
          | none ↦ some body
          | some replacement ↦ replace_in_vec pattern_ replacement m body
        ])
        (some (elim o [
          | none ↦ body
          | some replacement ↦ replaced pattern_ replacement (max 1 m) body
        ]))
replaced_if none pattern_ body m = refl
replaced_if (some replacement) pattern_ body m = replace_in_vec_lem pattern_ replacement body m

module _ (load : Text → Option Text) where
  -- One substitution, and all of them in order.
  abbrev pub substituted : Substitution → Text → Text
  substituted s body = elim (replacement_of load s) [
    | none ↦ body
    | some replacement ↦
        replaced s.pattern_ replacement (max 1 (max_of load s.max_replacements)) body
  ]

  abbrev pub all_substituted : List Substitution → Text → Text
  all_substituted [] body = body
  all_substituted (s ∷ ss) body = all_substituted ss (substituted s body)

  substitute_one_lem :
      (s : Substitution) (body : Text) → substitute_one load s body ≡ some (substituted s body)
  unfolding substitute_one
  substitute_one_lem s body =
      replaced_if (replacement_of load s) s.pattern_ body (max_of load s.max_replacements)

  substitute_all_lem :
      (ss : List Substitution) (body : Text)
      → substitute_all load ss body ≡ some (all_substituted ss body)
  unfolding substitute_all
  substitute_all_lem [] body = refl
  substitute_all_lem (s ∷ ss) body =
      rw (substitute_one_lem s body, substitute_all) (substitute_all_lem ss (substituted s body))

module _ (load : Text → Option Text) (lock_script : Text) (domains : List Text) where
  -- With memory without a bound, the edit of a page drops the trailing newlines, inserts the scripts, the
  -- stylesheets and the lock script, and makes the substitutions that have a replacement in order, each
  -- as one pass over the bytes (an empty pattern puts its replacement in front of the page).
  apply_on_response_body_lem :
      {http : Http} {UrlPattern : Type 0} (e : ParsedContentEdit http UrlPattern) (body : Text)
      → apply_on_response_body load lock_script domains e body
        ≡ some (
            all_substituted load e.substitute (
              insert_lock lock_script domains e.lock_browsing
                (insert_css e.css (insert_js e.js (strip_newlines body)))))
  unfolding apply_on_response_body
  apply_on_response_body_lem e body = substitute_all_lem load e.substitute _

  empty_of : {A : Type 0} (xs : List A) → is_empty xs ≡ true → xs ≡ []
  empty_of [] h = refl
  empty_of (x ∷ xs) h = cc

  -- An edit that does not need the body of the response would change nothing in it but the
  -- newlines at its end, so a body that is streamed past it is the page that it would make.
  apply_on_response_body-needs_body_response :
      {http : Http} {UrlPattern : Type 0} (e : ParsedContentEdit http UrlPattern) (body : Text)
      → needs_body_response e ≡ false
      → apply_on_response_body load lock_script domains e body ≡ some (strip_newlines body)
  unfolding apply_on_response_body needs_body_response insert_js insert_css insert_lock
      substitute_all
  apply_on_response_body-needs_body_response e body h =
      let no_js : e.js ≡ [] = empty_of e.js (ground arith) in
      let no_css : e.css ≡ [] = empty_of e.css (ground arith) in
      let no_substitute : e.substitute ≡ [] = empty_of e.substitute (ground arith) in
      let no_lock : e.lock_browsing ≡ false = ground arith in
      rw (no_js, no_css, no_lock, no_substitute) refl
