-- ===== src/Exports/Proxied/Responses.antt =====
-- What the page gets of a response: the branches behind `apply_on_response` in `proxiedFetch`.
use mantalon.Base.{
  ℕ, List, Option, none, some, Bool, true, false, Bool-cases, Text, codes, ◌≡◌, refl, ap, subst,
  sym, ◌∙◌, ◌⊎◌, inl, inr, Option-cases,
}
use mantalon.Http.{Http}
use mantalon.ContentEdit.{ParsedContentEdit, needs_body_response}
use mantalon.BodyEdit.{apply_on_response_body}
use mantalon.Setup.{Patterns}
use mantalon.Fetch.{Chunk, read_entire_body}
use mantalon.Exports.Proxied.{
  Browser, JsBody, page, stream, JsResponse, done, redirect_code, redirect_headers, respond,
  respond_page, respond_read, respond_edited,
}
use mantalon.Exports.Proxied.Redirects.{IsRedirecting, redirect_headers-IsRedirecting}

module _ (browser : Browser) (redirect_page : Text) (http : Http) (patterns : Patterns) (E : Type 0)
    (load : Text → Option Text) (lock_script : Text) (domains : List Text)
    (self_origin : Text) where
  open browser use {JsHeaders, new_headers, get, accepts_status}

  abbrev pub ParsedEdit : Type 0
  ParsedEdit = ParsedContentEdit http patterns.UrlPattern

  -- How a response of the site is shown: as it streams in, as a page that is read and edited, or
  -- as a page that redirects.
  pub data IsShown (edit : ParsedEdit) (status : ℕ) (headers : JsHeaders) (chunks : List Chunk)
      (js : JsResponse JsHeaders) : Type 0 where
    streamed :
        needs_body_response edit ≡ false
        → accepts_status status ≡ true
        → js ≡ (record { status = status; headers = headers; body = stream chunks })
        → IsShown edit status headers chunks js
    read :
        (body body' : Text)
        → needs_body_response edit ≡ true
        → read_entire_body chunks ≡ some body
        → apply_on_response_body load lock_script domains edit body ≡ some body'
        → ((edit.js_redirect ≡ false) ⊎ (get headers (codes "location") ≡ none))
        → accepts_status status ≡ true
        → js ≡ (record { status = status; headers = headers; body = page body' })
        → IsShown edit status headers chunks js
    redirected :
        (body body' location : Text)
        → needs_body_response edit ≡ true
        → read_entire_body chunks ≡ some body
        → apply_on_response_body load lock_script domains edit body ≡ some body'
        → edit.js_redirect ≡ true
        → get headers (codes "location") ≡ some location
        → js ≡ (record {
          status = 200;
          headers =
              redirect_headers http patterns browser E load lock_script redirect_page domains
                self_origin location headers;
          body = page (
              redirect_code http patterns browser E load lock_script redirect_page domains
                self_origin location);
        })
        → IsRedirecting browser redirect_page http patterns E load lock_script domains self_origin
            location headers js.headers
        → IsShown edit status headers chunks js

  respond-done :
      (status : ℕ) (headers : JsHeaders) (body : JsBody) (js : JsResponse JsHeaders)
      → respond http patterns browser E load lock_script redirect_page domains self_origin status
          headers body
        ≡ done js
      → (accepts_status status ≡ true)
        × (js ≡ (record { status = status; headers = headers; body = body }))
  unfolding respond
  respond-done status headers body js = elim (Bool-cases (accepts_status status)) [
    | inl x ↦ rw (x, respond) (λ h. (refl, cc))
    | inr x ↦ rw (x, respond) (λ h. cc)
  ]

  respond_page-IsShown :
      (redirects : Bool) (edit : ParsedEdit) (status : ℕ) (headers : JsHeaders)
      (chunks : List Chunk) (body body' : Text) (js : JsResponse JsHeaders)
      → edit.js_redirect ≡ redirects
      → needs_body_response edit ≡ true
      → read_entire_body chunks ≡ some body
      → apply_on_response_body load lock_script domains edit body ≡ some body'
      → respond_page http patterns browser E load lock_script redirect_page domains self_origin
          redirects status headers body'
        ≡ done js
      → IsShown edit status headers chunks js
  unfolding respond_page
  respond_page-IsShown false edit status headers chunks body body' js r needs x y = λ h.
      let (accepted, same) = respond-done status headers (page body') js h in
      read body body' needs x y (inl r) accepted same
  respond_page-IsShown true edit status headers chunks body body' js r needs x y =
      elim (Option-cases (get headers (codes "location"))) [
        | inl l ↦
            rw (l, respond_page)
              (λ h.
                let (accepted, same) = respond-done status headers (page body') js h in
                read body body' needs x y (inr l) accepted same)
        | inr (location, l) ↦
            rw (l, respond_page)
              (λ h.
                let (_, same) = respond-done 200 _ _ js h in
                redirected body body' location needs x y r l same (
                  subst
                    (λ after.
                      IsRedirecting browser redirect_page http patterns E load lock_script domains
                        self_origin location headers after)
                    (sym (ap (λ j. j.headers) same))
                    (redirect_headers-IsRedirecting browser redirect_page http patterns E load
                      lock_script domains self_origin location headers)))
      ]

  pub respond_edited-IsShown :
      (edit : ParsedEdit) (status : ℕ) (headers : JsHeaders) (chunks : List Chunk)
      (js : JsResponse JsHeaders)
      → respond_edited http patterns browser E load lock_script redirect_page domains self_origin
          edit status headers chunks
        ≡ done js
      → IsShown edit status headers chunks js
  unfolding respond_edited respond_read
  respond_edited-IsShown edit status headers chunks js =
      elim (Bool-cases (needs_body_response edit)) [
        | inr x ↦
            rw (x, respond_edited)
              (λ h.
                let (accepted, same) = respond-done status headers (stream chunks) js h in
                streamed x accepted same)
        | inl x ↦ elim (Option-cases (read_entire_body chunks)) [
          | inl y ↦ rw (x, y, respond_edited, respond_read) (λ h. cc)
          | inr (body, y) ↦
              elim (Option-cases (apply_on_response_body load lock_script domains edit body)) [
                | inl z ↦ rw (x, y, z, respond_edited, respond_read) (λ h. cc)
                | inr (body', z) ↦
                    rw (x, y, z, respond_edited, respond_read)
                      (respond_page-IsShown edit.js_redirect edit status headers chunks body body'
                        js refl x y z)
              ]
        ]
      ]

  respond-accepted :
      (status : ℕ) (headers : JsHeaders) (body : JsBody) (js : JsResponse JsHeaders)
      → accepts_status status ≡ true
      → js ≡ (record { status = status; headers = headers; body = body })
      → respond http patterns browser E load lock_script redirect_page domains self_origin status
          headers body
        ≡ done js
  unfolding respond
  respond-accepted status headers body js accepted same =
      rw (accepted, respond) (ap done (sym same))

  respond_page-kept :
      (redirects : Bool) (status : ℕ) (headers : JsHeaders) (body : Text)
      (js : JsResponse JsHeaders)
      → ((redirects ≡ false) ⊎ (get headers (codes "location") ≡ none))
      → respond http patterns browser E load lock_script redirect_page domains self_origin status
          headers
          (page body)
        ≡ done js
      → respond_page http patterns browser E load lock_script redirect_page domains self_origin
          redirects status headers body
        ≡ done js
  unfolding respond_page
  respond_page-kept false status headers body js kept h = h
  respond_page-kept true status headers body js (inl kept) h = cc
  respond_page-kept true status headers body js (inr l) h = rw (l, respond_page) h

  respond_page-redirected :
      (redirects : Bool) (status : ℕ) (headers : JsHeaders) (body location : Text)
      → redirects ≡ true
      → get headers (codes "location") ≡ some location
      → respond_page http patterns browser E load lock_script redirect_page domains self_origin
          redirects status headers body
        ≡ respond http patterns browser E load lock_script redirect_page domains self_origin 200
            (redirect_headers http patterns browser E load lock_script redirect_page domains
              self_origin location headers)
            (page (
              redirect_code http patterns browser E load lock_script redirect_page domains
                self_origin location))
  unfolding respond_page
  respond_page-redirected false status headers body location r l = cc
  respond_page-redirected true status headers body location r l = rw (l, respond_page) refl

  respond_edited-page :
      (edit : ParsedEdit) (status : ℕ) (headers : JsHeaders) (chunks : List Chunk)
      (body body' : Text)
      → needs_body_response edit ≡ true
      → read_entire_body chunks ≡ some body
      → apply_on_response_body load lock_script domains edit body ≡ some body'
      → respond_edited http patterns browser E load lock_script redirect_page domains self_origin
          edit status headers chunks
        ≡ respond_page http patterns browser E load lock_script redirect_page domains self_origin
            edit.js_redirect status headers body'
  unfolding respond_edited respond_read
  respond_edited-page edit status headers chunks body body' x y z =
      rw (x, y, z, respond_edited, respond_read) refl

  pub IsShown-respond_edited :
      (edit : ParsedEdit) (status : ℕ) (headers : JsHeaders) (chunks : List Chunk)
      (js : JsResponse JsHeaders)
      → IsShown edit status headers chunks js
      → respond_edited http patterns browser E load lock_script redirect_page domains self_origin
          edit status headers chunks
        ≡ done js
  unfolding respond_edited
  IsShown-respond_edited edit status headers chunks js (streamed x accepted same) =
      rw (x, respond_edited) (respond-accepted status headers (stream chunks) js accepted same)
  IsShown-respond_edited edit status headers chunks js (read body body' x y z kept accepted same) =
      respond_edited-page edit status headers chunks body body' x y z
      ∙ respond_page-kept edit.js_redirect status headers body' js kept
          (respond-accepted status headers (page body') js accepted same)
  IsShown-respond_edited edit status headers chunks js
        (redirected body body' location x y z r l same _) =
      respond_edited-page edit status headers chunks body body' x y z
      ∙ respond_page-redirected edit.js_redirect status headers body' location r l
      ∙ respond-accepted 200
          (redirect_headers http patterns browser E load lock_script redirect_page domains
            self_origin location headers)
          (page (
            redirect_code http patterns browser E load lock_script redirect_page domains self_origin
              location))
          js browser.accepts_ok same
