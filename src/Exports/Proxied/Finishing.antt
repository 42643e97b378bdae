-- ===== src/Exports/Proxied/Finishing.antt =====
-- What the page gets of a response, from the response of the site on.
use mantalon.Base.{ℕ, List, Option, some, false, Text, ◌≡◌, subst, sym, ◌↔◌, inl, inr, Option-cases}
use mantalon.Http.{Http, Response}
use mantalon.ContentEdit.{ParsedContentEdit}
use mantalon.ResponseEdit.{edit_location, apply_on_response}
use mantalon.Setup.{Patterns}
use mantalon.Fetch.{Chunk}
use mantalon.Exports.Proxied.{Browser, IsNullBodyStatus, JsResponse, done, append_all, finish}
use mantalon.Exports.Proxied.Responses.{
  IsShown, streamed, read, redirected, respond_edited-IsShown, IsShown-respond_edited,
}

module _ (browser : Browser) (redirect_page : Text) (http : Http) (patterns : Patterns) (E : Type 0)
    (load : Text → Option Text) (lock_script : Text) (domains : List Text)
    (self_origin : Text) where
  open browser use {JsHeaders, new_headers, get, accepts_status}

  -- The edited response and the headers behind a response that the page gets.
  pub record IsFinished (edit : ParsedContentEdit http patterns.UrlPattern)
      (response : Response http (List Chunk)) (js : JsResponse JsHeaders) : Type 0 where
    pub edited : Response http (List Chunk)
    pub headers : JsHeaders
    pub applied : apply_on_response http domains self_origin edit response ≡ some edited
    pub listed :
        append_all http patterns browser E load lock_script redirect_page domains self_origin
          (http.iter edited.headers)
          new_headers
        ≡ some headers
    pub shown :
        IsShown browser redirect_page http patterns E load lock_script domains self_origin edit
          edited.status headers edited.body js

  finish-IsFinished :
      (edit : ParsedContentEdit http patterns.UrlPattern) (response : Response http (List Chunk))
      (js : JsResponse JsHeaders)
      → finish http patterns browser E load lock_script redirect_page domains self_origin edit
          response
        ≡ done js
      → IsFinished edit response js
  unfolding finish
  finish-IsFinished edit response js =
      elim (Option-cases (apply_on_response http domains self_origin edit response)) [
        | inl x ↦ rw (x, finish) (λ h. cc)
        | inr (edited, x) ↦
            elim (Option-cases (
              append_all http patterns browser E load lock_script redirect_page domains self_origin
                (http.iter edited.headers) new_headers)) [
                  | inl y ↦ rw (x, y, finish) (λ h. cc)
                  | inr (headers, y) ↦
                      rw (x, y, finish)
                        (λ h. record {
                          edited = edited;
                          headers = headers;
                          applied = x;
                          listed = y;
                          shown =
                              respond_edited-IsShown browser redirect_page http patterns E load
                                lock_script domains self_origin edit edited.status headers
                                edited.body js h;
                        })
                ]
      ]

  IsFinished-finish :
      (edit : ParsedContentEdit http patterns.UrlPattern) (response : Response http (List Chunk))
      (js : JsResponse JsHeaders)
      → IsFinished edit response js
      → finish http patterns browser E load lock_script redirect_page domains self_origin edit
          response
        ≡ done js
  unfolding finish
  IsFinished-finish edit response js f =
      rw (f.applied, f.listed, finish)
        (IsShown-respond_edited browser redirect_page http patterns E load lock_script domains
          self_origin edit f.edited.status f.headers f.edited.body js f.shown)

  -- A response is given to the page exactly when it is one of three, from the edited response of the site
  -- and the headers of it that are text: the chunks of the body as they come, where the edit needs no
  -- body, with the status and those headers; the whole body as the edit leaves it, with the status and
  -- those headers, each if the browser takes the status; or, for an edit with js_redirect and a
  -- response with a location, whose body can be read and edited, the redirecting page, with status
  -- 200, its own length and type, and the location in x-mantalon-location only.
  pub finish_iff :
      (edit : ParsedContentEdit http patterns.UrlPattern) (response : Response http (List Chunk))
      (js : JsResponse JsHeaders)
      → (finish http patterns browser E load lock_script redirect_page domains self_origin edit
            response
          ≡ done js)
        ↔ IsFinished edit response js
  finish_iff edit response js =
      (finish-IsFinished edit response js, IsFinished-finish edit response js)

  status-apply_on_response :
      (edit : ParsedContentEdit http patterns.UrlPattern)
      (response edited : Response http (List Chunk))
      → apply_on_response http domains self_origin edit response ≡ some edited
      → edited.status ≡ response.status
  unfolding apply_on_response
  status-apply_on_response edit response edited =
      elim (Option-cases
        (edit_location http domains self_origin edit.rewrite_location response.headers)) [
          | inl x ↦ rw (x, apply_on_response) (λ h. cc)
          | inr (headers, x) ↦ rw (x, apply_on_response) (λ h. cc)
        ]

  IsShown-null_body :
      (edit : ParsedContentEdit http patterns.UrlPattern) (status : ℕ) (headers : JsHeaders)
      (chunks : List Chunk) (js : JsResponse JsHeaders)
      → IsNullBodyStatus status
      → edit.js_redirect ≡ false
      → IsShown browser redirect_page http patterns E load lock_script domains self_origin edit
          status headers chunks js
      → ⊥
  IsShown-null_body edit status headers chunks js null kept shown =
      let refused = browser.accepts_null_body status null in
      elim shown [
        | streamed _ accepted _ ↦ cc
        | read _ _ _ _ _ _ accepted _ ↦ cc
        | redirected _ _ _ _ _ _ redirects _ _ _ ↦ cc
      ]

  -- A response with the status 101, 103, 204, 205 or 304 never reaches the page, unless the edit has
  -- js_redirect.
  pub finish-null_body :
      (edit : ParsedContentEdit http patterns.UrlPattern) (response : Response http (List Chunk))
      (js : JsResponse JsHeaders)
      → IsNullBodyStatus response.status
      → edit.js_redirect ≡ false
      → ¬ (
          finish http patterns browser E load lock_script redirect_page domains self_origin edit
            response
          ≡ done js)
  finish-null_body edit response js null kept h =
      let r = finish-IsFinished edit response js h in
      IsShown-null_body edit r.edited.status r.headers r.edited.body js
        (subst IsNullBodyStatus (sym (status-apply_on_response edit response r.edited r.applied))
          null)
        kept r.shown
