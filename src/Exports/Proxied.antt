-- ===== src/Exports/Proxied.antt =====
-- `proxiedFetch` behind its arguments: the choice and the use of a content edit, the request, and the
-- response that is made for the page. The objects of the browser are a parameter; `load`,
-- `lock_script` and `redirect_page` are the fetch of a replacement file and the two files of
-- mantalon-client/scripts that are compiled in.
pub mod Preparation
pub mod Requests
pub mod Redirects
pub mod Responses
pub mod Finishing
pub mod Rejections
pub mod Toy
use mathlib.Core.Option
use mantalon.Base.{
  ℕ, ◌<◌, ◌≤◌, List, [], ◌∷◌, Option, none, some, Bool, true, false, Text, Result, err, ok, codes,
  decimal, digits, eqb, length, str_replace, if◌then◌else◌, ◌≡◌, ◌⊎◌, All,
}
use mantalon.Http.{Http, Method, Request, Response, IsToken}
use mantalon.ContentEdit.{ParsedContentEdit, ParsedManifest, needs_body_response}
use mantalon.RequestEdit.{apply_on_request}
use mantalon.ResponseEdit.{apply_on_response}
use mantalon.BodyEdit.{apply_on_response_body}
use mantalon.Setup.{Patterns, get_content_edit}
use mantalon.Pool.{Net, Pool, Others, SendRequestError}
use mantalon.Cookies.{CookieCrate, CookieStore}
use mantalon.Fetch.{Chunk, read_entire_body, proxied_fetch_with_global_cookies}
use mantalon.MantalonBody.{MantalonBody, empty}
use mantalon.Exports.Inputs.{Inputs}

-- The statuses of a response that has no body.
abbrev pub IsNullBodyStatus : ℕ → Type 0
IsNullBodyStatus status =
    (status ≡ 101) ⊎ (status ≡ 103) ⊎ (status ≡ 204) ⊎ (status ≡ 205) ⊎ (status ≡ 304)

-- The `Headers` and the `Response` of the browser.
pub record Browser : Type 1 where
  pub JsHeaders : Type 0
  pub new_headers : JsHeaders
  -- `none` is an exception
  pub append : JsHeaders → (name value : Text) → Option JsHeaders
  pub get : JsHeaders → Text → Option Text
  pub set : JsHeaders → (name value : Text) → JsHeaders
  pub delete : JsHeaders → Text → JsHeaders
  pub get-set :
      (h : JsHeaders) (k v j : Text)
      → IsToken k
      → IsToken j
      → get (set h k v) j ≡ (if eqb k j then some v else get h j)
  pub get-delete :
      (h : JsHeaders) (k j : Text)
      → IsToken k
      → IsToken j
      → get (delete h k) j ≡ (if eqb k j then none else get h j)
  -- whether a `Response` with a body can have the status
  pub accepts_status : ℕ → Bool
  pub accepts_null_body : (status : ℕ) → IsNullBodyStatus status → accepts_status status ≡ false
  pub accepts_ok : accepts_status 200 ≡ true

pub data JsBody : Type 0 where
  page : Text → JsBody
  -- a stream whose `pull` goes on with these chunks
  stream : List Chunk → JsBody

pub record JsResponse (JsHeaders : Type 0) : Type 0 where
  pub status : ℕ
  pub headers : JsHeaders
  pub body : JsBody

-- Why the promise is rejected; `thrown` is an exception of the browser.
pub data FetchError (E : Type 0) : Type 0 where
  invalid_url no_content_edit_found unreadable_body thrown : FetchError E
  send_failed : SendRequestError E → FetchError E

pub data Outcome (E A : Type 0) : Type 0 where
  done : A → Outcome E A
  rejects : FetchError E → Outcome E A
  panics : Outcome E A

infixl 5 ◌>>=◌
abbrev pub ◌>>=◌ : {E A B : Type 0} → Outcome E A → (A → Outcome E B) → Outcome E B
done a >>= k = k a
rejects e >>= k = rejects e
panics >>= k = panics

abbrev pub or_reject : {E A : Type 0} → FetchError E → Option A → Outcome E A
or_reject e none = rejects e
or_reject e (some a) = done a

abbrev pub or_panic : {E A : Type 0} → Option A → Outcome E A
or_panic none = panics
or_panic (some a) = done a

module _ (http : Http) (patterns : Patterns) (E : Type 0) where
  abbrev pub Edit : Type 0
  Edit = ParsedContentEdit http patterns.UrlPattern

  abbrev pub request_of : Inputs http → http.Uri → Request http MantalonBody
  request_of inputs uri = record {
    method = inputs.method;
    uri = uri;
    headers = inputs.headers;
    body = elim inputs.body [ none ↦ empty | some body ↦ body ];
  }

  -- The host header, of the URI that was asked for.
  unfoldable pub with_host : http.Uri → Request http MantalonBody → Request http MantalonBody
  with_host uri request = elim (http.into_parts uri).authority [
    | none ↦ request
    | some authority ↦ elim (http.value_from_str (http.authority_host authority)) [
      | none ↦ request
      | some host ↦ record request {
        headers = http.insert request.headers (http.static_name (codes "host")) host;
      }
    ]
  ]

  -- From the inputs to the request that is sent, with the edit for its response: the one that is
  -- found for the request behind its own edit.
  unfoldable pub prepare :
      ParsedManifest http patterns.UrlPattern
      → Inputs http
      → Outcome E (Edit × Request http MantalonBody)
  prepare manifest inputs = do
    uri ← or_reject invalid_url (http.uri_parse inputs.url)
    (_, edit) ← or_reject no_content_edit_found (get_content_edit http patterns manifest uri)
    request ← or_panic (apply_on_request http edit (request_of inputs uri))
    (_, edit') ←
        or_reject no_content_edit_found (get_content_edit http patterns manifest request.uri)
    done (edit', with_host uri request)

module _ (http : Http) (patterns : Patterns) (browser : Browser) (E : Type 0)
    (load : Text → Option Text) (lock_script redirect_page : Text) (domains : List Text)
    (self_origin : Text) where
  open browser use {JsHeaders, new_headers, append, set, delete, accepts_status}

  -- The loop over the headers; a value that is no text is left out.
  unfoldable pub append_all :
      List (http.HeaderName × http.HeaderValue) → JsHeaders → Option JsHeaders
  append_all [] headers = some headers
  append_all ((name, value) ∷ entries) headers = elim (http.value_to_str value) [
    | none ↦ append_all entries headers
    | some text ↦ elim (append headers (http.name_as_str name) text) [
      | none ↦ none
      | some headers' ↦ append_all entries headers'
    ]
  ]

  -- The construction of the response, which reads the headers as they are by then.
  unfoldable pub respond : ℕ → JsHeaders → JsBody → Outcome E (JsResponse JsHeaders)
  respond status headers body =
      if accepts_status status
      then done (record { status = status; headers = headers; body = body })
      else rejects thrown

  abbrev pub redirect_code : Text → Text
  redirect_code location = str_replace redirect_page (codes "locationToReplace") location

  unfoldable pub redirect_headers : Text → JsHeaders → JsHeaders
  redirect_headers location headers =
      set
        (set
          (delete (set headers (codes "content-length") (decimal (length (redirect_code location))))
            (codes "location"))
          (codes "x-mantalon-location") location)
        (codes "content-type") (codes "text/html")

  -- The end of the branch that has read the body: the page, or the one that redirects by a script.
  unfoldable pub respond_page : Bool → ℕ → JsHeaders → Text → Outcome E (JsResponse JsHeaders)
  respond_page false status headers body = respond status headers (page body)
  respond_page true status headers body = elim (browser.get headers (codes "location")) [
    | none ↦ respond status headers (page body)
    | some location ↦
        respond 200 (redirect_headers location headers) (page (redirect_code location))
  ]

  -- The two branches on the body. `none` of the edit of the body would mean that a substitution does
  -- not end.
  unfoldable pub respond_read :
      ParsedContentEdit http patterns.UrlPattern
      → ℕ
      → JsHeaders
      → List Chunk
      → Outcome E (JsResponse JsHeaders)
  respond_read edit status headers chunks = do
    body ← or_reject unreadable_body (read_entire_body chunks)
    body' ← or_panic (apply_on_response_body load lock_script domains edit body)
    respond_page edit.js_redirect status headers body'

  unfoldable pub respond_edited :
      ParsedContentEdit http patterns.UrlPattern
      → ℕ
      → JsHeaders
      → List Chunk
      → Outcome E (JsResponse JsHeaders)
  respond_edited edit status headers chunks =
      if needs_body_response edit
      then respond_read edit status headers chunks
      else respond status headers (stream chunks)

  -- From the response of the site to that of the page.
  unfoldable pub finish :
      ParsedContentEdit http patterns.UrlPattern
      → Response http (List Chunk)
      → Outcome E (JsResponse JsHeaders)
  finish edit response = do
    edited ← or_panic (apply_on_response http domains self_origin edit response)
    headers ← or_reject thrown (append_all (http.iter edited.headers) new_headers)
    respond_edited edit edited.status headers edited.body

module _ {http : Http} (patterns : Patterns) (browser : Browser) (crate_ : CookieCrate)
    (net : Net http MantalonBody (List Chunk)) (self_origin : Text) (load : Text → Option Text)
    (lock_script redirect_page : Text) where
  open net use {Sender, Error}

  -- `proxiedFetch` on the inputs that it has read, with the cookie store and the pool behind it.
  unfoldable pub proxied_fetch :
      (meanwhile : CookieStore http crate_ → CookieStore http crate_)
      → Others Sender
      → ParsedManifest http patterns.UrlPattern
      → Inputs http
      → CookieStore http crate_
      → Pool Sender
      → CookieStore http crate_ × Pool Sender × Outcome Error (JsResponse browser.JsHeaders)
  proxied_fetch meanwhile others manifest inputs store pool =
      elim (prepare http patterns Error manifest inputs) [
        | rejects e ↦ (store, pool, rejects e)
        | panics ↦ (store, pool, panics)
        | done (edit, request) ↦
            let (store', pool', answer) =
              proxied_fetch_with_global_cookies crate_ net self_origin meanwhile others request
                store pool in
            elim answer [
              | err e ↦ (store', pool', rejects (send_failed e))
              | ok response ↦ (
                store',
                pool',
                finish http patterns browser Error load lock_script redirect_page manifest.domains
                    self_origin edit response,
              )
            ]
      ]
