-- ===== src/Iteration.antt =====
-- The order in which the maps and sets of an edit are iterated, which the program cannot choose, in
-- `ParsedContentEdit::apply_on_request` and `apply_on_response` of mantalon-client/src/manifest.rs.
use mathlib.Core.Option
use mantalon.Base.{ℕ, List, Option, none, some, Text, ◌≡◌, refl, ap, fun_ext}
use mantalon.Http.{Http, Method, Request, Response}
use mantalon.ContentEdit.{ParsedContentEdit}
use mantalon.Headers.{edit_headers}
use mantalon.Headers.Orders.{SameEdits, edit_headers-same}
use mantalon.RequestEdit.{overridden, force_https, apply_on_request}
use mantalon.ResponseEdit.{edit_location, apply_on_response}

module _ (http : Http) {UrlPattern : Type 0} where
  -- Two edits that are equal, in the fields that both functions read, but for the order in which their
  -- maps and sets are iterated, and in which no renames run into one another.
  pub record SameEdit (e e' : ParsedContentEdit http UrlPattern) : Type 0 where
    pub https_only : e.https_only ≡ e'.https_only
    pub override_uri : e.override_uri ≡ e'.override_uri
    pub rewrite_location : e.rewrite_location ≡ e'.rewrite_location
    pub request :
        SameEdits http e.remove_request_headers e'.remove_request_headers e.insert_request_headers
          e'.insert_request_headers e.append_request_headers e'.append_request_headers
          e.rename_request_headers e'.rename_request_headers
    pub response :
        SameEdits http e.remove_headers e'.remove_headers e.insert_headers e'.insert_headers
          e.append_headers e'.append_headers e.rename_headers e'.rename_headers

module _ (http : Http) (Body : Type 0) where
  -- What can be seen of a request and of a response: the headers by their names.
  abbrev pub Seen : Type 0 → Type 0
  Seen A = Option (A × (http.HeaderName → List http.HeaderValue) × Body)

  abbrev pub see_request : Option (Request http Body) → Seen (Method × http.Uri)
  see_request = Option.map (λ r. ((r.method, r.uri), http.get_all r.headers, r.body))

  abbrev pub see_response : Option (Response http Body) → Seen ℕ
  see_response = Option.map (λ r. (r.status, http.get_all r.headers, r.body))

module _ (http : Http) {UrlPattern : Type 0} (e e' : ParsedContentEdit http UrlPattern)
    (same : SameEdit http e e') where
  request_headers :
      (m : http.HeaderMap)
      → http.get_all (
          edit_headers http e.remove_request_headers e.insert_request_headers
            e.append_request_headers e.rename_request_headers m)
        ≡ http.get_all (
            edit_headers http e'.remove_request_headers e'.insert_request_headers
              e'.append_request_headers e'.rename_request_headers m)
  request_headers m = fun_ext (edit_headers-same http _ _ _ _ _ _ _ _ m same.request)

  response_headers :
      (m : http.HeaderMap)
      → http.get_all
          (edit_headers http e.remove_headers e.insert_headers e.append_headers e.rename_headers m)
        ≡ http.get_all (
            edit_headers http e'.remove_headers e'.insert_headers e'.append_headers
              e'.rename_headers m)
  response_headers m = fun_ext (edit_headers-same http _ _ _ _ _ _ _ _ m same.response)

module _ (http : Http) {UrlPattern Body : Type 0} (e e' : ParsedContentEdit http UrlPattern)
    (same : SameEdit http e e') where
  -- The same edit of the headers, of a request whose URI has been made or of a response.
  edited_request :
      (request : Request http Body) (uri : Option http.Uri)
      → see_request http Body (
          Option.map
            (λ u. record request {
              uri = u;
              headers =
                  edit_headers http e.remove_request_headers e.insert_request_headers
                    e.append_request_headers e.rename_request_headers request.headers;
            })
            uri)
        ≡ see_request http Body (
            Option.map
              (λ u. record request {
                uri = u;
                headers =
                    edit_headers http e'.remove_request_headers e'.insert_request_headers
                      e'.append_request_headers e'.rename_request_headers request.headers;
              })
              uri)
  edited_request request none = refl
  edited_request request (some uri) =
      ap
        (λ (view : http.HeaderName → List http.HeaderValue).
          some ((request.method, uri), view, request.body))
        (request_headers http e e' same request.headers)

  edited_response :
      (response : Response http Body) (headers : Option http.HeaderMap)
      → see_response http Body (
          Option.map
            (λ m. record response {
              headers =
                  edit_headers http e.remove_headers e.insert_headers e.append_headers
                    e.rename_headers m;
            })
            headers)
        ≡ see_response http Body (
            Option.map
              (λ m. record response {
                headers =
                    edit_headers http e'.remove_headers e'.insert_headers e'.append_headers
                      e'.rename_headers m;
              })
              headers)
  edited_response response none = refl
  edited_response response (some m) =
      ap
        (λ (view : http.HeaderName → List http.HeaderValue).
          some (response.status, view, response.body))
        (response_headers http e e' same m)

  pub apply_on_request-same :
      (request : Request http Body)
      → see_request http Body (apply_on_request http e request)
        ≡ see_request http Body (apply_on_request http e' request)
  unfolding apply_on_request overridden
  apply_on_request-same request =
      rw (same.https_only, same.override_uri, apply_on_request)
        (edited_request request
          (force_https http e'.https_only (overridden http e'.override_uri request.uri)))

  apply_on_response-same :
      (domains : List Text) (self_origin : Text) (response : Response http Body)
      → see_response http Body (apply_on_response http domains self_origin e response)
        ≡ see_response http Body (apply_on_response http domains self_origin e' response)
  unfolding apply_on_response
  apply_on_response-same domains self_origin response =
      rw (same.rewrite_location, apply_on_response)
        (edited_response response
          (edit_location http domains self_origin e'.rewrite_location response.headers))

  -- What an edit makes of a request and of a response does not depend on the order in which its maps
  -- and sets are iterated, as long as no renames run into one another: two edits that are equal but
  -- for that order either both panic, or leave the same method, URI, status and body and the same
  -- values under each header.
  pub edits-same :
      (request : Request http Body) (domains : List Text) (self_origin : Text)
      (response : Response http Body)
      → (see_request http Body (apply_on_request http e request)
          ≡ see_request http Body (apply_on_request http e' request))
        × (see_response http Body (apply_on_response http domains self_origin e response)
            ≡ see_response http Body (apply_on_response http domains self_origin e' response))
  edits-same request domains self_origin response =
      (apply_on_request-same request, apply_on_response-same domains self_origin response)
