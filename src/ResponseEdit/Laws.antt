-- ===== src/ResponseEdit/Laws.antt =====
-- What `apply_on_response` does to the headers of a response.
use mantalon.Base.{List, [], ◌∷◌, ◌≡◌, ◌≢◌, refl, some, true, Text, codes, arith, sym, ◌∙◌, ap}
use mantalon.Http.{Http, Response, Parts}
use mantalon.ContentEdit.{ParsedContentEdit}
use mantalon.Headers.{edit_headers}
use mantalon.ResponseEdit.{
  self_scheme, self_authority, location_of, is_proxied, set_location, redirect_to_self,
  edit_location, apply_on_response,
}

module _ (http : Http) (self_origin : Text) where
  open http use {
    HeaderMap, Uri, insert, static_name, value_from_str, uri_to_string, into_parts, from_parts,
    get_all, name_eq, name_eq_iff, name_as_str, name_as_str-static_name, get_all-insert,
    from_parts_total, into_parts-from_parts, value_from_uri,
  }

  -- A redirection inside the proxied domains, as it leaves the proxy.
  pub record IsRedirected (location : Uri) (before after : HeaderMap) : Type 0 where
    pub target : Uri
    pub scheme : (into_parts target).scheme ≡ some (self_scheme http self_origin)
    pub authority : (into_parts target).authority ≡ self_authority http self_origin
    pub path_and_query : (into_parts target).path_and_query ≡ (into_parts location).path_and_query
    pub rewritten : http.HeaderValue
    pub rewritten_text : value_from_str (uri_to_string target) ≡ some rewritten
    pub original : http.HeaderValue
    pub original_text : value_from_str (uri_to_string location) ≡ some original
    pub at_location : get_all after (static_name (codes "location")) ≡ rewritten ∷ []
    pub at_original : get_all after (static_name (codes "x-mantalon-location")) ≡ original ∷ []
    pub elsewhere :
        (j : http.HeaderName)
        → j ≢ static_name (codes "location")
        → j ≢ static_name (codes "x-mantalon-location")
        → get_all after j ≡ get_all before j

  names_differ : static_name (codes "x-mantalon-location") ≢ static_name (codes "location")
  names_differ e =
      let texts : codes "x-mantalon-location" ≡ codes "location" =
        sym (name_as_str-static_name (codes "x-mantalon-location") (omega arith))
        ∙ ap name_as_str e
        ∙ name_as_str-static_name (codes "location") (omega arith) in
      cc

  get_all-set_location :
      (headers : HeaderMap) (v w : http.HeaderValue)
      → (get_all (set_location http self_origin headers v w) (static_name (codes "location"))
          ≡ v ∷ [])
        × (get_all
              (set_location http self_origin headers v w)
              (static_name (codes "x-mantalon-location"))
            ≡ w ∷ [])
  get_all-set_location headers v w =
      let location = static_name (codes "location") in
      let original = static_name (codes "x-mantalon-location") in
      (
        ground (
          arith,
          get_all-insert (insert headers location v) original w location,
          get_all-insert headers location v location,
          name_eq_iff original location,
          name_eq_iff location location,
          names_differ,
        ),
        ground (
          arith,
          get_all-insert (insert headers location v) original w original,
          name_eq_iff original original,
        ),
      )

  get_all-set_location_other :
      (headers : HeaderMap) (v w : http.HeaderValue) (j : http.HeaderName)
      → j ≢ static_name (codes "location")
      → j ≢ static_name (codes "x-mantalon-location")
      → get_all (set_location http self_origin headers v w) j ≡ get_all headers j
  get_all-set_location_other headers v w j a b =
      let location = static_name (codes "location") in
      let original = static_name (codes "x-mantalon-location") in
      ground (
        arith,
        get_all-insert (insert headers location v) original w j,
        get_all-insert headers location v j,
        name_eq_iff original j,
        name_eq_iff location j,
      )

  redirect_to_self-IsRedirected :
      (location : Uri) (headers : HeaderMap) (a : http.Authority) (p : http.PathAndQuery)
      → self_authority http self_origin ≡ some a
      → (into_parts location).path_and_query ≡ some p
      → (after : HeaderMap) × (redirect_to_self http self_origin location headers ≡ some after)
        × IsRedirected location headers after
  unfolding redirect_to_self
  redirect_to_self-IsRedirected location headers a p ea ep =
      let (target, made) = from_parts_total (self_scheme http self_origin) a p in
      let parts = into_parts-from_parts _ target made in
      let (rewritten, rewritten_text) = value_from_uri target in
      let (original, original_text) = value_from_uri location in
      (
        set_location http self_origin headers rewritten original,
        rw (ea, ep, made, rewritten_text, original_text) refl,
        record {
          target = target;
          scheme = ap (λ (q : Parts http.Scheme http.Authority http.PathAndQuery). q.scheme) parts;
          authority =
              ap (λ (q : Parts http.Scheme http.Authority http.PathAndQuery). q.authority) parts
              ∙ sym ea;
          path_and_query =
              ap (λ (q : Parts http.Scheme http.Authority http.PathAndQuery). q.path_and_query)
                parts
              ∙ sym ep;
          rewritten = rewritten;
          rewritten_text = rewritten_text;
          original = original;
          original_text = original_text;
          at_location = (get_all-set_location headers rewritten original).0;
          at_original = (get_all-set_location headers rewritten original).1;
          elsewhere = get_all-set_location_other headers rewritten original;
        },
      )

module _ (http : Http) (domains : List Text) (self_origin : Text) where
  pub edit_location-redirected :
      (location : http.Uri) (headers : http.HeaderMap)
      → location_of http headers ≡ some location
      → is_proxied http domains location ≡ true
      → edit_location http domains self_origin true headers
        ≡ redirect_to_self http self_origin location headers
  unfolding edit_location
  edit_location-redirected location headers e d = rw (e, edit_location) (rw d refl)

  -- Rewriting is on, the location header is a URI whose host is a proxied domain, with a path, and
  -- the proxy's own origin has an authority. Then `apply_on_response` does not panic: before its
  -- header edits the location is the URI with the proxy's scheme and authority and the path of the
  -- location, the old location stands under x-mantalon-location, and no other header has changed;
  -- the status and the body are the response's.
  pub apply_on_response-IsRedirected :
      {Body UrlPattern : Type 0} (e : ParsedContentEdit http UrlPattern)
      (response : Response http Body) (location : http.Uri) (a : http.Authority)
      (p : http.PathAndQuery)
      → e.rewrite_location ≡ true
      → location_of http response.headers ≡ some location
      → is_proxied http domains location ≡ true
      → self_authority http self_origin ≡ some a
      → (http.into_parts location).path_and_query ≡ some p
      → (r : Response http Body) × (after : http.HeaderMap) × (apply_on_response http domains
            self_origin e response
          ≡ some r)
        × IsRedirected http self_origin location response.headers after
        × (r.headers
            ≡ edit_headers http e.remove_headers e.insert_headers e.append_headers e.rename_headers
                after)
        × (r.status ≡ response.status)
        × (r.body ≡ response.body)
  unfolding apply_on_response
  apply_on_response-IsRedirected e response location a p on found proxied self path =
      let (after, made, redirected) =
        redirect_to_self-IsRedirected http self_origin location response.headers a p self path in
      (
        _,
        after,
        rw (on, edit_location-redirected location response.headers found proxied, made) refl,
        redirected,
        refl,
        refl,
        refl,
      )
