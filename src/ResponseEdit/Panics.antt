-- ===== src/ResponseEdit/Panics.antt =====
-- When `apply_on_response` panics, and when it leaves the location as it is.
use mantalon.Base.{
  ◌⊎◌, List, ◌≡◌, refl, none, some, Bool, true, false, Text, Option-cases, Bool-cases, ◌↔◌, inl,
  inr,
}
use mantalon.Http.{Http, Response}
use mantalon.ContentEdit.{ParsedContentEdit}
use mantalon.Headers.{edit_headers}
use mantalon.ResponseEdit.{
  self_scheme, self_authority, location_of, is_proxied, redirect_to_self, edit_location,
  apply_on_response,
}
use mantalon.ResponseEdit.Laws.{edit_location-redirected, apply_on_response-IsRedirected}

module _ (http : Http) (self_origin : Text) where
  open http use {into_parts, from_parts_no_path}

  redirect_to_self_panics :
      (location : http.Uri) (headers : http.HeaderMap)
      → (into_parts location).path_and_query ≡ none
      → redirect_to_self http self_origin location headers ≡ none
  unfolding redirect_to_self
  redirect_to_self_panics location headers ep =
      elim (Option-cases (self_authority http self_origin)) [
        | inl e ↦ rw e refl
        | inr (a, e) ↦ rw (e, ep, from_parts_no_path (self_scheme http self_origin) (some a)) refl
      ]

module _ (http : Http) (domains : List Text) (self_origin : Text) where
  edit_location-kept :
      (on : Bool) (headers : http.HeaderMap)
      → ((on ≡ false)
          ⊎ (location_of http headers ≡ none)
          ⊎ ((location : http.Uri) × (location_of http headers ≡ some location)
              × (is_proxied http domains location ≡ false)))
      → edit_location http domains self_origin on headers ≡ some headers
  unfolding edit_location
  edit_location-kept false headers h = refl
  edit_location-kept true headers (inl e) = cc
  edit_location-kept true headers (inr (inl e)) = rw (e, edit_location) refl
  edit_location-kept true headers (inr (inr (location, e, d))) = rw (e, edit_location) (rw d refl)

  -- When rewriting is off, or the location header is missing or no URI, or its host is not a
  -- proxied domain, `apply_on_response` only edits the headers.
  apply_on_response-kept :
      {Body UrlPattern : Type 0} (e : ParsedContentEdit http UrlPattern)
      (response : Response http Body)
      → ((e.rewrite_location ≡ false)
          ⊎ (location_of http response.headers ≡ none)
          ⊎ ((location : http.Uri) × (location_of http response.headers ≡ some location)
              × (is_proxied http domains location ≡ false)))
      → apply_on_response http domains self_origin e response
        ≡ some (record response {
          headers =
              edit_headers http e.remove_headers e.insert_headers e.append_headers e.rename_headers
                response.headers;
        })
  unfolding apply_on_response
  apply_on_response-kept e response h =
      rw (edit_location-kept e.rewrite_location response.headers h) refl

  apply_on_response_panics :
      {Body UrlPattern : Type 0} (e : ParsedContentEdit http UrlPattern)
      (response : Response http Body) (location : http.Uri)
      → e.rewrite_location ≡ true
      → location_of http response.headers ≡ some location
      → is_proxied http domains location ≡ true
      → (http.into_parts location).path_and_query ≡ none
      → apply_on_response http domains self_origin e response ≡ none
  unfolding apply_on_response
  apply_on_response_panics e response location on found proxied path =
      rw
        (
          on,
          edit_location-redirected http domains self_origin location response.headers found proxied,
          redirect_to_self_panics http self_origin location response.headers path,
        )
        refl

  -- The location is to be rewritten, but has no path.
  abbrev pub HasNoPath : {Body : Type 0} → Bool → Response http Body → Type 0
  HasNoPath on response =
      (on ≡ true)
      × ((location : http.Uri) × (location_of http response.headers ≡ some location)
          × (is_proxied http domains location ≡ true)
          × ((http.into_parts location).path_and_query ≡ none))

  -- Where the proxy's own origin has an authority, `apply_on_response` panics exactly when it rewrites
  -- locations and the location header is a URI whose host is a proxied domain and which has no
  -- path, so is only a host.
  pub apply_on_response_panics_iff :
      {Body UrlPattern : Type 0} (e : ParsedContentEdit http UrlPattern)
      (response : Response http Body) (a : http.Authority)
      → self_authority http self_origin ≡ some a
      → (apply_on_response http domains self_origin e response ≡ none)
        ↔ HasNoPath e.rewrite_location response
  apply_on_response_panics_iff e response a self =
      let kept = apply_on_response-kept e response in
      (
        λ h. elim (Bool-cases e.rewrite_location) [
          | inr off ↦ let stays = kept (inl off) in cc
          | inl on ↦ elim (Option-cases (location_of http response.headers)) [
            | inl none_ ↦ let stays = kept (inr (inl none_)) in cc
            | inr (location, found) ↦ elim (Bool-cases (is_proxied http domains location)) [
              | inr other ↦ let stays = kept (inr (inr (location, found, other))) in cc
              | inl proxied ↦ elim (Option-cases (http.into_parts location).path_and_query) [
                | inl path ↦ (on, (location, found, proxied, path))
                | inr (p, path) ↦
                    let (r, after, total, redirected, headers, status, body) =
                      apply_on_response-IsRedirected http domains self_origin e response location a
                        p on found proxied self path in
                    cc
              ]
            ]
          ]
        ],
        λ (on, (location, found, proxied, path)).
            apply_on_response_panics e response location on found proxied path,
      )
