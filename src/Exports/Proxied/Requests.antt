-- ===== src/Exports/Proxied/Requests.antt =====
-- What `proxiedFetch` sends, and when it sends nothing.
use mantalon.Base.{
  List, Option, none, some, Text, ◌≡◌, refl, ◌⊎◌, inl, inr, Option-cases, Result-cases,
}
use mantalon.Http.{Http, Request, Response}
use mantalon.ContentEdit.{ParsedManifest}
use mantalon.Setup.{Patterns, get_content_edit}
use mantalon.Pool.{Net, Pool, Others}
use mantalon.Pool.Provenance.{IsSound, IsAnsweredBy}
use mantalon.Cookies.{CookieCrate, CookieStore, store_cookies}
use mantalon.Fetch.{Chunk, with_cookies, proxied_fetch_with_global_cookies}
use mantalon.Fetch.Answers.{proxied_fetch_with_global_cookies-IsAnsweredBy}
use mantalon.MantalonBody.{MantalonBody}
use mantalon.Exports.Inputs.{Inputs}
use mantalon.Exports.Proxied.{
  Browser, JsResponse, FetchError, invalid_url, no_content_edit_found, done, rejects, Edit, prepare,
  finish, proxied_fetch,
}
use mantalon.Exports.Proxied.Preparation.{IsPrepared, prepare-IsPrepared, Outcome-cases}

module _ {http : Http} (patterns : Patterns) (browser : Browser) (crate_ : CookieCrate)
    (net : Net http MantalonBody (List Chunk)) (self_origin : Text) (load : Text → Option Text)
    (lock_script redirect_page : Text) where
  open net use {Sender, Error}

  -- What stands behind a response that the page gets.
  pub record IsResolved (meanwhile : CookieStore http crate_ → CookieStore http crate_)
      (others : Others Sender) (manifest : ParsedManifest http patterns.UrlPattern)
      (inputs : Inputs http) (store : CookieStore http crate_) (pool : Pool Sender)
      (js : JsResponse browser.JsHeaders) : Type 0 where
    pub edit : Edit http patterns Error
    pub sent : Request http MantalonBody
    pub response : Response http (List Chunk)
    pub prepared : IsPrepared http patterns Error manifest inputs edit sent
    pub answered :
        IsAnsweredBy net self_origin (with_cookies crate_ net self_origin store sent) response
    pub finished :
        finish http patterns browser Error load lock_script redirect_page manifest.domains
          self_origin edit response
        ≡ done js
    pub stored :
        (proxied_fetch patterns browser crate_ net self_origin load lock_script redirect_page
          meanwhile others manifest inputs store pool).0
        ≡ (store_cookies http crate_ sent.uri response (meanwhile store)).0
    pub sound :
        IsSound net self_origin
          (proxied_fetch patterns browser crate_ net self_origin load lock_script redirect_page
            meanwhile others manifest inputs store pool).1

  -- With a sound pool, which the other tasks keep sound: a response that the page gets stands for
  -- a request to a URL that an edit of the manifest matches, behind that edit, which again an edit matches;
  -- with the host of the URL in its host header where that is a header value; answered over a
  -- connection that was opened for the address of the request, with its cookies; the page gets what
  -- the second edit makes of the response, whose cookies are stored, and the pool is sound.
  pub proxied_fetch-IsResolved :
      (meanwhile : CookieStore http crate_ → CookieStore http crate_) (others : Others Sender)
      (manifest : ParsedManifest http patterns.UrlPattern) (inputs : Inputs http)
      (store : CookieStore http crate_) (pool : Pool Sender) (js : JsResponse browser.JsHeaders)
      → IsSound net self_origin pool
      → (IsSound net self_origin pool → IsSound net self_origin (others.meanwhile pool))
      → (proxied_fetch patterns browser crate_ net self_origin load lock_script redirect_page
          meanwhile others manifest inputs store pool).2
        ≡ done js
      → IsResolved meanwhile others manifest inputs store pool js
  unfolding proxied_fetch
  proxied_fetch-IsResolved meanwhile others manifest inputs store pool js sound keep =
      elim (Outcome-cases (prepare http patterns Error manifest inputs)) [
        | inl ((edit, sent), x) ↦
            elim (Result-cases
              (proxied_fetch_with_global_cookies crate_ net self_origin meanwhile others sent store
                pool).2) [
                  | inl (e, y) ↦ rw (x, y, proxied_fetch) (λ h. cc)
                  | inr (response, y) ↦
                      let (same, answered, sound', stored) =
                        proxied_fetch_with_global_cookies-IsAnsweredBy crate_ net self_origin
                          meanwhile others sent store pool response sound keep y in
                      rw (x, y, proxied_fetch)
                        (λ h. record {
                          edit = edit;
                          sent = sent;
                          response = response;
                          prepared =
                              prepare-IsPrepared http patterns Error manifest inputs edit sent x;
                          answered = answered;
                          finished = h;
                          stored = rw (x, y, proxied_fetch) stored;
                          sound = rw (x, y, proxied_fetch) sound';
                        })
                ]
        | inr (inl x) ↦ rw (x, proxied_fetch) (λ h. cc)
        | inr (inr (e, x)) ↦ rw (x, proxied_fetch) (λ h. cc)
      ]

  -- A URL that is none, or that no edit of the manifest matches, is refused: no request is sent, and the store and the
  -- pool are as they were.
  proxied_fetch-unmatched :
      (meanwhile : CookieStore http crate_ → CookieStore http crate_) (others : Others Sender)
      (manifest : ParsedManifest http patterns.UrlPattern) (inputs : Inputs http)
      (store : CookieStore http crate_) (pool : Pool Sender)
      → ((uri : http.Uri)
          → http.uri_parse inputs.url ≡ some uri
          → get_content_edit http patterns manifest uri ≡ none)
      → (e : FetchError Error) × (((e ≡ invalid_url) ⊎ (e ≡ no_content_edit_found))
          × (proxied_fetch patterns browser crate_ net self_origin load lock_script redirect_page
                meanwhile others manifest inputs store pool
              ≡ (store, pool, rejects e)))
  unfolding proxied_fetch prepare
  proxied_fetch-unmatched meanwhile others manifest inputs store pool unmatched =
      elim (Option-cases (http.uri_parse inputs.url)) [
        | inl x ↦ (invalid_url, (inl refl, rw (x, proxied_fetch, prepare) refl))
        | inr (uri, x) ↦ (
          no_content_edit_found,
          (inr refl, rw (x, unmatched uri x, proxied_fetch, prepare) refl),
        )
      ]
