-- ===== src/Fetch/Session.antt =====
-- Two fetches in a row, on one cookie store.
use mantalon.Base.{Text, [], ◌∷◌, some, true, ok, codes, join, Result-cases, ◌≡◌, ap, ◌∙◌, inl, inr}
use mantalon.Http.{Http, Request, Response, uri_host, uri_path}
use mantalon.Pool.{Net, Pool, Others, send_request}
use mantalon.Cookies.{
  CookieCrate, CookieStore, IsIn, is_for_host, is_for_path, store_cookies, cookie_list,
}
use mantalon.Cookies.Session.{Sets, store_cookies-Sets, add_cookies-IsIn}
use mantalon.Fetch.{with_cookies, proxied_fetch_with_global_cookies}

module _ {http : Http} {Body Incoming : Type 0} (crate_ : CookieCrate)
    (net : Net http Body Incoming) (self_origin : Text) where
  open net use {Sender}

  store-proxied_fetch :
      (meanwhile : CookieStore http crate_ → CookieStore http crate_) (others : Others Sender)
      (request : Request http Body) (store : CookieStore http crate_) (pool : Pool Sender)
      (response : Response http Incoming)
      → (proxied_fetch_with_global_cookies crate_ net self_origin meanwhile others request store
          pool).2
        ≡ ok response
      → (proxied_fetch_with_global_cookies crate_ net self_origin meanwhile others request store
          pool).0
        ≡ (store_cookies http crate_ request.uri response (meanwhile store)).0
  unfolding proxied_fetch_with_global_cookies
  store-proxied_fetch meanwhile others request store pool response =
      let sent = with_cookies crate_ net self_origin store request in
      elim (Result-cases (send_request net self_origin others sent pool).1) [
        | inl (e, x) ↦ rw (x, proxied_fetch_with_global_cookies) (λ h. cc)
        | inr (r, x) ↦
            rw (x, proxied_fetch_with_global_cookies)
              (λ h.
                let same : r ≡ response = cc in
                ap (λ k. (store_cookies http crate_ request.uri k (meanwhile store)).0) same)
      ]

  -- A cookie that the response of a fetch sets for its host, and that no later header of it sets again,
  -- goes with every later fetch whose host and path it is for, whatever its other attributes: the
  -- request has one cookie header, whose list has the cookie in it. The conditions are that other
  -- tasks leave the cookie as it is until then, and that the list makes a header value.
  pub with_cookies-Sets :
      (meanwhile : CookieStore http crate_ → CookieStore http crate_) (others : Others Sender)
      (request next : Request http Body) (store later : CookieStore http crate_)
      (pool : Pool Sender) (response : Response http Incoming) (host host' : Text)
      (cookie : crate_.Cookie) (header : http.HeaderValue)
      → (proxied_fetch_with_global_cookies crate_ net self_origin meanwhile others request store
          pool).2
        ≡ ok response
      → uri_host http request.uri ≡ some host
      → Sets http crate_ host response cookie
      → crate_.get later.cookies (crate_.name cookie)
        ≡ crate_.get
            (proxied_fetch_with_global_cookies crate_ net self_origin meanwhile others request store
              pool).0.cookies
            (crate_.name cookie)
      → uri_host http next.uri ≡ some host'
      → is_for_host http crate_ host' cookie ≡ true
      → is_for_path http crate_ (uri_path http next.uri) cookie ≡ true
      → http.value_from_str (
          join
            (cookie_list http crate_ host' (uri_path http next.uri) (crate_.iter later.cookies))
            (codes "; "))
        ≡ some header
      → (http.get_all
            (with_cookies crate_ net self_origin later next).headers
            (http.static_name (codes "cookie"))
          ≡ header ∷ [])
        × IsIn
            (crate_.stripped_encoded cookie)
            (cookie_list http crate_ host' (uri_path http next.uri) (crate_.iter later.cookies))
  unfolding with_cookies
  with_cookies-Sets meanwhile others request next store later pool response host host' cookie header
        answered has_host sets left has_host' hosted pathed is_value =
      let stored = store-proxied_fetch meanwhile others request store pool response answered in
      let held =
        left
        ∙ ap (λ (s : CookieStore http crate_). crate_.get s.cookies (crate_.name cookie)) stored
        ∙ store_cookies-Sets http crate_ request.uri host response (meanwhile store) cookie has_host
            sets in
      let (sent, (added, header_is, listed)) =
        add_cookies-IsIn http crate_ later next host' header cookie has_host' is_value held hosted
          pathed in
      (rw (added, with_cookies) header_is, listed)
