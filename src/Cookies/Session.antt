-- ===== src/Cookies/Session.antt =====
-- A cookie of a response, and the requests that follow.
use mantalon.Base.{
  List, [], ◌∷◌, ◌++◌, some, Bool, true, false, Text, ok, codes, join, eqb, eqb_refl, All, ◌≡◌,
  refl, ◌∙◌, Option-cases, inl, inr,
}
use mantalon.Http.{Http, Request, Response, uri_host, uri_path}
use mantalon.Cookies.{
  CookieCrate, CookieStore, IsIn, is_for_host, is_for_path, accepted, store_all, store_cookies,
  cookie_list, add_cookies,
}
use mantalon.Cookies.Sending.{IsSent, add_cookies_lem}

module _ (http : Http) (crate_ : CookieCrate) where
  open crate_ use {Cookie, CookieJar, get, name, add}

  -- None of the headers sets a cookie of this name.
  abbrev pub Leaves : Text → Text → List http.HeaderValue → Type 0
  Leaves host n =
      All
        (λ value. (c : Cookie) → accepted http crate_ host value ≡ some c → eqb (name c) n ≡ false)

  store_all-Leaves :
      (host n : Text) (values : List http.HeaderValue) (changed : Bool) (jar : CookieJar)
      → Leaves host n values
      → get (store_all http crate_ host values changed jar).0 n ≡ get jar n
  unfolding store_all
  store_all-Leaves host n [] changed jar h = refl
  store_all-Leaves host n (value ∷ values) changed jar (h, hs) =
      elim (Option-cases (accepted http crate_ host value)) [
        | inl x ↦ rw (x, store_all) (store_all-Leaves host n values changed jar hs)
        | inr (c, x) ↦
            rw (x, store_all)
              (store_all-Leaves host n values true (add jar c) hs
                ∙ crate_.get-add jar c n
                ∙ rw (h c x) refl)
      ]

  -- The last header that sets a cookie of a name decides.
  store_all-last :
      (host : Text) (before after : List http.HeaderValue) (value : http.HeaderValue)
      (cookie : Cookie) (changed : Bool) (jar : CookieJar)
      → accepted http crate_ host value ≡ some cookie
      → Leaves host (name cookie) after
      → get (store_all http crate_ host (before ++ value ∷ after) changed jar).0 (name cookie)
        ≡ some cookie
  unfolding store_all
  store_all-last host [] after value cookie changed jar x h =
      rw (x, store_all)
        (store_all-Leaves host (name cookie) after true (add jar cookie) h
          ∙ crate_.get-add jar cookie (name cookie)
          ∙ rw (eqb_refl (name cookie)) refl)
  store_all-last host (v ∷ before) after value cookie changed jar x h =
      elim (Option-cases (accepted http crate_ host v)) [
        | inl y ↦ rw (y, store_all) (store_all-last host before after value cookie changed jar x h)
        | inr (c, y) ↦
            rw (y, store_all) (store_all-last host before after value cookie true (add jar c) x h)
      ]

  accepted_lem :
      (host text : Text) (value : http.HeaderValue) (cookie : Cookie)
      → http.value_to_str value ≡ some text
      → crate_.parse_encoded text ≡ some cookie
      → is_for_host http crate_ host cookie ≡ true
      → accepted http crate_ host value ≡ some cookie
  unfolding accepted
  accepted_lem host text value cookie read parsed hosted = rw (read, parsed, hosted, accepted) refl

  -- A `set-cookie` header of a response to a host that is a text, is this cookie, and is for the host;
  -- no later one sets a cookie of its name.
  pub record Sets (host : Text) {Body : Type 0} (response : Response http Body) (cookie : Cookie)
      : Type 0 where
    pub before : List http.HeaderValue
    pub value : http.HeaderValue
    pub after : List http.HeaderValue
    pub text : Text
    pub listed :
        http.get_all response.headers (http.static_name (codes "set-cookie"))
        ≡ before ++ value ∷ after
    pub read : http.value_to_str value ≡ some text
    pub parsed : crate_.parse_encoded text ≡ some cookie
    pub hosted : is_for_host http crate_ host cookie ≡ true
    pub last : Leaves host (name cookie) after

  pub store_cookies-Sets :
      {Body : Type 0} (uri : http.Uri) (host : Text) (response : Response http Body)
      (store : CookieStore http crate_) (cookie : Cookie)
      → uri_host http uri ≡ some host
      → Sets host response cookie
      → get (store_cookies http crate_ uri response store).0.cookies (name cookie) ≡ some cookie
  unfolding store_cookies
  store_cookies-Sets uri host response store cookie has_host s =
      rw (has_host, s.listed, store_cookies)
        (store_all-last host s.before s.after s.value cookie false store.cookies
          (accepted_lem host s.text s.value cookie s.read s.parsed s.hosted) s.last)

  -- A cookie of the jar that is for the host and the path of a request is in the list that
  -- `add_cookies` makes, and the list is the one cookie header.
  pub add_cookies-IsIn :
      {Body : Type 0} (store : CookieStore http crate_) (request : Request http Body) (host : Text)
      (header : http.HeaderValue) (cookie : Cookie)
      → uri_host http request.uri ≡ some host
      → http.value_from_str (
          join
            (cookie_list http crate_ host (uri_path http request.uri) (crate_.iter store.cookies))
            (codes "; "))
        ≡ some header
      → get store.cookies (name cookie) ≡ some cookie
      → is_for_host http crate_ host cookie ≡ true
      → is_for_path http crate_ (uri_path http request.uri) cookie ≡ true
      → (sent : Request http Body) × ((add_cookies http crate_ store request ≡ ok sent)
          × (http.get_all sent.headers (http.static_name (codes "cookie")) ≡ header ∷ [])
          × IsIn (crate_.stripped_encoded cookie) (
              cookie_list http crate_ host (uri_path http request.uri) (crate_.iter store.cookies)))
  unfolding IsSent
  add_cookies-IsIn store request host header cookie has_host is_value held hosted pathed =
      let (sent, (added, same, headers, listed)) =
        add_cookies_lem http crate_ store request host header has_host is_value in
      let key = http.static_name (codes "cookie") in
      (
        sent,
        (
          added,
          headers key ∙ rw ((http.name_eq_iff key key).1 refl) refl,
          (listed (crate_.stripped_encoded cookie)).1 (cookie, (held, (hosted, pathed, refl))),
        ),
      )
