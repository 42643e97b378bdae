-- ===== src/Fetch/Answers.antt =====
-- What a fetch leaves in the cookie store and in the pool.
use mantalon.Base.{Text, ok, Result-cases, Option-cases, ◌≡◌, refl, ap, ◌∙◌, inl, inr, codes, join}
use mantalon.Http.{Http, Request, Response, uri_host, uri_path}
use mantalon.Pool.{Net, Pool, Others, send_request}
use mantalon.Pool.Provenance.{
  IsSound, IsAnsweredBy, send_request-IsSound, send_request-IsAnsweredBy,
}
use mantalon.Cookies.{CookieCrate, CookieStore, add_cookies, store_cookies, cookie_list}
use mantalon.Fetch.{with_cookies, proxied_fetch_with_global_cookies}

module _ {http : Http} {Body Incoming : Type 0} (crate_ : CookieCrate)
    (net : Net http Body Incoming) (self_origin : Text) where
  open net use {Sender}

  uri-with_cookies :
      (store : CookieStore http crate_) (request : Request http Body)
      → (with_cookies crate_ net self_origin store request).uri ≡ request.uri
  unfolding with_cookies add_cookies
  uri-with_cookies store request = elim (Option-cases (uri_host http request.uri)) [
    | inl x ↦ rw (x, add_cookies, with_cookies) refl
    | inr (host, x) ↦
        elim (Option-cases (
          http.value_from_str (
            join
              (cookie_list http crate_ host (uri_path http request.uri) (crate_.iter store.cookies))
              (codes "; ")))) [
                | inl y ↦ rw (x, y, add_cookies, with_cookies) refl
                | inr (value, y) ↦ rw (x, y, add_cookies, with_cookies) refl
              ]
  ]

  -- With a sound pool, which the other tasks keep sound, a fetch keeps the pool sound, and if it gives a
  -- response, then over a connection that was opened for the address of the request's own URI, to which the
  -- request was sent with its cookies; the cookies of the response are then stored for that URI.
  pub proxied_fetch_with_global_cookies-IsAnsweredBy :
      (meanwhile : CookieStore http crate_ → CookieStore http crate_) (others : Others Sender)
      (request : Request http Body) (store : CookieStore http crate_) (pool : Pool Sender)
      (response : Response http Incoming)
      → IsSound net self_origin pool
      → (IsSound net self_origin pool → IsSound net self_origin (others.meanwhile pool))
      → (proxied_fetch_with_global_cookies crate_ net self_origin meanwhile others request store
          pool).2
        ≡ ok response
      → ((with_cookies crate_ net self_origin store request).uri ≡ request.uri)
        × IsAnsweredBy net self_origin (with_cookies crate_ net self_origin store request) response
        × IsSound net self_origin
            (proxied_fetch_with_global_cookies crate_ net self_origin meanwhile others request store
              pool).1
        × ((proxied_fetch_with_global_cookies crate_ net self_origin meanwhile others request store
              pool).0
            ≡ (store_cookies http crate_ request.uri response (meanwhile store)).0)
  unfolding proxied_fetch_with_global_cookies
  proxied_fetch_with_global_cookies-IsAnsweredBy meanwhile others request store pool response sound
        keep =
      let sent = with_cookies crate_ net self_origin store request in
      elim (Result-cases (send_request net self_origin others sent pool).1) [
        | inl (e, x) ↦ rw (x, proxied_fetch_with_global_cookies) (λ h. cc)
        | inr (r, x) ↦
            rw (x, proxied_fetch_with_global_cookies)
              (λ h.
                let same : r ≡ response = cc in
                (
                  uri-with_cookies store request,
                  send_request-IsAnsweredBy net self_origin others sent pool response sound (x ∙ h),
                  send_request-IsSound net self_origin others sent pool sound keep,
                  ap (λ k. (store_cookies http crate_ request.uri k (meanwhile store)).0) same,
                ))
      ]
