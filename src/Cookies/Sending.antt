-- ===== src/Cookies/Sending.antt =====
-- Which cookies a request carries.
use mantalon.Base.{
  List, [], ◌∷◌, some, true, Text, ok, codes, join, if◌then◌else◌, ◌≡◌, refl, ap, ◌∙◌, ◌↔◌,
  Bool-cases, inl, inr,
}
use mantalon.Http.{Http, Request, uri_host, uri_path}
use mantalon.Cookies.{
  CookieCrate, CookieStore, IsIn, is_for_host, is_for_path, cookie_list, add_cookies,
}

module _ (http : Http) (crate_ : CookieCrate) where
  open crate_ use {Cookie, get, name, iter}

  -- A cookie that is for the host and the path, and is printed like this.
  unfoldable pub IsSent : Text → Text → Cookie → Text → Type 0
  IsSent host path cookie text =
      (is_for_host http crate_ host cookie ≡ true)
      × (is_for_path http crate_ path cookie ≡ true)
      × (crate_.stripped_encoded cookie ≡ text)

  IsIn-cookie_list :
      (host path : Text) (cookies : List Cookie) (text : Text)
      → IsIn text (cookie_list http crate_ host path cookies)
        ↔ ((c : Cookie) × (IsIn c cookies × IsSent host path c text))
  unfolding cookie_list IsSent
  IsIn-cookie_list host path [] text = (λ h. absurd h, λ (c, (h, _)). absurd h)
  IsIn-cookie_list host path (cookie ∷ cookies) text =
      let skipped : ((c : Cookie) → IsSent host path c text → (cookie ≡ c) → ⊥)
          → IsIn text (cookie_list http crate_ host path cookies)
            ↔ ((c : Cookie) × (IsIn c (cookie ∷ cookies) × IsSent host path c text)) =
        λ other. (
          λ k. let (c, (i, s)) = (IsIn-cookie_list host path cookies text).0 k in (c, (inr i, s)),
          λ (c, (i, s)). elim i [
            | inl same ↦ absurd (other c s same)
            | inr later ↦ (IsIn-cookie_list host path cookies text).1 (c, (later, s))
          ],
        ) in
      elim (Bool-cases (is_for_host http crate_ host cookie)) [
        | inr y ↦ rw (y, cookie_list) (skipped (λ c s same. cc))
        | inl y ↦ elim (Bool-cases (is_for_path http crate_ path cookie)) [
          | inr z ↦ rw (y, z, cookie_list) (skipped (λ c s same. cc))
          | inl z ↦
              rw (y, z, cookie_list)
                (
                  λ k. elim k [
                    | inl e ↦ (cookie, (inl refl, (y, z, e)))
                    | inr later ↦
                        let (c, (i, s)) = (IsIn-cookie_list host path cookies text).0 later in
                        (c, (inr i, s))
                  ],
                  λ (c, (i, s)). elim i [
                    | inl same ↦ inl (ap crate_.stripped_encoded same ∙ s.2)
                    | inr later ↦ inr ((IsIn-cookie_list host path cookies text).1 (c, (later, s)))
                  ],
                )
        ]
      ]

  -- What `add_cookies` does when the host is there and the cookies make a header value: it puts them
  -- into one `cookie` header, in place of any that was there, joined in a list which has exactly the
  -- cookies of the jar that are for the host and the path; the other headers and the URI stay.
  pub add_cookies_lem :
      {Body : Type 0} (store : CookieStore http crate_) (request : Request http Body) (host : Text)
      (value : http.HeaderValue)
      → uri_host http request.uri ≡ some host
      → http.value_from_str (
          join
            (cookie_list http crate_ host (uri_path http request.uri) (iter store.cookies))
            (codes "; "))
        ≡ some value
      → (sent : Request http Body) × ((add_cookies http crate_ store request ≡ ok sent)
          × (sent.uri ≡ request.uri)
          × ((k : http.HeaderName)
              → http.get_all sent.headers k ≡ (
                  if http.name_eq (http.static_name (codes "cookie")) k
                  then value ∷ []
                  else http.get_all request.headers k))
          × ((text : Text)
              → IsIn text
                  (cookie_list http crate_ host (uri_path http request.uri) (iter store.cookies))
                ↔ ((c : Cookie) × ((get store.cookies (name c) ≡ some c)
                      × IsSent host (uri_path http request.uri) c text))))
  unfolding add_cookies
  add_cookies_lem store request host value has_host is_value = (
    record request {
      headers = http.insert request.headers (http.static_name (codes "cookie")) value;
    },
    (
      rw (has_host, is_value, add_cookies) refl,
      refl,
      http.get_all-insert request.headers (http.static_name (codes "cookie")) value,
      λ text.
          let listed =
            IsIn-cookie_list host (uri_path http request.uri) (iter store.cookies) text in
          (
            λ k. let (c, (i, s)) = listed.0 k in (c, ((crate_.iter_iff store.cookies c).0 i, s)),
            λ (c, (i, s)). listed.1 (c, ((crate_.iter_iff store.cookies c).1 i, s)),
          ),
    ),
  )
