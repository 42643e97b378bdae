-- ===== src/Cookies/Acceptance.antt =====
-- Which cookies come into the store.
use mantalon.Base.{
  List, [], ◌∷◌, some, Bool, true, false, Text, codes, eqb, ◌≡◌, refl, sym, subst, ◌∙◌, ◌⊎◌, inl,
  inr, Bool-cases, Option-cases,
}
use mantalon.Http.{Http, Response, uri_host}
use mantalon.Cookies.{
  CookieCrate, CookieStore, IsIn, is_for_host, accepted, store_all, store_cookies,
}

module _ (http : Http) (crate_ : CookieCrate) where
  open crate_ use {Cookie, CookieJar, get, name}

  -- One of the headers is this cookie, which is for the host.
  pub IsAccepted : Text → List http.HeaderValue → Cookie → Type 0
  IsAccepted host values cookie =
      (value : http.HeaderValue) × (text : Text) × (IsIn value values
        × (http.value_to_str value ≡ some text)
        × (crate_.parse_encoded text ≡ some cookie)
        × (is_for_host http crate_ host cookie ≡ true))

  accepted-IsAccepted :
      (host : Text) (value : http.HeaderValue) (values : List http.HeaderValue) (cookie : Cookie)
      → accepted http crate_ host value ≡ some cookie
      → IsAccepted host (value ∷ values) cookie
  unfolding accepted IsAccepted
  accepted-IsAccepted host value values cookie = elim (Option-cases (http.value_to_str value)) [
    | inl x ↦ rw (x, accepted) (λ h. cc)
    | inr (text, x) ↦ elim (Option-cases (crate_.parse_encoded text)) [
      | inl y ↦ rw (x, y, accepted) (λ h. cc)
      | inr (c, y) ↦ elim (Bool-cases (is_for_host http crate_ host c)) [
        | inl z ↦
            rw (x, y, z, accepted)
              (λ h.
                let same : c ≡ cookie = cc in
                (
                  value,
                  text,
                  (inl refl, x, y ∙ h, subst (λ k. is_for_host http crate_ host k ≡ true) same z),
                ))
        | inr z ↦ rw (x, y, z, accepted) (λ h. cc)
      ]
    ]
  ]

  IsAccepted-∷ :
      (host : Text) (value : http.HeaderValue) (values : List http.HeaderValue) (cookie : Cookie)
      → IsAccepted host values cookie
      → IsAccepted host (value ∷ values) cookie
  unfolding IsAccepted
  IsAccepted-∷ host value values cookie (v, text, (here, read, parsed, hosted)) =
      (v, text, (inr here, read, parsed, hosted))

  store_all-IsAccepted :
      (host : Text) (values : List http.HeaderValue) (changed : Bool) (jar : CookieJar) (n : Text)
      (cookie : Cookie)
      → get (store_all http crate_ host values changed jar).0 n ≡ some cookie
      → (get jar n ≡ some cookie) ⊎ IsAccepted host values cookie
  unfolding store_all
  store_all-IsAccepted host [] changed jar n cookie = λ h. inl h
  store_all-IsAccepted host (value ∷ values) changed jar n cookie =
      elim (Option-cases (accepted http crate_ host value)) [
        | inl x ↦
            rw (x, store_all)
              (λ h. elim (store_all-IsAccepted host values changed jar n cookie h) [
                | inl old ↦ inl old
                | inr new ↦ inr (IsAccepted-∷ host value values cookie new)
              ])
        | inr (c, x) ↦
            rw (x, store_all)
              (λ h. elim (store_all-IsAccepted host values true (crate_.add jar c) n cookie h) [
                | inl old ↦ elim (Bool-cases (eqb (name c) n)) [
                  | inl y ↦
                      let added : get (crate_.add jar c) n ≡ some c =
                        crate_.get-add jar c n ∙ rw y refl in
                      inr (accepted-IsAccepted host value values cookie (x ∙ sym added ∙ old))
                  | inr y ↦
                      let kept : get (crate_.add jar c) n ≡ get jar n =
                        crate_.get-add jar c n ∙ rw y refl in
                      inl (sym kept ∙ old)
                ]
                | inr new ↦ inr (IsAccepted-∷ host value values cookie new)
              ])
      ]

  -- A cookie that the store holds behind a response was there before, or it stands in a `set-cookie`
  -- header of the response and its domain, where it has one, is an end of the host of the request.
  pub store_cookies-IsAccepted :
      {Body : Type 0} (uri : http.Uri) (host : Text) (response : Response http Body)
      (store : CookieStore http crate_) (n : Text) (cookie : Cookie)
      → uri_host http uri ≡ some host
      → get (store_cookies http crate_ uri response store).0.cookies n ≡ some cookie
      → (get store.cookies n ≡ some cookie)
        ⊎ IsAccepted host
            (http.get_all response.headers (http.static_name (codes "set-cookie")))
            cookie
  unfolding store_cookies
  store_cookies-IsAccepted uri host response store n cookie has_host =
      rw (has_host, store_cookies)
        (store_all-IsAccepted host
          (http.get_all response.headers (http.static_name (codes "set-cookie"))) false
          store.cookies n cookie)
