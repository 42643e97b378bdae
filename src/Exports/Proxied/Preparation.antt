-- ===== src/Exports/Proxied/Preparation.antt =====
-- The request that `proxiedFetch` makes of its inputs.
use mantalon.Base.{
  ℕ, [], ◌∷◌, some, codes, if◌then◌else◌, ◌≡◌, refl, ap, sym, ◌∙◌, ◌⊎◌, inl, inr, Option-cases,
}
use mantalon.Http.{Http, Request}
use mantalon.ContentEdit.{ParsedManifest}
use mantalon.RequestEdit.{apply_on_request}
use mantalon.Setup.{Patterns, get_content_edit}
use mantalon.MantalonBody.{MantalonBody}
use mantalon.Exports.Inputs.{Inputs}
use mantalon.Exports.Proxied.{
  FetchError, Outcome, done, rejects, panics, Edit, request_of, with_host, prepare,
}

pub Outcome-cases :
    {E A : Type 0} (m : Outcome E A)
    → ((a : A) × (m ≡ done a)) ⊎ ((m ≡ panics) ⊎ ((e : FetchError E) × (m ≡ rejects e)))
Outcome-cases (done a) = inl (a, refl)
Outcome-cases panics = inr (inl refl)
Outcome-cases (rejects e) = inr (inr (e, refl))

done-pair :
    {E A B : Type 0} {a a' : A} {b b' : B}
    → ◌≡◌ {A = Outcome E (A × B)} (done (a, b)) (done (a', b'))
    → (a ≡ a') × (b ≡ b')
done-pair h = (cc, cc)

module _ (http : Http) (patterns : Patterns) (E : Type 0) where
  -- How the request that is sent, and the edit of its response, come from the inputs.
  pub record IsPrepared (manifest : ParsedManifest http patterns.UrlPattern) (inputs : Inputs http)
      (edit : Edit http patterns E) (sent : Request http MantalonBody) : Type 0 where
    pub uri : http.Uri
    pub parsed : http.uri_parse inputs.url ≡ some uri
    pub index : ℕ
    pub first : Edit http patterns E
    pub found : get_content_edit http patterns manifest uri ≡ some (index, first)
    pub edited : Request http MantalonBody
    pub applied : apply_on_request http first (request_of http patterns E inputs uri) ≡ some edited
    pub index' : ℕ
    pub found' : get_content_edit http patterns manifest edited.uri ≡ some (index', edit)
    pub hosted : sent ≡ with_host http patterns E uri edited
    pub host :
        (authority : http.Authority) (host : http.HeaderValue)
        → (http.into_parts uri).authority ≡ some authority
        → http.value_from_str (http.authority_host authority) ≡ some host
        → http.get_all sent.headers (http.static_name (codes "host")) ≡ host ∷ []

  get_all-with_host :
      (uri : http.Uri) (request : Request http MantalonBody) (authority : http.Authority)
      (host : http.HeaderValue)
      → (http.into_parts uri).authority ≡ some authority
      → http.value_from_str (http.authority_host authority) ≡ some host
      → http.get_all
          (with_host http patterns E uri request).headers
          (http.static_name (codes "host"))
        ≡ host ∷ []
  unfolding with_host
  get_all-with_host uri request authority host x y =
      let name = http.static_name (codes "host") in
      rw (x, y, with_host)
        (http.get_all-insert request.headers name host name
          ∙ ap (λ b. if b then host ∷ [] else http.get_all request.headers name)
              ((http.name_eq_iff name name).1 refl))

  pub prepare-IsPrepared :
      (manifest : ParsedManifest http patterns.UrlPattern) (inputs : Inputs http)
      (edit : Edit http patterns E) (sent : Request http MantalonBody)
      → prepare http patterns E manifest inputs ≡ done (edit, sent)
      → IsPrepared manifest inputs edit sent
  unfolding prepare
  prepare-IsPrepared manifest inputs edit sent = elim (Option-cases (http.uri_parse inputs.url)) [
    | inl x ↦ rw (x, prepare) (λ h. cc)
    | inr (uri, x) ↦ elim (Option-cases (get_content_edit http patterns manifest uri)) [
      | inl y ↦ rw (x, y, prepare) (λ h. cc)
      | inr (i_first, y) ↦
          elim (Option-cases
            (apply_on_request http i_first.1 (request_of http patterns E inputs uri))) [
              | inl z ↦ rw (x, y, z, prepare) (λ h. cc)
              | inr (edited, z) ↦
                  elim (Option-cases (get_content_edit http patterns manifest edited.uri)) [
                    | inl w ↦ rw (x, y, z, w, prepare) (λ h. cc)
                    | inr (j_second, w) ↦
                        rw (x, y, z, w, prepare)
                          (λ h.
                            let (same, hosted) = done-pair h in
                            record {
                              uri = uri;
                              parsed = x;
                              index = i_first.0;
                              first = i_first.1;
                              found = y;
                              edited = edited;
                              applied = z;
                              index' = j_second.0;
                              found' = w ∙ ap (λ e. some (j_second.0, e)) same;
                              hosted = sym hosted;
                              host = λ authority host at valid.
                                  ap (λ r. http.get_all r.headers (http.static_name (codes "host")))
                                    (sym hosted)
                                  ∙ get_all-with_host uri edited authority host at valid;
                            })
                  ]
            ]
    ]
  ]

  pub IsPrepared-prepare :
      (manifest : ParsedManifest http patterns.UrlPattern) (inputs : Inputs http)
      (edit : Edit http patterns E) (sent : Request http MantalonBody)
      → IsPrepared manifest inputs edit sent
      → prepare http patterns E manifest inputs ≡ done (edit, sent)
  unfolding prepare
  IsPrepared-prepare manifest inputs edit sent p =
      rw (p.parsed, p.found, p.applied, p.found', prepare)
        (ap (λ (r : Request http MantalonBody). done (edit, r)) (sym p.hosted))
