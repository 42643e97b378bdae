-- ===== src/RequestEdit/Laws.antt =====
-- What `apply_on_request` leaves in a request.
use mathlib.Core.Option
use mantalon.Base.{
  Option, none, some, Bool, true, false, Text, codes, eqb, eqb_iff, if◌then◌else◌, ◌≡◌, refl, ap,
  Bool-cases, Option-cases, ◌≢◌, ◌↔◌, inl, inr, ◌∙◌, sym,
}
use mantalon.Http.{Http, Parts, Request, scheme_str}
use mantalon.ContentEdit.{ParsedContentEdit}
use mantalon.Headers.{edit_headers}
use mantalon.RequestEdit.{has_scheme, overridden, force_https, apply_on_request}

same_text :
    (o : Option Text) (t : Text)
    → ◌≡◌ {A = Bool} (elim o [ none ↦ false | some s ↦ eqb s t ]) true
    → o ≡ some t
same_text none t h = cc
same_text (some s) t h = ap some ((eqb_iff s t).0 h)

same_text_back :
    (o : Option Text) (t : Text)
    → o ≡ some t
    → ◌≡◌ {A = Bool} (elim o [ none ↦ false | some s ↦ eqb s t ]) true
same_text_back none t h = cc
same_text_back (some s) t h = let same : s ≡ t = cc in (eqb_iff s t).1 same

module _ (http : Http) where
  open http use {
    Uri, into_parts, from_parts, https_scheme, into_parts-from_parts, scheme_as_str-https,
    from_parts_total, from_parts_no_authority,
  }

  abbrev pub IsAbsolute : Uri → Type 0
  IsAbsolute uri =
      (a : http.Authority) × (p : http.PathAndQuery) × ((into_parts uri).authority ≡ some a)
      × ((into_parts uri).path_and_query ≡ some p)

  -- The scheme that a URI has in the end, and what `force_https` keeps.
  pub record IsForced (https_only : Bool) (uri forced : Uri) : Type 0 where
    pub scheme :
        scheme_str http forced ≡ (if https_only then some (codes "https") else scheme_str http uri)
    pub authority : (into_parts forced).authority ≡ (into_parts uri).authority
    pub path_and_query : (into_parts forced).path_and_query ≡ (into_parts uri).path_and_query

  has_scheme-https :
      (uri : Uri)
      → has_scheme http uri (codes "https") ≡ true
      → scheme_str http uri ≡ some (codes "https")
  has_scheme-https uri h = same_text (scheme_str http uri) (codes "https") h

  force_https-IsForced :
      (https_only : Bool) (uri : Uri)
      → IsAbsolute uri
      → (forced : Uri) × (force_https http https_only uri ≡ some forced)
        × IsForced https_only uri forced
  unfolding force_https
  force_https-IsForced false uri h =
      (uri, refl, record { scheme = refl; authority = refl; path_and_query = refl })
  force_https-IsForced true uri (a, p, ea, ep) =
      elim (Bool-cases (has_scheme http uri (codes "https"))) [
        | inl e ↦ (
          uri,
          rw (e, force_https) refl,
          record { scheme = has_scheme-https uri e; authority = refl; path_and_query = refl },
        )
        | inr e ↦
            let (forced, total) = from_parts_total https_scheme a p in
            let parts = into_parts-from_parts _ forced total in
            (
              forced,
              rw (e, ea, ep) total,
              record {
                scheme =
                    ap
                      (λ (q : Parts http.Scheme http.Authority http.PathAndQuery).
                        Option.map http.scheme_as_str q.scheme)
                      parts
                    ∙ ap some scheme_as_str-https;
                authority =
                    ap (λ (q : Parts http.Scheme http.Authority http.PathAndQuery). q.authority)
                      parts
                    ∙ sym ea;
                path_and_query =
                    ap
                      (λ (q : Parts http.Scheme http.Authority http.PathAndQuery). q.path_and_query)
                      parts
                    ∙ sym ep;
              },
            )
      ]

module _ (http : Http) where
  -- The URI has no form with the scheme https.
  abbrev pub HasNoHttps : http.Uri → Type 0
  HasNoHttps uri = (scheme_str http uri ≢ some (codes "https")) × (¬ IsAbsolute http uri)

  from_parts-relative :
      (uri : http.Uri)
      → ¬ IsAbsolute http uri
      → http.from_parts (record (http.into_parts uri) { scheme = some http.https_scheme }) ≡ none
  from_parts-relative uri relative = elim (Option-cases (http.into_parts uri).authority) [
    | inl e ↦
        rw e (http.from_parts_no_authority http.https_scheme (http.into_parts uri).path_and_query)
    | inr (a, e) ↦ elim (Option-cases (http.into_parts uri).path_and_query) [
      | inl f ↦ rw (e, f) (http.from_parts_no_path http.https_scheme (some a))
      | inr (p, f) ↦ absurd (relative (a, p, e, f))
    ]
  ]

  force_https_panics_iff :
      (https_only : Bool) (uri : http.Uri)
      → (force_https http https_only uri ≡ none) ↔ ((https_only ≡ true) × HasNoHttps uri)
  unfolding force_https
  force_https_panics_iff false uri = (λ h. cc, λ (h, rest). cc)
  force_https_panics_iff true uri = elim (Bool-cases (has_scheme http uri (codes "https"))) [
    | inl e ↦ (
      λ h. let contra : some uri ≡ none = rw e at h in cc,
      λ (h, (other, relative)). absurd (other (has_scheme-https http uri e)),
    )
    | inr e ↦ (
      λ h. (
        refl,
        (
          λ same. let is_https = same_text_back (scheme_str http uri) (codes "https") same in cc,
          λ is. let (forced, total, kept) = force_https-IsForced http true uri is in cc,
        ),
      ),
      λ (h, (other, relative)). rw e (from_parts-relative uri relative),
    )
  ]

module _ (http : Http) {UrlPattern Body : Type 0} where
  abbrev pub asked : ParsedContentEdit http UrlPattern → Request http Body → http.Uri
  asked e request = overridden http e.override_uri request.uri

  -- When the URI that the edit asks for, its own or else the request's, has an authority and a
  -- path, `apply_on_request` does not panic. The URI of its result has the scheme https if the
  -- edit is `https_only`, and otherwise keeps its scheme; it keeps its authority and its path; the
  -- headers are the edited headers of the request; the method and the body are the request's.
  pub apply_on_request_lem :
      (e : ParsedContentEdit http UrlPattern) (request : Request http Body)
      → IsAbsolute http (asked e request)
      → (r : Request http Body) × (apply_on_request http e request ≡ some r)
        × IsForced http e.https_only (asked e request) r.uri
        × (r.headers
            ≡ edit_headers http e.remove_request_headers e.insert_request_headers
                e.append_request_headers e.rename_request_headers request.headers)
        × (r.method ≡ request.method)
        × (r.body ≡ request.body)
  unfolding apply_on_request
  apply_on_request_lem e request h =
      let (forced, total, kept) = force_https-IsForced http e.https_only (asked e request) h in
      (_, rw total refl, kept, refl, refl, refl)

  -- `apply_on_request` panics exactly when the edit is `https_only` and the URI that it asks for is not
  -- of the scheme https and lacks an authority or a path, as an `override_url` that is only a path.
  pub apply_on_request_panics_iff :
      (e : ParsedContentEdit http UrlPattern) (request : Request http Body)
      → (apply_on_request http e request ≡ none)
        ↔ ((e.https_only ≡ true) × HasNoHttps http (asked e request))
  unfolding apply_on_request
  apply_on_request_panics_iff e request =
      let panics = force_https_panics_iff http e.https_only (asked e request) in
      elim (Option-cases (force_https http e.https_only (asked e request))) [
        | inl x ↦ (λ h. panics.0 x, λ h. rw x refl)
        | inr (uri, x) ↦ (λ h. let contra = rw x at h in cc, λ h. let panicked = panics.1 h in cc)
      ]
