-- ===== src/Client/Origins.antt =====
-- Where the cookies of a page come from, when its fetches run side by side.
use mantalon.Base.{
  List, [], ◌∷◌, ◌++◌, some, Text, codes, eqb, ◌≡◌, refl, sym, ◌∙◌, ◌⊎◌, inl, inr, subst,
  Bool-cases, Option-cases,
}
use mantalon.Http.{Http, uri_host}
use mantalon.Pool.{Net}
use mantalon.Cookies.{CookieCrate, CookieStore, IsIn, store_cookies, override_cookie}
use mantalon.Cookies.Acceptance.{IsAccepted, store_cookies-IsAccepted}
use mantalon.Client.{
  Answer, Client, start_dialling, start_sending, finish_dialling, finish_sending, finish_override,
  FetchStep, Step, fetched, refused, reused, dials, dialled, not_dialled, responded, failed, waited,
  closed, overridden, initial, Steps, here, next,
}

module _ {A : Type 0} where
  IsIn-append : (x : A) (xs ys : List A) → IsIn x xs → IsIn x (xs ++ ys)
  IsIn-append x [] ys h = absurd h
  IsIn-append x (y ∷ xs) ys (inl e) = inl e
  IsIn-append x (y ∷ xs) ys (inr h) = inr (IsIn-append x xs ys h)

  IsIn-last : (x : A) (xs : List A) → IsIn x (xs ++ x ∷ [])
  IsIn-last x [] = inl refl
  IsIn-last x (y ∷ xs) = inr (IsIn-last x xs)

module _ (http : Http) (crate_ : CookieCrate) where
  open crate_ use {Cookie, get, name, add}

  add-cases :
      (jar : crate_.CookieJar) (c : Cookie) (n : Text) (k : Cookie)
      → get (add jar c) n ≡ some k
      → (get jar n ≡ some k) ⊎ (k ≡ c)
  add-cases jar c n k h = elim (Bool-cases (eqb (name c) n)) [
    | inl y ↦ let added : get (add jar c) n ≡ some c = crate_.get-add jar c n ∙ rw y refl in inr cc
    | inr y ↦
        let kept : get (add jar c) n ≡ get jar n = crate_.get-add jar c n ∙ rw y refl in
        inl (sym kept ∙ h)
  ]

  -- What an override may put under a name.
  override_cookie-cases :
      (n' value : Text) (store : CookieStore http crate_) (n : Text) (k : Cookie)
      → get (override_cookie http crate_ n' value store).cookies n ≡ some k
      → (get store.cookies n ≡ some k)
        ⊎ (k ≡ crate_.new n' value)
        ⊎ ((old : Cookie) × (get store.cookies n' ≡ some old) × (k ≡ crate_.set_value old value))
  unfolding override_cookie
  override_cookie-cases n' value store n k = elim (Option-cases (get store.cookies n')) [
    | inl x ↦
        rw (x, override_cookie)
          (λ h. elim (add-cases store.cookies (crate_.new n' value) n k h) [
            | inl old ↦ inl old
            | inr new ↦ inr (inl new)
          ])
    | inr (c, x) ↦
        rw (x, override_cookie)
          (λ h. elim (add-cases store.cookies (crate_.set_value c value) n k h) [
            | inl old ↦ inl old
            | inr new ↦ inr (inr (c, refl, new))
          ])
  ]

module _ {http : Http} {Body Incoming : Type 0} (crate_ : CookieCrate)
    (net : Net http Body Incoming) (self_origin : Text) where
  open crate_ use {Cookie, get}

  abbrev pub Answers : Type 0
  Answers = List (Answer crate_ net self_origin)

  abbrev pub Overrides : Type 0
  Overrides = List (Text × Text)

  -- A cookie was in the store at first, or stands in a response of the history, for whose host it is,
  -- or has the name and the value of an override of the history: a new cookie, or one that can be
  -- explained, with that value.
  pub data IsExplained (start : CookieStore http crate_) (answers : Answers) (overrides : Overrides)
      : Cookie → Type 0 where
    held :
        {k : Cookie} (n : Text)
        → get start.cookies n ≡ some k
        → IsExplained start answers overrides k
    received :
        {k : Cookie} (a : Answer crate_ net self_origin) (host : Text)
        → IsIn a answers
        → uri_host http a.uri ≡ some host
        → IsAccepted http crate_ host
            (http.get_all a.response.headers (http.static_name (codes "set-cookie")))
            k
        → IsExplained start answers overrides k
    chosen :
        {k : Cookie} (n value : Text)
        → IsIn (n, value) overrides
        → k ≡ crate_.new n value
        → IsExplained start answers overrides k
    changed :
        {k : Cookie} (old : Cookie) (value : Text)
        → IsIn (crate_.name old, value) overrides
        → IsExplained start answers overrides old
        → k ≡ crate_.set_value old value
        → IsExplained start answers overrides k

  abbrev pub AreExplained : CookieStore http crate_ → Client crate_ net self_origin → Type 0
  AreExplained start c =
      (n : Text) (k : Cookie)
      → get c.cookies.cookies n ≡ some k
      → IsExplained start c.answers c.overrides k

  -- A longer history explains what a shorter one does.
  IsExplained-longer :
      (start : CookieStore http crate_) {answers answers' : Answers}
      {overrides overrides' : Overrides} (k : Cookie)
      → ((a : Answer crate_ net self_origin) → IsIn a answers → IsIn a answers')
      → ((o : Text × Text) → IsIn o overrides → IsIn o overrides')
      → IsExplained start answers overrides k
      → IsExplained start answers' overrides' k
  IsExplained-longer start k f g (held n h) = held n h
  IsExplained-longer start k f g (received a host i u h) = received a host (f a i) u h
  IsExplained-longer start k f g (chosen n value i e) = chosen n value (g (n, value) i) e
  IsExplained-longer start k f g (changed old value i h e) =
      changed old value (g (crate_.name old, value) i) (IsExplained-longer start old f g h) e

  IsExplained-answer :
      (start : CookieStore http crate_) (answers : Answers) (a : Answer crate_ net self_origin)
      (overrides : Overrides) (k : Cookie)
      → IsExplained start answers overrides k
      → IsExplained start (answers ++ a ∷ []) overrides k
  IsExplained-answer start answers a overrides k =
      IsExplained-longer start k (λ b. IsIn-append b answers (a ∷ [])) (λ o i. i)

  IsExplained-override :
      (start : CookieStore http crate_) (answers : Answers) (overrides : Overrides)
      (o : Text × Text) (k : Cookie)
      → IsExplained start answers overrides k
      → IsExplained start answers (overrides ++ o ∷ []) k
  IsExplained-override start answers overrides o k =
      IsExplained-longer start k (λ b i. i) (λ p. IsIn-append p overrides (o ∷ []))

  -- The cookies of a response join those of the store.
  finish_sending-AreExplained :
      (start : CookieStore http crate_) (c : Client crate_ net self_origin)
      (a : Answer crate_ net self_origin)
      → AreExplained start c
      → (n : Text) (k : Cookie)
      → get (store_cookies http crate_ a.uri a.response c.cookies).0.cookies n ≡ some k
      → IsExplained start (c.answers ++ a ∷ []) c.overrides k
  unfolding store_cookies
  finish_sending-AreExplained start c a all n k = elim (Option-cases (uri_host http a.uri)) [
    | inl x ↦
        rw (x, store_cookies) (λ h. IsExplained-answer start c.answers a c.overrides k (all n k h))
    | inr (host, x) ↦ λ h.
        elim (store_cookies-IsAccepted http crate_ a.uri host a.response c.cookies n k x h) [
          | inl old ↦ IsExplained-answer start c.answers a c.overrides k (all n k old)
          | inr new ↦ received a host (IsIn-last a c.answers) x new
        ]
  ]

  FetchStep-AreExplained :
      (start : CookieStore http crate_) {c d : Client crate_ net self_origin}
      → FetchStep crate_ net self_origin c d
      → AreExplained start c
      → AreExplained start d
  unfolding start_dialling start_sending finish_dialling finish_sending
  FetchStep-AreExplained start (refused request e at) all = all
  FetchStep-AreExplained start (reused request m name sender at found is_ready) all = all
  FetchStep-AreExplained start (dials request m name reading at needs) all = all
  FetchStep-AreExplained start (dialled before after d sender holds_lock split stands) all = all
  FetchStep-AreExplained start (not_dialled before after d e split fails) all = all
  FetchStep-AreExplained start {c} (responded before after p response split is_ready sends) all =
      finish_sending-AreExplained start c
        (record { uri = p.uri; sent = p.sent; response = response }) all
  FetchStep-AreExplained start (failed before after p split) all = all

  finish_override-AreExplained :
      (start : CookieStore http crate_) (c : Client crate_ net self_origin) (n' value : Text)
      → AreExplained start c
      → AreExplained start (finish_override crate_ net self_origin n' value c)
  unfolding finish_override
  finish_override-AreExplained start c n' value all n k h =
      let last = IsIn-last (n', value) c.overrides in
      let still = IsExplained-override start c.answers c.overrides (n', value) in
      elim (override_cookie-cases http crate_ n' value c.cookies n k h) [
        | inl old ↦ still k (all n k old)
        | inr (inl new) ↦ chosen n' value last new
        | inr (inr (old, at, new)) ↦
            let named : crate_.name old ≡ n' = crate_.get_name c.cookies.cookies n' old at in
            changed old value
              (subst (λ m. IsIn (m, value) (c.overrides ++ (n', value) ∷ [])) (sym named) last)
              (still old (all n' old at)) new
      ]

  Step-AreExplained :
      (start : CookieStore http crate_) {c d : Client crate_ net self_origin}
      → Step crate_ net self_origin c d
      → AreExplained start c
      → AreExplained start d
  Step-AreExplained start (fetched step) all = FetchStep-AreExplained start step all
  Step-AreExplained start waited all = all
  Step-AreExplained start (closed m) all = all
  Step-AreExplained start {c} (overridden n' value) all =
      finish_override-AreExplained start c n' value all

  -- Whatever the order in which the fetches of a page run and names are overridden, each cookie of the
  -- store was there at first, or stands in a response that has come, for whose host it is, or comes of
  -- an override that the page has made: it is a new cookie of the name and the value of that override,
  -- or a cookie of that name that can be explained so, with that value.
  pub Steps-AreExplained :
      (start : CookieStore http crate_) {c : Client crate_ net self_origin}
      → Steps crate_ net self_origin (initial crate_ net self_origin start) c
      → AreExplained start c
  unfolding initial
  Steps-AreExplained start here = λ n k h. held n h
  Steps-AreExplained start (next steps step) =
      Step-AreExplained start step (Steps-AreExplained start steps)
