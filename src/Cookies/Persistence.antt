-- ===== src/Cookies/Persistence.antt =====
-- What a store writes is what the next one reads.
use mantalon.Base.{
  none, subst, ◌↔◌, List, [], ◌∷◌, ◌++◌, some, false, Text, eqb, eqb_iff, map, join, All,
  append-nil, ◌≡◌, ◌≢◌, refl, sym, ap, ◌∙◌, ◌⊎◌, inl, inr, Bool-cases, Option-cases,
}
use mantalon.Http.{Http}
use mantalon.Cookies.{
  override_cookie, CookieCrate, CookieStore, IsIn, lines, load_all, on_storage_opened,
  not_overriden, is_overriden, old_cookies, saved_cookies, save, override_cookie,
}
use mantalon.Cookies.Overrides.{saved_cookies-override_cookie}
use mantalon.Cookies.Lines.{IsLine, lines-join}
use mantalon.Base.Assoc.{lookup}

module _ (http : Http) (crate_ : CookieCrate) where
  open crate_ use {Cookie, CookieJar, name, encoded, parse_encoded, empty_jar, add, get, iter}

  -- The text of the cookie is one line, from which it is read back.
  abbrev pub IsPersistent : Cookie → Type 0
  IsPersistent c = IsLine (encoded c) × (parse_encoded (encoded c) ≡ some c)

  encoded-IsLine : (cs : List Cookie) → All IsPersistent cs → All IsLine (map encoded cs)
  encoded-IsLine [] h = tt
  encoded-IsLine (c ∷ cs) ((line, _), h) = (line, encoded-IsLine cs h)

  add_all : List Cookie → CookieJar → CookieJar
  add_all [] jar = jar
  add_all (c ∷ cs) jar = add_all cs (add jar c)

  load_all-encoded :
      (cs : List Cookie) (jar : CookieJar)
      → All IsPersistent cs
      → load_all http crate_ (map encoded cs) jar ≡ add_all cs jar
  unfolding load_all add_all
  load_all-encoded [] jar h = refl
  load_all-encoded (c ∷ cs) jar ((_, read), h) =
      rw (read, load_all) (load_all-encoded cs (add jar c) h)

  also_not :
      (c : Cookie) (cs : List Cookie) (n : Text)
      → eqb (name c) n ≡ false
      → ((d : Cookie) → IsIn d cs → name d ≢ n)
      → (d : Cookie) → IsIn d (c ∷ cs)
      → name d ≢ n
  also_not c cs n e others d (inr among) q = others d among q
  also_not c cs n e others d (inl same) q =
      let found = (eqb_iff (name c) n).1 (ap name same ∙ q) in cc

  -- A name among the cookies that are added, or none of them.
  get-add_all :
      (cs : List Cookie) (jar : CookieJar) (n : Text)
      → ((c : Cookie) × (IsIn c cs × ((name c ≡ n) × (get (add_all cs jar) n ≡ some c))))
        ⊎ (((c : Cookie) → IsIn c cs → name c ≢ n) × (get (add_all cs jar) n ≡ get jar n))
  unfolding add_all
  get-add_all [] jar n = inr ((λ c h. absurd h), refl)
  get-add_all (c ∷ cs) jar n = elim (get-add_all cs (add jar c) n) [
    | inl (d, (among, named)) ↦ inl (d, (inr among, named))
    | inr (others, same) ↦ elim (Bool-cases (eqb (name c) n)) [
      | inl e ↦
          inl
            (c, (inl refl, ((eqb_iff (name c) n).0 e, same ∙ crate_.get-add jar c n ∙ (rw e refl))))
      | inr e ↦ inr (also_not c cs n e others, same ∙ crate_.get-add jar c n ∙ (rw e refl))
    ]
  ]

  not_overriden-none : (cs : List Cookie) → not_overriden http crate_ [] cs ≡ cs
  unfolding not_overriden is_overriden lookup
  not_overriden-none [] = refl
  not_overriden-none (c ∷ cs) = ap (λ l. c ∷ l) (not_overriden-none cs)

  saved_cookies-none :
      (store : CookieStore http crate_)
      → store.overriden_cookies ≡ []
      → saved_cookies http crate_ store ≡ iter store.cookies
  unfolding saved_cookies old_cookies
  saved_cookies-none store h =
      ap (λ o. not_overriden http crate_ o (iter store.cookies) ++ old_cookies http crate_ o) h
      ∙ append-nil (not_overriden http crate_ [] (iter store.cookies))
      ∙ not_overriden-none (iter store.cookies)

  -- The cookies that are saved are those of a jar.
  Backs : List Cookie → CookieJar → Type 0
  Backs cs jar = (c : Cookie) → IsIn c cs ↔ (get jar (name c) ≡ some c)

  get-Backs :
      (cs : List Cookie) (jar : CookieJar) (n : Text)
      → Backs cs jar
      → get (add_all cs empty_jar) n ≡ get jar n
  unfolding Backs
  get-Backs cs jar n backs = elim (get-add_all cs empty_jar n) [
    | inl (c, (among, (named, got))) ↦ got ∙ sym (ap (get jar) (sym named) ∙ (backs c).0 among)
    | inr (others, same) ↦ elim (Option-cases (get jar n)) [
      | inl absent ↦ same ∙ crate_.get-empty_jar n ∙ sym absent
      | inr (c, found) ↦
          let named = crate_.get_name jar n c found in
          absurd (others c ((backs c).1 (ap (get jar) named ∙ found)) named)
    ]
  ]

  -- Overrides one after the other, each the first of its name.
  abbrev pub override_all : List (Text × Text) → CookieStore http crate_ → CookieStore http crate_
  override_all [] store = store
  override_all ((n, v) ∷ overrides) store =
      override_all overrides (override_cookie http crate_ n v store)

  abbrev pub AreFirst : List (Text × Text) → CookieStore http crate_ → Type 0
  AreFirst [] store = Unit
  AreFirst ((n, v) ∷ overrides) store =
      (lookup n store.overriden_cookies ≡ none)
      × AreFirst overrides (override_cookie http crate_ n v store)

  override_all-Backs :
      (overrides : List (Text × Text)) (store : CookieStore http crate_) (jar : CookieJar)
      → AreFirst overrides store
      → Backs (saved_cookies http crate_ store) jar
      → Backs (saved_cookies http crate_ (override_all overrides store)) jar
  unfolding Backs
  override_all-Backs [] store jar first backs = backs
  override_all-Backs ((n, v) ∷ overrides) store jar (first, rest) backs =
      override_all-Backs overrides (override_cookie http crate_ n v store) jar rest (λ c.
        let same = saved_cookies-override_cookie http crate_ n v store c first in
        ((λ h. (backs c).0 (same.0 h)), (λ h. same.1 ((backs c).1 h))))

  IsPersistent-IsIn :
      (cs ds : List Cookie)
      → All IsPersistent ds
      → ((c : Cookie) → IsIn c cs → IsIn c ds)
      → All IsPersistent cs
  IsPersistent-IsIn [] ds h sub = tt
  IsPersistent-IsIn (c ∷ cs) ds h sub = (
    among_all ds c h (sub c (inl refl)),
    IsPersistent-IsIn cs ds h (λ d among. sub d (inr among)),
  )
    where
      among_all : (ds : List Cookie) (c : Cookie) → All IsPersistent ds → IsIn c ds → IsPersistent c
      among_all [] c h among = absurd among
      among_all (d ∷ ds) c (p, h) (inl same) = subst IsPersistent same p
      among_all (d ∷ ds) c (p, h) (inr among) = among_all ds c h among

  saved_text :
      (store : CookieStore http crate_) (text : Text)
      → save http crate_ store ≡ some text
      → join (map encoded (saved_cookies http crate_ store)) (b'\n' ∷ []) ≡ text
  unfolding save
  saved_text store text = elim (Bool-cases store.has_cache) [
    | inl x ↦ rw (x, save) (λ h. cc)
    | inr x ↦ rw (x, save) (λ h. cc)
  ]

  -- For a store that had no overrides at first, and each of whose cookies is written as a line of text
  -- from which it is read back: when names have been overridden, each at most once, a store without
  -- cookies that is opened on what `save` has written then has under each name the cookie of the
  -- store in front of the overrides.
  pub save-on_storage_opened :
      (store fresh : CookieStore http crate_) (overrides : List (Text × Text)) (text : Text)
      → store.overriden_cookies ≡ []
      → AreFirst overrides store
      → All IsPersistent (iter store.cookies)
      → fresh.cookies ≡ empty_jar
      → save http crate_ (override_all overrides store) ≡ some text
      → (n : Text)
      → get (on_storage_opened http crate_ (some text) fresh).cookies n ≡ get store.cookies n
  unfolding on_storage_opened Backs
  save-on_storage_opened store fresh overrides text plain first persistent empty saved n =
      let cs = saved_cookies http crate_ (override_all overrides store) in
      let backs = override_all-Backs overrides store store.cookies first (
        subst (λ l. Backs l store.cookies) (sym (saved_cookies-none store plain))
          (crate_.iter_iff store.cookies)) in
      let all_persistent =
        IsPersistent-IsIn cs (iter store.cookies) persistent
          (λ c among. (crate_.iter_iff store.cookies c).1 ((backs c).0 among)) in
      let read =
        ap (λ t. load_all http crate_ (lines t) fresh.cookies)
          (sym (saved_text (override_all overrides store) text saved))
        ∙ ap (λ l. load_all http crate_ l fresh.cookies)
            (lines-join (map encoded cs) (encoded-IsLine cs all_persistent))
        ∙ load_all-encoded cs fresh.cookies all_persistent
        ∙ ap (add_all cs) empty in
      ap (λ jar. get jar n) read ∙ get-Backs cs store.cookies n backs
