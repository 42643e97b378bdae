-- ===== src/Cookies/Overrides.antt =====
-- Overridden cookies, and what is saved of them.
use mantalon.Base.{
  List, [], ◌∷◌, ◌++◌, Option, none, some, false, Text, eqb, eqb_iff, ◌≡◌, refl, ◌∙◌, ◌⊎◌, ◌↔◌, inl,
  inr, arith, Option-cases,
}
use mantalon.Base.Assoc.{Assoc, lookup, insert, lookup-insert}
use mantalon.Http.{Http}
use mantalon.Cookies.{
  CookieCrate, CookieStore, IsIn, is_overriden, not_overriden, old_cookies, saved_cookies,
  override_cookie,
}

module _ (http : Http) (crate_ : CookieCrate) where
  open crate_ use {Cookie, CookieJar, get, name, iter}

  IsIn-append : {A : Type 0} (a : A) (xs ys : List A) → IsIn a (xs ++ ys) ↔ (IsIn a xs ⊎ IsIn a ys)
  IsIn-append a [] ys = ground arith
  IsIn-append a (x ∷ xs) ys = ground (arith, IsIn-append a xs ys)

  IsIn-not_overriden :
      (overriden : Assoc (Option Cookie)) (cookies : List Cookie) (c : Cookie)
      → IsIn c (not_overriden http crate_ overriden cookies)
        ↔ (IsIn c cookies × (lookup (name c) overriden ≡ none))
  unfolding not_overriden is_overriden
  IsIn-not_overriden overriden [] c = ground arith
  IsIn-not_overriden overriden (x ∷ cookies) c =
      ground (arith, IsIn-not_overriden overriden cookies c)

  lookup-none :
      (n j : Text) (p : Option Cookie) (m : Assoc (Option Cookie))
      → lookup n ((j, p) ∷ m) ≡ none
      → (eqb j n ≡ false) × (lookup n m ≡ none)
  unfolding lookup
  lookup-none n j p m h = ground arith

  IsIn-old_cookies :
      (overriden : Assoc (Option Cookie)) (n : Text) (o : Option Cookie) (c : Cookie)
      → lookup n overriden ≡ none
      → IsIn c (old_cookies http crate_ (insert n o overriden))
        ↔ (IsIn c (old_cookies http crate_ overriden) ⊎ (o ≡ some c))
  unfolding old_cookies insert lookup
  IsIn-old_cookies [] n none c h = ground arith
  IsIn-old_cookies [] n (some d) c h = ground arith
  IsIn-old_cookies ((j, none) ∷ overriden) n o c h =
      let (differs, missing) = lookup-none n j none overriden h in
      rw differs (IsIn-old_cookies overriden n o c missing)
  IsIn-old_cookies ((j, some d) ∷ overriden) n o c h =
      let (differs, missing) = lookup-none n j (some d) overriden h in
      rw differs (ground (arith, IsIn-old_cookies overriden n o c missing))

  IsIn-saved_cookies :
      (store : CookieStore http crate_) (c : Cookie)
      → IsIn c (saved_cookies http crate_ store) ↔ (
          ((get store.cookies (name c) ≡ some c) × (lookup (name c) store.overriden_cookies ≡ none))
          ⊎ IsIn c (old_cookies http crate_ store.overriden_cookies))
  unfolding saved_cookies
  IsIn-saved_cookies store c =
      let kept = not_overriden http crate_ store.overriden_cookies (iter store.cookies) in
      let old = old_cookies http crate_ store.overriden_cookies in
      ground (
        arith,
        IsIn-append c kept old,
        IsIn-not_overriden store.overriden_cookies (iter store.cookies) c,
        crate_.iter_iff store.cookies c,
      )

  -- What an override makes of the store.
  override_cookie_lem :
      (n v : Text) (store : CookieStore http crate_)
      → (c : Cookie) × ((name c ≡ n)
          × (override_cookie http crate_ n v store ≡ record store {
            cookies = crate_.add store.cookies c;
            overriden_cookies = insert n (get store.cookies n) store.overriden_cookies;
          }))
  unfolding override_cookie
  override_cookie_lem n v store = elim (Option-cases (get store.cookies n)) [
    | inl x ↦ (crate_.new n v, (crate_.name-new n v, rw (x, override_cookie) refl))
    | inr (c, x) ↦ (
      crate_.set_value c v,
      (
        crate_.name-set_value c v ∙ crate_.get_name store.cookies n c x,
        rw (x, override_cookie) refl,
      ),
    )
  ]

  -- An override is not saved: the first override of a name changes nothing in the cookies that are
  -- saved, neither when there is a cookie with that name, which is still saved with its old value, nor
  -- when there is none.
  pub saved_cookies-override_cookie :
      (n v : Text) (store : CookieStore http crate_) (c : Cookie)
      → lookup n store.overriden_cookies ≡ none
      → IsIn c (saved_cookies http crate_ (override_cookie http crate_ n v store))
        ↔ IsIn c (saved_cookies http crate_ store)
  saved_cookies-override_cookie n v store c first =
      let (d, (named, e)) = override_cookie_lem n v store in
      rw e (
        ground (
          arith,
          IsIn-saved_cookies
              (record store {
                cookies = crate_.add store.cookies d;
                overriden_cookies = insert n (get store.cookies n) store.overriden_cookies;
              })
              c,
          IsIn-saved_cookies store c,
          IsIn-old_cookies store.overriden_cookies n (get store.cookies n) c first,
          crate_.get-add store.cookies d (name c),
          lookup-insert n (name c) (get store.cookies n) store.overriden_cookies,
          crate_.get_name store.cookies n c,
          eqb_iff n (name c),
          eqb_iff (name d) (name c),
        ))
