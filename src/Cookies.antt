-- ===== src/Cookies.antt =====
-- `CookieStore` of mantalon-client/src/cookies.rs. The crate `cookie` is a parameter: its cookies, and
-- its jar by what it holds under each name.
pub mod Acceptance
pub mod Overrides
pub mod Lines
pub mod Persistence
pub mod Sending
pub mod Session
pub mod Toy
use mantalon.Base.{
  ℕ, zero, suc, List, [], ◌∷◌, ◌++◌, Option, none, some, Bool, true, false, not, ◌&&◌, Text, Result,
  err, ok, codes, eqb, join, map, ends_with, starts_with, if◌then◌else◌, ◌==◌, ◌≡◌, ◌↔◌, ◌⊎◌,
}
use mantalon.Base.Assoc.{Assoc, lookup, insert}
use mantalon.Http.{Http, Request, Response, uri_host, uri_path}

abbrev pub IsIn : {A : Type 0} → A → List A → Type 0
IsIn a [] = ⊥
IsIn a (x ∷ xs) = (x ≡ a) ⊎ IsIn a xs

pub record CookieCrate : Type 1 where
  pub Cookie : Type 0
  pub CookieJar : Type 0
  pub name : Cookie → Text
  pub domain : Cookie → Option Text
  pub path : Cookie → Option Text
  -- `cookie.encoded().to_string()`, and that of `cookie.stripped()`
  pub encoded : Cookie → Text
  pub stripped_encoded : Cookie → Text
  pub parse_encoded : Text → Option Cookie
  pub new : (name value : Text) → Cookie
  pub set_value : Cookie → Text → Cookie
  pub empty_jar : CookieJar
  pub add : CookieJar → Cookie → CookieJar
  pub get : CookieJar → Text → Option Cookie
  pub iter : CookieJar → List Cookie
  pub name-new : (n v : Text) → name (new n v) ≡ n
  pub name-set_value : (c : Cookie) (v : Text) → name (set_value c v) ≡ name c
  pub get-empty_jar : (n : Text) → get empty_jar n ≡ none
  pub get-add :
      (jar : CookieJar) (c : Cookie) (n : Text)
      → get (add jar c) n ≡ (if eqb (name c) n then some c else get jar n)
  pub get_name : (jar : CookieJar) (n : Text) (c : Cookie) → get jar n ≡ some c → name c ≡ n
  -- the iterator gives each cookie under its name
  pub iter_iff : (jar : CookieJar) (c : Cookie) → IsIn c (iter jar) ↔ (get jar (name c) ≡ some c)

pub data CookieError : Type 0 where
  no_origin invalid_header : CookieError

-- `str::lines`: a return counts to the end of its line only in front of a line feed
abbrev pub without_return : Text → Text
without_return [] = []
without_return (x ∷ []) = if x == b'\r' then [] else x ∷ []
without_return (x ∷ y ∷ s) = x ∷ without_return (y ∷ s)

-- The lines of a text, behind the bytes of the line that has begun.
pub lines_from : Text → Text → List Text
lines_from [] [] = []
lines_from (b ∷ begun) [] = (b ∷ begun) ∷ []
lines_from begun (x ∷ s) =
    let ended = without_return begun ∷ lines_from [] s in
    let longer = lines_from (begun ++ x ∷ []) s in if x == b'\n' then ended else longer

unfoldable pub lines : Text → List Text
unfolding lines_from
lines s = lines_from [] s

module _ (http : Http) (crate_ : CookieCrate) where
  open crate_ use {
    Cookie, CookieJar, name, domain, path, encoded, stripped_encoded, parse_encoded, add, get, iter,
  }

  -- `CookieStoreInner`; `has_cache` tells whether `cache_storagage` is there.
  pub record CookieStore : Type 0 where
    pub cookies : CookieJar
    pub has_cache : Bool
    pub overriden_cookies : Assoc (Option Cookie)

  -- A test on an attribute, which a cookie without it passes.
  abbrev pub passes : (Text → Bool) → Option Text → Bool
  passes test none = true
  passes test (some attribute) = test attribute

  unfoldable pub is_for_host : Text → Cookie → Bool
  is_for_host host cookie = passes (ends_with host) (domain cookie)

  unfoldable pub is_for_path : Text → Cookie → Bool
  is_for_path uri_path cookie = passes (starts_with uri_path) (path cookie)

  -- The loop of `add_cookies`.
  unfoldable pub cookie_list : (host path : Text) → List Cookie → List Text
  cookie_list host path [] = []
  cookie_list host path (cookie ∷ cookies) =
      let rest = cookie_list host path cookies in
      if not (is_for_host host cookie)
      then rest
      else if not (is_for_path path cookie)
      then rest
      else stripped_encoded cookie ∷ rest

  unfoldable pub add_cookies :
      {Body : Type 0} → CookieStore → Request http Body → Result CookieError (Request http Body)
  add_cookies store request = elim (uri_host http request.uri) [
    | none ↦ err no_origin
    | some host ↦
        elim (http.value_from_str
          (join (cookie_list host (uri_path http request.uri) (iter store.cookies)) (codes "; "))) [
            | none ↦ err invalid_header
            | some value ↦ ok (record request {
              headers = http.insert request.headers (http.static_name (codes "cookie")) value;
            })
          ]
  ]

  -- The cookie of a header, where it is a text that is one and is for the host.
  unfoldable pub accepted : Text → http.HeaderValue → Option Cookie
  accepted host value = elim (http.value_to_str value) [
    | none ↦ none
    | some text ↦ elim (parse_encoded text) [
      | none ↦ none
      | some cookie ↦ if is_for_host host cookie then some cookie else none
    ]
  ]

  -- The loop of `store_cookies`, with `changed`.
  unfoldable pub store_all : Text → List http.HeaderValue → Bool → CookieJar → CookieJar × Bool
  store_all host [] changed jar = (jar, changed)
  store_all host (value ∷ values) changed jar = elim (accepted host value) [
    | none ↦ store_all host values changed jar
    | some cookie ↦ store_all host values true (add jar cookie)
  ]

  -- The store behind `store_cookies`, and whether it lets a task save it.
  unfoldable pub store_cookies :
      {Body : Type 0}
      → http.Uri
      → Response http Body
      → CookieStore
      → CookieStore × Result CookieError Bool
  store_cookies uri response store = elim (uri_host http uri) [
    | none ↦ (store, err no_origin)
    | some host ↦
        let (jar, changed) =
          store_all host (http.get_all response.headers (http.static_name (codes "set-cookie")))
            false store.cookies in
        (record store { cookies = jar }, ok changed)
  ]

  -- The loop of `on_storage_opened` on the lines that were saved.
  unfoldable pub load_all : List Text → CookieJar → CookieJar
  load_all [] jar = jar
  load_all (line ∷ saved) jar = elim (parse_encoded line) [
    | none ↦ load_all saved jar
    | some cookie ↦ load_all saved (add jar cookie)
  ]

  -- `none` is a cache that cannot be read.
  unfoldable pub on_storage_opened : Option Text → CookieStore → CookieStore
  unfolding lines
  on_storage_opened none store = record store { has_cache = true }
  on_storage_opened (some match_text) store = record store {
    has_cache = true;
    cookies = load_all (lines match_text) store.cookies;
  }

  -- `overriden_cookies.contains_key(c.name())`
  unfoldable pub is_overriden : Assoc (Option Cookie) → Cookie → Bool
  is_overriden overriden cookie = elim (lookup (name cookie) overriden) [
    | none ↦ false
    | some _ ↦ true
  ]

  unfoldable pub not_overriden : Assoc (Option Cookie) → List Cookie → List Cookie
  not_overriden overriden [] = []
  not_overriden overriden (cookie ∷ cookies) =
      let rest = not_overriden overriden cookies in
      if is_overriden overriden cookie then rest else cookie ∷ rest

  -- `overriden_cookies.values().filter_map(..)`
  unfoldable pub old_cookies : Assoc (Option Cookie) → List Cookie
  old_cookies [] = []
  old_cookies ((_, none) ∷ overriden) = old_cookies overriden
  old_cookies ((_, some cookie) ∷ overriden) = cookie ∷ old_cookies overriden

  unfoldable pub saved_cookies : CookieStore → List Cookie
  saved_cookies store =
      not_overriden store.overriden_cookies (iter store.cookies)
      ++ old_cookies store.overriden_cookies

  -- What `save` puts into the cache, if there is one.
  unfoldable pub save : CookieStore → Option Text
  save store =
      if store.has_cache then some (join (map encoded (saved_cookies store)) (b'\n' ∷ [])) else none

  unfoldable pub override_cookie : (name value : Text) → CookieStore → CookieStore
  override_cookie name value store = elim (get store.cookies name) [
    | none ↦ record store {
      cookies = add store.cookies (crate_.new name value);
      overriden_cookies = insert name none store.overriden_cookies;
    }
    | some cookie ↦ record store {
      cookies = add store.cookies (crate_.set_value cookie value);
      overriden_cookies = insert name (some cookie) store.overriden_cookies;
    }
  ]
