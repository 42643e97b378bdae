-- ===== src/Tests/CookieStores.antt =====
-- The cookie store.
use mantalon.Base.{
  List, [], ◌∷◌, ◌++◌, none, some, true, false, Text, ok, codes, join, if◌then◌else◌, ◌≡◌, ◌↔◌, ◌⊎◌,
  refl,
}
use mantalon.Base.Assoc.{lookup}
use mantalon.Http.{Request, Response, get}
use mantalon.Http.Toy.{toy, UriParts}
use mantalon.Cookies.{
  CookieStore, IsIn, is_for_host, is_for_path, cookie_list, add_cookies, accepted, store_all,
  store_cookies, saved_cookies, save, override_cookie, not_overriden, is_overriden, old_cookies,
}
use mantalon.Cookies.Toy.{ToyCookie, toy_crate}
use mantalon.Cookies.Acceptance.{IsAccepted, store_cookies-IsAccepted}
use mantalon.Cookies.Sending.{IsSent, add_cookies_lem}

abbrev session : ToyCookie
session = record { name = codes "id"; value = codes "7"; domain = some (codes "a.org") }

abbrev foreign : ToyCookie
foreign = record { name = codes "x"; value = codes "1"; domain = some (codes "b.org") }

abbrev session_store : CookieStore toy toy_crate
session_store = record {
  cookies = foreign ∷ session ∷ [];
  has_cache = true;
  overriden_cookies = [];
}

abbrev uri : UriParts
uri = record {
  scheme = some (codes "https");
  authority = some (codes "www.a.org");
  path_and_query = some (codes "/");
}

abbrev request : Request toy Text
request = record {
  method = get;
  uri = uri;
  headers = (codes "cookie", codes "old") ∷ [];
  body = [];
}

add_cookies_lem_example :
    (sent : Request toy Text) × ((add_cookies toy toy_crate session_store request ≡ ok sent)
      × (sent.uri ≡ uri)
      × ((k : Text)
          → toy.get_all sent.headers k ≡ (
              if toy.name_eq (codes "cookie") k
              then codes "id=7" ∷ []
              else toy.get_all request.headers k))
      × ((text : Text)
          → IsIn text (
              cookie_list toy toy_crate
                (codes "www.a.org")
                (codes "/")
                (toy_crate.iter session_store.cookies))
            ↔ ((c : ToyCookie) × ((toy_crate.get session_store.cookies c.name ≡ some c)
                  × IsSent toy toy_crate (codes "www.a.org") (codes "/") c text))))
unfolding cookie_list is_for_host is_for_path
add_cookies_lem_example =
    add_cookies_lem toy toy_crate session_store request (codes "www.a.org") (codes "id=7") refl refl

abbrev response : Response toy Text
response = record { status = 200; headers = (codes "set-cookie", codes "id=8") ∷ []; body = [] }

abbrev renewed : ToyCookie
renewed = record { name = codes "id"; value = codes "8"; domain = none }

store_cookies-IsAccepted_example :
    (toy_crate.get session_store.cookies (codes "id") ≡ some renewed)
    ⊎ IsAccepted toy toy_crate (codes "www.a.org") (codes "id=8" ∷ []) renewed
unfolding store_cookies store_all accepted is_for_host
store_cookies-IsAccepted_example =
    store_cookies-IsAccepted toy toy_crate uri (codes "www.a.org") response session_store
      (codes "id") renewed refl refl

-- Behind a second override of a name the value of the first is saved.
saves_override :
    save toy toy_crate (
      override_cookie toy toy_crate
        (codes "id")
        (codes "10")
        (override_cookie toy toy_crate (codes "id") (codes "9") session_store))
    ≡ some (codes "x=1\nid=9")
unfolding save saved_cookies override_cookie not_overriden is_overriden old_cookies lookup
    mantalon.Base.Assoc.insert
saves_override = refl

-- A cookie of `a.org` is for `evila.org`.
crosses_labels : is_for_host toy toy_crate (codes "evila.org") session ≡ true
unfolding is_for_host
crosses_labels = refl
