-- ===== src/Tests/Sessions.antt =====
-- A session: a response sets a cookie, and the next request has it.
use mantalon.Base.{List, [], ◌∷◌, none, some, Text, ok, codes, join, ◌≡◌, refl}
use mantalon.Http.{Request, Response, get}
use mantalon.Http.Toy.{uri_of}
use mantalon.Pool.{
  Net, send_request, send_request_new_stream, dial, ws_url, start_plain, is_https, send_when_ready,
  send_over, store, get_server, get_port, get_address, multiaddr_of,
}
use mantalon.Base.Assoc.{lookup}
use mantalon.Cookies.{
  CookieStore, IsIn, accepted, store_all, store_cookies, cookie_list, add_cookies, is_for_host,
  is_for_path,
}
use mantalon.Cookies.Session.{Sets}
use mantalon.Cookies.Toy.{ToyCookie, toy_crate}
use mantalon.MantalonBody.{MantalonBody, empty}
use mantalon.Fetch.{Chunk, with_cookies, proxied_fetch_with_global_cookies}
use mantalon.Fetch.Session.{with_cookies-Sets}
use mantalon.Tests.Fetches.{ported, net, alone, empty_pool, no_cookies}

abbrev pub welcome : Response ported (List Chunk)
welcome = record { status = 200; headers = (codes "set-cookie", codes "id=7") ∷ []; body = [] }

-- A network in which every host sets the cookie.
abbrev pub welcoming : Net ported MantalonBody (List Chunk)
welcoming = record net { send = λ sender request. ok welcome }

abbrev cookie : ToyCookie
cookie = record { name = codes "id"; value = codes "7"; domain = none }

abbrev pub request : Text → Request ported MantalonBody
request url = record { method = get; uri = uri_of url; headers = []; body = empty }

abbrev jar : CookieStore ported toy_crate
jar = record no_cookies { cookies = cookie ∷ [] }

answered :
    (proxied_fetch_with_global_cookies toy_crate welcoming
      (codes "http://m.org")
      (λ s. s)
      alone
      (request (codes "a.org/login"))
      no_cookies
      empty_pool).2
    ≡ ok welcome
unfolding proxied_fetch_with_global_cookies with_cookies add_cookies cookie_list send_request
    send_request_new_stream dial ws_url start_plain is_https send_when_ready send_over store lookup
    mathlib.Core.Option.bind get_server get_port get_address multiaddr_of
    mantalon.Base.trim_start_matches mantalon.Base.digits
answered = refl

kept :
    toy_crate.get jar.cookies (codes "id")
    ≡ toy_crate.get
        (proxied_fetch_with_global_cookies toy_crate welcoming
          (codes "http://m.org")
          (λ s. s)
          alone
          (request (codes "a.org/login"))
          no_cookies
          empty_pool).0.cookies
        (codes "id")
unfolding proxied_fetch_with_global_cookies with_cookies add_cookies cookie_list send_request
    send_request_new_stream dial ws_url start_plain is_https send_when_ready send_over store lookup
    mathlib.Core.Option.bind get_server get_port get_address multiaddr_of store_cookies store_all
    accepted is_for_host mantalon.Base.trim_start_matches mantalon.Base.digits
kept = refl

sets : Sets ported toy_crate (codes "a.org") welcome cookie
unfolding is_for_host
sets = record {
  before = [];
  value = codes "id=7";
  after = [];
  text = codes "id=7";
  listed = refl;
  read = refl;
  parsed = refl;
  hosted = refl;
  last = tt;
}

with_cookies-Sets_example :
    (ported.get_all
        (with_cookies toy_crate welcoming
          (codes "http://m.org")
          jar
          (request (codes "a.org/account"))).headers
        (codes "cookie")
      ≡ codes "id=7" ∷ [])
    × IsIn (codes "id=7") (
        cookie_list ported toy_crate
          (codes "a.org")
          (codes "/account")
          (toy_crate.iter jar.cookies))
unfolding is_for_host is_for_path cookie_list
with_cookies-Sets_example =
    with_cookies-Sets toy_crate welcoming (codes "http://m.org") (λ s. s) alone
      (request (codes "a.org/login")) (request (codes "a.org/account")) no_cookies jar empty_pool
      welcome (codes "a.org") (codes "a.org") cookie (codes "id=7") answered refl sets kept refl
      refl refl refl
