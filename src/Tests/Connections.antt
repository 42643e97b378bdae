-- ===== src/Tests/Connections.antt =====
-- The pool of connections, and fetches over it.
use mantalon.Base.{
  false, map, concat, ok, ℕ, List, [], ◌∷◌, some, true, Text, codes, ◌≡◌, ◌↔◌, refl,
  trim_start_matches,
}
use mathlib.Core.Option
use mantalon.Base.Assoc.{lookup}
use mantalon.Http.{Response, Http, Request, get}
use mantalon.Http.Toy.{toy, UriParts}
use mantalon.Cookies.{CookieStore, add_cookies, cookie_list}
use mantalon.Cookies.Toy.{toy_crate}
use mantalon.Fetch.{with_cookies, proxied_fetch_with_global_cookies}
use mantalon.Pool.{
  dns_name, Net, Pool, Others, get_server, dial, send_over, send_request, ws_url, multiaddr_of,
  get_port, get_address, start_tls, start_plain, is_https,
}

-- A crate whose authorities name the port 8080, and a network in which every host answers with
-- its URL.
abbrev ported : Http
ported = record toy { authority_port = λ a. some 8080 }

abbrev pub net_of : (http : Http) → Net http Text Text
net_of http = record {
  Error = Text;
  Socket = Text;
  Stream = Text;
  Sender = Text;
  try_from = λ host. ok (dns_name host);
  open_socket = ok;
  connect_tls = λ name socket. ok socket;
  handshake_tls = ok;
  handshake = ok;
  is_ready = λ sender. true;
  send = λ sender request. ok (record { status = 200; headers = http.empty; body = sender });
}

abbrev pub uri_at : Text → UriParts
uri_at scheme = record {
  scheme = some scheme;
  authority = some (codes "a.org");
  path_and_query = some (codes "/");
}

abbrev request_to : UriParts → Request toy Text
request_to uri = record { method = get; uri = uri; headers = []; body = [] }

abbrev alone : Others Text
alone = record { meanwhile = λ pool. pool; holds_lock = true }

abbrev empty_pool : Pool Text
empty_pool = record { connections = []; waiting = [] }

abbrev page : Text
page = codes "https://m.org"

abbrev pub at_443 : Text
at_443 = codes "dnsaddr/a.org/tcp/443"

abbrev url_443 : Text
url_443 = codes "wss://m.org/mantalon-connect/dnsaddr/a.org/tcp/443"

address_of_a :
    get_server (net_of toy) (uri_at (codes "https")) ≡ ok (at_443, dns_name (codes "a.org"))
unfolding get_server get_port get_address multiaddr_of mantalon.Base.digits mathlib.Core.Option.bind
address_of_a = refl

dialled_a :
    dial (net_of toy) page at_443 (dns_name (codes "a.org")) (uri_at (codes "https")) ≡ ok url_443
unfolding dial ws_url is_https start_tls start_plain trim_start_matches
dialled_a = refl

-- The pool behind a first request, when the task that waits for the lock has had it.
abbrev request_a : Request toy Text
request_a = request_to (uri_at (codes "https"))

abbrev a_pool : Pool Text
a_pool = record { connections = (at_443, url_443) ∷ []; waiting = [] }

answered_a :
    (send_request (net_of toy) page alone request_a a_pool).1
    ≡ ok (record { status = 200; headers = []; body = url_443 })
unfolding send_request send_over lookup mathlib.Core.Option.bind get_server get_port get_address
    multiaddr_of mantalon.Base.digits
answered_a = refl

abbrev no_cookies : CookieStore toy toy_crate
no_cookies = record { cookies = []; has_cache = false; overriden_cookies = [] }

abbrev response_a : Response toy Text
response_a = record { status = 200; headers = []; body = url_443 }

fetched_a :
    (proxied_fetch_with_global_cookies toy_crate
      (net_of toy)
      page
      (λ store. store)
      alone
      request_a
      no_cookies
      a_pool).2
    ≡ ok response_a
unfolding proxied_fetch_with_global_cookies with_cookies add_cookies cookie_list send_request
    send_over lookup mathlib.Core.Option.bind get_server get_port get_address multiaddr_of
    mantalon.Base.digits
fetched_a = refl
