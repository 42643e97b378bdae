-- ===== src/Tests/Serving.antt =====
-- The running server, and the addresses of its clients.
use mantalon.Base.{
  trim_start_matches, ℕ, List, [], ◌∷◌, ◌++◌, Option, none, some, Bool, true, false, Text, Result,
  ok, err, codes, any, eqb, ◌↔◌, inr, ◌==◌, ==_iff, if◌then◌else◌, any-IsFree, ◌≡◌, ◌||◌, refl,
  subst, arith, Bool-cases, inl, inr,
}
use mathlib.Core.Option
use mantalon.Base.Assoc.{lookup, insert}
use mantalon.Http.{port_u16, scheme_str, get}
use mantalon.Http.Toy.{toy, UriParts}
use mantalon.Server.Dns.{v4, v6, resolve}
use mantalon.Server.Handler.{Env, Request, dnsaddr, tcp, http_handler, Handled, upgraded}
use mantalon.Server.Serving.{
  State, accept, tick, answer, Reach, start, later, initial, spawn, reply,
}
use mantalon.Server.Serving.Origins.{HasOrigin, Reach-HasOrigin}
use mantalon.Server.Serving.Entries.{IsEntry, Reach-IsEntry}
use mantalon.Pool.{
  Net, ServerName, dns_name, get_server, get_port, get_address, multiaddr_of, ws_url,
}
use mantalon.Pool.Address.{IsPort}
use mantalon.Tunnel.{IsReached, IsOpening, get_server-http_handler}
use mantalon.Pool.Separation.{IsName, get_server-injective}
use mantalon.Tests.Connections.{net_of, uri_at, at_443}
use mantalon.Tests.Proxy.{env, multiaddr, request, domain, target}

-- One request comes in at 1000, and its DNS answer a second later.
abbrev asking : State
asking = record (spawn request (initial 1000)) { now = 1001 }

abbrev handled : Handled
handled = record {
  reply = upgraded target;
  attempts = record { ip = v6 7; port = 443 } ∷ target ∷ [];
  cache = (domain, (1301, v6 7 ∷ v4 5 ∷ [])) ∷ [];
}

is_handled : http_handler (env multiaddr) request [] ≡ some handled
unfolding http_handler resolve lookup insert
is_handled = refl

abbrev answered : State
answered = reply [] handled asking

asking-Reach : Reach [] asking
unfolding spawn initial
asking-Reach = later (later (start 1000) (accept request)) (tick 1001 (omega arith))

answered-Reach : Reach ((env multiaddr, request) ∷ []) answered
unfolding spawn initial
answered-Reach = later asking-Reach (
    answer [] [] (record { request = request; cached = []; started = 1000 }) (env multiaddr) handled
      refl refl refl (omega arith) is_handled)

Reach-IsEntry_example : IsEntry ((env multiaddr, request) ∷ []) 1001 domain (1301, v6 7 ∷ v4 5 ∷ [])
unfolding reply lookup spawn initial
Reach-IsEntry_example = Reach-IsEntry domain (1301, v6 7 ∷ v4 5 ∷ []) answered-Reach refl

Reach-HasOrigin_example :
    HasOrigin [] 1001
      (env multiaddr)
      (record { request = request; cached = []; started = 1000 })
      target.ip
unfolding spawn initial
Reach-HasOrigin_example =
    Reach-HasOrigin [] [] (record { request = request; cached = []; started = 1000 })
      (env multiaddr) handled target asking-Reach refl refl refl is_handled refl

-- Names without a slash only.
abbrev name_of : Text → Result Text ServerName
name_of host = if any (λ c. c == b'/') host then err host else ok (dns_name host)

name_of-IsName : (host : Text) (n : ServerName) → name_of host ≡ ok n → IsName n
name_of-IsName host n = elim (Bool-cases (any (λ c. c == b'/') host)) [
  | inl x ↦ rw x (λ h. cc)
  | inr x ↦
      rw x (λ h. let same : dns_name host ≡ n = cc in subst IsName same (any-IsFree b'/' host x))
]

abbrev strict_net : Net toy Text Text
strict_net = record (net_of toy) { try_from = name_of }

address_of_a :
    get_server strict_net (uri_at (codes "https")) ≡ ok (at_443, dns_name (codes "a.org"))
unfolding get_server get_port get_address multiaddr_of mantalon.Base.digits mathlib.Core.Option.bind
address_of_a = refl

-- Another page of the same server.
abbrev page_uri : UriParts
page_uri = record (uri_at (codes "https")) { path_and_query = some (codes "/b") }

address_of_page : get_server strict_net page_uri ≡ ok (at_443, dns_name (codes "a.org"))
unfolding get_server get_port get_address multiaddr_of mantalon.Base.digits mathlib.Core.Option.bind
address_of_page = refl

get_server-injective_example :
    (dns_name (codes "a.org") ≡ dns_name (codes "a.org"))
    × ((port : ℕ) × (IsPort
            (port_u16 toy (uri_at (codes "https")))
            (scheme_str toy (uri_at (codes "https")))
            port
          × IsPort (port_u16 toy page_uri) (scheme_str toy page_uri) port))
get_server-injective_example =
    get_server-injective strict_net (uri_at (codes "https")) page_uri at_443
      (dns_name (codes "a.org")) (dns_name (codes "a.org")) name_of-IsName address_of_a
      address_of_page

-- The address that the client writes is read by the server.
abbrev reads_at_443 : Env
reads_at_443 = record (env multiaddr) {
  parse = λ s.
      if eqb s (codes "/dnsaddr/a.org/tcp/443")
      then some (dnsaddr (codes "a.org") ∷ tcp 443 ∷ [])
      else none;
}

abbrev opened : Request
opened = record {
  path = codes "/mantalon-connect/dnsaddr/a.org/tcp/443";
  method = get;
  is_upgrade = true;
}

opened-IsOpening : IsOpening (codes "https://m.org") at_443 opened
unfolding ws_url trim_start_matches
opened-IsOpening = record { url = refl; method = refl; upgrade = refl }

get_server-http_handler_example :
    ((h : Handled) × (http_handler reads_at_443 opened [] ≡ some h) × (h.reply ≡ upgraded target))
    ↔ IsReached reads_at_443 [] (codes "a.org") 443 target
unfolding mantalon.Base.digits mathlib.Core.Option.bind
get_server-http_handler_example =
    get_server-http_handler strict_net (codes "https://m.org") (uri_at (codes "https")) at_443
      (codes "a.org") 443 reads_at_443 [] target opened address_of_a (inr (refl, refl)) refl
      opened-IsOpening
