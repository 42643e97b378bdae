-- ===== src/Tunnel.antt =====
-- The client and the server together: the address that `get_server` of mantalon-client/src/pool.rs
-- writes, on the path of the websocket, as `http_handler` of mantalon-server/src/handler.rs reads it.
pub mod Streams
use mantalon.Base.{
  ℕ, List, [], ◌∷◌, ◌++◌, append_cancel, Option, none, some, ok, true, Text, codes, decimal, ◌≡◌,
  refl, sym, ap, ◌∙◌, subst, starts_with, trim_start_matches, if◌then◌else◌, append_assoc,
  Bool-cases, inl, inr, ◌↔◌,
}
use mantalon.Http.{Http, port_u16, scheme_str, get}
use mantalon.Pool.{Net, dns_name, multiaddr_of, get_server, ws_url}
use mantalon.Pool.Address.{IsPort, get_server_iff}
use mantalon.Server.Dns.{DnsCache, resolve}
use mantalon.Server.Handler.{
  Env, Request, Handled, SocketAddr, Protocol, dnsaddr, tcp, upgraded, host_ips, http_handler,
}
use mantalon.Server.Handler.Admission.{IsAdmitted}
use mantalon.Server.Handler.Relaying.{IsChosen, IsRelayed, http_handler-upgraded_iff}

-- The websocket URL of the page's own origin, in front of any path.
abbrev pub own_ws : Text → Text
own_ws self_origin =
    if starts_with self_origin (codes "https://")
    then codes "wss://" ++ trim_start_matches self_origin (codes "https://")
    else codes "ws://" ++ trim_start_matches self_origin (codes "http://")

-- The request that a browser makes to open a websocket at the URL of `ws_url`, which is at its own origin:
-- a GET with an upgrade, for the path that follows the origin in the URL.
pub record IsOpening (self_origin multiaddr : Text) (request : Request) : Type 0 where
  pub url : ws_url self_origin multiaddr ≡ own_ws self_origin ++ request.path
  pub method : request.method ≡ get
  pub upgrade : request.is_upgrade ≡ true

abbrev connect_request : Text → Request
connect_request multiaddr = record {
  path = codes "/mantalon-connect/" ++ multiaddr;
  method = get;
  is_upgrade = true;
}

ws_url-own_ws :
    (self_origin multiaddr : Text)
    → ws_url self_origin multiaddr ≡ own_ws self_origin ++ (codes "/mantalon-connect/" ++ multiaddr)
unfolding ws_url
ws_url-own_ws self_origin multiaddr =
    elim (Bool-cases (starts_with self_origin (codes "https://"))) [
      | inl x ↦ rw (x, ws_url) (simp append_assoc)
      | inr x ↦ rw (x, ws_url) (simp append_assoc)
    ]

opening-request :
    (self_origin multiaddr : Text) (request : Request)
    → IsOpening self_origin multiaddr request
    → request ≡ connect_request multiaddr
opening-request self_origin multiaddr request o =
    let path : request.path ≡ codes "/mantalon-connect/" ++ multiaddr =
      append_cancel (own_ws self_origin) request.path (codes "/mantalon-connect/" ++ multiaddr)
        (sym o.url ∙ ws_url-own_ws self_origin multiaddr) in
    λ i. record { path = path i; method = o.method i; is_upgrade = o.upgrade i }

IsPort-unique :
    (named : Option ℕ) (scheme : Option Text) (p q : ℕ)
    → IsPort named scheme p
    → IsPort named scheme q
    → p ≡ q
IsPort-unique (some n) scheme p q h k = sym h ∙ k
IsPort-unique none none p q h k = absurd h
IsPort-unique none (some s) p q (inl (_, h)) (inl (_, k)) = h ∙ sym k
IsPort-unique none (some s) p q (inr (_, h)) (inr (_, k)) = h ∙ sym k
IsPort-unique none (some s) p q (inl (a, _)) (inr (b, _)) = cc
IsPort-unique none (some s) p q (inr (a, _)) (inl (b, _)) = cc

-- The address is the first of those that the domain resolves to which can be connected to at the
-- port, and the handshake is accepted.
abbrev pub IsReached : Env → DnsCache → (domain : Text) → ℕ → SocketAddr → Type 0
IsReached env cache domain port addr =
    IsChosen env.connects (resolve env.lookup domain env.cached cache).0 port addr
    × (env.accepts ≡ true)

module _ {http : Http} {Body Incoming : Type 0} (net : Net http Body Incoming) where
  -- The multiaddr of a DNS name at a port, as the server gets it with the slash of the path.
  address_text :
      (uri : http.Uri) (multiaddr domain : Text) (port : ℕ)
      → get_server net uri ≡ ok (multiaddr, dns_name domain)
      → IsPort (port_u16 http uri) (scheme_str http uri) port
      → codes "/" ++ multiaddr ≡ codes "/dnsaddr/" ++ domain ++ codes "/tcp/" ++ decimal port
  unfolding multiaddr_of
  address_text uri multiaddr domain port h is_port =
      let (port', host, r) = (get_server_iff net uri multiaddr (dns_name domain)).0 h in
      let same = IsPort-unique (port_u16 http uri) (scheme_str http uri) port' port r.0 is_port in
      let written : codes "dnsaddr/" ++ domain ++ codes "/tcp/" ++ decimal port' ≡ multiaddr =
        cc r.3 in
      ap (λ m. codes "/" ++ m)
        (sym written ∙ ap (λ p. codes "dnsaddr/" ++ domain ++ codes "/tcp/" ++ decimal p) same)

  is_admitted :
      (env : Env) (multiaddr : Text) (protocols : List Protocol)
      → env.parse (codes "/" ++ multiaddr) ≡ some protocols
      → IsAdmitted env (connect_request multiaddr) protocols
  is_admitted env multiaddr protocols parsed = record {
    addr = codes "/" ++ multiaddr;
    path = (refl, inr (multiaddr, refl));
    method = inl refl;
    upgrade = refl;
    address = parsed;
  }

  relayed-IsReached :
      (env : Env) (cache : DnsCache) (multiaddr domain : Text) (port : ℕ) (addr : SocketAddr)
      → env.parse (codes "/" ++ multiaddr) ≡ some (dnsaddr domain ∷ tcp port ∷ [])
      → IsRelayed env addr (connect_request multiaddr) cache
      → IsReached env cache domain port addr
  unfolding host_ips
  relayed-IsReached env cache multiaddr domain port addr parsed r =
      let at : r.admitted.addr ≡ codes "/" ++ multiaddr = sym (
        append_cancel (codes "/mantalon-connect") (codes "/" ++ multiaddr) r.admitted.addr
          r.admitted.path.0) in
      let read : some (r.host ∷ tcp r.port ∷ []) ≡ some (dnsaddr domain ∷ tcp port ∷ []) =
        sym r.admitted.address ∙ ap env.parse at ∙ parsed in
      let host : r.host ≡ dnsaddr domain = cc in
      let ports : r.port ≡ port = cc in
      let hosts : some (resolve env.lookup domain env.cached cache) ≡ some (r.ips, r.cache_behind) =
        ap (λ p. host_ips env p cache) (sym host) ∙ r.hosts in
      let ips : r.ips ≡ (resolve env.lookup domain env.cached cache).0 = cc hosts in
      (
        subst (λ l. IsChosen env.connects l port addr) ips
            (subst (λ p. IsChosen env.connects r.ips p addr) ports r.chosen),
        r.accepted,
      )

  connected-IsReached :
      (uri : http.Uri) (multiaddr domain : Text) (port : ℕ) (env : Env) (cache : DnsCache)
      (addr : SocketAddr)
      → get_server net uri ≡ ok (multiaddr, dns_name domain)
      → IsPort (port_u16 http uri) (scheme_str http uri) port
      → env.parse (codes "/dnsaddr/" ++ domain ++ codes "/tcp/" ++ decimal port)
        ≡ some (dnsaddr domain ∷ tcp port ∷ [])
      → ((h : Handled) × (http_handler env (connect_request multiaddr) cache ≡ some h)
          × (h.reply ≡ upgraded addr))
        ↔ IsReached env cache domain port addr
  unfolding host_ips
  connected-IsReached uri multiaddr domain port env cache addr h is_port parses =
      let parsed = ap env.parse (address_text uri multiaddr domain port h is_port) ∙ parses in
      let relayed = http_handler-upgraded_iff env (connect_request multiaddr) cache addr in
      (
        (λ up. relayed-IsReached env cache multiaddr domain port addr parsed (relayed.0 up)),
        λ (chosen, accepted). relayed.1 (record {
          host = dnsaddr domain;
          port = port;
          ips = (resolve env.lookup domain env.cached cache).0;
          cache_behind = (resolve env.lookup domain env.cached cache).1;
          admitted = is_admitted env multiaddr (dnsaddr domain ∷ tcp port ∷ []) parsed;
          hosts = refl;
          chosen = chosen;
          accepted = accepted;
        }),
      )

  -- Client and server agree on an address: for a URI that stands for a port and whose host is a DNS name, where
  -- the multiaddr of that name and port parses to them, the request by which the browser opens a
  -- websocket at the URL that the client makes of the address of the URI is relayed exactly to the first
  -- address that the server finds for that name which can be connected to at that port, when the
  -- handshake is accepted.
  pub get_server-http_handler :
      (self_origin : Text) (uri : http.Uri) (multiaddr domain : Text) (port : ℕ) (env : Env)
      (cache : DnsCache) (addr : SocketAddr) (request : Request)
      → get_server net uri ≡ ok (multiaddr, dns_name domain)
      → IsPort (port_u16 http uri) (scheme_str http uri) port
      → env.parse (codes "/dnsaddr/" ++ domain ++ codes "/tcp/" ++ decimal port)
        ≡ some (dnsaddr domain ∷ tcp port ∷ [])
      → IsOpening self_origin multiaddr request
      → ((h : Handled) × (http_handler env request cache ≡ some h) × (h.reply ≡ upgraded addr))
        ↔ IsReached env cache domain port addr
  get_server-http_handler self_origin uri multiaddr domain port env cache addr request h is_port
        parses opening =
      subst
        (λ (r : Request).
          ((h : Handled) × (http_handler env r cache ≡ some h) × (h.reply ≡ upgraded addr))
          ↔ IsReached env cache domain port addr)
        (sym (opening-request self_origin multiaddr request opening))
        (connected-IsReached uri multiaddr domain port env cache addr h is_port parses)
