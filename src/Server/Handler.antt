-- ===== src/Server/Handler.antt =====
-- `http_handler` of mantalon-server/src/handler.rs, and the error table of
-- mantalon-server/src/errors.rs. The crates `multiaddr` and `soketto`, the DNS client and the
-- network enter by the record `Env`; of a response its kind is kept, which fixes its status, and
-- not its text.
pub mod Admission
pub mod Relaying
pub mod Errors
use mantalon.Base.{
  ℕ, List, [], ◌∷◌, ◌++◌, Option, none, some, Bool, true, false, not, ◌&&◌, ◌||◌, Text, codes, eqb,
  leb, ltb, if◌then◌else◌, starts_with, drop, length,
}
use mantalon.Http.{Method, get, post}
use mantalon.Server.Dns.{IpAddr, v4, v6, DnsCache, Lookup, resolve}

-- The protocols of a `Multiaddr` that the handler tells apart.
pub data Protocol : Type 0 where
  ip4 ip6 : ℕ → Protocol
  dns dnsaddr : Text → Protocol
  tcp : ℕ → Protocol
  other : Text → Protocol

pub record SocketAddr : Type 0 where
  pub ip : IpAddr
  pub port : ℕ

pub record Request : Type 0 where
  pub path : Text
  pub method : Method
  -- `is_upgrade_request(&req)`
  pub is_upgrade : Bool

pub record Env : Type 0 where
  -- `addr.parse::<Multiaddr>()`, and its protocols
  pub parse : Text → Option (List Protocol)
  pub lookup : Lookup
  -- the cache that `resolve` checks
  pub cached : DnsCache
  -- `TcpStream::connect(addr).await` succeeds
  pub connects : SocketAddr → Bool
  -- `server.receive_request(&req)` succeeds
  pub accepts : Bool

pub data Reply : Type 0 where
  not_found method_not_allowed upgrade_required invalid_address incomplete_address : Reply
  unsupported_protocol : Protocol → Reply
  no_connection : List IpAddr → Reply
  upgrade_failed : Reply
  -- the handshake response, with the task that relays to the address
  upgraded : SocketAddr → Reply

unfoldable pub status : Reply → ℕ
status not_found = 404
status method_not_allowed = 405
status upgrade_required = 426
status invalid_address = 400
status incomplete_address = 400
status (unsupported_protocol p) = 500
status (no_connection ips) = 500
status upgrade_failed = 500
status (upgraded addr) = 101

-- The response, the connections that were tried, and the cache behind the call.
pub record Handled : Type 0 where
  pub reply : Reply
  pub attempts : List SocketAddr
  pub cache : DnsCache

abbrev pub replies : Reply → DnsCache → Handled
replies reply cache = record { reply = reply; attempts = []; cache = cache }

-- `&s[n..]`, where `none` is the panic for an index that is out of range or inside a character
abbrev pub is_boundary : Text → Bool
is_boundary [] = true
is_boundary (x ∷ s) = ltb x 128 || leb 192 x

unfoldable pub slice_from : ℕ → Text → Option Text
slice_from n s =
    if leb n (length s) then (if is_boundary (drop n s) then some (drop n s) else none) else none

-- The loop 'try_ip: the connections that it tries, and the one that it keeps.
unfoldable pub try_ips : (SocketAddr → Bool) → List IpAddr → ℕ → List SocketAddr × Option SocketAddr
try_ips connects [] port = ([], none)
try_ips connects (ip ∷ ips) port =
    let addr : SocketAddr = record { ip = ip; port = port } in
    let rest = try_ips connects ips port in
    if connects addr then (addr ∷ [], some addr) else (addr ∷ rest.0, rest.1)

abbrev pub is_connect_path : Text → Bool
is_connect_path path =
    starts_with path (codes "/mantalon-connect/") || eqb path (codes "/mantalon-connect")

abbrev pub is_get_or_post : Method → Bool
is_get_or_post get = true
is_get_or_post post = true
is_get_or_post _ = false

module _ (env : Env) where
  -- The addresses of the first protocol, with the cache that `resolve` leaves; `none` is a protocol
  -- that is no host.
  unfoldable pub host_ips : Protocol → DnsCache → Option (List IpAddr × DnsCache)
  host_ips (ip4 ip) cache = some (v4 ip ∷ [], cache)
  host_ips (ip6 ip) cache = some (v6 ip ∷ [], cache)
  host_ips (dns domain) cache = some (resolve env.lookup domain env.cached cache)
  host_ips (dnsaddr domain) cache = some (resolve env.lookup domain env.cached cache)
  host_ips _ cache = none

  -- With a transport: no more protocols, then the upgrade.
  unfoldable pub upgrade : SocketAddr → List Protocol → Reply
  upgrade addr [] = if env.accepts then upgraded addr else upgrade_failed
  upgrade addr (p ∷ protocols) = unsupported_protocol p

  abbrev pub connected :
      List IpAddr → List SocketAddr × Option SocketAddr → List Protocol → DnsCache → Handled
  connected ips (attempts, none) protocols cache = record {
    reply = no_connection ips;
    attempts = attempts;
    cache = cache;
  }
  connected ips (attempts, some addr) protocols cache = record {
    reply = upgrade addr protocols;
    attempts = attempts;
    cache = cache;
  }

  unfoldable pub open_transport : List IpAddr → List Protocol → DnsCache → Handled
  unfolding try_ips upgrade
  open_transport ips [] cache = replies incomplete_address cache
  open_transport ips (tcp port ∷ protocols) cache =
      connected ips (try_ips env.connects ips port) protocols cache
  open_transport ips (p ∷ protocols) cache = replies (unsupported_protocol p) cache

  unfoldable pub open_address : List Protocol → DnsCache → Handled
  unfolding host_ips open_transport
  open_address [] cache = replies incomplete_address cache
  open_address (p ∷ protocols) cache = elim (host_ips p cache) [
    | none ↦ replies (unsupported_protocol p) cache
    | some (ips, cache') ↦ open_transport ips protocols cache'
  ]

  unfoldable pub http_handler : Request → DnsCache → Option Handled
  unfolding slice_from open_address
  http_handler req cache =
      if not (is_connect_path req.path)
      then some (replies not_found cache)
      else if not (is_get_or_post req.method)
      then some (replies method_not_allowed cache)
      else if not req.is_upgrade
      then some (replies upgrade_required cache)
      else elim (slice_from 17 req.path) [
        | none ↦ none
        | some addr ↦ elim (env.parse addr) [
          | none ↦ some (replies invalid_address cache)
          | some protocols ↦ some (open_address protocols cache)
        ]
      ]

-- `MantalonError` and its `status_code`
pub data MantalonError : Type 0 where
  invalid_addr : Text → MantalonError
  missing_protocol : MantalonError
  unsupported_protocol_error : Protocol → MantalonError
  connection_error : MantalonError

unfoldable pub status_code : MantalonError → ℕ
status_code (invalid_addr addr) = 400
status_code missing_protocol = 400
status_code (unsupported_protocol_error p) = 500
status_code connection_error = 500
