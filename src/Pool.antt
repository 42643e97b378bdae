-- ===== src/Pool.antt =====
-- The pool of connections of mantalon-client/src/pool.rs: the address of a request, and one HTTP/2
-- connection for each address, over a websocket to the server. Sockets, TLS and the HTTP/2 client
-- are parameters; what other tasks do to the shared map while a request waits is an argument.
pub mod Address
pub mod Separation
pub mod Reuse
pub mod Provenance
pub mod Display
use mantalon.Base.{
  decimal, decimals, digits, Result, err, ok, ℕ, zero, suc, ◌+◌, ◌*◌, ◌/◌, ◌%◌, List, [], ◌∷◌, ◌++◌,
  Option, none, some, Bool, true, false, Text, codes, eqb, join, starts_with, trim_start_matches,
  ltb, if◌then◌else◌, ◌||◌, ◌≡◌, ◌⊎◌, inl, inr, refl,
}
use mantalon.Base.Assoc.{Assoc, lookup, insert, remove}
use mantalon.Http.{Http, Request, Response, port_u16, scheme_str, uri_host}

-- `rustls::pki_types::ServerName`, with the bytes of an IPv6 address in network order
pub data ServerName : Type 0 where
  dns_name : Text → ServerName
  ip_v4 : (a b c d : ℕ) → ServerName
  ip_v6 : List ℕ → ServerName
  other_name : ServerName

-- The errors of the libraries are those of one type.
pub data SendRequestError (E : Type 0) : Type 0 where
  no_scheme no_host unsupported_server_name_type connection_not_ready : SendRequestError E
  unsupported_scheme : Text → SendRequestError E
  server_name_parse_error websocket tls_connect http_handshake hyper : E → SendRequestError E

-- The bytes of an IPv6 address read as `u16`s by a machine that stores the low byte first, as the
-- WebAssembly target does.
unfoldable pub u16s : List ℕ → List ℕ
u16s (low ∷ high ∷ bytes) = (low + high * 256) ∷ u16s bytes
u16s _ = []

unfoldable pub multiaddr_of : ServerName → ℕ → Option Text
unfolding digits u16s
multiaddr_of (dns_name domain) port =
    some (codes "dnsaddr/" ++ domain ++ codes "/tcp/" ++ decimal port)
multiaddr_of (ip_v4 a b c d) port = some (
    codes "ip4/"
    ++ join (decimals (a ∷ b ∷ c ∷ d ∷ [])) (codes ".")
    ++ codes "/tcp/"
    ++ decimal port)
multiaddr_of (ip_v6 bytes) port =
    some (codes "ip6/" ++ join (decimals (u16s bytes)) (codes ":") ++ codes "/tcp/" ++ decimal port)
multiaddr_of other_name port = none

-- What the client uses of rustls, of the browser's websockets and of hyper.
pub record Net (http : Http) (Body Incoming : Type 0) : Type 1 where
  pub Error : Type 0
  pub Socket : Type 0
  pub Stream : Type 0
  pub Sender : Type 0
  -- `ServerName::try_from`
  pub try_from : Text → Result Error ServerName
  -- `WebSocket::new` and the end of its connecting
  pub open_socket : Text → Result Error Socket
  pub connect_tls : ServerName → Socket → Result Error Stream
  pub handshake_tls : Stream → Result Error Sender
  pub handshake : Socket → Result Error Sender
  pub is_ready : Sender → Bool
  pub send : Sender → Request http Body → Result Error (Response http Incoming)

-- The map under the lock, and the tasks that wait for the lock to put a connection into it.
pub record Pool (Sender : Type 0) : Type 0 where
  pub connections : Assoc Sender
  pub waiting : List (Text × Sender)

module _ {Sender : Type 0} where
  -- The write of a connection, at once when nobody holds the lock and else by a task.
  unfoldable pub store : (locked : Bool) → Text → Sender → Pool Sender → Pool Sender
  store false multiaddr sender pool = record pool {
    connections = insert multiaddr sender pool.connections;
  }
  store true multiaddr sender pool = record pool {
    waiting = pool.waiting ++ (multiaddr, sender) ∷ [];
  }

  -- The task that has waited longest for the lock gets it.
  unfoldable pub run_waiting : Pool Sender → Pool Sender
  run_waiting pool = elim pool.waiting [
    | [] ↦ pool
    | (multiaddr, sender) ∷ waiting ↦ record {
      connections = insert multiaddr sender pool.connections;
      waiting = waiting;
    }
  ]

  -- `on_close` of the socket of an address
  unfoldable pub on_close : Text → Pool Sender → Pool Sender
  on_close multiaddr pool = record pool { connections = remove multiaddr pool.connections }

unfoldable pub ws_url : (self_origin multiaddr : Text) → Text
ws_url self_origin multiaddr =
    if starts_with self_origin (codes "https://")
    then codes "wss://"
      ++ trim_start_matches self_origin (codes "https://")
      ++ codes "/mantalon-connect/"
      ++ multiaddr
    else codes "ws://"
      ++ trim_start_matches self_origin (codes "http://")
      ++ codes "/mantalon-connect/"
      ++ multiaddr

-- What the other tasks do while a request opens its connection, and whether one of them holds the
-- lock when the request stores it.
pub record Others (Sender : Type 0) : Type 0 where
  pub meanwhile : Pool Sender → Pool Sender
  pub holds_lock : Bool

module _ {http : Http} {Body Incoming : Type 0} (net : Net http Body Incoming) where
  open net use {
    Error, Socket, Sender, try_from, open_socket, connect_tls, handshake_tls, handshake, is_ready,
    send,
  }

  -- The port of a URI, from the one it names and its scheme.
  unfoldable pub get_port : Option ℕ → Option Text → Result (SendRequestError Error) ℕ
  get_port (some port) scheme = ok port
  get_port none none = err no_scheme
  get_port none (some scheme) =
      if eqb scheme (codes "http")
      then ok 80
      else if eqb scheme (codes "https")
      then ok 443
      else err (unsupported_scheme scheme)

  -- The name of the host, and the address of it at a port.
  unfoldable pub get_address : Option Text → ℕ → Result (SendRequestError Error) (Text × ServerName)
  get_address none port = err no_host
  get_address (some host) port = elim (try_from host) [
    | err e ↦ err (server_name_parse_error e)
    | ok name ↦ elim (multiaddr_of name port) [
      | none ↦ err unsupported_server_name_type
      | some multiaddr ↦ ok (multiaddr, name)
    ]
  ]

  unfoldable pub get_server : http.Uri → Result (SendRequestError Error) (Text × ServerName)
  get_server uri = elim (get_port (port_u16 http uri) (scheme_str http uri)) [
    | err e ↦ err e
    | ok port ↦ get_address (uri_host http uri) port
  ]

  unfoldable pub start_tls : ServerName → Socket → Result (SendRequestError Error) Sender
  start_tls name socket = elim (connect_tls name socket) [
    | err e ↦ err (tls_connect e)
    | ok stream ↦ elim (handshake_tls stream) [
      | err e ↦ err (http_handshake e)
      | ok sender ↦ ok sender
    ]
  ]

  unfoldable pub start_plain : Socket → Result (SendRequestError Error) Sender
  start_plain socket = elim (handshake socket) [
    | err e ↦ err (http_handshake e)
    | ok sender ↦ ok sender
  ]

  -- `uri.scheme().map(|s| s.as_str()).unwrap_or_default() == "https"`
  unfoldable pub is_https : http.Uri → Bool
  is_https uri = elim (scheme_str http uri) [
    | none ↦ false
    | some scheme ↦ eqb scheme (codes "https")
  ]

  -- The new connection of a request.
  unfoldable pub dial :
      (self_origin multiaddr : Text)
      → ServerName
      → http.Uri
      → Result (SendRequestError Error) Sender
  dial self_origin multiaddr name uri = elim (open_socket (ws_url self_origin multiaddr)) [
    | err e ↦ err (websocket e)
    | ok socket ↦
        let encrypted = start_tls name socket in
        let plain = start_plain socket in if is_https uri then encrypted else plain
  ]

  unfoldable pub send_over :
      Sender → Request http Body → Result (SendRequestError Error) (Response http Incoming)
  send_over sender request = elim (send sender request) [
    | err e ↦ err (hyper e)
    | ok response ↦ ok response
  ]

  unfoldable pub send_when_ready :
      Sender → Request http Body → Result (SendRequestError Error) (Response http Incoming)
  send_when_ready sender request =
      if is_ready sender then send_over sender request else err connection_not_ready

  -- The pool behind a request, and what the request gives.
  abbrev pub Answered : Type 0
  Answered = Pool Sender × Result (SendRequestError Error) (Response http Incoming)

  -- `Pool::send_request_new_stream`; `reading` tells whether the caller still holds the lock.
  unfoldable pub send_request_new_stream :
      (self_origin : Text) (reading : Bool)
      → Others Sender
      → Request http Body
      → Pool Sender
      → Answered
  send_request_new_stream self_origin reading others request pool = elim (get_server request.uri) [
    | err e ↦ (pool, err e)
    | ok (multiaddr, name) ↦ elim (dial self_origin multiaddr name request.uri) [
      | err e ↦ (others.meanwhile pool, err e)
      | ok sender ↦ (
        store (reading || others.holds_lock) multiaddr sender (others.meanwhile pool),
        send_when_ready sender request,
      )
    ]
  ]

  -- `Pool::send_request`
  unfoldable pub send_request :
      (self_origin : Text) → Others Sender → Request http Body → Pool Sender → Answered
  send_request self_origin others request pool = elim (get_server request.uri) [
    | err e ↦ (pool, err e)
    | ok (multiaddr, _) ↦ elim (lookup multiaddr pool.connections) [
      | none ↦ send_request_new_stream self_origin false others request pool
      | some sender ↦
          let reused : Answered = (pool, send_over sender request) in
          let anew = send_request_new_stream self_origin true others request pool in
          if is_ready sender then reused else anew
    ]
  ]
