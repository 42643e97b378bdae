-- ===== src/Server/Handler/Relaying.antt =====
-- Which address an admitted request is relayed to.
use mantalon.Base.{
  ℕ, subst, List, [], ◌∷◌, ◌++◌, Option, none, some, Bool, true, false, ◌≡◌, refl, ◌↔◌, ◌⊎◌, inl,
  inr, arith, sym, ◌∙◌, Bool-cases, Option-cases, ap, All, map,
}
use mantalon.Server.Dns.{IpAddr, DnsCache}
use mantalon.Server.Handler.{
  Env, Request, Handled, SocketAddr, Protocol, tcp, upgraded, unsupported_protocol, try_ips,
  host_ips, upgrade, connected, open_transport, open_address, http_handler,
}
use mantalon.Server.Handler.Admission.{
  IsAdmitted, IsRejected, http_handler-cases, http_handler-IsAdmitted, IsRejected-ne_upgraded,
}

abbrev pub at_port : ℕ → IpAddr → SocketAddr
at_port port ip = record { ip = ip; port = port }

-- The first of the addresses that can be connected to.
pub record IsChosen (connects : SocketAddr → Bool) (ips : List IpAddr) (port : ℕ)
    (addr : SocketAddr) : Type 0 where
  pub pre : List IpAddr
  pub post : List IpAddr
  pub split : ips ≡ pre ++ (addr.ip ∷ post)
  pub port_same : addr.port ≡ port
  pub connected : connects addr ≡ true
  pub refused : All (λ ip. connects (at_port port ip) ≡ false) pre

module _ (connects : SocketAddr → Bool) (port : ℕ) where
  IsChosen-cons :
      (ip : IpAddr) (ips : List IpAddr) (addr : SocketAddr)
      → connects (at_port port ip) ≡ false
      → IsChosen connects ips port addr
      → IsChosen connects (ip ∷ ips) port addr
  IsChosen-cons ip ips addr no_connect c = record {
    pre = ip ∷ c.pre;
    post = c.post;
    split = ap (λ l. ip ∷ l) c.split;
    port_same = c.port_same;
    connected = c.connected;
    refused = (no_connect, c.refused);
  }

  try_ips-IsChosen :
      (ips : List IpAddr) (addr : SocketAddr)
      → (try_ips connects ips port).1 ≡ some addr
      → IsChosen connects ips port addr
  unfolding try_ips
  try_ips-IsChosen [] addr e = cc
  try_ips-IsChosen (ip ∷ ips) addr e = elim (Bool-cases (connects (at_port port ip))) [
    | inl h ↦
        let found : some (at_port port ip) ≡ some addr = rw h at e in
        let same : at_port port ip ≡ addr = cc found in
        subst (λ a. IsChosen connects (ip ∷ ips) port a) same
          (record {
            pre = [];
            post = ips;
            split = refl;
            port_same = refl;
            connected = h;
            refused = tt;
          })
    | inr h ↦ IsChosen-cons ip ips addr h (try_ips-IsChosen ips addr (rw h at e))
  ]

  -- The loop tries the addresses up to the chosen one.
  try_ips_lem :
      (pre post : List IpAddr) (ip : IpAddr)
      → All (λ ip. connects (at_port port ip) ≡ false) pre
      → connects (at_port port ip) ≡ true
      → try_ips connects (pre ++ (ip ∷ post)) port
        ≡ (map (at_port port) pre ++ (at_port port ip ∷ []), some (at_port port ip))
  unfolding try_ips
  try_ips_lem [] post ip r c = rw c refl
  try_ips_lem (p ∷ pre) post ip (r, rs) c = rw (r, try_ips_lem pre post ip rs c) refl

module _ (env : Env) (addr : SocketAddr) where
  connected-upgraded :
      (ips : List IpAddr) (tried : List SocketAddr × Option SocketAddr) (protocols : List Protocol)
      (cache : DnsCache)
      → (connected env ips tried protocols cache).reply ≡ upgraded addr
      → (tried.1 ≡ some addr) × (protocols ≡ []) × (env.accepts ≡ true)
  unfolding upgrade
  connected-upgraded ips (attempts, none) protocols cache e = cc
  connected-upgraded ips (attempts, some a) [] cache e = ground arith
  connected-upgraded ips (attempts, some a) (p ∷ protocols) cache e = cc

  open_transport-upgraded :
      (ips : List IpAddr) (protocols : List Protocol) (cache : DnsCache)
      → (open_transport env ips protocols cache).reply ≡ upgraded addr
      → (port : ℕ) × (protocols ≡ tcp port ∷ [])
        × IsChosen env.connects ips port addr
        × (env.accepts ≡ true)
  unfolding open_transport
  open_transport-upgraded ips [] cache e = cc
  open_transport-upgraded ips (tcp port ∷ protocols) cache e =
      let (found, last, accepted) =
        connected-upgraded ips (try_ips env.connects ips port) protocols cache e in
      (
        port,
        ap (λ l. tcp port ∷ l) last,
        try_ips-IsChosen env.connects port ips addr found,
        accepted,
      )
  open_transport-upgraded ips (_ ∷ protocols) cache e = cc

  -- The address parses to a host and a TCP port and nothing more, the upgrade is accepted, and the
  -- relay goes to the first address of the host that can be connected to.
  pub record IsRelayed (req : Request) (cache : DnsCache) : Type 0 where
    pub host : Protocol
    pub port : ℕ
    pub ips : List IpAddr
    pub cache_behind : DnsCache
    pub admitted : IsAdmitted env req (host ∷ tcp port ∷ [])
    pub hosts : host_ips env host cache ≡ some (ips, cache_behind)
    pub chosen : IsChosen env.connects ips port addr
    pub accepted : env.accepts ≡ true

  open_address-upgraded :
      (req : Request) (protocols : List Protocol) (cache : DnsCache)
      → IsAdmitted env req protocols
      → (open_address env protocols cache).reply ≡ upgraded addr
      → IsRelayed req cache
  unfolding open_address
  open_address-upgraded req [] cache a e = cc
  open_address-upgraded req (host ∷ protocols) cache a e =
      elim (Option-cases (host_ips env host cache)) [
        | inl none_found ↦
            let wrong : unsupported_protocol host ≡ upgraded addr =
              rw (none_found, open_address) at e in
            cc
        | inr ((ips, cache'), found) ↦
            let opened : (open_transport env ips protocols cache').reply ≡ upgraded addr =
              rw (found, open_address) at e in
            let (port, shape, chosen, accepted) =
              open_transport-upgraded ips protocols cache' opened in
            record {
              host = host;
              port = port;
              ips = ips;
              cache_behind = cache';
              admitted = rw shape at a;
              hosts = found;
              chosen = chosen;
              accepted = accepted;
            }
      ]

-- What an admitted request for a host and a port is answered, when an address can be connected to,
-- with the connections that are tried on the way; whatever stands behind the port.
open_address-IsChosen :
    (env : Env) (host : Protocol) (port : ℕ) (protocols : List Protocol) (cache : DnsCache)
    (ips : List IpAddr) (cache_behind : DnsCache) (addr : SocketAddr)
    → host_ips env host cache ≡ some (ips, cache_behind)
    → (c : IsChosen env.connects ips port addr)
    → open_address env (host ∷ tcp port ∷ protocols) cache ≡ record {
      reply = upgrade env addr protocols;
      attempts = map (at_port port) c.pre ++ (addr ∷ []);
      cache = cache_behind;
    }
unfolding open_address
open_address-IsChosen env host port protocols cache ips cache_behind addr hosts c =
    let here : at_port port addr.ip ≡ addr =
      ap (λ (q : ℕ). record { ip = addr.ip; port = q }) (sym c.port_same) in
    let reached : try_ips env.connects (c.pre ++ (addr.ip ∷ c.post)) port
        ≡ (map (at_port port) c.pre ++ (at_port port addr.ip ∷ []), some (at_port port addr.ip)) =
      try_ips_lem env.connects port c.pre c.post addr.ip c.refused (rw here c.connected) in
    let tried : try_ips env.connects ips port
        ≡ (map (at_port port) c.pre ++ (addr ∷ []), some addr) =
      rw c.split (
        subst
          (λ (a : SocketAddr).
            try_ips env.connects (c.pre ++ (addr.ip ∷ c.post)) port
            ≡ (map (at_port port) c.pre ++ (a ∷ []), some a))
          here reached) in
    rw (hosts, open_address) (rw tried refl)

-- A request is upgraded and relayed to an address exactly when its path, method, upgrade and
-- address are admitted, the address is a host and a TCP port and nothing more, the handshake is
-- accepted, and the address is the first of the host's that can be connected to.
pub http_handler-upgraded_iff :
    (env : Env) (req : Request) (cache : DnsCache) (addr : SocketAddr)
    → ((h : Handled) × (http_handler env req cache ≡ some h) × (h.reply ≡ upgraded addr))
      ↔ IsRelayed env addr req cache
unfolding upgrade
http_handler-upgraded_iff env req cache addr = (
  (λ (h, e, up). upgraded-IsRelayed h e up (http_handler-cases env req cache)),
  (λ r. (
    open_address env (r.host ∷ tcp r.port ∷ []) cache,
    http_handler-IsAdmitted env req cache (r.host ∷ tcp r.port ∷ []) r.admitted,
    rw (open_address-IsChosen env r.host r.port [] cache r.ips r.cache_behind addr r.hosts r.chosen)
        (rw r.accepted refl),
  )),
)
  where
    upgraded-IsRelayed :
        (h : Handled)
        → http_handler env req cache ≡ some h
        → h.reply ≡ upgraded addr
        → ((h' : Handled) × (http_handler env req cache ≡ some h')
            × (((protocols : List Protocol) × IsAdmitted env req protocols
                  × (h' ≡ open_address env protocols cache))
                ⊎ (IsRejected env req h'.reply × (h'.attempts ≡ []) × (h'.cache ≡ cache))))
        → IsRelayed env addr req cache
    upgraded-IsRelayed h e up (h', e', inl (protocols, a, shape)) =
        let same : h ≡ open_address env protocols cache = cc (e, e', shape) in
        open_address-upgraded env addr req protocols cache a
          (ap (λ (x : Handled). x.reply) (sym same) ∙ up)
    upgraded-IsRelayed h e up (h', e', inr (rejected, _, _)) =
        let same : h' ≡ h = cc (e, e') in
        absurd (IsRejected-ne_upgraded addr rejected (ap (λ (x : Handled). x.reply) same ∙ up))

-- The address is read to its end only when a connection stands: behind a host and a port, a third
-- protocol is refused after the connection to the first address that accepts it.
http_handler-trailing :
    (env : Env) (req : Request) (cache : DnsCache) (host extra : Protocol) (port : ℕ)
    (protocols : List Protocol) (ips : List IpAddr) (cache_behind : DnsCache) (addr : SocketAddr)
    → IsAdmitted env req (host ∷ tcp port ∷ extra ∷ protocols)
    → host_ips env host cache ≡ some (ips, cache_behind)
    → (c : IsChosen env.connects ips port addr)
    → http_handler env req cache
      ≡ some (record {
        reply = unsupported_protocol extra;
        attempts = map (at_port port) c.pre ++ (addr ∷ []);
        cache = cache_behind;
      })
unfolding upgrade
http_handler-trailing env req cache host extra port protocols ips cache_behind addr a hosts c =
    http_handler-IsAdmitted env req cache (host ∷ tcp port ∷ extra ∷ protocols) a
    ∙ ap some (
        open_address-IsChosen env host port (extra ∷ protocols) cache ips cache_behind addr hosts c)
