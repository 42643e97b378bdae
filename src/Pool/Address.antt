-- ===== src/Pool/Address.antt =====
-- The address of a request: when there is one, and what it depends on.
use mantalon.Base.{
  ok, Result-cases, ℕ, ◌++◌, Option, none, some, false, Text, codes, eqb_iff, starts_with,
  trim_start_matches_once, ◌≡◌, refl, sym, ap, ◌∙◌, ◌⊎◌, inl, inr, ◌↔◌, arith, Option-cases,
}
use mathlib.Core.Option
use mantalon.Http.{Http, port_u16, scheme_str, uri_host}
use mantalon.Pool.{ServerName, Net, multiaddr_of, get_port, get_address, get_server, ws_url}

-- The port that a URI stands for, from the one it names and its scheme.
abbrev pub IsPort : Option ℕ → Option Text → ℕ → Type 0
IsPort (some named) scheme port = named ≡ port
IsPort none none port = ⊥
IsPort none (some scheme) port =
    ((scheme ≡ codes "http") × (port ≡ 80)) ⊎ ((scheme ≡ codes "https") × (port ≡ 443))

module _ {http : Http} {Body Incoming : Type 0} (net : Net http Body Incoming) where
  get_port_iff :
      (named : Option ℕ) (scheme : Option Text) (port : ℕ)
      → (get_port net named scheme ≡ ok port) ↔ IsPort named scheme port
  unfolding get_port
  get_port_iff (some named) scheme port = (λ e. cc, λ e. ap ok e)
  get_port_iff none none port = (λ e. cc, λ e. absurd e)
  get_port_iff none (some scheme) port =
      ground (arith, eqb_iff scheme (codes "http"), eqb_iff scheme (codes "https"))

  IsAddress : Option Text → ℕ → Text → ServerName → Type 0
  IsAddress host port multiaddr name =
      (h : Text) × ((host ≡ some h)
        × (net.try_from h ≡ ok name)
        × (multiaddr_of name port ≡ some multiaddr))

  IsAddress-get_address :
      (host : Option Text) (port : ℕ) (multiaddr : Text) (name : ServerName)
      → get_address net host port ≡ ok (multiaddr, name)
      → IsAddress host port multiaddr name
  unfolding get_address IsAddress
  IsAddress-get_address none port multiaddr name = λ e. cc
  IsAddress-get_address (some host) port multiaddr name = elim (Result-cases (net.try_from host)) [
    | inl (e, x) ↦ rw (x, get_address) (λ h. cc)
    | inr (n, x) ↦ elim (Option-cases (multiaddr_of n port)) [
      | inl y ↦ rw (x, y, get_address) (λ h. cc)
      | inr (m, y) ↦ rw (x, y, get_address) (λ h. (host, (refl, cc, cc)))
    ]
  ]

  get_address-IsAddress :
      (host : Option Text) (port : ℕ) (multiaddr : Text) (name : ServerName)
      → IsAddress host port multiaddr name
      → get_address net host port ≡ ok (multiaddr, name)
  unfolding get_address IsAddress
  get_address-IsAddress host port multiaddr name (h, (same, parsed, written)) =
      rw (same, get_address, parsed, written) refl

  -- A URI has an address exactly when it has a port, by itself or by one of the two schemes, and
  -- a host that rustls reads as a name which can be written as a multiaddr at that port; that is
  -- the address then.
  pub get_server_iff :
      (uri : http.Uri) (multiaddr : Text) (name : ServerName)
      → (get_server net uri ≡ ok (multiaddr, name)) ↔ (
          (port : ℕ) × (host : Text) × (IsPort (port_u16 http uri) (scheme_str http uri) port
            × (uri_host http uri ≡ some host)
            × (net.try_from host ≡ ok name)
            × (multiaddr_of name port ≡ some multiaddr)))
  unfolding get_server IsAddress
  get_server_iff uri multiaddr name = (
    elim (Result-cases (get_port net (port_u16 http uri) (scheme_str http uri))) [
      | inl (e, x) ↦ rw (x, get_server) (λ h. cc)
      | inr (q, x) ↦
          rw (x, get_server)
            (λ h.
              let (host, r) = IsAddress-get_address (uri_host http uri) q multiaddr name h in
              (
                q,
                host,
                ((get_port_iff (port_u16 http uri) (scheme_str http uri) q).0 x, r.0, r.1, r.2),
              ))
    ],
    λ (port, host, r).
        rw ((get_port_iff (port_u16 http uri) (scheme_str http uri) port).1 r.0, get_server)
          (get_address-IsAddress (uri_host http uri) port multiaddr name (host, (r.1, r.2, r.3))),
  )

  -- The address of a URI that names its port does not depend on its scheme: two URIs with the same
  -- authority, in which there is a port, have the same address, so that a request over https may
  -- be sent over a connection that was opened without encryption.
  get_server-scheme :
      (uri uri' : http.Uri) (port : ℕ)
      → (http.into_parts uri).authority ≡ (http.into_parts uri').authority
      → port_u16 http uri ≡ some port
      → get_server net uri ≡ get_server net uri'
  unfolding get_server get_port
  get_server-scheme uri uri' port same named =
      rw (named, get_server)
        (rw (sym (ap (λ a. Option.bind a http.authority_port) same) ∙ named, get_server)
          (ap (λ a. get_address net (Option.map http.authority_host a) port) same))

-- The websocket goes to the host of the page, encrypted exactly when the page is: for an origin
-- `https://host` to `wss://host/mantalon-connect/`, and for an origin `http://host` to
-- `ws://host/mantalon-connect/`, each followed by the address, where the host does not itself begin
-- with the scheme.
ws_url_lem :
    (host multiaddr : Text)
    → starts_with host (codes "https://") ≡ false
    → starts_with host (codes "http://") ≡ false
    → (ws_url (codes "https://" ++ host) multiaddr
        ≡ codes "wss://" ++ host ++ codes "/mantalon-connect/" ++ multiaddr)
      × (ws_url (codes "http://" ++ host) multiaddr
          ≡ codes "ws://" ++ host ++ codes "/mantalon-connect/" ++ multiaddr)
unfolding ws_url
ws_url_lem host multiaddr not_https not_http = (
  rw (trim_start_matches_once (codes "https://") host not_https, ws_url) refl,
  rw (trim_start_matches_once (codes "http://") host not_http, ws_url) refl,
)
