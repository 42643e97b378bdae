-- ===== src/Tests/Proxy.antt =====
-- The server.
use mantalon.Base.{
  List, [], ◌∷◌, none, some, Bool, true, false, Text, codes, ◌≡◌, ◌↔◌, ◌⊎◌, refl, inl, inr, arith,
}
use mantalon.Base.Assoc.{lookup, insert}
use mantalon.Http.{get}
use mantalon.Server.Dns.{v4, v6, Entry, DnsCache, Lookup, a, aaaa, resolve, lookup_ips}
use mantalon.Server.Dns.Caching.{resolve_again}
use mantalon.Server.Handler.{
  Env, Request, SocketAddr, Protocol, tcp, other, dnsaddr, Handled, upgraded, http_handler,
  host_ips, open_address,
}
use mantalon.Server.Handler.Admission.{IsAdmitted, IsRejected, http_handler-cases}
use mantalon.Server.Handler.Relaying.{IsChosen, IsRelayed, http_handler-upgraded_iff}

abbrev pub asked : Lookup
asked = record {
  connects = true;
  is_name = true;
  aaaa_response = some (some (aaaa 7) ∷ []);
  a_response = some (some (a 5) ∷ none ∷ []);
  started = 1000;
  answered = 1001;
}

abbrev pub domain : Text
domain = codes "en.wikipedia.org"

answer : lookup_ips asked ≡ v6 7 ∷ v4 5 ∷ []
unfolding resolve
answer = refl

abbrev cached : DnsCache
cached = (domain, (1100, v4 1 ∷ [])) ∷ []

found : lookup domain cached ≡ some (1100, v4 1 ∷ [])
unfolding lookup
found = refl

absent : lookup {V = Entry} domain [] ≡ none
unfolding lookup
absent = refl

resolve_again_example :
    resolve asked domain ((codes "b.org", (9, [])) ∷ (resolve asked domain [] []).1) []
    ≡ (v6 7 ∷ v4 5 ∷ [], [])
unfolding resolve lookup
resolve_again_example =
    resolve_again asked asked domain [] []
      ((codes "b.org", (9, [])) ∷ (resolve asked domain [] []).1) [] (v6 7) (v4 5 ∷ []) absent refl
      refl answer (omega arith) refl

-- One host with two addresses, the second of which can be connected to.
abbrev pub second_only : SocketAddr → Bool
second_only addr = elim addr.ip [ v4 ip ↦ true | v6 ip ↦ false ]

abbrev pub multiaddr : List Protocol
multiaddr = dnsaddr domain ∷ tcp 443 ∷ []

abbrev pub env : List Protocol → Env
env protocols = record {
  parse = λ s. some protocols;
  lookup = asked;
  cached = [];
  connects = second_only;
  accepts = true;
}

abbrev pub request : Request
request = record { path = codes "/mantalon-connect/x"; method = get; is_upgrade = true }

abbrev pub target : SocketAddr
target = record { ip = v4 5; port = 443 }

abbrev admitted : (protocols : List Protocol) → IsAdmitted (env protocols) request protocols
admitted protocols = record {
  addr = codes "/x";
  path = (refl, inr (codes "x", refl));
  method = inl refl;
  upgrade = refl;
  address = refl;
}

hosts :
    (protocols : List Protocol)
    → host_ips (env protocols) (dnsaddr domain) []
      ≡ some (v6 7 ∷ v4 5 ∷ [], insert domain (1301, v6 7 ∷ v4 5 ∷ []) [])
unfolding host_ips resolve lookup
hosts protocols = refl

abbrev chosen : IsChosen second_only (v6 7 ∷ v4 5 ∷ []) 443 target
chosen = record {
  pre = v6 7 ∷ [];
  post = [];
  split = refl;
  port_same = refl;
  connected = refl;
  refused = (refl, tt);
}

http_handler-cases_example :
    (h : Handled) × (http_handler (env multiaddr) request [] ≡ some h)
    × (((protocols : List Protocol) × IsAdmitted (env multiaddr) request protocols
          × (h ≡ open_address (env multiaddr) protocols []))
        ⊎ (IsRejected (env multiaddr) request h.reply × (h.attempts ≡ []) × (h.cache ≡ [])))
http_handler-cases_example = http_handler-cases (env multiaddr) request []

http_handler-upgraded_iff_example :
    ((h : Handled) × (http_handler (env multiaddr) request [] ≡ some h)
      × (h.reply ≡ upgraded target))
    ↔ IsRelayed (env multiaddr) target request []
http_handler-upgraded_iff_example = http_handler-upgraded_iff (env multiaddr) request [] target

is_relayed : IsRelayed (env multiaddr) target request []
is_relayed = record {
  host = dnsaddr domain;
  port = 443;
  ips = v6 7 ∷ v4 5 ∷ [];
  cache_behind = insert domain (1301, v6 7 ∷ v4 5 ∷ []) [];
  admitted = admitted multiaddr;
  hosts = hosts multiaddr;
  chosen = chosen;
  accepted = refl;
}

abbrev too_long : List Protocol
too_long = dnsaddr domain ∷ tcp 443 ∷ other (codes "tls") ∷ []
