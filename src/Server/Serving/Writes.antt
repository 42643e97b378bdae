-- ===== src/Server/Serving/Writes.antt =====
-- What a call of `http_handler` writes to the cache.
use mantalon.Base.{
  ◌+◌, List, [], ◌∷◌, Option, none, some, true, Text, ◌≡◌, ◌⊎◌, inl, inr, refl, ap, ◌∙◌, Bool-cases,
}
use mantalon.Base.Assoc.{insert}
use mantalon.Server.Dns.{IpAddr, v4, v6, Entry, DnsCache, Lookup, lookup_ips, query, resolve}
use mantalon.Server.Dns.Caching.{resolve-cases}
use mantalon.Server.Handler.{
  Env, Protocol, ip4, ip6, dns, dnsaddr, tcp, host_ips, open_transport, open_address, connected,
  try_ips, SocketAddr,
}

-- The entry is the answer of a lookup that connected.
abbrev pub IsAnswer : Lookup → Entry → Type 0
IsAnswer l entry =
    (l.connects ≡ true) × (l.is_name ≡ true) × (entry ≡ (l.answered + 300, lookup_ips l))

query-cases :
    (l : Lookup) (domain : Text) (cache : DnsCache)
    → ((query l domain cache).1 ≡ cache)
      ⊎ ((entry : Entry) × (IsAnswer l entry
            × ((query l domain cache).1 ≡ insert domain entry cache)))
unfolding query
query-cases l domain cache = elim (Bool-cases l.connects) [
  | inr x ↦ inl (rw (x, query) refl)
  | inl x ↦ elim (Bool-cases l.is_name) [
    | inr y ↦ inl (rw (x, y, query) refl)
    | inl y ↦ inr ((l.answered + 300, lookup_ips l), ((x, y, refl), rw (x, y, query) refl))
  ]
]

resolve-answered :
    (l : Lookup) (domain : Text) (cached cache : DnsCache)
    → ((resolve l domain cached cache).1 ≡ cache)
      ⊎ ((entry : Entry) × (IsAnswer l entry
            × ((resolve l domain cached cache).1 ≡ insert domain entry cache)))
resolve-answered l domain cached cache = elim (resolve-cases l domain cached cache) [
  | inl kept ↦ inl kept
  | inr asked ↦ elim (query-cases l domain cache) [
    | inl kept ↦ inl (ap (λ r. r.1) asked ∙ kept)
    | inr (entry, (is_answer, written)) ↦ inr (entry, (is_answer, ap (λ r. r.1) asked ∙ written))
  ]
]

-- The address begins with the domain.
pub data IsHost (domain : Text) : List Protocol → Type 0 where
  by_dns : (rest : List Protocol) → IsHost domain (dns domain ∷ rest)
  by_dnsaddr : (rest : List Protocol) → IsHost domain (dnsaddr domain ∷ rest)

-- What a call writes: nothing, or the answer for the domain of its address.
abbrev pub IsWritten : Env → List Protocol → (before after : DnsCache) → Type 0
IsWritten env protocols before after =
    (after ≡ before)
    ⊎ ((domain : Text) × (entry : Entry) × (IsHost domain protocols
          × IsAnswer env.lookup entry
          × (after ≡ insert domain entry before)))

cache-connected :
    (env : Env) (ips : List IpAddr) (tried : List SocketAddr × Option SocketAddr)
    (protocols : List Protocol) (cache : DnsCache)
    → (connected env ips tried protocols cache).cache ≡ cache
cache-connected env ips (attempts, none) protocols cache = refl
cache-connected env ips (attempts, some addr) protocols cache = refl

cache-open_transport :
    (env : Env) (ips : List IpAddr) (protocols : List Protocol) (cache : DnsCache)
    → (open_transport env ips protocols cache).cache ≡ cache
unfolding open_transport
cache-open_transport env ips [] cache = refl
cache-open_transport env ips (tcp port ∷ protocols) cache =
    cache-connected env ips (try_ips env.connects ips port) protocols cache
cache-open_transport env ips (p ∷ protocols) cache = refl

resolve-IsWritten :
    (env : Env) (domain : Text) (protocols rest : List Protocol) (cache : DnsCache)
    → IsHost domain protocols
    → IsWritten env protocols cache
        (open_transport env
          (resolve env.lookup domain env.cached cache).0
          rest
          (resolve env.lookup domain env.cached cache).1).cache
resolve-IsWritten env domain protocols rest cache host =
    let same =
      cache-open_transport env (resolve env.lookup domain env.cached cache).0 rest
        (resolve env.lookup domain env.cached cache).1 in
    elim (resolve-answered env.lookup domain env.cached cache) [
      | inl kept ↦ inl (same ∙ kept)
      | inr (entry, (is_answer, written)) ↦ inr (domain, entry, (host, is_answer, same ∙ written))
    ]

pub open_address-IsWritten :
    (env : Env) (protocols : List Protocol) (cache : DnsCache)
    → IsWritten env protocols cache (open_address env protocols cache).cache
unfolding open_address host_ips
open_address-IsWritten env [] cache = inl refl
open_address-IsWritten env (dns domain ∷ rest) cache =
    resolve-IsWritten env domain (dns domain ∷ rest) rest cache (by_dns rest)
open_address-IsWritten env (dnsaddr domain ∷ rest) cache =
    resolve-IsWritten env domain (dnsaddr domain ∷ rest) rest cache (by_dnsaddr rest)
open_address-IsWritten env (ip4 ip ∷ rest) cache =
    inl (cache-open_transport env (v4 ip ∷ []) rest cache)
open_address-IsWritten env (ip6 ip ∷ rest) cache =
    inl (cache-open_transport env (v6 ip ∷ []) rest cache)
open_address-IsWritten env (p ∷ rest) cache = inl refl
