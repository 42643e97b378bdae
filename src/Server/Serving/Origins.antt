-- ===== src/Server/Serving/Origins.antt =====
-- Which addresses the server relays to while it runs.
use mantalon.Base.{
  ℕ, ◌≤◌, List, [], ◌∷◌, ◌++◌, some, true, Text, ◌≡◌, ◌⊎◌, inl, inr, refl, sym, subst, All-without,
  arith, Bool-cases, Option-cases,
}
use mantalon.Base.Assoc.{lookup, lookup-All}
use mantalon.Server.Dns.{
  IpAddr, v4, v6, Entry, DnsCache, Lookup, is_usable, lookup_ips, query, resolve,
}
use mantalon.Server.Handler.{
  Env, Handled, SocketAddr, Protocol, ip4, ip6, dns, dnsaddr, tcp, upgraded, host_ips, http_handler,
}
use mantalon.Server.Handler.Admission.{IsAdmitted}
use mantalon.Server.Handler.Relaying.{http_handler-upgraded_iff}
use mantalon.Server.Serving.{Task, State, Call, Reach}
use mantalon.Server.Serving.Writes.{IsHost, by_dns, by_dnsaddr}
use mantalon.Server.Serving.Entries.{IsEntry, HasEntries}
use mantalon.Server.Serving.Tasks.{HaveEntries, Reach-HaveEntries}

query-origin :
    (l : Lookup) (domain : Text) (cache : DnsCache)
    → ((query l domain cache).0 ≡ []) ⊎ ((query l domain cache).0 ≡ lookup_ips l)
unfolding query
query-origin l domain cache = elim (Bool-cases l.connects) [
  | inr x ↦ inl (rw (x, query) refl)
  | inl x ↦ elim (Bool-cases l.is_name) [
    | inr y ↦ inl (rw (x, y, query) refl)
    | inl y ↦ inr (rw (x, y, query) refl)
  ]
]

is_usable-le : (now : ℕ) (entry : Entry) → is_usable now entry ≡ true → now ≤ entry.0
is_usable-le now (ttl, ips) h = ground arith

-- The addresses of a domain are those of this lookup, or those of an entry that still holds.
resolve-origin :
    (l : Lookup) (domain : Text) (cached cache : DnsCache)
    → (((resolve l domain cached cache).0 ≡ [])
        ⊎ ((resolve l domain cached cache).0 ≡ lookup_ips l))
      ⊎ ((entry : Entry) × ((lookup domain cached ≡ some entry)
            × ((l.started ≤ entry.0) × ((resolve l domain cached cache).0 ≡ entry.1))))
unfolding resolve
resolve-origin l domain cached cache = elim (Option-cases (lookup domain cached)) [
  | inl x ↦ inl (rw (x, resolve) (query-origin l domain cache))
  | inr (entry, x) ↦ elim (Bool-cases (is_usable l.started entry)) [
    | inl y ↦ inr (entry, (x, (is_usable-le l.started entry y, rw (x, resolve) (rw y refl))))
    | inr y ↦ inl (rw (x, resolve) (rw y (query-origin l domain cache)))
  ]
]

pub data IsLiteral : Protocol → IpAddr → Type 0 where
  by_ip4 : (n : ℕ) → IsLiteral (ip4 n) (v4 n)
  by_ip6 : (n : ℕ) → IsLiteral (ip6 n) (v6 n)

abbrev pub IsAmong : IpAddr → List IpAddr → Type 0
IsAmong ip ips = (before : List IpAddr) × (after : List IpAddr) × (ips ≡ before ++ (ip ∷ after))

-- Where an address that a task relays to comes from: the address in the path of its request, the answer
-- to its own lookup of the domain in that path, or an entry of the cache for that domain that held
-- when the task began.
pub data HasOrigin (calls : List Call) (now : ℕ) (env : Env) (task : Task) (ip : IpAddr)
    : Type 0 where
  literal :
      (host : Protocol) (rest : List Protocol)
      → IsAdmitted env task.request (host ∷ rest)
      → IsLiteral host ip
      → HasOrigin calls now env task ip
  looked_up :
      (domain : Text) (protocols : List Protocol)
      → IsAdmitted env task.request protocols
      → IsHost domain protocols
      → IsAmong ip (lookup_ips env.lookup)
      → HasOrigin calls now env task ip
  remembered :
      (domain : Text) (protocols : List Protocol) (entry : Entry)
      → IsAdmitted env task.request protocols
      → IsHost domain protocols
      → IsEntry calls now domain entry
      → task.started ≤ entry.0
      → IsAmong ip entry.1
      → HasOrigin calls now env task ip

IsAmong-none : (ip : IpAddr) → IsAmong ip [] → ⊥
IsAmong-none ip ([], after, e) = cc
IsAmong-none ip (b ∷ before, after, e) = cc

IsAmong-one : (ip a : IpAddr) → IsAmong ip (a ∷ []) → a ≡ ip
IsAmong-one ip a ([], after, e) = cc
IsAmong-one ip a (b ∷ [], after, e) = cc
IsAmong-one ip a (b ∷ b' ∷ before, after, e) = cc

module _ (calls : List Call) (now : ℕ) (env : Env) (task : Task) (cache : DnsCache)
    (started : env.lookup.started ≡ task.started) (known : HasEntries calls now env.cached) where
  domain-HasOrigin :
      (domain : Text) (protocols : List Protocol) (ip : IpAddr)
      → IsAdmitted env task.request protocols
      → IsHost domain protocols
      → IsAmong ip (resolve env.lookup domain env.cached cache).0
      → HasOrigin calls now env task ip
  domain-HasOrigin domain protocols ip admitted host among =
      elim (resolve-origin env.lookup domain env.cached cache) [
        | inl (inl nothing) ↦ absurd (IsAmong-none ip (subst (IsAmong ip) nothing among))
        | inl (inr looked) ↦
            looked_up domain protocols admitted host (subst (IsAmong ip) looked among)
        | inr (entry, (found, (holds, same))) ↦
            remembered domain protocols entry admitted host
              (lookup-All (λ (p : Text × Entry). IsEntry calls now p.0 p.1) domain entry env.cached
                known found)
              (subst (λ s. s ≤ entry.0) started holds) (subst (IsAmong ip) same among)
      ]

  host-HasOrigin :
      (host : Protocol) (rest : List Protocol) (ips : List IpAddr) (cache_behind : DnsCache)
      (ip : IpAddr)
      → IsAdmitted env task.request (host ∷ rest)
      → host_ips env host cache ≡ some (ips, cache_behind)
      → IsAmong ip ips
      → HasOrigin calls now env task ip
  unfolding host_ips
  host-HasOrigin (ip4 n) rest ips cache_behind ip admitted h among =
      let same : ips ≡ v4 n ∷ [] = cc in
      literal (ip4 n) rest admitted (
        subst (IsLiteral (ip4 n)) (IsAmong-one ip (v4 n) (subst (IsAmong ip) same among))
          (by_ip4 n))
  host-HasOrigin (ip6 n) rest ips cache_behind ip admitted h among =
      let same : ips ≡ v6 n ∷ [] = cc in
      literal (ip6 n) rest admitted (
        subst (IsLiteral (ip6 n)) (IsAmong-one ip (v6 n) (subst (IsAmong ip) same among))
          (by_ip6 n))
  host-HasOrigin (dns domain) rest ips cache_behind ip admitted h among =
      let same : ips ≡ (resolve env.lookup domain env.cached cache).0 = cc h in
      domain-HasOrigin domain (dns domain ∷ rest) ip admitted (by_dns rest)
        (subst (IsAmong ip) same among)
  host-HasOrigin (dnsaddr domain) rest ips cache_behind ip admitted h among =
      let same : ips ≡ (resolve env.lookup domain env.cached cache).0 = cc h in
      domain-HasOrigin domain (dnsaddr domain ∷ rest) ip admitted (by_dnsaddr rest)
        (subst (IsAmong ip) same among)
  host-HasOrigin _ rest ips cache_behind ip admitted h among = cc

-- Whatever the order of the tasks, a task of the running server relays only to the address that its
-- request names, to one that its lookup has just found for the domain that its request names, or
-- to one that an earlier call has found for that domain, at most 300 seconds before the task began.
pub Reach-HasOrigin :
    {calls : List Call} {s : State} (before after : List Task) (task : Task) (env : Env)
    (handled : Handled) (addr : SocketAddr)
    → Reach calls s
    → s.tasks ≡ before ++ task ∷ after
    → env.cached ≡ task.cached
    → env.lookup.started ≡ task.started
    → http_handler env task.request s.cache ≡ some handled
    → handled.reply ≡ upgraded addr
    → HasOrigin calls s.now env task addr.ip
Reach-HasOrigin {calls} {s} before after task env handled addr r split cached started h up =
    let relayed = (http_handler-upgraded_iff env task.request s.cache addr).0 (handled, h, up) in
    let (known, _) =
      All-without (λ (t : Task). HasEntries calls s.now t.cached) before after task
        (subst (HaveEntries calls s.now) split (Reach-HaveEntries r)) in
    host-HasOrigin calls s.now env task s.cache started
      (subst (HasEntries calls s.now) (sym cached) known) relayed.host (tcp relayed.port ∷ [])
      relayed.ips relayed.cache_behind addr.ip relayed.admitted relayed.hosts
      (relayed.chosen.pre, relayed.chosen.post, relayed.chosen.split)
