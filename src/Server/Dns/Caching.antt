-- ===== src/Server/Dns/Caching.antt =====
-- When `resolve` answers from its cache, and what it leaves there.
use mantalon.Base.{
  ap, ℕ, ◌+◌, ◌≤◌, List, [], ◌∷◌, none, some, true, false, ◌&&◌, Text, if◌then◌else◌, ◌≡◌, ◌≢◌, ◌⊎◌,
  refl, arith, eqb_iff, Option-cases, Bool-cases, inl, inr, ◌∙◌, eqb_refl,
}
use mantalon.Base.Assoc.{lookup, insert, lookup-insert}
use mantalon.Server.Dns.{IpAddr, Entry, DnsCache, Lookup, is_usable, lookup_ips, query, resolve}

resolve-query :
    (l : Lookup) (domain : Text) (cached cache : DnsCache)
    → ((lookup domain cached ≡ none)
        ⊎ ((entry : Entry) × (lookup domain cached ≡ some entry)
            × (is_usable l.started entry ≡ false)))
    → resolve l domain cached cache ≡ query l domain cache
unfolding resolve
resolve-query l domain cached cache (inl e) = rw (e, resolve) refl
resolve-query l domain cached cache (inr (entry, e, stale)) = rw (e, resolve) (rw stale refl)

-- With an entry that has addresses and whose time has not passed, the answer is the entry's, and
-- nothing is asked or written.
resolve-cached :
    (l : Lookup) (domain : Text) (cached cache : DnsCache) (ttl : ℕ) (ip : IpAddr)
    (ips : List IpAddr)
    → lookup domain cached ≡ some (ttl, ip ∷ ips)
    → l.started ≤ ttl
    → resolve l domain cached cache ≡ (ip ∷ ips, cache)
unfolding resolve
resolve-cached l domain cached cache ttl ip ips e fresh =
    let usable : is_usable l.started (ttl, ip ∷ ips) ≡ true = ground arith in
    rw (e, resolve) (rw usable refl)

-- A domain that has no usable entry is asked for. When the client does not connect, or the domain
-- is no name, the answer is empty and the cache stays; else the answer holds the addresses of the
-- AAAA and then of the A response, and is stored for the 300 seconds behind it.
resolve-missed :
    (l : Lookup) (domain : Text) (cached cache : DnsCache)
    → ((lookup domain cached ≡ none)
        ⊎ ((entry : Entry) × (lookup domain cached ≡ some entry)
            × (is_usable l.started entry ≡ false)))
    → resolve l domain cached cache ≡ (
        if l.connects && l.is_name
        then (lookup_ips l, insert domain (l.answered + 300, lookup_ips l) cache)
        else ([], cache))
unfolding query
resolve-missed l domain cached cache h = resolve-query l domain cached cache h ∙ ground arith

query-other :
    (l : Lookup) (domain j : Text) (cache : DnsCache)
    → j ≢ domain
    → lookup j (query l domain cache).1 ≡ lookup j cache
unfolding query
query-other l domain j cache h =
    ground (arith, eqb_iff domain j, lookup-insert domain j (l.answered + 300, lookup_ips l) cache)

pub resolve-cases :
    (l : Lookup) (domain : Text) (cached cache : DnsCache)
    → ((resolve l domain cached cache).1 ≡ cache)
      ⊎ (resolve l domain cached cache ≡ query l domain cache)
unfolding resolve
resolve-cases l domain cached cache = elim (Option-cases (lookup domain cached)) [
  | inl e ↦ inr (rw (e, resolve) refl)
  | inr (entry, e) ↦ elim (Bool-cases (is_usable l.started entry)) [
    | inl usable ↦ inl (rw (e, resolve) (rw usable refl))
    | inr stale ↦ inr (rw (e, resolve) (rw stale refl))
  ]
]

-- `resolve` changes no entry of another domain.
resolve-other :
    (l : Lookup) (domain j : Text) (cached cache : DnsCache)
    → j ≢ domain
    → lookup j (resolve l domain cached cache).1 ≡ lookup j cache
resolve-other l domain j cached cache h = elim (resolve-cases l domain cached cache) [
  | inl kept ↦ rw kept refl
  | inr asked ↦ rw asked (query-other l domain j cache h)
]

-- A domain without an entry that was asked for, with at least one address in the answer, is answered
-- from the cache by each call that starts in the 300 seconds behind it and still finds the entry
-- that the first call left for the domain, whatever other entries have changed: with the same
-- addresses, and without changing the cache as it is when the call ends.
pub resolve_again :
    (first second : Lookup) (domain : Text) (cached cache cached' cache' : DnsCache) (ip : IpAddr)
    (ips : List IpAddr)
    → lookup domain cached ≡ none
    → first.connects ≡ true
    → first.is_name ≡ true
    → lookup_ips first ≡ ip ∷ ips
    → second.started ≤ first.answered + 300
    → lookup domain cached' ≡ lookup domain (resolve first domain cached cache).1
    → resolve second domain cached' cache' ≡ (ip ∷ ips, cache')
resolve_again first second domain cached cache cached' cache' ip ips absent connects is_name answer
      soon left =
    let entry : Entry = (first.answered + 300, ip ∷ ips) in
    let stored : resolve first domain cached cache ≡ (ip ∷ ips, insert domain entry cache) =
      resolve-missed first domain cached cache (inl absent)
      ∙ (rw (connects, is_name, answer) refl) in
    let found : lookup domain cached' ≡ some entry =
      left
      ∙ ap (λ (r : List IpAddr × DnsCache). lookup domain r.1) stored
      ∙ lookup-insert domain domain entry cache
      ∙ (rw (eqb_refl domain) refl) in
    resolve-cached second domain cached' cache' (first.answered + 300) ip ips found soon
