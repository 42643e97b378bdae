-- ===== src/Server/Dns.antt =====
-- mantalon-server/src/dns.rs: `resolve` and its cache. What the DNS client returns and what the
-- clock shows are parameters.
pub mod Caching
use mantalon.Base.{
  ℕ, ◌+◌, List, [], ◌∷◌, ◌++◌, Option, none, some, Bool, true, false, not, ◌&&◌, Text, leb,
  if◌then◌else◌,
}
use mantalon.Base.Assoc.{Assoc, lookup, insert}

-- An address is its 32 or 128 bits.
pub data IpAddr : Type 0 where
  v4 v6 : ℕ → IpAddr

-- `(ttl, ips)`, where `ttl` is the last second at which the entry holds.
abbrev pub Entry : Type 0
Entry = ℕ × List IpAddr

abbrev pub DnsCache : Type 0
DnsCache = Assoc Entry

-- `answer.data()`
pub data RData : Type 0 where
  a aaaa : ℕ → RData
  other : RData

-- What the DNS client does in one call: whether it connects, whether the domain is a name, the
-- answers to the AAAA and the A query (`none` for a query that failed), and the clock before and
-- after.
pub record Lookup : Type 0 where
  pub connects : Bool
  pub is_name : Bool
  pub aaaa_response : Option (List (Option RData))
  pub a_response : Option (List (Option RData))
  pub started : ℕ
  pub answered : ℕ

abbrev pub is_nonempty : List IpAddr → Bool
is_nonempty [] = false
is_nonempty (ip ∷ ips) = true

-- `now() <= *ttl && !ips.is_empty()`
abbrev pub is_usable : ℕ → Entry → Bool
is_usable now (ttl, ips) = leb now ttl && is_nonempty ips

unfoldable pub answers_ips : List (Option RData) → List IpAddr
answers_ips [] = []
answers_ips (some (a ip) ∷ answers) = v4 ip ∷ answers_ips answers
answers_ips (some (aaaa ip) ∷ answers) = v6 ip ∷ answers_ips answers
answers_ips (some other ∷ answers) = answers_ips answers
answers_ips (none ∷ answers) = answers_ips answers

-- The loop over the results of `join_all(queries)`, in the order of the queries.
unfoldable pub collect_ips : List (Option (List (Option RData))) → List IpAddr
unfolding answers_ips
collect_ips [] = []
collect_ips (none ∷ results) = collect_ips results
collect_ips (some answers ∷ results) = answers_ips answers ++ collect_ips results

abbrev pub lookup_ips : Lookup → List IpAddr
lookup_ips l = collect_ips (l.aaaa_response ∷ l.a_response ∷ [])

unfoldable pub query : Lookup → Text → DnsCache → List IpAddr × DnsCache
unfolding collect_ips
query l domain cache =
    if l.connects
    then (if l.is_name
        then (lookup_ips l, insert domain (l.answered + 300, lookup_ips l) cache)
        else ([], cache))
    else ([], cache)

-- `cached` is the cache at the check, and `cache` the one at the write: other requests may have
-- changed it while the query ran.
unfoldable pub resolve : Lookup → Text → (cached cache : DnsCache) → List IpAddr × DnsCache
unfolding query
resolve l domain cached cache = elim (lookup domain cached) [
  | none ↦ query l domain cache
  | some entry ↦ if is_usable l.started entry then (entry.1, cache) else query l domain cache
]
