-- ===== src/Pool/Separation.antt =====
-- Different servers and different ports have different addresses.
use mantalon.Base.{
  ℕ, zero, suc, ◌+◌, ◌*◌, ◌<◌, List, [], ◌∷◌, ◌++◌, append_assoc, append_cancel, some, ok, Text,
  codes, decimal, decimals, join, length, All, IsFree, split_unique, decimal-injective,
  join-decimals-injective, join-decimals-IsFree, ◌≡◌, refl, sym, ap, subst, ◌∙◌, arith,
}
use mantalon.Http.{Http, port_u16, scheme_str}
use mantalon.Pool.{
  ServerName, dns_name, ip_v4, ip_v6, other_name, Net, u16s, multiaddr_of, get_server,
}
use mantalon.Pool.Address.{IsPort, get_server_iff}

-- A name as rustls makes it: a DNS name has no slash, and an IPv6 address has 16 bytes.
abbrev pub IsName : ServerName → Type 0
IsName (dns_name domain) = IsFree b'/' domain
IsName (ip_v4 a b c d) = Unit
IsName (ip_v6 bytes) = (length bytes ≡ 16) × All (λ b. b < 256) bytes
IsName other_name = Unit

length-u16s : (k : ℕ) (bytes : List ℕ) → length bytes ≡ k + k → length (u16s bytes) ≡ k
unfolding u16s
length-u16s zero [] h = refl
length-u16s zero (b ∷ bytes) h = absurd (omega (arith, h))
length-u16s (suc k) [] h = absurd (omega (arith, h))
length-u16s (suc k) (b ∷ []) h = absurd (omega (arith, h))
length-u16s (suc k) (low ∷ high ∷ bytes) h = ap suc (length-u16s k bytes (omega (arith, h)))

u16s-injective :
    (k : ℕ) (xs ys : List ℕ)
    → length xs ≡ k + k
    → length ys ≡ k + k
    → All (λ b. b < 256) xs
    → All (λ b. b < 256) ys
    → u16s xs ≡ u16s ys
    → xs ≡ ys
unfolding u16s
u16s-injective zero [] [] h l a b e = refl
u16s-injective zero (x ∷ xs) ys h l a b e = absurd (omega (arith, h))
u16s-injective zero [] (y ∷ ys) h l a b e = absurd (omega (arith, l))
u16s-injective (suc k) [] ys h l a b e = absurd (omega (arith, h))
u16s-injective (suc k) (x ∷ []) ys h l a b e = absurd (omega (arith, h))
u16s-injective (suc k) (x ∷ x' ∷ xs) [] h l a b e = absurd (omega (arith, l))
u16s-injective (suc k) (x ∷ x' ∷ xs) (y ∷ []) h l a b e = absurd (omega (arith, l))
u16s-injective (suc k) (x ∷ x' ∷ xs) (y ∷ y' ∷ ys) h l (a, (a', below)) (b, (b', below')) e =
    let word : x + x' * 256 ≡ y + y' * 256 = cc in
    let low : x ≡ y = omega arith in
    let high : x' ≡ y' = omega arith in
    let rest = u16s-injective k xs ys (omega (arith, h)) (omega (arith, l)) below below' cc in cc

-- A host without a slash, and the port behind it, are read back from an address.
tail-injective :
    (prefix host host' : Text) (port port' : ℕ) (m : Text)
    → IsFree b'/' host
    → IsFree b'/' host'
    → some (prefix ++ host ++ codes "/tcp/" ++ decimal port) ≡ some m
    → some (prefix ++ host' ++ codes "/tcp/" ++ decimal port') ≡ some m
    → (host ≡ host') × (port ≡ port')
tail-injective prefix host host' port port' m f f' e e' =
    let assoc = λ (h : Text) (p : ℕ).
      append_assoc (prefix ++ h) (codes "/tcp/") (decimal p)
      ∙ append_assoc prefix h (codes "/tcp/" ++ decimal p) in
    let whole : prefix ++ host ++ codes "/tcp/" ++ decimal port
        ≡ prefix ++ host' ++ codes "/tcp/" ++ decimal port' =
      cc in
    let (same, rest) =
      split_unique b'/' host host' (codes "tcp/" ++ decimal port) (codes "tcp/" ++ decimal port') f
        f' (append_cancel prefix _ _ (sym (assoc host port) ∙ whole ∙ assoc host' port')) in
    (same, decimal-injective port port' (append_cancel (codes "tcp/") _ _ rest))

-- The byte that tells the three kinds of address apart.
third : Text → ℕ
third (a ∷ b ∷ c ∷ s) = c
third s = 0

same_third : {m : Text} (s t : Text) → some s ≡ some m → some t ≡ some m → third s ≡ third t
same_third s t e e' = ap third cc

multiaddr_of-injective :
    (name name' : ServerName) (port port' : ℕ) (multiaddr : Text)
    → IsName name
    → IsName name'
    → multiaddr_of name port ≡ some multiaddr
    → multiaddr_of name' port' ≡ some multiaddr
    → (name ≡ name') × (port ≡ port')
unfolding multiaddr_of third
multiaddr_of-injective (dns_name d) (dns_name d') p p' m n n' h h' =
    let (same, ports) = tail-injective (codes "dnsaddr/") d d' p p' m n n' h h' in
    (ap dns_name same, ports)
multiaddr_of-injective (dns_name d) (ip_v4 _ _ _ _) p p' m n n' h h' =
    absurd (omega (arith, same_third _ _ h h'))
multiaddr_of-injective (dns_name d) (ip_v6 _) p p' m n n' h h' =
    absurd (omega (arith, same_third _ _ h h'))
multiaddr_of-injective (ip_v4 _ _ _ _) (dns_name d) p p' m n n' h h' =
    absurd (omega (arith, same_third _ _ h h'))
multiaddr_of-injective (ip_v4 a b c d) (ip_v4 a' b' c' d') p p' m n n' h h' =
    let ns = a ∷ b ∷ c ∷ d ∷ [] in
    let ns' = a' ∷ b' ∷ c' ∷ d' ∷ [] in
    let (same, ports) =
      tail-injective (codes "ip4/") (join (decimals ns) (codes "."))
        (join (decimals ns') (codes ".")) p p' m
        (join-decimals-IsFree b'.' b'/' ns (omega arith) (λ e. omega arith))
        (join-decimals-IsFree b'.' b'/' ns' (omega arith) (λ e. omega arith)) h h' in
    let bytes = join-decimals-injective b'.' (omega arith) ns ns' refl same in (cc, ports)
multiaddr_of-injective (ip_v4 _ _ _ _) (ip_v6 _) p p' m n n' h h' =
    absurd (omega (arith, same_third _ _ h h'))
multiaddr_of-injective (ip_v6 _) (dns_name d) p p' m n n' h h' =
    absurd (omega (arith, same_third _ _ h h'))
multiaddr_of-injective (ip_v6 _) (ip_v4 _ _ _ _) p p' m n n' h h' =
    absurd (omega (arith, same_third _ _ h h'))
multiaddr_of-injective (ip_v6 bs) (ip_v6 bs') p p' m n n' h h' =
    let (same, ports) =
      tail-injective (codes "ip6/") (join (decimals (u16s bs)) (codes ":"))
        (join (decimals (u16s bs')) (codes ":")) p p' m
        (join-decimals-IsFree b':' b'/' (u16s bs) (omega arith) (λ e. omega arith))
        (join-decimals-IsFree b':' b'/' (u16s bs') (omega arith) (λ e. omega arith)) h h' in
    let words =
      join-decimals-injective b':' (omega arith) (u16s bs) (u16s bs')
        (length-u16s 8 bs n.0 ∙ sym (length-u16s 8 bs' n'.0)) same in
    (ap ip_v6 (u16s-injective 8 bs bs' n.0 n'.0 n.1 n'.1 words), ports)
multiaddr_of-injective other_name name' p p' m n n' h h' = cc
multiaddr_of-injective name other_name p p' m n n' h h' = cc

module _ {http : Http} {Body Incoming : Type 0} (net : Net http Body Incoming) where
  -- Two URIs have the same address only for the same server, at the same port: where rustls gives
  -- DNS names without a slash and IPv6 addresses of 16 bytes, they have the same server name, and one
  -- port that both stand for.
  pub get_server-injective :
      (uri uri' : http.Uri) (multiaddr : Text) (name name' : ServerName)
      → ((host : Text) (n : ServerName) → net.try_from host ≡ ok n → IsName n)
      → get_server net uri ≡ ok (multiaddr, name)
      → get_server net uri' ≡ ok (multiaddr, name')
      → (name ≡ name')
        × ((port : ℕ) × (IsPort (port_u16 http uri) (scheme_str http uri) port
              × IsPort (port_u16 http uri') (scheme_str http uri') port))
  get_server-injective uri uri' multiaddr name name' are_names h h' =
      let (port, host, r) = (get_server_iff net uri multiaddr name).0 h in
      let (port', host', r') = (get_server_iff net uri' multiaddr name').0 h' in
      let (same, ports) =
        multiaddr_of-injective name name' port port' multiaddr (are_names host name r.2)
          (are_names host' name' r'.2) r.3 r'.3 in
      (
        same,
        (
          port,
          (r.0, subst (λ p. IsPort (port_u16 http uri') (scheme_str http uri') p) (sym ports) r'.0),
        ),
      )
