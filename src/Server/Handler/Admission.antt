-- ===== src/Server/Handler/Admission.antt =====
-- Which requests reach the address in their path.
use mantalon.Base.{
  List, [], ◌++◌, none, some, true, false, Text, codes, eqb, eqb_iff, leb, starts_with,
  starts_with_iff, length, ◌≡◌, refl, ◌⊎◌, inl, inr, arith, ◌∙◌, ◌≢◌, Bool-cases, Option-cases,
}
use mantalon.Http.{Method, get, post}
use mantalon.Server.Dns.{DnsCache}
use mantalon.Server.Handler.{
  Env, Request, Handled, Reply, replies, not_found, method_not_allowed, upgrade_required,
  invalid_address, slice_from, open_address, is_connect_path, is_get_or_post, http_handler,
  Protocol, SocketAddr, upgraded,
}

abbrev connect : Text
connect = codes "/mantalon-connect"

-- A path of the endpoint: the endpoint itself, or with a slash behind it.
abbrev pub IsConnectPath : Text → Text → Type 0
IsConnectPath path addr =
    (path ≡ codes "/mantalon-connect" ++ addr)
    × ((addr ≡ []) ⊎ ((rest : Text) × (addr ≡ codes "/" ++ rest)))

slice_from-connect : (path addr : Text) → IsConnectPath path addr → slice_from 17 path ≡ some addr
unfolding slice_from
slice_from-connect path addr (e, inl empty) = rw (e, empty) refl
slice_from-connect path addr (e, inr (rest, slash)) =
    let fits : leb 17 (length (codes "/mantalon-connect" ++ (codes "/" ++ rest))) ≡ true =
      ground arith in
    rw (e, slash, fits) refl

is_connect_path-split :
    (path : Text) → is_connect_path path ≡ true → (addr : Text) × (IsConnectPath path addr)
is_connect_path-split path h = elim (Bool-cases (starts_with path (codes "/mantalon-connect/"))) [
  | inl under ↦
      let (rest, e) = (starts_with_iff path (codes "/mantalon-connect/")).0 under in
      (codes "/" ++ rest, (e, inr (rest, refl)))
  | inr other ↦
      let same : eqb path (codes "/mantalon-connect") ≡ true = rw other at h in
      ([], ((eqb_iff path (codes "/mantalon-connect")).0 same, inl refl))
]

IsConnectPath-true : (path addr : Text) → IsConnectPath path addr → is_connect_path path ≡ true
IsConnectPath-true path addr (e, inl empty) = rw (e, empty) refl
IsConnectPath-true path addr (e, inr (rest, slash)) = rw (e, slash) refl

-- A request with the endpoint's path, a method that is served and the upgrade, whose address
-- parses.
pub record IsAdmitted (env : Env) (req : Request) (protocols : List Protocol) : Type 0 where
  pub addr : Text
  pub path : IsConnectPath req.path addr
  pub method : (req.method ≡ get) ⊎ (req.method ≡ post)
  pub upgrade : req.is_upgrade ≡ true
  pub address : env.parse addr ≡ some protocols

-- The first check that a request fails, with its reply.
pub data IsRejected (env : Env) (req : Request) : Reply → Type 0 where
  by_path : is_connect_path req.path ≡ false → IsRejected env req not_found
  by_method :
      is_connect_path req.path ≡ true
      → is_get_or_post req.method ≡ false
      → IsRejected env req method_not_allowed
  by_upgrade :
      is_connect_path req.path ≡ true
      → is_get_or_post req.method ≡ true
      → req.is_upgrade ≡ false
      → IsRejected env req upgrade_required
  by_address :
      {addr : Text}
      → IsConnectPath req.path addr
      → is_get_or_post req.method ≡ true
      → req.is_upgrade ≡ true
      → env.parse addr ≡ none
      → IsRejected env req invalid_address

is_get_or_post-cases : (m : Method) → is_get_or_post m ≡ true → (m ≡ get) ⊎ (m ≡ post)
is_get_or_post-cases get h = inl refl
is_get_or_post-cases post h = inr refl
is_get_or_post-cases _ h = cc

is_get_or_post-true : (m : Method) → ((m ≡ get) ⊎ (m ≡ post)) → is_get_or_post m ≡ true
is_get_or_post-true m (inl e) = rw e refl
is_get_or_post-true m (inr e) = rw e refl

module _ (env : Env) (req : Request) (cache : DnsCache) where
  admitted :
      (addr : Text)
      → IsConnectPath req.path addr
      → is_connect_path req.path ≡ true
      → is_get_or_post req.method ≡ true
      → req.is_upgrade ≡ true
      → http_handler env req cache ≡ elim (env.parse addr) [
        | none ↦ some (replies invalid_address cache)
        | some protocols ↦ some (open_address env protocols cache)
      ]
  unfolding http_handler
  admitted addr path p m u = rw (p, m, u, slice_from-connect req.path addr path) refl

  pub http_handler-IsAdmitted :
      (protocols : List Protocol)
      → IsAdmitted env req protocols
      → http_handler env req cache ≡ some (open_address env protocols cache)
  http_handler-IsAdmitted protocols a =
      admitted a.addr a.path (IsConnectPath-true req.path a.addr a.path)
        (is_get_or_post-true req.method a.method) a.upgrade
      ∙ (rw a.address refl)

  abbrev Answered : Type 0
  Answered =
      (h : Handled) × (http_handler env req cache ≡ some h)
      × (((protocols : List Protocol) × IsAdmitted env req protocols
            × (h ≡ open_address env protocols cache))
          ⊎ (IsRejected env req h.reply × (h.attempts ≡ []) × (h.cache ≡ cache)))

  parsed :
      (addr : Text)
      → IsConnectPath req.path addr
      → is_connect_path req.path ≡ true
      → is_get_or_post req.method ≡ true
      → req.is_upgrade ≡ true
      → Answered
  parsed addr path p m u = elim (Option-cases (env.parse addr)) [
    | inl e ↦ (
      replies invalid_address cache,
      admitted addr path p m u ∙ (rw e refl),
      inr (by_address path m u e, refl, refl),
    )
    | inr (protocols, e) ↦ (
      open_address env protocols cache,
      admitted addr path p m u ∙ (rw e refl),
      inl (
        protocols,
        record {
          addr = addr;
          path = path;
          method = is_get_or_post-cases req.method m;
          upgrade = u;
          address = e;
        },
        refl,
      ),
    )
  ]

  -- The handler answers every request, its slice of the path included. It refuses one by the first
  -- check that fails, of the path, the method, the upgrade and the address, and then it connects
  -- nowhere and leaves the cache; a request that passes them all is answered
  -- for the protocols of its address.
  pub http_handler-cases :
      (h : Handled) × (http_handler env req cache ≡ some h)
      × (((protocols : List Protocol) × IsAdmitted env req protocols
            × (h ≡ open_address env protocols cache))
          ⊎ (IsRejected env req h.reply × (h.attempts ≡ []) × (h.cache ≡ cache)))
  unfolding http_handler
  http_handler-cases = elim (Bool-cases (is_connect_path req.path)) [
    | inr p ↦ (replies not_found cache, rw p refl, inr (by_path p, refl, refl))
    | inl p ↦ elim (Bool-cases (is_get_or_post req.method)) [
      | inr m ↦ (replies method_not_allowed cache, rw (p, m) refl, inr (by_method p m, refl, refl))
      | inl m ↦ elim (Bool-cases req.is_upgrade) [
        | inr u ↦
            (replies upgrade_required cache, rw (p, m, u) refl, inr (by_upgrade p m u, refl, refl))
        | inl u ↦ let (addr, path) = is_connect_path-split req.path p in parsed addr path p m u
      ]
    ]
  ]

pub IsRejected-ne_upgraded :
    {env : Env} {req : Request} {r : Reply} (addr : SocketAddr)
    → IsRejected env req r
    → r ≢ upgraded addr
IsRejected-ne_upgraded addr (by_path p) e = cc
IsRejected-ne_upgraded addr (by_method p m) e = cc
IsRejected-ne_upgraded addr (by_upgrade p m u) e = cc
IsRejected-ne_upgraded addr (by_address p m u a) e = cc
