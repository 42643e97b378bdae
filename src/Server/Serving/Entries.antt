-- ===== src/Server/Serving/Entries.antt =====
-- What the shared cache holds while the server runs.
use mantalon.Base.{
  ℕ, ◌≤◌, List, [], ◌∷◌, ◌++◌, some, Text, ◌≡◌, inl, inr, refl, sym, ap, ◌∙◌, subst, All, arith,
  append_assoc,
}
use mantalon.Server.Handler.Admission.{IsAdmitted, http_handler-cases}
use mantalon.Base.Assoc.{lookup, All-insert, lookup-All}
use mantalon.Server.Dns.{Entry, DnsCache}
use mantalon.Server.Handler.{Env, Request, Handled, Protocol, http_handler}
use mantalon.Server.Serving.{
  State, Call, Step, accept_failed, accept, tick, answer, panic, Reach, start, later, initial,
  spawn, reply,
}
use mantalon.Server.Serving.Writes.{IsAnswer, IsHost, open_address-IsWritten}

-- Where an entry of the cache comes from: one of the calls that have ended was for this domain, and its
-- lookup gave the answer by now.
pub record IsEntry (calls : List Call) (now : ℕ) (domain : Text) (entry : Entry) : Type 0 where
  pub env : Env
  pub request : Request
  pub earlier : List Call
  pub since : List Call
  pub among : calls ≡ since ++ (env, request) ∷ earlier
  pub protocols : List Protocol
  pub admitted : IsAdmitted env request protocols
  pub host : IsHost domain protocols
  pub is_answer : IsAnswer env.lookup entry
  pub past : env.lookup.answered ≤ now

IsEntry-later :
    {calls : List Call} {now : ℕ} {domain : Text} {entry : Entry} (ended : List Call) (now' : ℕ)
    → now ≤ now'
    → IsEntry calls now domain entry
    → IsEntry (ended ++ calls) now' domain entry
IsEntry-later ended now' h e = record {
  env = e.env;
  request = e.request;
  earlier = e.earlier;
  protocols = e.protocols;
  admitted = e.admitted;
  host = e.host;
  is_answer = e.is_answer;
  since = ended ++ e.since;
  among =
      ap (λ l. ended ++ l) e.among
      ∙ sym (append_assoc ended e.since ((e.env, e.request) ∷ e.earlier));
  past = omega (arith, e.past);
}

-- All entries of a cache are so.
abbrev pub HasEntries : List Call → ℕ → DnsCache → Type 0
HasEntries calls now cache = All (λ (p : Text × Entry). IsEntry calls now p.0 p.1) cache

pub HasEntries-later :
    (calls : List Call) {now : ℕ} (ended : List Call) (now' : ℕ) (cache : DnsCache)
    → now ≤ now'
    → HasEntries calls now cache
    → HasEntries (ended ++ calls) now' cache
HasEntries-later calls ended now' [] h all = tt
HasEntries-later calls ended now' (p ∷ cache) h (e, all) =
    (IsEntry-later ended now' h e, HasEntries-later calls ended now' cache h all)

http_handler-HasEntries :
    (calls : List Call) (now : ℕ) (env : Env) (request : Request) (cache : DnsCache)
    (handled : Handled)
    → env.lookup.answered ≤ now
    → http_handler env request cache ≡ some handled
    → HasEntries calls now cache
    → HasEntries ((env, request) ∷ calls) now handled.cache
http_handler-HasEntries calls now env request cache handled past h all =
    let (found, got, cases) = http_handler-cases env request cache in
    let same : found ≡ handled = cc in
    let kept = HasEntries-later calls ((env, request) ∷ []) now cache (omega arith) all in
    subst (λ (k : Handled). HasEntries ((env, request) ∷ calls) now k.cache) same
      (elim cases [
        | inr (_, _, unchanged) ↦
            subst (HasEntries ((env, request) ∷ calls) now) (sym unchanged) kept
        | inl (protocols, admitted, opened) ↦ elim (open_address-IsWritten env protocols cache) [
          | inl unchanged ↦
              subst (HasEntries ((env, request) ∷ calls) now)
                (sym (ap (λ (k : Handled). k.cache) opened ∙ unchanged)) kept
          | inr (domain, entry, (host, is_answer, written)) ↦
              subst (HasEntries ((env, request) ∷ calls) now)
                (sym (ap (λ (k : Handled). k.cache) opened ∙ written))
                (All-insert (λ (p : Text × Entry). IsEntry ((env, request) ∷ calls) now p.0 p.1)
                  domain entry cache
                  (record {
                    env = env;
                    request = request;
                    earlier = calls;
                    since = [];
                    among = refl;
                    protocols = protocols;
                    admitted = admitted;
                    host = host;
                    is_answer = is_answer;
                    past = past;
                  })
                  kept)
        ]
      ])

Step-HasEntries :
    (calls : List Call) {ended : List Call} {s t : State}
    → Step s ended t
    → HasEntries calls s.now s.cache
    → HasEntries (ended ++ calls) t.now t.cache
unfolding spawn reply
Step-HasEntries calls accept_failed h = h
Step-HasEntries calls (accept request) h = h
Step-HasEntries calls {s = s} (tick now le) h = HasEntries-later calls [] now s.cache le h
Step-HasEntries calls {s = s} (answer before after task env handled _ _ _ past got) h =
    http_handler-HasEntries calls s.now env task.request s.cache handled past got h
Step-HasEntries calls (panic before after task env _ _ _) h = h

pub Reach-HasEntries :
    {calls : List Call} {s : State} → Reach calls s → HasEntries calls s.now s.cache
unfolding initial
Reach-HasEntries (start now) = tt
Reach-HasEntries (later {calls} r st) = Step-HasEntries calls st (Reach-HasEntries r)

-- Whatever the order of the tasks: an entry of the cache is the answer of a call that has ended, for
-- the domain in the address of its request, and holds for 300 seconds behind that answer.
pub Reach-IsEntry :
    {calls : List Call} {s : State} (domain : Text) (entry : Entry)
    → Reach calls s
    → lookup domain s.cache ≡ some entry
    → IsEntry calls s.now domain entry
Reach-IsEntry {calls} {s} domain entry r found =
    lookup-All (λ (p : Text × Entry). IsEntry calls s.now p.0 p.1) domain entry s.cache
      (Reach-HasEntries r) found
