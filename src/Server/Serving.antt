-- ===== src/Server/Serving.antt =====
-- mantalon-server/src/main.rs: the loop that accepts connections, and the tasks that it spawns,
-- which share the DNS cache. A step of the server is a step of one task: the start of a call of
-- `http_handler`, up to its check of the cache, or the rest of the call, which touches the cache once.
pub mod Writes
pub mod Entries
pub mod Tasks
pub mod Origins
use mantalon.Base.{ℕ, ◌≤◌, List, [], ◌∷◌, ◌++◌, some, none, ◌≡◌}
use mantalon.Server.Dns.{DnsCache, Lookup}
use mantalon.Server.Handler.{Env, Request, Reply, Handled, http_handler}

-- A call that has checked the cache, which it found to be `cached`.
pub record Task : Type 0 where
  pub request : Request
  pub cached : DnsCache
  pub started : ℕ

pub record State : Type 0 where
  pub cache : DnsCache
  pub tasks : List Task
  pub replies : List Reply
  pub now : ℕ

-- A call that has ended, with what the libraries did in it.
abbrev pub Call : Type 0
Call = Env × Request

unfoldable pub initial : ℕ → State
initial now = record { cache = []; tasks = []; replies = []; now = now }

unfoldable pub spawn : Request → State → State
spawn request s = record s {
  tasks = s.tasks ++ (record { request = request; cached = s.cache; started = s.now }) ∷ [];
}

unfoldable pub reply : List Task → Handled → State → State
reply tasks handled s = record s {
  cache = handled.cache;
  tasks = tasks;
  replies = s.replies ++ handled.reply ∷ [];
}

-- A step, with the call that ends in it.
pub data Step : State → List Call → State → Type 0 where
  accept_failed : {s : State} → Step s [] s
  accept : {s : State} (request : Request) → Step s [] (spawn request s)
  tick : {s : State} (now : ℕ) → s.now ≤ now → Step s [] (record s { now = now })
  answer :
      {s : State} (before after : List Task) (task : Task) (env : Env) (handled : Handled)
      → s.tasks ≡ before ++ task ∷ after
      → env.cached ≡ task.cached
      → env.lookup.started ≡ task.started
      → env.lookup.answered ≤ s.now
      → http_handler env task.request s.cache ≡ some handled
      → Step s ((env, task.request) ∷ []) (reply (before ++ after) handled s)
  -- a panic ends the task only
  panic :
      {s : State} (before after : List Task) (task : Task) (env : Env)
      → s.tasks ≡ before ++ task ∷ after
      → env.cached ≡ task.cached
      → http_handler env task.request s.cache ≡ none
      → Step s [] (record s { tasks = before ++ after })

-- The server that has started at some time and made some steps, with the calls that have ended.
pub data Reach : List Call → State → Type 0 where
  start : (now : ℕ) → Reach [] (initial now)
  later :
      {calls ended : List Call} {s t : State}
      → Reach calls s
      → Step s ended t
      → Reach (ended ++ calls) t
