-- ===== src/Server/Serving/Tasks.antt =====
-- What the tasks of the server have found in the cache.
use mantalon.Base.{ℕ, ◌≤◌, List, [], ◌∷◌, ◌++◌, subst, All, All-append, All-without, arith}
use mantalon.Server.Serving.{
  Task, State, Call, Step, accept_failed, accept, tick, answer, panic, Reach, start, later, initial,
  spawn, reply,
}
use mantalon.Server.Serving.Entries.{HasEntries, HasEntries-later, Reach-HasEntries}

-- What each task found in the cache, which has grown since.
abbrev pub HaveEntries : List Call → ℕ → List Task → Type 0
HaveEntries calls now tasks = All (λ (t : Task). HasEntries calls now t.cached) tasks

HaveEntries-later :
    (calls : List Call) {now : ℕ} (ended : List Call) (now' : ℕ) (tasks : List Task)
    → now ≤ now'
    → HaveEntries calls now tasks
    → HaveEntries (ended ++ calls) now' tasks
HaveEntries-later calls ended now' [] le h = tt
HaveEntries-later calls ended now' (task ∷ tasks) le (first, h) = (
  HasEntries-later calls ended now' task.cached le first,
  HaveEntries-later calls ended now' tasks le h,
)

Step-HaveEntries :
    (calls : List Call) {ended : List Call} {s t : State}
    → Step s ended t
    → HasEntries calls s.now s.cache
    → HaveEntries calls s.now s.tasks
    → HaveEntries (ended ++ calls) t.now t.tasks
unfolding spawn reply
Step-HaveEntries calls accept_failed cache h = h
Step-HaveEntries calls {s = s} (accept request) cache h =
    All-append (λ (t : Task). HasEntries calls s.now t.cached) s.tasks _ h (cache, tt)
Step-HaveEntries calls {s = s} (tick now le) cache h = HaveEntries-later calls [] now s.tasks le h
Step-HaveEntries calls {s = s} (answer before after task env handled split _ _ _ _) cache h =
    let (_, rest) =
      All-without (λ (t : Task). HasEntries calls s.now t.cached) before after task
        (subst (HaveEntries calls s.now) split h) in
    HaveEntries-later calls ((env, task.request) ∷ []) s.now (before ++ after) (omega arith) rest
Step-HaveEntries calls {s = s} (panic before after task env split _ _) cache h =
    let (_, rest) =
      All-without (λ (t : Task). HasEntries calls s.now t.cached) before after task
        (subst (HaveEntries calls s.now) split h) in
    rest

pub Reach-HaveEntries :
    {calls : List Call} {s : State} → Reach calls s → HaveEntries calls s.now s.tasks
unfolding initial
Reach-HaveEntries (start now) = tt
Reach-HaveEntries (later {calls} r st) =
    Step-HaveEntries calls st (Reach-HasEntries r) (Reach-HaveEntries r)
