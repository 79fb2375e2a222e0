-- ===== src/Driver/Jobs.antt =====
-- crates/peryx-driver/src/jobs/scheduler.rs: the bounded pool of maintenance jobs, as a step relation.
-- Tasks of the runtime and callers of `submit` interleave at every permit, lock and await. A semaphore
-- is its number of free permits; one that is keyed has its capacity until it is first used. How a job's
-- own work ends, well, with an error or with a panic, is the environment's choice; a panic unwinds
-- `run_admitted`, whose permits are dropped, while what follows the call of `execute` is never run. An
-- update of the counters of metrics.rs is part of the step that it follows.
pub mod Permits
pub mod Exclusion
pub mod Progress
pub mod Draining
pub mod Submission
pub mod Examples
use velodex.Prelude.{
  ℕ, ◌+◌, ◌-◌, ◌<◌, ◌≡◌, Bool, true, false, not, Option, none, some, List, [], ◌∷◌, ◌++◌, Str, ◌==◌,
  list_eq, nat_eq, if◌then◌else◌, ltb,
}

pub record JobLimits : Type 0 where
  pub workers : ℕ
  pub queue : ℕ
  pub per_kind : ℕ
  pub per_repository : ℕ

pub data Submit : Type 0 where
  queued conflict queue_full shutting_down : Submit

pub data Outcome : Type 0 where
  succeeded failed cancelled : Outcome

pub record KindCounters : Type 0 where
  pub started : ℕ
  pub succeeded : ℕ
  pub failed : ℕ
  pub cancelled : ℕ
  pub conflict : ℕ
  pub queue_full : ℕ
  pub running : ℕ

abbrev pub no_counts : KindCounters
no_counts = record {
  started = 0;
  succeeded = 0;
  failed = 0;
  cancelled = 0;
  conflict = 0;
  queue_full = 0;
  running = 0;
}

-- How far a submission or an admitted job has come: `checked` is behind the test for a shutdown,
-- `claimed` has its conflict key in the set, `queued` has a slot and is spawned; the next three have a
-- further permit each; `started` and `running` are inside `execute`, `finished` behind it; `removed` has
-- given the key back, or was left by a panic, and the last three have dropped the permits in the order of their declaration
-- backwards.
pub data Phase : Type 0 where
  checked claimed queued has_worker has_kind has_repository started running finished removed : Phase
  left_repository left_kind left_worker : Phase

pub record Task : Type 0 where
  pub kind : Str
  pub scope : Str
  pub phase : Phase

-- `Shared`: the semaphores, the set of conflict keys, the metrics and the cancellation token
pub record Shared : Type 0 where
  pub workers : ℕ
  pub queue : ℕ
  pub per_kind : Str → ℕ
  pub per_repository : Str → ℕ
  pub inflight : Str → Bool
  pub counters : Str → KindCounters
  pub is_cancelled : Bool

-- `panicked` is no state of the program but the record of the tasks whose job has panicked.
pub record JobScheduler : Type 0 where
  pub shared : Shared
  pub tasks : List Task
  pub panicked : List Task

-- A map with one entry set.
abbrev pub update {ℓ} : {A : Type ℓ} → (Str → A) → Str → A → Str → A
update f key value other = if key == other then value else f other

unfoldable pub new : JobLimits → JobScheduler
new limits = record {
  shared = record {
    workers = limits.workers;
    queue = limits.queue;
    per_kind = λ kind. limits.per_kind;
    per_repository = λ scope. limits.per_repository;
    inflight = λ key. false;
    counters = λ kind. no_counts;
    is_cancelled = false;
  };
  tasks = [];
  panicked = [];
}

unfoldable pub conflict_key : Str → Str → Str
conflict_key kind scope = kind ++ (0 ∷ scope)

abbrev pub key_of : Task → Str
key_of t = conflict_key t.kind t.scope

-- The counters of crates/peryx-driver/src/jobs/metrics.rs
abbrev pub edit : Shared → Str → (KindCounters → KindCounters) → Shared
edit s kind f = record s { counters = update s.counters kind (f (s.counters kind)) }

abbrev pub count_start : Shared → Str → Shared
count_start s kind =
    edit s kind (λ c. record c { started = c.started + 1; running = c.running + 1 })

abbrev pub count_outcome : Outcome → KindCounters → KindCounters
count_outcome succeeded c = record c { succeeded = c.succeeded + 1; running = c.running - 1 }
count_outcome failed c = record c { failed = c.failed + 1; running = c.running - 1 }
count_outcome cancelled c = record c { cancelled = c.cancelled + 1; running = c.running - 1 }

abbrev pub count_conflict : Shared → Str → Shared
count_conflict s kind = edit s kind (λ c. record c { conflict = c.conflict + 1 })

abbrev pub count_queue_full : Shared → Str → Shared
count_queue_full s kind = edit s kind (λ c. record c { queue_full = c.queue_full + 1 })

-- `execute`: the outcome of a job that ended well or not, by the token after it ended
abbrev pub outcome : Bool → Bool → Outcome
outcome is_cancelled true = if is_cancelled then cancelled else succeeded
outcome is_cancelled false = failed

-- What one submission or job does next. A refusal and the last permit that is given back end it.
pub data Action : Type 0 where
  -- `submit`
  refuse_conflict claim refuse_full take_slot : Action
  -- `run_admitted`, up to its call of `execute`
  take_worker take_kind take_repository : Action
  -- `execute`; whether the job's work went well is the environment's choice
  start skip run : Action
  finish : Bool → Action
  panic : Action
  -- the end of `run_admitted`
  remove leave_repository leave_kind leave_worker leave_slot : Action

-- Where an action is taken, and where it leads; `none` is the end of the call or of the task.
abbrev pub source : Action → Phase
source refuse_conflict = checked
source claim = checked
source refuse_full = claimed
source take_slot = claimed
source take_worker = queued
source take_kind = has_worker
source take_repository = has_kind
source start = has_repository
source skip = started
source run = started
source (finish went_well) = running
source panic = running
source remove = finished
source leave_repository = removed
source leave_kind = left_repository
source leave_worker = left_kind
source leave_slot = left_worker

abbrev pub target : Action → Option Phase
target refuse_conflict = none
target claim = some claimed
target refuse_full = none
target take_slot = some queued
target take_worker = some has_worker
target take_kind = some has_kind
target take_repository = some has_repository
target start = some started
target skip = some finished
target run = some running
target (finish went_well) = some finished
target panic = some removed
target remove = some removed
target leave_repository = some left_repository
target leave_kind = some left_kind
target leave_worker = some left_worker
target leave_slot = none

-- The tests of the code, and the permits that it waits for.
abbrev pub is_enabled : Action → Shared → Task → Bool
is_enabled refuse_conflict s t = s.inflight (key_of t)
is_enabled claim s t = not (s.inflight (key_of t))
is_enabled refuse_full s t = s.queue == 0
is_enabled take_slot s t = ltb 0 s.queue
is_enabled take_worker s t = ltb 0 s.workers
is_enabled take_kind s t = ltb 0 (s.per_kind t.kind)
is_enabled take_repository s t = ltb 0 (s.per_repository t.scope)
is_enabled skip s t = s.is_cancelled
is_enabled run s t = not s.is_cancelled
is_enabled _ s t = true

abbrev pub set_inflight : Shared → Task → Bool → Shared
set_inflight s t present = record s { inflight = update s.inflight (key_of t) present }

abbrev pub set_kind : Shared → Task → ℕ → Shared
set_kind s t free = record s { per_kind = update s.per_kind t.kind free }

abbrev pub set_repository : Shared → Task → ℕ → Shared
set_repository s t free = record s { per_repository = update s.per_repository t.scope free }

-- What an action does to the shared state.
abbrev pub apply : Action → Shared → Task → Shared
apply refuse_conflict s t = count_conflict s t.kind
apply claim s t = set_inflight s t true
apply refuse_full s t = count_queue_full (set_inflight s t false) t.kind
apply take_slot s t = record s { queue = s.queue - 1 }
apply take_worker s t = record s { workers = s.workers - 1 }
apply take_kind s t = set_kind s t (s.per_kind t.kind - 1)
apply take_repository s t = set_repository s t (s.per_repository t.scope - 1)
apply start s t = count_start s t.kind
apply skip s t = edit s t.kind (count_outcome cancelled)
apply run s t = s
apply (finish went_well) s t = edit s t.kind (count_outcome (outcome s.is_cancelled went_well))
apply panic s t = s
apply remove s t = set_inflight s t false
apply leave_repository s t = set_repository s t (s.per_repository t.scope + 1)
apply leave_kind s t = set_kind s t (s.per_kind t.kind + 1)
apply leave_worker s t = record s { workers = s.workers + 1 }
apply leave_slot s t = record s { queue = s.queue + 1 }

abbrev pub CanTake : Action → Shared → Task → Type 0
CanTake a s t = (t.phase ≡ source a) × (is_enabled a s t ≡ true)

abbrev pub put : Option Phase → Task → List Task → List Task
put none t tasks = tasks
put (some phase) t tasks = record t { phase = phase } ∷ tasks

-- The record of panics after an action.
abbrev pub panicked_after : Action → Task → List Task → List Task
panicked_after panic t panicked = t ∷ panicked
panicked_after _ t panicked = panicked

-- The scheduler after the action of a task that stands between two parts of the list.
abbrev pub moved : JobScheduler → List Task → List Task → Task → Action → JobScheduler
moved s before after t a = record {
  shared = apply a s.shared t;
  tasks = before ++ put (target a) t after;
  panicked = panicked_after a t s.panicked;
}

-- One step of the scheduler: a call of `submit` that finds no shutdown begins, `shutdown` cancels, or a
-- submission or a job moves.
pub data Step (s : JobScheduler) : JobScheduler → Type 0 where
  begin :
      (kind scope : Str)
      → s.shared.is_cancelled ≡ false
      → Step s
          (record s { tasks = record { kind = kind; scope = scope; phase = checked } ∷ s.tasks })
  shutdown : Step s (record s { shared = record s.shared { is_cancelled = true } })
  move :
      (before after : List Task) (t : Task) (a : Action)
      → s.tasks ≡ before ++ (t ∷ after)
      → CanTake a s.shared t
      → Step s (moved s before after t a)

pub data Reach (limits : JobLimits) : JobScheduler → Type 0 where
  built : Reach limits (new limits)
  then_step : {s u : JobScheduler} → Reach limits s → Step s u → Reach limits u

-- What each phase holds.
abbrev pub in_flight : Phase → ℕ
in_flight claimed = 1
in_flight queued = 1
in_flight has_worker = 1
in_flight has_kind = 1
in_flight has_repository = 1
in_flight started = 1
in_flight running = 1
in_flight finished = 1
in_flight _ = 0

abbrev pub has_slot : Phase → ℕ
has_slot checked = 0
has_slot claimed = 0
has_slot _ = 1

abbrev pub has_worker_permit : Phase → ℕ
has_worker_permit checked = 0
has_worker_permit claimed = 0
has_worker_permit queued = 0
has_worker_permit left_worker = 0
has_worker_permit _ = 1

abbrev pub has_kind_permit : Phase → ℕ
has_kind_permit checked = 0
has_kind_permit claimed = 0
has_kind_permit queued = 0
has_kind_permit has_worker = 0
has_kind_permit left_kind = 0
has_kind_permit left_worker = 0
has_kind_permit _ = 1

abbrev pub has_repository_permit : Phase → ℕ
has_repository_permit has_repository = 1
has_repository_permit started = 1
has_repository_permit running = 1
has_repository_permit finished = 1
has_repository_permit removed = 1
has_repository_permit _ = 0

abbrev pub is_executing : Phase → ℕ
is_executing started = 1
is_executing running = 1
is_executing _ = 0

-- A sum over the tasks.
pub sum_of : (Task → ℕ) → List Task → ℕ
sum_of weight [] = 0
sum_of weight (t ∷ tasks) = weight t + sum_of weight tasks
