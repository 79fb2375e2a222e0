-- ===== src/Driver/Jobs/Permits.antt =====
-- The permits of a scheduler: the free ones, and those that its tasks hold.
use velodex.Prelude.{
  ℕ, ◌+◌, ◌≤◌, ◌≡◌, refl, ap, Option, none, some, List, [], ◌∷◌, ◌++◌, arith, Str, ◌==◌, list_eq,
  nat_eq, if◌then◌else◌, list_beq_iff,
}
use velodex.Driver.Jobs.{
  JobLimits, Phase, checked, Task, Shared, JobScheduler, Action, target, apply, CanTake, put,
  panicked_after, moved, Step, begin, shutdown, move, Reach, built, then_step, new, has_slot,
  has_worker_permit, has_kind_permit, has_repository_permit, is_executing, sum_of,
}

pub sum_of-append :
    (w : Task → ℕ) (xs ys : List Task) → sum_of w (xs ++ ys) ≡ sum_of w xs + sum_of w ys
unfolding sum_of
sum_of-append w [] ys = omega arith
sum_of-append w (t ∷ xs) ys = omega (arith, sum_of-append w xs ys)

-- The weight of a task that may have ended.
abbrev pub weight_of : (Task → ℕ) → Option Phase → Task → ℕ
weight_of w none t = 0
weight_of w (some phase) t = w (record t { phase = phase })

pub sum_of-put :
    (w : Task → ℕ) (o : Option Phase) (t : Task) (before after : List Task)
    → sum_of w (before ++ put o t after) + w t ≡ sum_of w (before ++ (t ∷ after)) + weight_of w o t
unfolding sum_of
sum_of-put w none t before after =
    omega (arith, sum_of-append w before after, sum_of-append w before (t ∷ after))
sum_of-put w (some phase) t before after = omega (
  arith,
  sum_of-append w before (record t { phase = phase } ∷ after),
  sum_of-append w before (t ∷ after),
)

-- What a task holds of each resource.
abbrev pub slot : Task → ℕ
slot t = has_slot t.phase

abbrev pub worker : Task → ℕ
worker t = has_worker_permit t.phase

abbrev pub of_kind : Str → Task → ℕ
of_kind kind t = if t.kind == kind then has_kind_permit t.phase else 0

abbrev pub of_repository : Str → Task → ℕ
of_repository scope t = if t.scope == scope then has_repository_permit t.phase else 0

abbrev pub executing : Str → Task → ℕ
executing kind t = if t.kind == kind then is_executing t.phase else 0

-- A run of the kind.
abbrev pub same_kind : Str → Task → ℕ
same_kind kind t = if t.kind == kind then 1 else 0

module _ (s : Shared) (t : Task) where
  -- An action takes a permit from the free ones, gives one back, or keeps what the task holds.
  queue_kept :
      (a : Action)
      → CanTake a s t
      → (apply a s t).queue + weight_of slot (target a) t ≡ s.queue + slot t
  queue_kept a c = ground arith

  workers_kept :
      (a : Action)
      → CanTake a s t
      → (apply a s t).workers + weight_of worker (target a) t ≡ s.workers + worker t
  workers_kept a c = ground arith

  per_kind_kept :
      (k : Str) (a : Action)
      → CanTake a s t
      → (apply a s t).per_kind k + weight_of (of_kind k) (target a) t ≡ s.per_kind k + of_kind k t
  per_kind_kept k a c = ground (arith, list_beq_iff t.kind k)

  per_repository_kept :
      (r : Str) (a : Action)
      → CanTake a s t
      → (apply a s t).per_repository r + weight_of (of_repository r) (target a) t
        ≡ s.per_repository r + of_repository r t
  per_repository_kept r a c = ground (arith, list_beq_iff t.scope r)

  running_kept :
      (k : Str) (a : Action) (panicked : List Task)
      → CanTake a s t
      → executing k t ≤ (s.counters k).running
      → ((apply a s t).counters k).running + executing k t + sum_of (same_kind k) panicked
        ≡ (s.counters k).running
          + weight_of (executing k) (target a) t
          + sum_of (same_kind k) (panicked_after a t panicked)
  unfolding sum_of
  running_kept k a panicked c held = ground (arith, list_beq_iff t.kind k)

-- Free and held permits make up each capacity, and the gauge of running jobs counts those that execute
-- and those that have panicked.
pub record Balanced (limits : JobLimits) (s : JobScheduler) : Type 0 where
  pub queue : s.shared.queue + sum_of slot s.tasks ≡ limits.queue
  pub workers : s.shared.workers + sum_of worker s.tasks ≡ limits.workers
  pub per_kind : (k : Str) → s.shared.per_kind k + sum_of (of_kind k) s.tasks ≡ limits.per_kind
  pub per_repository :
      (r : Str)
      → s.shared.per_repository r + sum_of (of_repository r) s.tasks ≡ limits.per_repository
  pub running :
      (k : Str)
      → (s.shared.counters k).running
        ≡ sum_of (executing k) s.tasks + sum_of (same_kind k) s.panicked

pub weight-le-sum_of :
    (w : Task → ℕ) (before after : List Task) (t : Task) → w t ≤ sum_of w (before ++ (t ∷ after))
unfolding sum_of
weight-le-sum_of w before after t = omega (arith, sum_of-append w before (t ∷ after))

move-Balanced :
    (limits : JobLimits) (s : JobScheduler) (before after : List Task) (t : Task) (a : Action)
    → s.tasks ≡ before ++ (t ∷ after)
    → CanTake a s.shared t
    → Balanced limits s
    → Balanced limits (moved s before after t a)
move-Balanced limits s before after t a e c b = record {
  queue = omega (arith, b.queue, queue_kept s.shared t a c, shifted slot, here slot);
  workers = omega (arith, b.workers, workers_kept s.shared t a c, shifted worker, here worker);
  per_kind = λ k.
      omega (
        arith,
        b.per_kind k,
        per_kind_kept s.shared t k a c,
        shifted (of_kind k),
        here (of_kind k),
      );
  per_repository = λ r. omega (
    arith,
    b.per_repository r,
    per_repository_kept s.shared t r a c,
    shifted (of_repository r),
    here (of_repository r),
  );
  running = λ k. omega (
    arith,
    b.running k,
    running_kept s.shared t k a s.panicked c (
        omega
          (arith, b.running k, here (executing k), weight-le-sum_of (executing k) before after t)),
    shifted (executing k),
    here (executing k),
  );
}
  where
    here : (w : Task → ℕ) → sum_of w s.tasks ≡ sum_of w (before ++ (t ∷ after))
    here w = ap (sum_of w) e

    shifted :
        (w : Task → ℕ)
        → sum_of w (before ++ put (target a) t after) + w t
          ≡ sum_of w (before ++ (t ∷ after)) + weight_of w (target a) t
    shifted w = sum_of-put w (target a) t before after

begin-Balanced :
    (limits : JobLimits) (s : JobScheduler) (kind scope : Str)
    → Balanced limits s
    → Balanced limits
        (record s { tasks = record { kind = kind; scope = scope; phase = checked } ∷ s.tasks })
unfolding sum_of
begin-Balanced limits s kind scope b = record {
  queue = omega (arith, b.queue);
  workers = omega (arith, b.workers);
  per_kind = λ k. ground (arith, b.per_kind k);
  per_repository = λ r. ground (arith, b.per_repository r);
  running = λ k. ground (arith, b.running k);
}

-- In every state that a scheduler reaches, each permit of a semaphore is either free or held by one
-- task, and the gauge of running jobs of a kind counts the jobs of the kind that execute and all those
-- that have ever panicked.
pub Reach-Balanced : {limits : JobLimits} {s : JobScheduler} → Reach limits s → Balanced limits s
unfolding new sum_of
Reach-Balanced {limits} built = record {
  queue = omega arith;
  workers = omega arith;
  per_kind = λ k. omega arith;
  per_repository = λ r. omega arith;
  running = λ k. refl;
}
Reach-Balanced {limits} (then_step {s = s} r st) = Step-Balanced st (Reach-Balanced r)
  where
    Step-Balanced : {s u : JobScheduler} → Step s u → Balanced limits s → Balanced limits u
    Step-Balanced {s = s} (begin kind scope open_now) b = begin-Balanced limits s kind scope b
    Step-Balanced shutdown b = record {
      queue = b.queue;
      workers = b.workers;
      per_kind = b.per_kind;
      per_repository = b.per_repository;
      running = b.running;
    }
    Step-Balanced {s = s} (move before after t a e c) b =
        move-Balanced limits s before after t a e c b
