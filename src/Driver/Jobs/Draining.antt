-- ===== src/Driver/Jobs/Draining.antt =====
-- The moves that are left of what a scheduler has admitted.
use velodex.Prelude.{
  ℕ, zero, suc, ◌+◌, ◌≤◌, ◌<◌, ◌≡◌, ◌⊎◌, inl, inr, refl, ap, List, [], ◌∷◌, ◌++◌, arith, Str,
  list_eq, nat_eq,
}
use velodex.Driver.Jobs.{
  JobLimits, Phase, checked, claimed, queued, has_worker, has_kind, has_repository, started,
  running, finished, removed, left_repository, left_kind, left_worker, Task, Shared, JobScheduler,
  Action, target, CanTake, moved, move, Reach, then_step, sum_of,
}
use velodex.Driver.Jobs.Permits.{
  weight_of, sum_of-put, slot, worker, of_kind, of_repository, same_kind, executing, Reach-Balanced,
}
use velodex.Driver.Jobs.Exclusion.{holding, present, same_key, Reach-Claimed}
use velodex.Driver.Jobs.Progress.{IsPositive, CanMove, Reach-CanMove}

-- How many moves a task has left, at most.
abbrev pub moves_left : Phase → ℕ
moves_left checked = 14
moves_left claimed = 13
moves_left queued = 12
moves_left has_worker = 11
moves_left has_kind = 10
moves_left has_repository = 9
moves_left started = 8
moves_left running = 7
moves_left finished = 6
moves_left removed = 5
moves_left left_repository = 4
moves_left left_kind = 3
moves_left left_worker = 2

abbrev pub remaining : Task → ℕ
remaining t = moves_left t.phase

fewer_left :
    (s : Shared) (t : Task) (a : Action)
    → CanTake a s t
    → weight_of remaining (target a) t < remaining t
fewer_left s t a c = ground arith

-- A sequence of moves, which may be panics, with no new submission among them, and its length.
pub data Moves (s : JobScheduler) : ℕ → JobScheduler → Type 0 where
  rest : Moves s 0 s
  further :
      {n : ℕ} {u : JobScheduler} (before after : List Task) (t : Task) (a : Action)
      → Moves s n u
      → u.tasks ≡ before ++ (t ∷ after)
      → CanTake a u.shared t
      → Moves s (suc n) (moved u before after t a)

Moves-bound :
    {s : JobScheduler} {n : ℕ} {u : JobScheduler}
    → Moves s n u
    → n + sum_of remaining u.tasks ≤ sum_of remaining s.tasks
Moves-bound rest = omega arith
Moves-bound (further {u = u} before after t a moves e c) = omega (
  arith,
  Moves-bound moves,
  ap (sum_of remaining) e,
  sum_of-put remaining (target a) t before after,
  fewer_left u.shared t a c,
)

Moves-Reach :
    {limits : JobLimits} {s : JobScheduler} {n : ℕ} {u : JobScheduler}
    → Reach limits s
    → Moves s n u
    → Reach limits u
Moves-Reach r rest = r
Moves-Reach r (further before after t a moves e c) =
    then_step (Moves-Reach r moves) (move before after t a e c)

-- Nothing is left: no task, no permit taken, and no key claimed and no job that counts as running but
-- those of jobs that panicked.
pub record IsIdle (limits : JobLimits) (s : JobScheduler) : Type 0 where
  pub tasks : s.tasks ≡ []
  pub queue : s.shared.queue ≡ limits.queue
  pub workers : s.shared.workers ≡ limits.workers
  pub per_kind : (k : Str) → s.shared.per_kind k ≡ limits.per_kind
  pub per_repository : (r : Str) → s.shared.per_repository r ≡ limits.per_repository
  pub inflight : (key : Str) → present s.shared key ≡ sum_of (same_key key) s.panicked
  pub running : (k : Str) → (s.shared.counters k).running ≡ sum_of (same_kind k) s.panicked

Reach-IsIdle :
    {limits : JobLimits} {s : JobScheduler} → Reach limits s → s.tasks ≡ [] → IsIdle limits s
unfolding sum_of
Reach-IsIdle {limits} {s} r e =
    let b = Reach-Balanced r in
    record {
      tasks = e;
      queue = omega (arith, b.queue, none_held slot);
      workers = omega (arith, b.workers, none_held worker);
      per_kind = λ k. omega (arith, b.per_kind k, none_held (of_kind k));
      per_repository = λ r. omega (arith, b.per_repository r, none_held (of_repository r));
      inflight = λ key. omega (arith, Reach-Claimed r key, none_held (holding key));
      running = λ k. omega (arith, b.running k, none_held (executing k));
    }
  where
    none_held : (w : Task → ℕ) → sum_of w s.tasks ≡ 0
    none_held w = ap (sum_of w) e

-- A scheduler with no bound of zero settles on every run of what it has admitted, in whatever order
-- submissions and jobs move and however the jobs end, also in a panic. A run is no longer than what its
-- tasks have left at the start. Where it stops, either a task can still move, or nothing is left: no
-- task, no permit taken, and no conflict key claimed and no job counted as running but those of the jobs
-- that panicked.
pub Moves-settle :
    {limits : JobLimits} {s : JobScheduler} {n : ℕ} {u : JobScheduler}
    → IsPositive limits
    → Reach limits s
    → Moves s n u
    → (n ≤ sum_of remaining s.tasks) × (CanMove u ⊎ IsIdle limits u)
Moves-settle {limits} {u = u} positive r moves =
    (omega (arith, Moves-bound moves), settled u.tasks refl)
  where
    reached : Reach limits u
    reached = Moves-Reach r moves

    settled : (tasks : List Task) → u.tasks ≡ tasks → CanMove u ⊎ IsIdle limits u
    settled [] e = inr (Reach-IsIdle reached e)
    settled (first ∷ others) e = inl (Reach-CanMove first others positive reached e)

module _ (limits : JobLimits) (positive : IsPositive limits) (s : JobScheduler)
    (r : Reach limits s) where
  Drains : Type 0
  Drains = (n : ℕ) × (u : JobScheduler) × Moves s n u × IsIdle limits u

  drain_from :
      (fuel : ℕ) (n : ℕ) (u : JobScheduler) (tasks : List Task)
      → u.tasks ≡ tasks
      → Moves s n u
      → sum_of remaining u.tasks < fuel
      → Drains
  unfolding Drains
  drain_from zero n u tasks e moves enough = absurd (omega arith)
  drain_from (suc fuel) n u [] e moves enough = (n, u, moves, Reach-IsIdle (Moves-Reach r moves) e)
  drain_from (suc fuel) n u (first ∷ others) e moves enough =
      let (before, after, t, a, at, c) =
        Reach-CanMove first others positive (Moves-Reach r moves) e in
      let u' = moved u before after t a in
      drain_from fuel (suc n) u' u'.tasks refl (further before after t a moves at c) (
        omega (
          arith,
          ap (sum_of remaining) at,
          sum_of-put remaining (target a) t before after,
          fewer_left u.shared t a c,
        ))

-- From every state that a scheduler with no bound of zero reaches, moves of what it has admitted lead to
-- a state in which nothing is left: no task, no permit taken, and no conflict key claimed and no job
-- counted as running but those of the jobs that panicked.
pub Reach-drains :
    {limits : JobLimits} {s : JobScheduler}
    → IsPositive limits
    → Reach limits s
    → (n : ℕ) × (u : JobScheduler) × Moves s n u × IsIdle limits u
unfolding Drains
Reach-drains {limits} {s} positive r =
    drain_from limits positive s r (suc (sum_of remaining s.tasks)) 0 s s.tasks refl rest
      (omega arith)
