-- ===== src/Driver/Jobs/Examples.antt =====
-- Runs of the job scheduler.
use velodex.Prelude.{
  if◌then◌else◌, ◌==◌, nat_eq, list_eq, refl, ℕ, [], ◌∷◌, Str, arith, ◌≡◌, ◌≤◌, ◌⊎◌,
}
use velodex.Driver.Jobs.{
  is_executing, take_worker, take_kind, take_repository, start, run, panic, leave_repository,
  leave_kind, leave_worker, leave_slot, has_worker, has_kind, has_repository, started, running,
  removed, left_repository, left_kind, left_worker, Phase, Action, moved, JobLimits, Submit, new,
  Task, queued, JobScheduler, Reach, built, conflict_key, sum_of,
}
use velodex.Driver.Jobs.Permits.{executing, Balanced, Reach-Balanced, slot}
use velodex.Driver.Jobs.Exclusion.{Reach-exclusive, Reach-bounds}
use velodex.Driver.Jobs.Draining.{
  Moves, rest, further, Moves-settle, IsIdle, Reach-drains, remaining,
}
use velodex.Driver.Jobs.Progress.{IsPositive, CanMove, Reach-CanMove}
use velodex.Driver.Jobs.Submission.{
  submit, submit-Reach, verdict, submit-verdict, IsUntouched, submit_refused,
}

abbrev tight : JobLimits
tight = record { workers = 1; queue = 1; per_kind = 1; per_repository = 1 }

abbrev tight-IsPositive : IsPositive tight
tight-IsPositive = record {
  workers = omega arith;
  per_kind = omega arith;
  per_repository = omega arith;
}

abbrev sweep : Str
sweep = 115 ∷ []

abbrev pypi : Str
pypi = 112 ∷ []

abbrev one_job : JobScheduler
one_job = (submit (new tight) sweep pypi).0

abbrev one_job-Reach : Reach tight one_job
one_job-Reach = submit-Reach sweep pypi built

second_conflicts : (submit one_job sweep pypi).1 ≡ Submit.conflict
unfolding submit new conflict_key
second_conflicts = refl

third_full : (submit one_job sweep sweep).1 ≡ Submit.queue_full
unfolding submit new conflict_key
third_full = refl

submit-verdict_example :
    ((submit one_job sweep sweep).1 ≡ verdict tight one_job sweep sweep)
    × Reach tight (submit one_job sweep sweep).0
submit-verdict_example = submit-verdict sweep sweep one_job-Reach

Reach-Balanced_example : Balanced tight one_job
Reach-Balanced_example = Reach-Balanced one_job-Reach

Reach-CanMove_example : CanMove one_job
unfolding submit new conflict_key
Reach-CanMove_example =
    Reach-CanMove (record { kind = sweep; scope = pypi; phase = queued }) [] tight-IsPositive
      one_job-Reach refl

abbrev two_places : JobLimits
two_places = record { workers = 1; queue = 2; per_kind = 1; per_repository = 1 }

abbrev two_jobs : JobScheduler
two_jobs = (submit (submit (new two_places) sweep pypi).0 sweep sweep).0

abbrev two_jobs-Reach : Reach two_places two_jobs
two_jobs-Reach = submit-Reach sweep sweep (submit-Reach sweep pypi built)

Reach-exclusive_example : ¬ ((sweep ≡ sweep) × (sweep ≡ pypi))
unfolding submit new conflict_key
Reach-exclusive_example =
    Reach-exclusive [] [] [] (record { kind = sweep; scope = sweep; phase = queued })
      (record { kind = sweep; scope = pypi; phase = queued }) two_jobs-Reach refl refl refl

Reach-bounds_example :
    (sum_of slot two_jobs.tasks ≤ 2)
    × (sum_of (λ t. is_executing t.phase) two_jobs.tasks ≤ 1)
    × ((kind : Str) → sum_of (executing kind) two_jobs.tasks ≤ 1)
    × ((scope : Str)
        → sum_of (λ t. if t.scope == scope then is_executing t.phase else 0) two_jobs.tasks ≤ 1)
Reach-bounds_example = Reach-bounds two_jobs-Reach

Reach-drains_example : (n : ℕ) × (u : JobScheduler) × Moves one_job n u × IsIdle tight u
Reach-drains_example = Reach-drains tight-IsPositive one_job-Reach

submit_refused_example : IsUntouched one_job (submit one_job sweep sweep).0
unfolding submit new conflict_key
submit_refused_example = submit_refused one_job sweep sweep (λ e. cc)

abbrev first_job : Task
first_job = record { kind = sweep; scope = pypi; phase = queued }

abbrev at_worker : JobScheduler
at_worker = moved one_job [] [] first_job take_worker

Moves-settle_example :
    (1 ≤ sum_of remaining one_job.tasks) × (CanMove at_worker ⊎ IsIdle tight at_worker)
unfolding submit new conflict_key
Moves-settle_example =
    Moves-settle {s = one_job} tight-IsPositive one_job-Reach
      (further [] [] first_job take_worker rest refl (refl, refl))

-- The job of a scheduler that panics, step by step.
abbrev at_phase : Phase → Task
at_phase phase = record { kind = sweep; scope = pypi; phase = phase }

abbrev with_action : JobScheduler → Phase → Action → JobScheduler
with_action s phase a = moved s [] [] (at_phase phase) a

abbrev panicked_job : JobScheduler
panicked_job =
    with_action
      (with_action
        (with_action
          (with_action
            (with_action
              (with_action
                (with_action
                  (with_action
                    (with_action (with_action one_job queued take_worker) has_worker take_kind)
                    has_kind take_repository)
                  has_repository start)
                started run)
              running panic)
            removed leave_repository)
          left_repository leave_kind)
        left_kind leave_worker)
      left_worker leave_slot

panicked_conflicts : (submit panicked_job sweep pypi).1 ≡ Submit.conflict
unfolding submit new conflict_key
panicked_conflicts = refl

panicked_leaves : panicked_job.tasks ≡ []
unfolding submit new conflict_key
panicked_leaves = refl
