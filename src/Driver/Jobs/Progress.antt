-- ===== src/Driver/Jobs/Progress.antt =====
-- Which task of a scheduler can take its next action.
use velodex.Prelude.{
  ℕ, ◌<◌, ◌≡◌, ◌⊎◌, inl, inr, refl, ap, Bool, true, false, List, [], ◌∷◌, ◌++◌, arith, Str, ◌==◌,
  list_eq, nat_eq, Bool-cases, any, ◌||◌,
}
use velodex.Driver.Jobs.{
  JobLimits, Phase, checked, claimed, queued, has_worker, has_kind, has_repository, started,
  running, finished, removed, left_repository, left_kind, left_worker, Task, Shared, JobScheduler,
  Action, refuse_conflict, claim, refuse_full, take_slot, take_worker, take_kind, take_repository,
  start, skip, run, finish, remove, leave_repository, leave_kind, leave_worker, leave_slot, CanTake,
  conflict_key, Reach, sum_of,
}
use velodex.Driver.Jobs.Permits.{worker, of_kind, of_repository, Balanced, Reach-Balanced}

pub record IsPositive (limits : JobLimits) : Type 0 where
  pub workers : 0 < limits.workers
  pub per_kind : 0 < limits.per_kind
  pub per_repository : 0 < limits.per_repository

-- A task that waits for one of the three permits of a running job.
abbrev waits_worker : Task → Bool
waits_worker t = elim t.phase [ Phase.queued ↦ true | _ ↦ false ]

abbrev waits_kind : Task → Bool
waits_kind t = elim t.phase [ Phase.has_worker ↦ true | _ ↦ false ]

abbrev waits_repository : Task → Bool
waits_repository t = elim t.phase [ Phase.has_kind ↦ true | _ ↦ false ]

abbrev is_ready : Task → Bool
is_ready t = elim t.phase [
  | Phase.queued ↦ false
  | Phase.has_worker ↦ false
  | Phase.has_kind ↦ false
  | _ ↦ true
]

-- Some task can take an action.
abbrev pub CanMove : JobScheduler → Type 0
CanMove s =
    (before : List Task) × (after : List Task) × (t : Task) × (a : Action) × (s.tasks
      ≡ before ++ (t ∷ after))
    × CanTake a s.shared t

-- A task behind a wait can always move.
ready_action : (s : Shared) (t : Task) → is_ready t ≡ true → (a : Action) × CanTake a s t
ready_action s t h = by_phase t.phase refl
  where
    by_phase : (p : Phase) → t.phase ≡ p → (a : Action) × CanTake a s t
    by_phase checked e = elim (Bool-cases (s.inflight (conflict_key t.kind t.scope))) [
      | inl there ↦ (refuse_conflict, (e, there))
      | inr free ↦ (claim, (e, rw free refl))
    ]
    by_phase claimed e = elim (Bool-cases (s.queue == 0)) [
      | inl full ↦ (refuse_full, (e, full))
      | inr room ↦ (take_slot, (e, ground arith))
    ]
    by_phase queued e = absurd (ground arith)
    by_phase has_worker e = absurd (ground arith)
    by_phase has_kind e = absurd (ground arith)
    by_phase has_repository e = (start, (e, refl))
    by_phase started e = elim (Bool-cases s.is_cancelled) [
      | inl over ↦ (skip, (e, over))
      | inr on ↦ (run, (e, rw on refl))
    ]
    by_phase running e = (finish true, (e, refl))
    by_phase finished e = (remove, (e, refl))
    by_phase removed e = (leave_repository, (e, refl))
    by_phase left_repository e = (leave_kind, (e, refl))
    by_phase left_kind e = (leave_worker, (e, refl))
    by_phase left_worker e = (leave_slot, (e, refl))

-- The first task that passes a test, or that none does.
Found : (Task → Bool) → List Task → Type 0
Found f tasks =
    (before : List Task) × (after : List Task) × (t : Task) × (tasks ≡ before ++ (t ∷ after))
    × (f t ≡ true)

first_task : (f : Task → Bool) (tasks : List Task) → Found f tasks ⊎ (any f tasks ≡ false)
unfolding Found
first_task f [] = inr refl
first_task f (t ∷ tasks) = elim (Bool-cases (f t)) [
  | inl hit ↦ inl ([], tasks, t, refl, hit)
  | inr miss ↦ elim (first_task f tasks) [
    | inl (before, after, u, e, hit) ↦ inl (t ∷ before, after, u, ap (◌∷◌ t) e, hit)
    | inr none_left ↦ inr (rw miss none_left)
  ]
]

sum_of-zero :
    (w : Task → ℕ) (f : Task → Bool)
    → ((t : Task) → f t ≡ false → w t ≡ 0)
    → (tasks : List Task) → any f tasks ≡ false
    → sum_of w tasks ≡ 0
unfolding sum_of
sum_of-zero w f light [] h = refl
sum_of-zero w f light (t ∷ tasks) h =
    omega (arith, light t (ground arith), sum_of-zero w f light tasks (ground arith))

neither :
    (f g : Task → Bool) (tasks : List Task)
    → any f tasks ≡ false
    → any g tasks ≡ false
    → any (λ t. f t || g t) tasks ≡ false
neither f g [] h h' = refl
neither f g (t ∷ tasks) h h' =
    let rest = neither f g tasks (ground arith) (ground arith) in ground arith

-- A waiting task gets its permit if no task holds one: all of them are free.
module _ (limits : JobLimits) (positive : IsPositive limits) (s : JobScheduler)
    (b : Balanced limits s) where
  repository_free : any is_ready s.tasks ≡ false → (scope : Str) → 0 < s.shared.per_repository scope
  repository_free idle scope = omega (
    arith,
    b.per_repository scope,
    positive.per_repository,
    sum_of-zero (of_repository scope) is_ready light s.tasks idle,
  )
    where
      light : (t : Task) → is_ready t ≡ false → of_repository scope t ≡ 0
      light t h = ground arith

  kind_free :
      any is_ready s.tasks ≡ false
      → any waits_repository s.tasks ≡ false
      → (kind : Str) → 0 < s.shared.per_kind kind
  kind_free idle none_waits kind = omega (
    arith,
    b.per_kind kind,
    positive.per_kind,
    sum_of-zero (of_kind kind) (λ t. is_ready t || waits_repository t) light s.tasks
        (neither is_ready waits_repository s.tasks idle none_waits),
  )
    where
      light : (t : Task) → (is_ready t || waits_repository t) ≡ false → of_kind kind t ≡ 0
      light t h = ground arith

  worker_free :
      any is_ready s.tasks ≡ false
      → any waits_repository s.tasks ≡ false
      → any waits_kind s.tasks ≡ false
      → 0 < s.shared.workers
  worker_free idle none_waits none_waits' = omega (
    arith,
    b.workers,
    positive.workers,
    sum_of-zero worker (λ t. (is_ready t || waits_repository t) || waits_kind t) light s.tasks
        (neither (λ t. is_ready t || waits_repository t) waits_kind s.tasks
          (neither is_ready waits_repository s.tasks idle none_waits) none_waits'),
  )
    where
      light :
          (t : Task) → ((is_ready t || waits_repository t) || waits_kind t) ≡ false → worker t ≡ 0
      light t h = ground arith

  last_waits :
      (t : Task)
      → is_ready t ≡ false
      → waits_repository t ≡ false
      → waits_kind t ≡ false
      → t.phase ≡ queued
  last_waits t h h' h'' = ground arith

  progress : (first : Task) (rest : List Task) → s.tasks ≡ first ∷ rest → CanMove s
  unfolding Found
  progress first rest e = elim (first_task is_ready s.tasks) [
    | inl (before, after, t, at, hit) ↦
        let (a, c) = ready_action s.shared t hit in (before, after, t, a, at, c)
    | inr idle ↦ elim (first_task waits_repository s.tasks) [
      | inl (before, after, t, at, hit) ↦ (
        before,
        after,
        t,
        take_repository,
        at,
        (ground arith, ground (arith, repository_free idle t.scope)),
      )
      | inr none_waits ↦ elim (first_task waits_kind s.tasks) [
        | inl (before, after, t, at, hit) ↦ (
          before,
          after,
          t,
          take_kind,
          at,
          (ground arith, ground (arith, kind_free idle none_waits t.kind)),
        )
        | inr none_waits' ↦ (
          [],
          rest,
          first,
          take_worker,
          e,
          (
            at_queue idle none_waits none_waits',
            ground (arith, worker_free idle none_waits none_waits'),
          ),
        )
      ]
    ]
  ]
    where
      head_false : (f : Task → Bool) → any f s.tasks ≡ false → f first ≡ false
      head_false f h = let h' : any f (first ∷ rest) ≡ false = rw e at h in ground arith

      at_queue :
          any is_ready s.tasks ≡ false
          → any waits_repository s.tasks ≡ false
          → any waits_kind s.tasks ≡ false
          → first.phase ≡ queued
      at_queue h h' h'' =
          last_waits first (head_false is_ready h) (head_false waits_repository h')
            (head_false waits_kind h'')

-- A scheduler with no bound of zero never locks up: in every state that it reaches with a submission or
-- a job left, one of them can move.
pub Reach-CanMove :
    {limits : JobLimits} {s : JobScheduler} (first : Task) (rest : List Task)
    → IsPositive limits
    → Reach limits s
    → s.tasks ≡ first ∷ rest
    → CanMove s
Reach-CanMove {limits} {s} first rest positive r e =
    progress limits positive s (Reach-Balanced r) first rest e
