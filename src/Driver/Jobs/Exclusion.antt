-- ===== src/Driver/Jobs/Exclusion.antt =====
-- The conflict keys of a scheduler and its bounds.
use velodex.Prelude.{
  ℕ, ◌+◌, ◌≤◌, ◌≡◌, inl, inr, refl, ap, Bool, List, [], ◌∷◌, ◌++◌, arith, Str, ◌==◌, list_eq,
  nat_eq, if◌then◌else◌, Bool-cases, list_beq_iff, beq_refl,
}
use velodex.Driver.Jobs.{
  JobLimits, Phase, checked, Task, Shared, JobScheduler, Action, target, apply, CanTake, key_of,
  panicked_after, moved, begin, shutdown, move, Reach, built, then_step, new, in_flight,
  has_worker_permit, has_kind_permit, has_repository_permit, is_executing, sum_of,
}
use velodex.Driver.Jobs.Permits.{
  weight_of, sum_of-append, sum_of-put, weight-le-sum_of, slot, worker, of_kind, of_repository,
  executing, Reach-Balanced,
}

abbrev pub holding : Str → Task → ℕ
holding key t = if key_of t == key then in_flight t.phase else 0

abbrev pub present : Shared → Str → ℕ
present s key = if s.inflight key then 1 else 0

-- A run under the key.
abbrev pub same_key : Str → Task → ℕ
same_key key t = if key_of t == key then 1 else 0

-- The set has the keys of the tasks in flight and of those that have panicked, each of one of them.
abbrev pub Claimed : JobScheduler → Type 0
Claimed s =
    (key : Str)
    → present s.shared key ≡ sum_of (holding key) s.tasks + sum_of (same_key key) s.panicked

claimed_step :
    (s : Shared) (t : Task) (key : Str) (a : Action) (panicked : List Task)
    → CanTake a s t
    → holding key t ≤ present s key
    → present (apply a s t) key + holding key t + sum_of (same_key key) panicked
      ≡ present s key
        + weight_of (holding key) (target a) t
        + sum_of (same_key key) (panicked_after a t panicked)
unfolding sum_of
claimed_step s t key a panicked c held = elim (Bool-cases (key_of t == key)) [
  | inl same ↦
      let e : key_of t ≡ key = (list_beq_iff (key_of t) key).0 same in
      ground (arith, ap s.inflight e)
  | inr other ↦ ground arith
]

move-Claimed :
    (s : JobScheduler) (before after : List Task) (t : Task) (a : Action)
    → s.tasks ≡ before ++ (t ∷ after)
    → CanTake a s.shared t
    → Claimed s
    → Claimed (moved s before after t a)
move-Claimed s before after t a e c claims key =
    let here = ap (sum_of (holding key)) e in
    let some_left = weight-le-sum_of (holding key) before after t in
    omega (
      arith,
      claims key,
      here,
      claimed_step s.shared t key a s.panicked c (omega (arith, claims key, here, some_left)),
      sum_of-put (holding key) (target a) t before after,
    )

begin-Claimed :
    (s : JobScheduler) (kind scope : Str)
    → Claimed s
    → Claimed
        (record s { tasks = record { kind = kind; scope = scope; phase = checked } ∷ s.tasks })
unfolding sum_of
begin-Claimed s kind scope claims key = ground (arith, claims key)

pub Reach-Claimed : {limits : JobLimits} {s : JobScheduler} → Reach limits s → Claimed s
unfolding new sum_of
Reach-Claimed built key = refl
Reach-Claimed (then_step {s = s} r (begin kind scope open_now)) key =
    begin-Claimed s kind scope (Reach-Claimed r) key
Reach-Claimed (then_step r shutdown) key = Reach-Claimed r key
Reach-Claimed (then_step {s = s} r (move before after t a e c)) key =
    move-Claimed s before after t a e c (Reach-Claimed r) key

-- In every state that a scheduler reaches, two different submissions or jobs in flight, from the claim
-- of the conflict key to its return, differ in their kind or in their scope.
pub Reach-exclusive :
    {limits : JobLimits} {s : JobScheduler} (before middle after : List Task) (t u : Task)
    → Reach limits s
    → s.tasks ≡ before ++ (t ∷ middle ++ (u ∷ after))
    → in_flight t.phase ≡ 1
    → in_flight u.phase ≡ 1
    → ¬ ((t.kind ≡ u.kind) × (t.scope ≡ u.scope))
unfolding sum_of
Reach-exclusive {s = s} before middle after t u r e first second (kind, scope) = omega (
  arith,
  Reach-Claimed r key,
  at_most_one,
  ap (sum_of (holding key)) e,
  sum_of-append (holding key) before (t ∷ middle ++ (u ∷ after)),
  sum_of-append (holding key) middle (u ∷ after),
  own,
  other,
)
  where
    key : Str
    key = key_of t

    at_most_one : present s.shared key ≤ 1
    at_most_one = ground arith

    own : holding key t ≡ 1
    own = rw (beq_refl key) first

    other : holding key u ≡ 1
    other = rw (← kind, ← scope) (rw (beq_refl key) second)

sum_of-le :
    (v w : Task → ℕ)
    → ((t : Task) → v t ≤ w t)
    → (tasks : List Task) → sum_of v tasks ≤ sum_of w tasks
unfolding sum_of
sum_of-le v w le [] = omega arith
sum_of-le v w le (t ∷ tasks) = omega (arith, le t, sum_of-le v w le tasks)

-- In every state that a scheduler reaches, the admitted jobs are no more than the queue has places, the
-- executing jobs no more than there are workers, those of one kind no more than the bound of a kind,
-- and those of one repository no more than the bound of a repository.
pub Reach-bounds :
    {limits : JobLimits} {s : JobScheduler}
    → Reach limits s
    → (sum_of slot s.tasks ≤ limits.queue)
      × (sum_of (λ t. is_executing t.phase) s.tasks ≤ limits.workers)
      × ((kind : Str) → sum_of (executing kind) s.tasks ≤ limits.per_kind)
      × ((scope : Str)
          → sum_of (λ t. if t.scope == scope then is_executing t.phase else 0) s.tasks
            ≤ limits.per_repository)
Reach-bounds {limits} {s} r =
    let b = Reach-Balanced r in
    (
      omega (arith, b.queue),
      omega (
        arith,
        b.workers,
        sum_of-le (λ t. is_executing t.phase) worker (λ t. by_worker t.phase) s.tasks,
      ),
      λ kind. omega (
        arith,
        b.per_kind kind,
        sum_of-le (executing kind) (of_kind kind) (λ t. by_kind t (t.kind == kind)) s.tasks,
      ),
      λ scope. omega (
        arith,
        b.per_repository scope,
        sum_of-le (λ t. if t.scope == scope then is_executing t.phase else 0) (of_repository scope)
            (λ t. by_repository t (t.scope == scope)) s.tasks,
      ),
    )
  where
    by_worker : (p : Phase) → is_executing p ≤ has_worker_permit p
    by_worker p = ground arith

    by_kind :
        (t : Task) (same : Bool)
        → (if same then is_executing t.phase else 0) ≤ (if same then has_kind_permit t.phase else 0)
    by_kind t same = ground arith

    by_repository :
        (t : Task) (same : Bool)
        → (if same then is_executing t.phase else 0)
          ≤ (if same then has_repository_permit t.phase else 0)
    by_repository t same = ground arith
