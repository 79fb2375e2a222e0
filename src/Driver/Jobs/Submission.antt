-- ===== src/Driver/Jobs/Submission.antt =====
-- `submit` as one call that nothing interrupts, against the step relation.
use velodex.Prelude.{
  ℕ, zero, suc, ◌+◌, ◌-◌, ◌≡◌, ◌≢◌, Bool-cases, inl, inr, refl, sym, ap, Bool, true, false, [], ◌∷◌,
  arith, Str, ◌==◌, nat_eq, list_eq, list_beq_iff, subst, if◌then◌else◌, ltb, not,
}
use velodex.Driver.Jobs.{
  JobLimits, Submit, Phase, KindCounters, Task, JobScheduler, checked, claimed, queued,
  refuse_conflict, claim, refuse_full, take_slot, conflict_key, set_inflight, count_conflict,
  count_queue_full, update, begin, move, Reach, then_step, sum_of,
}
use velodex.Driver.Jobs.Permits.{slot, Reach-Balanced}
use velodex.Driver.Jobs.Exclusion.{holding, same_key, present, Reach-Claimed}

abbrev pub new_task : Str → Str → Task
new_task kind scope = record { kind = kind; scope = scope; phase = queued }

unfoldable pub submit : JobScheduler → Str → Str → JobScheduler × Submit
submit s kind scope =
    let task = new_task kind scope in
    let claimed_key = set_inflight s.shared task true in
    if s.shared.is_cancelled
    then (s, Submit.shutting_down)
    else if s.shared.inflight (conflict_key kind scope)
    then (record s { shared = count_conflict s.shared kind }, Submit.conflict)
    else if claimed_key.queue == 0
    then (
      record s { shared = count_queue_full (set_inflight claimed_key task false) kind },
      Submit.queue_full,
    )
    else (
      record s {
        shared = record claimed_key { queue = claimed_key.queue - 1 };
        tasks = task ∷ s.tasks;
      },
      Submit.queued,
    )

-- What holds of both values of a test holds of the branch.
if_elim :
    {A : Type 0} {x y : A} (P : A → Type 0) (b : Bool)
    → (b ≡ true → P x)
    → (b ≡ false → P y)
    → P (if b then x else y)
if_elim P true yes_case no_case = yes_case refl
if_elim P false yes_case no_case = no_case refl

positive : (n : ℕ) → (n == 0) ≡ false → ltb 0 n ≡ true
positive zero h = absurd (cc)
positive (suc n) h = ground arith

pub submit-Reach :
    {limits : JobLimits} {s : JobScheduler} (kind scope : Str)
    → Reach limits s
    → Reach limits (submit s kind scope).0
unfolding submit
submit-Reach {limits} {s} kind scope r =
    if_elim IsReached s.shared.is_cancelled (λ over. r)
      (λ open_now.
        let r1 = then_step r (begin kind scope open_now) in
        if_elim IsReached (s.shared.inflight (conflict_key kind scope))
          (λ there.
            then_step r1 (move [] s.tasks (at_phase checked) refuse_conflict refl (refl, there)))
          (λ free.
            let r2 =
              then_step r1 (move [] s.tasks (at_phase checked) claim refl (refl, ap not free)) in
            if_elim IsReached (s.shared.queue == 0)
              (λ full.
                then_step r2 (move [] s.tasks (at_phase claimed) refuse_full refl (refl, full)))
              (λ space. then_step r2 (
                move [] s.tasks (at_phase claimed) take_slot refl
                  (refl, positive s.shared.queue space)))))
  where
    IsReached : JobScheduler × Submit → Type 0
    IsReached x = Reach limits x.0

    at_phase : Phase → Task
    at_phase phase = record { kind = kind; scope = scope; phase = phase }

-- What a submission deserves, by the tasks: the ones that hold its key, those that have panicked under it,
-- and the ones that have a place in the queue.
abbrev pub verdict : JobLimits → JobScheduler → Str → Str → Submit
verdict limits s kind scope =
    let key = conflict_key kind scope in
    if s.shared.is_cancelled
    then Submit.shutting_down
    else if ltb 0 (sum_of (holding key) s.tasks + sum_of (same_key key) s.panicked)
    then Submit.conflict
    else if sum_of slot s.tasks == limits.queue
    then Submit.queue_full
    else Submit.queued

-- In every state that a scheduler reaches, a call of `submit` that nothing interrupts leads to a state
-- that the scheduler also reaches by interleaved steps, and answers that it shuts down if it does, else
-- that there is a conflict exactly if a task in flight has the same conflict key or a job with this key
-- has ever panicked, else that the queue is full exactly if as many tasks have a place as the queue has.
pub submit-verdict :
    {limits : JobLimits} {s : JobScheduler} (kind scope : Str)
    → Reach limits s
    → ((submit s kind scope).1 ≡ verdict limits s kind scope) × Reach limits (submit s kind scope).0
unfolding submit
submit-verdict {limits} {s} kind scope r = (
  if_elim Judged s.shared.is_cancelled (λ over. rw over refl)
      (λ open_now.
        if_elim Judged (s.shared.inflight (conflict_key kind scope))
          (λ there. let h = held there in rw (open_now, h) refl)
          (λ free.
            let h = unheld free in
            if_elim Judged (s.shared.queue == 0)
              (λ full. let e = all_taken full in rw (open_now, h, e) refl)
              (λ space. let e = some_left space in rw (open_now, h, e) refl))),
  submit-Reach kind scope r,
)
  where
    Judged : JobScheduler × Submit → Type 0
    Judged x = x.1 ≡ verdict limits s kind scope

    holders : ℕ
    holders =
        sum_of (holding (conflict_key kind scope)) s.tasks
        + sum_of (same_key (conflict_key kind scope)) s.panicked

    counted : present s.shared (conflict_key kind scope) ≡ holders
    counted = Reach-Claimed r (conflict_key kind scope)

    held : s.shared.inflight (conflict_key kind scope) ≡ true → ltb 0 holders ≡ true
    held h = ground (arith, counted)

    unheld : s.shared.inflight (conflict_key kind scope) ≡ false → ltb 0 holders ≡ false
    unheld h = ground (arith, counted)

    all_taken : (s.shared.queue == 0) ≡ true → (sum_of slot s.tasks == limits.queue) ≡ true
    all_taken h = ground (arith, (Reach-Balanced r).queue)

    some_left : (s.shared.queue == 0) ≡ false → (sum_of slot s.tasks == limits.queue) ≡ false
    some_left h = ground (arith, (Reach-Balanced r).queue)

-- What a refused submission leaves as it was.
pub record IsUntouched (s u : JobScheduler) : Type 0 where
  pub tasks : u.tasks ≡ s.tasks
  pub queue : u.shared.queue ≡ s.shared.queue
  pub workers : u.shared.workers ≡ s.shared.workers
  pub per_kind : u.shared.per_kind ≡ s.shared.per_kind
  pub per_repository : u.shared.per_repository ≡ s.shared.per_repository
  pub inflight : (key : Str) → u.shared.inflight key ≡ s.shared.inflight key
  pub is_cancelled : u.shared.is_cancelled ≡ s.shared.is_cancelled

cleared :
    (f : Str → Bool) (key other : Str)
    → f key ≡ false
    → update (update f key true) key false other ≡ f other
cleared f key other h = elim (Bool-cases (key == other)) [
  | inl e ↦ rw e (sym (subst (λ x. f x ≡ false) ((list_beq_iff key other).0 e) h))
  | inr e ↦ rw e refl
]

-- A submission that is not queued changes nothing but the counters: no task is added, and every permit
-- and every conflict key is as before.
pub submit_refused :
    (s : JobScheduler) (kind scope : Str)
    → (submit s kind scope).1 ≢ Submit.queued
    → IsUntouched s (submit s kind scope).0
unfolding submit
submit_refused s kind scope =
    if_elim Refused s.shared.is_cancelled
      (λ over refused. same s.shared.counters s.shared.inflight (λ key. refl))
      (λ open_now.
        if_elim Refused (s.shared.inflight (conflict_key kind scope))
          (λ there refused.
            same (count_conflict s.shared kind).counters s.shared.inflight (λ key. refl))
          (λ free.
            if_elim Refused (s.shared.queue == 0)
              (λ full refused.
                same (count_queue_full s.shared kind).counters
                  (update (update s.shared.inflight (conflict_key kind scope) true)
                    (conflict_key kind scope) false)
                  (λ key. cleared s.shared.inflight (conflict_key kind scope) key free))
              (λ space refused. absurd (refused refl))))
  where
    Refused : JobScheduler × Submit → Type 0
    Refused x = x.1 ≢ Submit.queued → IsUntouched s x.0

    same :
        (counters : Str → KindCounters) (inflight : Str → Bool)
        → ((key : Str) → inflight key ≡ s.shared.inflight key)
        → IsUntouched s
            (record s { shared = record s.shared { counters = counters; inflight = inflight } })
    same counters inflight h = record {
      tasks = refl;
      queue = refl;
      workers = refl;
      per_kind = refl;
      per_repository = refl;
      inflight = h;
      is_cancelled = refl;
    }
