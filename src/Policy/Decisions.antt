-- ===== src/Policy/Decisions.antt =====
-- What the neutral rules of crates/peryx-policy/src/lib.rs decide.
use velodex.Prelude.{
  ℕ, ◌≤◌, ◌≡◌, ◌↔◌, ◌⊎◌, inl, inr, refl, Bool, true, false, not, ◌||◌, Option, none, some, List, [],
  ◌∷◌, ◌++◌, arith, Str, Any, All, find, is_empty, is_some, ltb, ltb→lt, is_some_and, ◌==◌, nat_eq,
  list_eq, contains, contains→Any, Any→contains, if◌then◌else◌, Bool-cases, Option-cases, find-Any,
  find_hit, Any-mono,
}
use velodex.Prelude.Results.{ok, err, >>=-eq-ok}
use velodex.Policy.Model.{
  PolicyAction, upload, cached, serve, policy_action_eq, PolicyConfig, ArtifactFacts, ArtifactRule,
  ProtectedNames, Policy, Verdict, PolicyDenial, starts_with, matched, compute_active, compile,
  with_rules,
}
use velodex.Policy.Evaluation.{
  evaluate_project, evaluate_facts, evaluate_size, check_file_size, check_rules,
}

-- A name is reserved if it is listed, or if it begins with a listed prefix.
abbrev pub IsReserved : ProtectedNames → Str → Type 0
IsReserved p name =
    Any (λ n. n ≡ name) p.exact ⊎ Any (λ prefix. (rest : Str) × (name ≡ prefix ++ rest)) p.prefixes

abbrev pub IsListed : List Str → Str → Type 0
IsListed names name = Any (λ n. n ≡ name) names

starts_with_iff :
    (text prefix : Str)
    → (starts_with text prefix ≡ true) ↔ ((rest : Str) × (text ≡ prefix ++ rest))
unfolding starts_with
starts_with_iff text [] = (λ h. (text, refl), λ h. refl)
starts_with_iff [] (c ∷ prefix) = (λ h. cc, λ (rest, e). cc)
starts_with_iff (b ∷ text) (c ∷ prefix) =
    let ih = starts_with_iff text prefix in
    (
      λ h. let (rest, e) = ih.0 (ground arith) in let first : b ≡ c = ground arith in (rest, cc),
      λ (rest, e).
          let first : b ≡ c = cc in
          let others : text ≡ prefix ++ rest = cc in let more = ih.1 (rest, others) in ground arith,
    )

find-none :
    {A : Type 0} (f : A → Bool) (xs : List A) → find f xs ≡ none → ¬ Any (λ x. f x ≡ true) xs
find-none f [] h m = m
find-none f (x ∷ xs) h (inl hit) = let found = find_hit f x xs hit in cc
find-none f (x ∷ xs) h (inr m) = find-none f xs (ground arith) m

matched-IsReserved :
    (p : ProtectedNames) (name rule : Str) → matched p name ≡ some rule → IsReserved p name
unfolding matched
matched-IsReserved p name rule h = elim (Bool-cases (contains p.exact name)) [
  | inl listed ↦ inl (contains→Any p.exact name listed)
  | inr unlisted ↦ elim (Option-cases (find (λ prefix. starts_with name prefix) p.prefixes)) [
    | inl none_found ↦ let h' = rw (unlisted, none_found, matched) at h in cc
    | inr (prefix, found) ↦
        let (m, t) = find-Any (λ prefix. starts_with name prefix) p.prefixes prefix found in
        inr (Any-mono (λ x. x ≡ prefix) _ p.prefixes (λ x e. (starts_with_iff name x).0 (rw e t)) m)
  ]
]

matched_free : (p : ProtectedNames) (name : Str) → matched p name ≡ none → ¬ IsReserved p name
unfolding matched
matched_free p name h reserved = elim (Bool-cases (contains p.exact name)) [
  | inl listed ↦ let h' = rw (listed, matched) at h in cc
  | inr unlisted ↦ elim (Option-cases (find (λ prefix. starts_with name prefix) p.prefixes)) [
    | inr (prefix, found) ↦ let h' = rw (unlisted, found, matched) at h in cc
    | inl none_found ↦ elim reserved [
      | inl m ↦ cc (Any→contains p.exact name m)
      | inr m ↦
          find-none (λ prefix. starts_with name prefix) p.prefixes none_found
            (Any-mono _ _ p.prefixes (λ x. (starts_with_iff name x).1) m)
    ]
  ]
]

-- A project may be used in an action: it is not reserved from the upstream, it is on the allow list
-- where there is one, and it is not on the block list.
abbrev pub AdmitsProject : Policy → PolicyAction → Str → Type 0
AdmitsProject p action name =
    (action ≡ cached → ¬ IsReserved p.protected_names name)
    × ((p.allow_projects ≡ []) ⊎ IsListed p.allow_projects name)
    × (¬ IsListed p.block_projects name)

reserved_rule : Policy → PolicyAction → Str → Option Str
reserved_rule p action name = if action == cached then matched p.protected_names name else none

unreserved :
    (p : Policy) (action : PolicyAction) (name : Str)
    → (reserved_rule p action name ≡ none) ↔ (action ≡ cached → ¬ IsReserved p.protected_names name)
unfolding reserved_rule
unreserved p upload name = (λ h e. cc, λ h. refl)
unreserved p serve name = (λ h e. cc, λ h. refl)
unreserved p cached name = (λ h e. matched_free p.protected_names name h, λ h. back (h refl))
  where
    back : ¬ IsReserved p.protected_names name → matched p.protected_names name ≡ none
    back free = elim (Option-cases (matched p.protected_names name)) [
      | inl e ↦ e
      | inr (rule, e) ↦ absurd (free (matched-IsReserved p.protected_names name rule e))
    ]

allowed_test :
    (p : Policy) (name : Str)
    → ((is_empty p.allow_projects || contains p.allow_projects name) ≡ true)
      ↔ ((p.allow_projects ≡ []) ⊎ IsListed p.allow_projects name)
allowed_test p name = on p.allow_projects
  where
    on :
        (names : List Str)
        → ((is_empty names || contains names name) ≡ true) ↔ ((names ≡ []) ⊎ IsListed names name)
    on [] = (λ h. inl refl, λ h. refl)
    on (n ∷ names) = (
      λ h. inr (contains→Any (n ∷ names) name h),
      λ h. elim h [ inl e ↦ cc | inr m ↦ Any→contains (n ∷ names) name m ],
    )

-- A project passes exactly if the policy admits it.
pub evaluate_project_iff :
    (p : Policy) (action : PolicyAction) (name : Str)
    → (evaluate_project p action name ≡ ok tt) ↔ AdmitsProject p action name
unfolding evaluate_project reserved_rule
evaluate_project_iff p action name = elim (Option-cases (reserved_rule p action name)) [
  | inr (rule, e) ↦ (
    λ h. let h' = rw (e, evaluate_project) at h in cc,
    λ a. cc (e, (unreserved p action name).1 a.0),
  )
  | inl e ↦ elim (Bool-cases (is_empty p.allow_projects || contains p.allow_projects name)) [
    | inr outside ↦ (
      λ h. let h' = rw (e, outside, evaluate_project) at h in cc,
      λ a. cc (outside, (allowed_test p name).1 a.1),
    )
    | inl inside ↦ elim (Bool-cases (contains p.block_projects name)) [
      | inl listed ↦ (
        λ h. let h' = rw (e, inside, listed, evaluate_project) at h in cc,
        λ a. absurd (a.2 (contains→Any p.block_projects name listed)),
      )
      | inr unlisted ↦ (
        λ h. (
          (unreserved p action name).0 e,
          (allowed_test p name).0 inside,
          λ m. cc (unlisted, Any→contains p.block_projects name m),
        ),
        λ a. rw (e, inside, unlisted, evaluate_project) refl,
      )
    ]
  ]
]

-- The size is known and within the limit, where there is a limit.
abbrev pub IsWithin : Option ℕ → Option ℕ → Type 0
IsWithin limit size = (l : ℕ) → limit ≡ some l → (s : ℕ) × (size ≡ some s) × (s ≤ l)

check_file_size_iff :
    (p : Policy) (action : PolicyAction) (facts : ArtifactFacts)
    → (check_file_size p action facts ≡ ok tt) ↔ IsWithin p.max_file_size_bytes facts.size
unfolding check_file_size
check_file_size_iff p action facts = elim (Option-cases p.max_file_size_bytes) [
  | inl free ↦ (λ h l e. cc, λ w. rw (free, check_file_size) refl)
  | inr (limit, bound) ↦ elim (Option-cases facts.size) [
    | inl unknown ↦ (
      λ h. let h' = rw (bound, unknown, check_file_size) at h in cc,
      λ w. let (s, e, le) = w limit bound in cc,
    )
    | inr (size, known) ↦ elim (Bool-cases (ltb limit size)) [
      | inl large ↦ (
        λ h. let h' = rw (bound, known, large, check_file_size) at h in cc,
        λ w.
            let (s, e, le) = w limit bound in
            let same : s ≡ size = cc in absurd (omega (arith, ltb→lt limit size large)),
      )
      | inr small ↦ (
        λ h l e. let same : limit ≡ l = cc in (size, known, ground arith),
        λ w. rw (bound, known, small, check_file_size) refl,
      )
    ]
  ]
]

check_rules_iff :
    (rules : List ArtifactRule) (action : PolicyAction) (facts : ArtifactFacts)
    → (check_rules rules action facts ≡ ok tt)
      ↔ All (λ (rule : ArtifactRule). rule.check action facts ≡ ok tt) rules
unfolding check_rules
check_rules_iff [] action facts = (λ h. tt, λ h. refl)
check_rules_iff (rule ∷ rules) action facts =
    let ih = check_rules_iff rules action facts in
    (
      λ h.
          let (u, first, rest) =
            >>=-eq-ok (rule.check action facts) (λ _. check_rules rules action facts) h in
          (first, ih.0 rest),
      λ (first, rest). rw first (ih.1 rest),
    )

-- `evaluate_facts` admits an artifact exactly if the policy admits its project, its size is known and
-- within the limit where there is one, and no attached rule denies it.
pub evaluate_facts_iff :
    (p : Policy) (action : PolicyAction) (facts : ArtifactFacts)
    → (evaluate_facts p action facts ≡ ok tt) ↔ (
        AdmitsProject p action facts.project
        × IsWithin p.max_file_size_bytes facts.size
        × All (λ (rule : ArtifactRule). rule.check action facts ≡ ok tt) p.rules)
unfolding evaluate_facts
evaluate_facts_iff p action facts = (
  λ h.
      let (u, project, h') = >>=-eq-ok (evaluate_project p action facts.project) _ h in
      let (v, size, rules) = >>=-eq-ok (check_file_size p action facts) _ h' in
      (
        (evaluate_project_iff p action facts.project).0 project,
        (check_file_size_iff p action facts).0 size,
        (check_rules_iff p.rules action facts).0 rules,
      ),
  λ (project, size, rules).
      rw
        (
          (evaluate_project_iff p action facts.project).1 project,
          (check_file_size_iff p action facts).1 size,
        )
        ((check_rules_iff p.rules action facts).1 rules),
)

abbrev refuse_if : PolicyDenial → Bool → Verdict
refuse_if e b = if b then err e else ok tt

is_small : (e : PolicyDenial) (b : Bool) → refuse_if e b ≡ ok tt → b ≡ false
is_small e true h = cc
is_small e false h = refl

-- `evaluate_size` admits a size exactly if the policy admits the project and the size is within the
-- limit where there is one.
pub evaluate_size_iff :
    (p : Policy) (action : PolicyAction) (name : Str) (size : ℕ)
    → (evaluate_size p action name size ≡ ok tt)
      ↔ (AdmitsProject p action name × IsWithin p.max_file_size_bytes (some size))
unfolding evaluate_size
evaluate_size_iff p action name size = (
  λ h.
      let (u, project, h') = >>=-eq-ok (evaluate_project p action name) _ h in
      (
        (evaluate_project_iff p action name).0 project,
        within p.max_file_size_bytes (is_small _ _ h'),
      ),
  λ (project, w).
      rw ((evaluate_project_iff p action name).1 project, small p.max_file_size_bytes w) refl,
)
  where
    within :
        (limit : Option ℕ)
        → is_some_and (λ l. ltb l size) limit ≡ false
        → IsWithin limit (some size)
    within none h l e = cc
    within (some limit) h l e = let same : limit ≡ l = cc in (size, refl, ground arith)

    small :
        (limit : Option ℕ)
        → IsWithin limit (some size)
        → is_some_and (λ l. ltb l size) limit ≡ false
    small none w = refl
    small (some limit) w = let (s, e, le) = w limit refl in let same : size ≡ s = cc in ground arith

empty_list : {A : Type 0} (xs : List A) → not (is_empty xs) ≡ false → xs ≡ []
empty_list [] e = refl
empty_list (x ∷ xs) e = cc

absent_option : {A : Type 0} (o : Option A) → is_some o ≡ false → o ≡ none
absent_option none e = refl
absent_option (some x) e = cc

idle_admits :
    (p : Policy) (action : PolicyAction) (facts : ArtifactFacts)
    → compute_active p ≡ false
    → evaluate_facts p action facts ≡ ok tt
unfolding compute_active
idle_admits p action facts h =
    let no_allowed = empty_list p.allow_projects (ground arith) in
    let no_blocked = empty_list p.block_projects (ground arith) in
    let no_exact = empty_list p.protected_names.exact (ground arith) in
    let no_prefixes = empty_list p.protected_names.prefixes (ground arith) in
    let no_limit = absent_option p.max_file_size_bytes (ground arith) in
    let no_rules = empty_list p.rules (ground arith) in
    (evaluate_facts_iff p action facts).1 (
      (
        λ e reserved. elim reserved [ inl m ↦ rw no_exact at m | inr m ↦ rw no_prefixes at m ],
        inl no_allowed,
        λ m. rw no_blocked at m,
      ),
      λ l e. cc,
      rw no_rules tt,
    )

-- Where `active` is false, no artifact is refused: a caller may skip the checks.
pub inactive_admits :
    (config : PolicyConfig) (normalize : Str → Str) (rules : List ArtifactRule)
    (action : PolicyAction) (facts : ArtifactFacts)
    → (with_rules (compile config normalize) rules).active ≡ false
    → evaluate_facts (with_rules (compile config normalize) rules) action facts ≡ ok tt
unfolding with_rules compile
inactive_admits config normalize rules action facts h =
    idle_admits (with_rules (compile config normalize) rules) action facts h
