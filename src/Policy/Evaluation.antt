-- ===== src/Policy/Evaluation.antt =====
-- crates/peryx-policy/src/lib.rs: the evaluation of a project, an artifact and a size, and the record of
-- each evaluation.
use velodex.Prelude.{
  ℕ, not, ◌||◌, Option, none, some, List, [], ◌∷◌, Str, is_empty, ltb, is_some_and, get_or, ◌==◌,
  nat_eq, list_eq, contains, if◌then◌else◌,
}
use velodex.Prelude.Results.{ok, err, ◌>>◌}
use velodex.Policy.Model.{
  PolicyAction, policy_action_eq, ArtifactFacts, Verdict, denial, ArtifactRule, PolicyEvaluation,
  matched, Policy, cached, protected_name, project_block_list, project_allow_list, max_file_size,
  protected_by, blocked, not_allowed, size_unknown, size_exceeds, project_field, size_field, allow,
  deny,
}

-- `Policy::evaluate_project`
unfoldable pub evaluate_project : Policy → PolicyAction → Str → Verdict
unfolding matched
evaluate_project p action project =
    elim (if action == cached then matched p.protected_names project else none) [
      | some rule ↦ err (record {
        action = action;
        project = project;
        filename = none;
        version = none;
        rule = protected_name;
        field = project_field;
        reason = protected_by project rule;
      })
      | none ↦
          if is_empty p.allow_projects || contains p.allow_projects project
          then (if not (contains p.block_projects project)
              then ok tt
              else err (record {
                action = action;
                project = project;
                filename = none;
                version = none;
                rule = project_block_list;
                field = project_field;
                reason = blocked project;
              }))
          else err (record {
            action = action;
            project = project;
            filename = none;
            version = none;
            rule = project_allow_list;
            field = project_field;
            reason = not_allowed project;
          })
    ]

-- `Policy::check_file_size`
unfoldable pub check_file_size : Policy → PolicyAction → ArtifactFacts → Verdict
unfolding denial
check_file_size p action facts = elim p.max_file_size_bytes [
  | none ↦ ok tt
  | some limit ↦ elim facts.size [
    | none ↦ err (denial facts action max_file_size size_field size_unknown)
    | some size ↦
        if ltb limit size
        then err (denial facts action max_file_size size_field (size_exceeds size limit))
        else ok tt
  ]
]

-- The loop over the attached rules, which stops at the first denial.
unfoldable pub check_rules : List ArtifactRule → PolicyAction → ArtifactFacts → Verdict
check_rules [] action facts = ok tt
check_rules (rule ∷ rules) action facts =
    let rest = check_rules rules action facts in do rule.check action facts; rest

unfoldable pub evaluate_facts : Policy → PolicyAction → ArtifactFacts → Verdict
unfolding evaluate_project check_file_size check_rules
evaluate_facts p action facts = do
  evaluate_project p action facts.project
  check_file_size p action facts
  check_rules p.rules action facts

unfoldable pub evaluate_size : Policy → PolicyAction → Str → ℕ → Verdict
unfolding evaluate_project
evaluate_size p action project size = do
  evaluate_project p action project
  if is_some_and (λ limit. ltb limit size) p.max_file_size_bytes
      then err (record {
        action = action;
        project = project;
        filename = none;
        version = none;
        rule = max_file_size;
        field = size_field;
        reason = size_exceeds size (get_or 0 p.max_file_size_bytes);
      })
      else ok tt

-- `Policy::record`: what the recorder is given, if there is one
unfoldable pub recorded :
    Policy
    → PolicyAction
    → Str
    → Option Str
    → Option Str
    → Option Str
    → Verdict
    → Option PolicyEvaluation
recorded p action project filename version source result =
    if p.recorder
    then some (record {
      action = action;
      project = project;
      filename = filename;
      version = version;
      source = source;
      state = elim result [ ok _ ↦ allow | err _ ↦ deny ];
      rule = elim result [ ok _ ↦ none | err d ↦ some d.rule ];
      reason = elim result [ ok _ ↦ none | err d ↦ some d.reason ];
      next_eligible_at_unix = none;
    })
    else none

-- `check_project`, `check_facts` and `check_size`: the verdict, and what was recorded of it
unfoldable pub check_project : Policy → PolicyAction → Str → Verdict × Option PolicyEvaluation
unfolding evaluate_project recorded
check_project p action project =
    let result = evaluate_project p action project in
    (result, recorded p action project none none none result)

unfoldable pub check_facts :
    Policy → PolicyAction → ArtifactFacts → Verdict × Option PolicyEvaluation
unfolding evaluate_facts recorded
check_facts p action facts =
    let result = evaluate_facts p action facts in
    (result, recorded p action facts.project facts.filename facts.version facts.source result)

unfoldable pub check_size : Policy → PolicyAction → Str → ℕ → Verdict × Option PolicyEvaluation
unfolding evaluate_size recorded
check_size p action project size =
    let result = evaluate_size p action project size in
    (result, recorded p action project none none none result)
