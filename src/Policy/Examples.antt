-- ===== src/Policy/Examples.antt =====
-- Runs of the policy engine and of the role grants.
use velodex.Prelude.{
  ◌≡◌, ◌↔◌, refl, true, none, some, [], ◌∷◌, Str, codes, Any, All, max, contains, list_eq, nat_eq,
  if◌then◌else◌,
}
use velodex.Prelude.Results.{ok}
use velodex.Policy.Model.{
  upload, cached, PolicyConfig, ArtifactFacts, ArtifactRule, Policy, compile, with_rules,
}
use velodex.Policy.Evaluation.{evaluate_project, evaluate_facts}
use velodex.Policy.Decisions.{
  AdmitsProject, IsWithin, evaluate_project_iff, evaluate_facts_iff, inactive_admits,
}
use velodex.Policy.Versions.{retain_versions, occurrences, occurrences-retain_versions}
use velodex.Policy.Roles.{
  RoleGrant, repository_publisher, repository_write, one_repository, repository, grants_permit,
  grants_permit_iff, MayDo, Reaches,
}

abbrev same_name : Str → Str
same_name name = name

abbrev reserving : PolicyConfig
reserving = record {
  allow_projects = [];
  block_projects = codes "bad" ∷ [];
  protected_names = codes "acme-*" ∷ [];
  max_file_size_bytes = some 100;
  max_project_size_bytes = none;
}

abbrev reserving_policy : Policy
reserving_policy = compile reserving same_name

evaluate_project_iff_example :
    (evaluate_project reserving_policy cached (codes "acme-web") ≡ ok tt)
    ↔ AdmitsProject reserving_policy cached (codes "acme-web")
evaluate_project_iff_example = evaluate_project_iff reserving_policy cached (codes "acme-web")

abbrev wheel : ArtifactFacts
wheel = record {
  project = codes "web";
  filename = none;
  version = some (codes "1");
  source = none;
  size = some 7;
  upload_time = none;
  now = none;
  attributes = [];
}

evaluate_facts_iff_example : (evaluate_facts reserving_policy upload wheel ≡ ok tt) ↔ (
    AdmitsProject reserving_policy upload (codes "web")
    × IsWithin reserving_policy.max_file_size_bytes (some 7)
    × All (λ (rule : ArtifactRule). rule.check upload wheel ≡ ok tt) reserving_policy.rules)
evaluate_facts_iff_example = evaluate_facts_iff reserving_policy upload wheel

abbrev idle : PolicyConfig
idle = record {
  allow_projects = [];
  block_projects = [];
  protected_names = [];
  max_file_size_bytes = none;
  max_project_size_bytes = none;
}

inactive_admits_example :
    evaluate_facts (with_rules (compile idle same_name) []) cached wheel ≡ ok tt
unfolding compile with_rules
inactive_admits_example = inactive_admits idle same_name [] cached wheel refl

occurrences-retain_versions_example :
    occurrences
      (codes "3")
      (retain_versions (codes "1" ∷ codes "2" ∷ []) (codes "2" ∷ codes "3" ∷ []))
    ≡ (if contains (codes "2" ∷ codes "3" ∷ []) (codes "3")
        then max 1 (occurrences (codes "3") (codes "1" ∷ codes "2" ∷ []))
        else 0)
occurrences-retain_versions_example =
    occurrences-retain_versions (codes "1" ∷ codes "2" ∷ []) (codes "2" ∷ codes "3" ∷ [])
      (codes "3")

abbrev publisher_of_web : RoleGrant
publisher_of_web = record {
  user = codes "ann";
  role = repository_publisher;
  scope = one_repository (codes "web");
}

grants_permit_iff_example :
    (grants_permit (publisher_of_web ∷ []) repository_write (repository (codes "web")) ≡ true)
    ↔ Any
        (λ (grant : RoleGrant).
          MayDo repository_write grant.role × Reaches grant.scope (repository (codes "web")))
        (publisher_of_web ∷ [])
grants_permit_iff_example =
    grants_permit_iff (publisher_of_web ∷ []) repository_write (repository (codes "web"))
