-- ===== src/Policy/Model.antt =====
-- crates/peryx-policy/src/lib.rs: the neutral rules, the rules that an ecosystem attaches, and the
-- record of each evaluation. A rule, `dyn ArtifactRule`, is a function of the facts and a source mode;
-- `normalize` is an argument. A set of names is a list of them.
use velodex.Prelude.{
  ℕ, ◌≡◌, ◌↔◌, Bool, true, false, not, ◌&&◌, ◌||◌, Option, none, some, List, [], ◌∷◌, ◌++◌, arith,
  Str, codes, find, map, is_empty, is_some, get_or, PartialEq, ◌==◌, nat_eq, list_eq, contains,
  if◌then◌else◌,
}
use velodex.Prelude.Int.{ℤ}
use velodex.Prelude.Results.{Result}

pub data PolicyAction : Type 0 where
  upload cached serve : PolicyAction

abbrev policy_action_beq : PolicyAction → PolicyAction → Bool
policy_action_beq upload upload = true
policy_action_beq cached cached = true
policy_action_beq serve serve = true
policy_action_beq _ _ = false

pub policy_action_beq_iff : (a b : PolicyAction) → (policy_action_beq a b ≡ true) ↔ (a ≡ b)
policy_action_beq_iff a b = (λ h. ground arith, λ h. ground arith)

instance abbrev pub policy_action_eq : PartialEq PolicyAction
policy_action_eq = record { eq = policy_action_beq; eq_iff = policy_action_beq_iff }

pub record PolicyConfig : Type 0 where
  pub allow_projects : List Str
  pub block_projects : List Str
  pub protected_names : List Str
  pub max_file_size_bytes : Option ℕ
  pub max_project_size_bytes : Option ℕ

pub record ArtifactFacts : Type 0 where
  pub project : Str
  pub filename : Option Str
  pub version : Option Str
  pub source : Option Str
  pub size : Option ℕ
  pub upload_time : Option ℤ
  pub now : Option ℤ
  pub attributes : List (Str × Str)

-- What the engine's own rules name, and what a denial of an attached rule carries.
pub data Rule : Type 0 where
  protected_name project_block_list project_allow_list max_file_size : Rule
  attached : Str → Rule

-- The texts of the source's reasons, by what they are formatted from.
pub data Reason : Type 0 where
  protected_by : Str → Str → Reason
  blocked : Str → Reason
  not_allowed : Str → Reason
  size_unknown : Reason
  size_exceeds : ℕ → ℕ → Reason
  other : Str → Reason

pub data FactField : Type 0 where
  project_field size_field : FactField
  attribute_field : Str → FactField

pub record PolicyDenial : Type 0 where
  pub action : PolicyAction
  pub project : Str
  pub filename : Option Str
  pub version : Option Str
  pub rule : Rule
  pub field : FactField
  pub reason : Reason

abbrev pub Verdict : Type 0
Verdict = Result PolicyDenial (Unit {0})

-- `ArtifactFacts::attribute` and `ArtifactFacts::denial`
unfoldable pub attribute : ArtifactFacts → Str → Option Str
attribute facts key = attribute_in facts.attributes
  where
    attribute_in : List (Str × Str) → Option Str
    attribute_in [] = none
    attribute_in ((name, value) ∷ rest) =
        let later = attribute_in rest in if name == key then some value else later

unfoldable pub denial : ArtifactFacts → PolicyAction → Rule → FactField → Reason → PolicyDenial
denial facts action rule field reason = record {
  action = action;
  project = facts.project;
  filename = facts.filename;
  version = facts.version;
  rule = rule;
  field = field;
  reason = reason;
}

pub data FallbackMode : Type 0 where
  fallback private_first no_fallback : FallbackMode

pub record ArtifactRule : Type 0 where
  pub check : PolicyAction → ArtifactFacts → Verdict
  pub mode : Option FallbackMode

pub data PolicyDecisionState : Type 0 where
  allow deny wait : PolicyDecisionState

pub record PolicyEvaluation : Type 0 where
  pub action : PolicyAction
  pub project : Str
  pub filename : Option Str
  pub version : Option Str
  pub source : Option Str
  pub state : PolicyDecisionState
  pub rule : Option Rule
  pub reason : Option Reason
  pub next_eligible_at_unix : Option ℤ

pub record ProtectedNames : Type 0 where
  pub exact : List Str
  pub prefixes : List Str

-- `str::starts_with` and `str::strip_suffix('*')`
unfoldable pub starts_with : Str → Str → Bool
starts_with text [] = true
starts_with [] (c ∷ prefix) = false
starts_with (b ∷ text) (c ∷ prefix) = let rest = starts_with text prefix in (b == c) && rest

unfoldable pub strip_star : Str → Option Str
strip_star [] = none
strip_star (c ∷ []) = if c == b'*' then some [] else none
strip_star (c ∷ d ∷ rest) =
    let stripped = strip_star (d ∷ rest) in
    elim stripped [ none ↦ none | some prefix ↦ some (c ∷ prefix) ]

-- `ProtectedNames::compile`, `is_empty` and `matched`. The sets are ordered in the source, which only
-- decides which of several reserving prefixes a denial names.
unfoldable pub protect : List Str → (Str → Str) → ProtectedNames
unfolding strip_star
protect [] normalize = record { exact = []; prefixes = [] }
protect (name ∷ names) normalize =
    let rest = protect names normalize in
    elim (strip_star name) [
      | some prefix ↦ record rest { prefixes = normalize prefix ∷ rest.prefixes }
      | none ↦ record rest { exact = normalize name ∷ rest.exact }
    ]

abbrev pub nothing_protected : ProtectedNames → Bool
nothing_protected p = is_empty p.exact && is_empty p.prefixes

unfoldable pub matched : ProtectedNames → Str → Option Str
unfolding starts_with
matched p project =
    if contains p.exact project
    then some project
    else elim (find (λ prefix. starts_with project prefix) p.prefixes) [
      | some prefix ↦ some (prefix ++ codes "*")
      | none ↦ none
    ]

pub record Policy : Type 0 where
  pub allow_projects : List Str
  pub block_projects : List Str
  pub protected_names : ProtectedNames
  pub max_file_size_bytes : Option ℕ
  pub max_project_size_bytes : Option ℕ
  pub rules : List ArtifactRule
  pub recorder : Bool
  pub active : Bool

unfoldable pub compute_active : Policy → Bool
compute_active p =
    not (is_empty p.allow_projects)
    || (not (is_empty p.block_projects)
        || (not (nothing_protected p.protected_names)
            || (is_some p.max_file_size_bytes
                || (is_some p.max_project_size_bytes || not (is_empty p.rules)))))

unfoldable pub compile : PolicyConfig → (Str → Str) → Policy
unfolding protect compute_active
compile config normalize =
    let policy : Policy = record {
      allow_projects = map normalize config.allow_projects;
      block_projects = map normalize config.block_projects;
      protected_names = protect config.protected_names normalize;
      max_file_size_bytes = config.max_file_size_bytes;
      max_project_size_bytes = config.max_project_size_bytes;
      rules = [];
      recorder = false;
      active = false;
    } in
    record policy { active = compute_active policy }

unfoldable pub with_rules : Policy → List ArtifactRule → Policy
unfolding compute_active
with_rules p rules = let p' = record p { rules = rules } in record p' { active = compute_active p' }

-- `Policy::fallback_mode`: the first mode that a rule gives
unfoldable pub fallback_mode : Policy → FallbackMode
fallback_mode p = first_mode p.rules
  where
    first_mode : List ArtifactRule → FallbackMode
    first_mode [] = fallback
    first_mode (rule ∷ rules) = let later = first_mode rules in get_or later rule.mode
