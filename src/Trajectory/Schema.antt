-- ===== src/Trajectory/Schema.antt =====
-- The policy schema: packages/trajectory-engine/src/proofstep_trajectory/schema.py. A rule is its
-- common fields and its kind; what the validators refuse is `ValidationError`.
use proofstep.Prelude.{
  ℕ, String, Bool, false, not, Option, none, some, List, [], ◌∷◌, any, length, if◌then◌else◌, ltb,
  str_eq, mem_text, is_some,
}
use proofstep.Prelude.Dict.{Dict, get, put}
use proofstep.Types.{Severity, SpanType}

pub data OrderMode : Type 0 where
  subsequence contiguous : OrderMode

pub data RuleKind : Type 0 where
  required_order : List String → OrderMode → RuleKind
  required_action : String → ℕ → RuleKind
  forbidden_action : List String → RuleKind
  forbidden_before : String → String → RuleKind
  forbidden_after : String → String → RuleKind
  limit : String → Option ℕ → Option ℕ → RuleKind
  unique_action : String → List String → RuleKind
  no_loop : ℕ → ℕ → List String → RuleKind
  argument_condition : String → String → RuleKind
  conditional : List String → List String → RuleKind
  final_state : String → RuleKind
  max_retries : String → ℕ → RuleKind

pub record Rule : Type 0 where
  pub id : String
  pub severity : Severity
  pub message : Option String
  pub when : Option String
  pub ignore_failed : Bool
  pub kind : RuleKind

-- The discriminator of the union.
unfoldable pub kind_name : RuleKind → String
kind_name (RuleKind.required_order _ _) = "required_order"
kind_name (RuleKind.required_action _ _) = "required_action"
kind_name (RuleKind.forbidden_action _) = "forbidden_action"
kind_name (RuleKind.forbidden_before _ _) = "forbidden_before"
kind_name (RuleKind.forbidden_after _ _) = "forbidden_after"
kind_name (RuleKind.limit _ _ _) = "limit"
kind_name (RuleKind.unique_action _ _) = "unique_action"
kind_name (RuleKind.no_loop _ _ _) = "no_loop"
kind_name (RuleKind.argument_condition _ _) = "argument_condition"
kind_name (RuleKind.conditional _ _) = "conditional"
kind_name (RuleKind.final_state _) = "final_state"
kind_name (RuleKind.max_retries _ _) = "max_retries"

pub record Include : Type 0 where
  pub span_types : List SpanType
  pub exclude_names : List String

pub record Policy : Type 0 where
  pub name : String
  pub aliases : Dict (List String)
  pub include : Include
  pub rules : List Rule

pub data ValidationError : Type 0 where
  no_bound no_consequence no_when window_too_small too_short duplicate_id : ValidationError
  ambiguous_alias alias_chain : ValidationError

-- The validators of one rule: `_needs_a_bound`, `_window_fits`, `_needs_a_consequence` and the
-- lengths that the fields declare.
abbrev bound_missing : Option ℕ → Option ℕ → Option ValidationError
bound_missing none none = some ValidationError.no_bound
bound_missing _ _ = none

abbrev check_length : ℕ → List String → Option ValidationError
check_length n xs = if ltb (length xs) n then some ValidationError.too_short else none

abbrev consequence_missing : List String → List String → Option String → Option ValidationError
consequence_missing [] [] when = some ValidationError.no_consequence
consequence_missing _ _ none = some ValidationError.no_when
consequence_missing _ _ (some w) = none

unfoldable pub check_rule : Option String → RuleKind → Option ValidationError
check_rule when (RuleKind.required_order steps mode) = check_length 2 steps
check_rule when (RuleKind.forbidden_action actions) = check_length 1 actions
check_rule when (RuleKind.limit action max_calls min_calls) = bound_missing max_calls min_calls
check_rule when (RuleKind.no_loop window min_repeats key) =
    if ltb window min_repeats then some ValidationError.window_too_small else none
check_rule when (RuleKind.conditional required forbidden) =
    consequence_missing required forbidden when
check_rule when _ = none

-- `_unique_rule_ids`
unfoldable pub duplicate_rule_id : List String → List Rule → Option ValidationError
duplicate_rule_id seen [] = none
duplicate_rule_id seen (rule ∷ rules) =
    let rest = duplicate_rule_id (rule.id ∷ seen) rules in
    if mem_text rule.id seen then some ValidationError.duplicate_id else rest

-- `_aliases_are_unambiguous`: the inner loop over the raw names of one canonical name.
abbrev owned_by_other : String → Option String → Bool
owned_by_other canonical none = false
owned_by_other canonical (some other) = not (str_eq other canonical)

unfoldable pub claim_raws : String → List String → Dict String → Option (Dict String)
claim_raws canonical [] owner = some owner
claim_raws canonical (raw ∷ raws) owner =
    let rest =
      claim_raws canonical raws (if str_eq raw canonical then owner else put raw canonical owner) in
    if owned_by_other canonical (get raw owner) then none else rest

unfoldable pub claim_all : Dict (List String) → Dict String → Option (Dict String)
claim_all [] owner = some owner
claim_all ((canonical, raws) ∷ aliases) owner = elim (claim_raws canonical raws owner) [
  | none ↦ none
  | some owner' ↦ claim_all aliases owner'
]

unfoldable pub alias_error : Dict (List String) → Option ValidationError
unfolding claim_all claim_raws
alias_error aliases = elim (claim_all aliases []) [
  | none ↦ some ValidationError.ambiguous_alias
  | some owner ↦
      if any (λ entry. is_some (get entry.0 owner)) aliases
      then some ValidationError.alias_chain
      else none
]
