-- ===== src/Trajectory/Engine.antt =====
-- `evaluate_policy` and `_guard` of engine.py, with `check_actions` of parser.py and
-- `referenced_actions` of schema.py.
pub mod Verdict
pub mod Attribution
use proofstep.Prelude.{
  is_empty, ℕ, ◌+◌, ◌*◌, String, Bool, true, false, not, ◌&&◌, ◌||◌, Option, none, some, List, [],
  ◌∷◌, ◌++◌, map, ◌==◌, if◌then◌else◌, take, filter, str_eq, mem_text,
}
use proofstep.Prelude.{str_leb}
use proofstep.Prelude.Dict.{Dict, get}
use proofstep.Prelude.Sort.{sort_by}
use proofstep.Types.Value.{Value, ℤ, Fields}
use proofstep.Types.Trace.{Trace}
use proofstep.Prelude.Result.{Result, ok, type_error, ◌>>=◌}
use proofstep.Trajectory.Predicates.{Evaluated, Python, evaluate}
use proofstep.Trajectory.Events.{PolicyFailure, PolicyResult, Warning}
use proofstep.Trajectory.Schema.{Rule, RuleKind, Policy}
use proofstep.Trajectory.Normalized.{Normalized, actions, counts}
use proofstep.Trajectory.Normalize.{normalize}
use proofstep.Trajectory.Normalize.Select.{Host}
use proofstep.Trajectory.Matchers.{requires_complete, match_kind}

pub record LoadedPolicy : Type 0 where
  pub policy : Policy
  pub line_of_rule : Dict ℕ

-- The names that one rule mentions; "*" is no name.
unless_star : String → List String
unless_star name = if str_eq name "*" then [] else name ∷ []

names_of : RuleKind → List String
names_of (RuleKind.required_order steps mode) = steps
names_of (RuleKind.required_action action least) = unless_star action
names_of (RuleKind.forbidden_action actions) = actions
names_of (RuleKind.forbidden_before action before) = unless_star action ++ unless_star before
names_of (RuleKind.forbidden_after action after) = unless_star action ++ unless_star after
names_of (RuleKind.limit action most least) = unless_star action
names_of (RuleKind.unique_action action key) = unless_star action
names_of (RuleKind.no_loop window least key) = []
names_of (RuleKind.argument_condition action require) = unless_star action
names_of (RuleKind.conditional required forbidden) = required ++ forbidden
names_of (RuleKind.final_state require) = []
names_of (RuleKind.max_retries action most) = unless_star action

-- A set of names, as a list without repetitions.
add_names : List String → List String → List String
add_names [] names = names
add_names (x ∷ xs) names = add_names xs (if mem_text x names then names else x ∷ names)

names_from : List Rule → List String → List String
names_from [] names = names
names_from (rule ∷ rules) names = names_from rules (add_names (names_of rule.kind) names)

unfoldable pub referenced_actions : Policy → List String
unfolding names_from add_names names_of unless_star
referenced_actions policy = names_from policy.rules []

unfoldable pub check_actions : Policy → List String → List Warning
check_actions policy observed =
    let unknown =
      sort_by str_leb (filter (λ name. not (mem_text name observed)) (referenced_actions policy)) in
    if is_empty unknown || is_empty observed
    then []
    else Warning.unseen_actions policy.name unknown (take 12 (sort_by str_leb observed)) ∷ []

-- `dict.fromkeys(norm.actions, True)` and the counts.
present : List String → Fields
present [] = Fields.done
present (a ∷ names) = Fields.field a (Value.flag true) (present names)

counted : Normalized → List String → Fields
counted norm [] = Fields.done
counted norm (a ∷ names) = Fields.field a (Value.int (ℤ.pos (counts norm a))) (counted norm names)

-- The namespace of a rule's `when`.
unfoldable pub guard_namespace : Normalized → Fields
unfolding present counted
guard_namespace norm = Fields.field "metadata" (Value.obj norm.state) (
    Fields.field "state" (Value.obj norm.state) (
      Fields.field "actions" (Value.obj (present (actions norm)))
        (Fields.field "counts" (Value.obj (counted norm (actions norm))) Fields.done)))

-- A `when` that cannot be evaluated is reported, and its rule is skipped.
abbrev pub guard_result : Rule → Evaluated → Bool × List Warning
guard_result rule (Evaluated.value b) = (b, [])
guard_result rule (Evaluated.broken exc) = (false, Warning.guard_broken rule.id exc ∷ [])

-- `failure if failure.policy_line else _with_line(failure, line)`: line 0 counts as no line.
abbrev has_line : Option ℕ → Bool
has_line none = false
has_line (some n) = not (n == 0)

unfoldable pub with_line : Option ℕ → PolicyFailure → PolicyFailure
with_line line failure =
    if has_line failure.policy_line then failure else record failure { policy_line = line }

-- What one round of the loop adds.
pub record Outcome : Type 0 where
  pub failures : List PolicyFailure
  pub inconclusive : List String
  pub warnings : List Warning

abbrev pub skipped : List Warning → Outcome
skipped warnings = record { failures = []; inconclusive = []; warnings = warnings }

abbrev pub joined : Outcome → Outcome → Outcome
joined a b = record {
  failures = a.failures ++ b.failures;
  inconclusive = a.inconclusive ++ b.inconclusive;
  warnings = a.warnings ++ b.warnings;
}

module _ (judged : String → Fields → Evaluated) where
  -- `_guard` on the rule's `when`. A rule with none always runs, save a `conditional` one, for
  -- which the call raises.
  unfoldable pub guard : RuleKind → Rule → Option String → Normalized → Result (Bool × List Warning)
  guard kind rule (some w) norm = ok (guard_result rule (judged w (guard_namespace norm)))
  guard (RuleKind.conditional _ _) rule none norm = type_error
  guard _ rule none norm = ok (true, [])

  unfoldable pub run_matcher : Option ℕ → Rule → Normalized → Bool × List Warning → Result Outcome
  run_matcher line rule norm (false, warnings) = ok (skipped warnings)
  run_matcher line rule norm (true, warnings) = do
    found ← match_kind judged rule rule.kind norm
    ok (record { failures = map (with_line line) found; inconclusive = []; warnings = warnings })

  -- The body of the loop over the rules.
  unfoldable pub apply_rule : LoadedPolicy → Normalized → Rule → Result Outcome
  unfolding run_matcher guard
  apply_rule loaded norm rule =
      if norm.incomplete && requires_complete rule.kind
      then ok (record { failures = []; inconclusive = rule.id ∷ []; warnings = [] })
      else (do
        guarded ← guard rule.kind rule rule.when norm
        run_matcher (get rule.id loaded.line_of_rule) rule norm guarded)

  unfoldable pub apply_rules : LoadedPolicy → Normalized → List Rule → Result Outcome
  apply_rules loaded norm [] = ok (skipped [])
  apply_rules loaded norm (rule ∷ rules) = do
    this ← apply_rule loaded norm rule
    rest ← apply_rules loaded norm rules
    ok (joined this rest)

  -- The engine on normalized events.
  unfoldable pub judge : LoadedPolicy → Normalized → Result PolicyResult
  unfolding apply_rules
  judge loaded norm = do
    outcome ← apply_rules loaded norm loaded.policy.rules
    ok (record {
      policy_name = loaded.policy.name;
      failures = outcome.failures;
      events = norm.events;
      incomplete = norm.incomplete;
      inconclusive_rules = outcome.inconclusive;
      warnings = norm.warnings ++ check_actions loaded.policy (actions norm) ++ outcome.warnings;
    })

unfoldable pub evaluate_policy : Python → Host → LoadedPolicy → Trace → Result PolicyResult
evaluate_policy py host loaded trace =
    judge (evaluate py) loaded (normalize host trace loaded.policy)
