-- ===== src/Trajectory/Events.antt =====
-- The normalized trajectory event and the result of a policy:
-- packages/trajectory-engine/src/proofstep_trajectory/events.py. An f-string is kept as the
-- constructor of its template with the values that it interpolates.
use Prim.Native.Char.{Char, code}
use proofstep.Prelude.{
  is_empty, ℕ, String, Bool, true, false, not, ◌&&◌, Option, none, some, List, [], ◌∷◌, any, filter,
  if◌then◌else◌, str_eq, strip_prefix, ◌==◌,
}
use proofstep.Trajectory.Predicates.{PredicateError}
use proofstep.Types.{Status, Severity, is_block}
use proofstep.Types.Value.{Value, Fields, ℤ, get_field}

pub record TrajectoryEvent : Type 0 where
  pub index : ℕ
  pub action : String
  pub span_id : String
  pub parent_span_id : Option String
  pub depth : ℕ
  pub started_at : ℕ
  pub ended_at : Option ℕ
  pub status : Status
  pub args : Fields
  pub args_hash : String
  pub attempt : ℕ
  pub is_retry : Bool
  pub parallel_group : Option String
  pub result_summary : Value

abbrev pub is_failure : Status → Bool
is_failure Status.error = true
is_failure Status.timeout = true
is_failure _ = false

abbrev pub failed : TrajectoryEvent → Bool
failed e = is_failure e.status

abbrev status_text : Status → String
status_text Status.ok = "ok"
status_text Status.error = "error"
status_text Status.timeout = "timeout"
status_text Status.unset = "unset"

abbrev text_or_null : Option String → Value
text_or_null none = Value.null
text_or_null (some s) = Value.text s

abbrev moment_or_null : Option ℕ → Value
moment_or_null none = Value.null
moment_or_null (some t) = Value.moment t

abbrev number : ℕ → Value
number n = Value.int (ℤ.pos n)

-- `path.split(".")`
cons_head : Char → List String → List String
cons_head c [] = String.◌∷◌ c String.[] ∷ []
cons_head c (s ∷ rest) = String.◌∷◌ c s ∷ rest

split_dots : String → List String
unfolding cons_head
split_dots String.[] = String.[] ∷ []
split_dots (String.◌∷◌ c s) =
    let rest = split_dots s in if code c == b'.' then String.[] ∷ rest else cons_head c rest

-- The loop of `_dig`: a step into what is no dict, or has no such key, ends in `None`.
dig_parts : Value → List String → Value
dig_parts current [] = current
dig_parts (Value.obj fields) (part ∷ rest) = elim (get_field part fields) [
  | none ↦ Value.null
  | some v ↦ dig_parts v rest
]
dig_parts _ (part ∷ rest) = Value.null

unfoldable pub dig : Fields → String → Value
unfolding dig_parts split_dots
dig source path = dig_parts (Value.obj source) (split_dots path)

-- `getattr(self, part, None)` over the slots and the property of the class.
unfoldable pub get_attr : TrajectoryEvent → String → Value
get_attr e part =
    if str_eq part "index"
    then number e.index
    else if str_eq part "span_id"
    then Value.text e.span_id
    else if str_eq part "parent_span_id"
    then text_or_null e.parent_span_id
    else if str_eq part "depth"
    then number e.depth
    else if str_eq part "started_at"
    then Value.moment e.started_at
    else if str_eq part "ended_at"
    then moment_or_null e.ended_at
    else if str_eq part "status"
    then Value.text (status_text e.status)
    else if str_eq part "args"
    then Value.obj e.args
    else if str_eq part "attempt"
    then number e.attempt
    else if str_eq part "is_retry"
    then Value.flag e.is_retry
    else if str_eq part "parallel_group"
    then text_or_null e.parallel_group
    else if str_eq part "result_summary"
    then e.result_summary
    else if str_eq part "failed"
    then Value.flag (failed e)
    else Value.null

-- One component of the composite identity.
unfoldable pub key_part : TrajectoryEvent → String → Value
unfolding dig get_attr
key_part e part =
    if str_eq part "action"
    then Value.text e.action
    else if str_eq part "args_hash"
    then Value.text e.args_hash
    else elim (strip_prefix "args." part) [ some path ↦ dig e.args path | none ↦ get_attr e part ]

-- Composite identity used by `unique_action` and `no_loop`.
unfoldable pub key : TrajectoryEvent → List String → List Value
key e [] = []
key e (part ∷ parts) = key_part e part ∷ key e parts

-- What a message template interpolates.
pub data Message : Type 0 where
  overridden : String → Message
  step_never_occurred : String → Message
  step_not_after : String → String → Message
  steps_not_contiguous : List String → Message
  too_few_occurrences : String → ℕ → ℕ → Message
  forbidden_invoked : String → ℕ → Message
  occurred_without : String → String → Message
  occurred_before : String → String → Message
  occurred_after : String → String → Message
  called_too_often : String → ℕ → ℕ → Message
  called_too_rarely : String → ℕ → ℕ → Message
  performed_twice : String → List String → Message
  looping : String → ℕ → ℕ → Message
  retried_too_often : String → ℕ → ℕ → Message
  condition_broken : String → PredicateError → Message
  arguments_violate : String → Message
  consequence_missing : String → String → Message
  consequence_forbidden : String → String → ℕ → Message
  state_condition_broken : PredicateError → Message
  state_not_reached : Message

-- What the `expected` and `actual` templates interpolate.
pub data Detail : Type 0 where
  nothing : Detail
  steps_joined : List String → Detail
  no_events : Detail
  matched_steps : ℕ → ℕ → List String → Detail
  at_least : String → ℕ → Detail
  counted : ℕ → Detail
  must_never_occur : String → Detail
  occurrences : ℕ → Detail
  must_occur_before : String → String → Detail
  never_occurred : String → Detail
  occurred_late : String → ℕ → ℕ → ℕ → Detail
  must_not_follow : String → String → Detail
  occurrences_after : ℕ → ℕ → Detail
  at_most_calls : ℕ → Detail
  excess_calls : ℕ → List ℕ → Detail
  at_least_calls : ℕ → Detail
  at_most_one_per : String → List String → Detail
  first_and_repeat : ℕ → ℕ → Detail
  fewer_repeats : ℕ → ℕ → Detail
  at_events : List ℕ → Detail
  at_most_retries : ℕ → Detail
  retries : ℕ → Detail
  condition : String → Detail
  arguments : Fields → Detail
  required_when : String → String → Detail
  did_not_occur : String → Detail
  forbidden_when : String → String → Detail
  state : Fields → Detail

pub record EventRef : Type 0 where
  pub index : ℕ
  pub span_id : String
  pub action : String
  pub at : ℕ

pub record PolicyFailure : Type 0 where
  pub rule_id : String
  pub rule_kind : String
  pub severity : Severity
  pub message : Message
  pub offending_span_id : Option String
  pub offending_event_index : Option ℕ
  pub offending_action : String
  pub expected : Detail
  pub actual : Detail
  pub evidence : List EventRef
  pub policy_line : Option ℕ

abbrev pub blocking : PolicyFailure → Bool
blocking f = is_block f.severity

-- The warnings of normalization and of the engine, by their templates.
pub data Warning : Type 0 where
  no_spans_matched : Warning
  duplicate_spans : ℕ → Warning
  clock_skew : ℕ → Warning
  dropped_spans : ℕ → Warning
  open_spans : Warning
  unseen_actions : String → List String → List String → Warning
  guard_broken : String → PredicateError → Warning

pub record PolicyResult : Type 0 where
  pub policy_name : String
  pub failures : List PolicyFailure
  pub events : List TrajectoryEvent
  pub incomplete : Bool
  pub inconclusive_rules : List String
  pub warnings : List Warning

-- Inconclusive is not passed.
unfoldable pub passed : PolicyResult → Bool
passed r = not (any blocking r.failures) && is_empty r.inconclusive_rules

unfoldable pub blocking_failures : PolicyResult → List PolicyFailure
blocking_failures r = filter blocking r.failures
