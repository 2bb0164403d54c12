-- ===== src/Trajectory/Matchers/Failure.antt =====
-- `_ref`, `_fail` and `_visible` of matchers.py.
use proofstep.Prelude.{
  ℕ, String, Bool, not, ◌&&◌, Option, none, some, List, [], ◌∷◌, map, if◌then◌else◌, filter, str_eq,
}
use proofstep.Trajectory.Events.{
  TrajectoryEvent, failed, EventRef, PolicyFailure, Message, overridden, Detail,
}
use proofstep.Trajectory.Schema.{Rule, kind_name}

unfoldable pub ref : TrajectoryEvent → EventRef
ref e = record { index = e.index; span_id = e.span_id; action = e.action; at = e.started_at }

-- `rule.message or message`
abbrev pub override : Option String → Message → Message
override none message = message
override (some s) message = if str_eq s "" then message else overridden s

abbrev pub refs : List TrajectoryEvent → Option TrajectoryEvent → List EventRef
refs [] none = []
refs [] (some e) = ref e ∷ []
refs (e ∷ es) offending = map ref (e ∷ es)

abbrev span_of : Option TrajectoryEvent → Option String
span_of none = none
span_of (some e) = some e.span_id

abbrev index_of : Option TrajectoryEvent → Option ℕ
index_of none = none
index_of (some e) = some e.index

abbrev action_of : Option TrajectoryEvent → String
action_of none = ""
action_of (some e) = e.action

unfoldable pub fail :
    Rule → Message → Option TrajectoryEvent → Detail → Detail → List TrajectoryEvent → PolicyFailure
unfolding kind_name ref
fail rule message offending expected actual evidence = record {
  rule_id = rule.id;
  rule_kind = kind_name rule.kind;
  severity = rule.severity;
  message = override rule.message message;
  offending_span_id = span_of offending;
  offending_event_index = index_of offending;
  offending_action = action_of offending;
  expected = expected;
  actual = actual;
  evidence = refs evidence offending;
  policy_line = none;
}

abbrev pub is_visible : Rule → TrajectoryEvent → Bool
is_visible rule e = not (rule.ignore_failed && failed e)

unfoldable pub visible : Rule → List TrajectoryEvent → List TrajectoryEvent
visible rule events = filter (is_visible rule) events
