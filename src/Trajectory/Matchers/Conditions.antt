-- ===== src/Trajectory/Matchers/Conditions.antt =====
-- `argument_condition`, `conditional` and `final_state` of matchers.py.
use proofstep.Prelude.{String, true, false, Option, none, some, List, [], ◌∷◌, ◌++◌, length, take}
use proofstep.Types.Value.{Value, Fields}
use proofstep.Trajectory.Predicates.{Evaluated}
use proofstep.Trajectory.Events.{TrajectoryEvent, PolicyFailure, Message, Detail}
use proofstep.Trajectory.Schema.{Rule}
use proofstep.Trajectory.Normalized.{Normalized, of}
use proofstep.Trajectory.Matchers.Failure.{fail, visible}

-- The namespace of a condition on an event's arguments.
abbrev pub event_namespace : Fields → TrajectoryEvent → Fields
event_namespace state e = Fields.field "args" (Value.obj e.args) (
    Fields.field "metadata" (Value.obj state) (
      Fields.field "state" (Value.obj state)
        (Fields.field "action" (Value.text e.action) Fields.done)))

abbrev pub condition_failures :
    Rule → String → String → TrajectoryEvent → Evaluated → List PolicyFailure
condition_failures rule action require e (Evaluated.value true) = []
condition_failures rule action require e (Evaluated.value false) =
    fail rule (Message.arguments_violate action) (some e) (Detail.condition require)
      (Detail.arguments e.args) (e ∷ [])
    ∷ []
condition_failures rule action require e (Evaluated.broken exc) =
    fail rule (Message.condition_broken action exc) (some e) Detail.nothing Detail.nothing [] ∷ []

abbrev pub state_namespace : Fields → Fields
state_namespace state =
    Fields.field "state" (Value.obj state) (Fields.field "metadata" (Value.obj state) Fields.done)

abbrev pub state_failures : Rule → String → Fields → Evaluated → List PolicyFailure
state_failures rule require state (Evaluated.value true) = []
state_failures rule require state (Evaluated.value false) =
    fail rule Message.state_not_reached none (Detail.condition require) (Detail.state state) [] ∷ []
state_failures rule require state (Evaluated.broken exc) =
    fail rule (Message.state_condition_broken exc) none Detail.nothing Detail.nothing [] ∷ []

module _ (evaluate : String → Fields → Evaluated) where
  unfoldable pub check_events :
      Rule → String → String → Fields → List TrajectoryEvent → List PolicyFailure
  check_events rule action require state [] = []
  check_events rule action require state (e ∷ es) =
      condition_failures rule action require e (evaluate require (event_namespace state e))
      ++ check_events rule action require state es

  unfoldable pub argument_condition : Rule → String → String → Normalized → List PolicyFailure
  argument_condition rule action require norm =
      check_events rule action require norm.state (visible rule (of norm action))

  unfoldable pub final_state : Rule → String → Normalized → List PolicyFailure
  final_state rule require norm =
      state_failures rule require norm.state (evaluate require (state_namespace norm.state))

-- The text of `when` in a message.
abbrev condition_text : Option String → String
condition_text none = "None"
condition_text (some w) = w

abbrev pub missing_failures : Rule → String → List TrajectoryEvent → List PolicyFailure
missing_failures rule action [] =
    fail rule (Message.consequence_missing (condition_text rule.when) action) none
      (Detail.required_when action (condition_text rule.when)) (Detail.did_not_occur action) []
    ∷ []
missing_failures rule action (e ∷ es) = []

abbrev pub unwanted_failures : Rule → String → List TrajectoryEvent → List PolicyFailure
unwanted_failures rule action [] = []
unwanted_failures rule action (e ∷ es) =
    fail rule (Message.consequence_forbidden (condition_text rule.when) action (length (e ∷ es)))
      (some e) (Detail.forbidden_when action (condition_text rule.when))
      (Detail.occurrences (length (e ∷ es))) (take 5 (e ∷ es))
    ∷ []

unfoldable pub require_actions : Rule → List String → Normalized → List PolicyFailure
require_actions rule [] norm = []
require_actions rule (action ∷ rest) norm =
    missing_failures rule action (visible rule (of norm action)) ++ require_actions rule rest norm

unfoldable pub forbid_actions : Rule → List String → Normalized → List PolicyFailure
forbid_actions rule [] norm = []
forbid_actions rule (action ∷ rest) norm =
    unwanted_failures rule action (visible rule (of norm action)) ++ forbid_actions rule rest norm

unfoldable pub conditional : Rule → List String → List String → Normalized → List PolicyFailure
unfolding require_actions forbid_actions
conditional rule required forbidden norm =
    require_actions rule required norm ++ forbid_actions rule forbidden norm
