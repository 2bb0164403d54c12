-- ===== src/Trajectory/Matchers/Precedence.antt =====
-- `forbidden_before`, `forbidden_after` and `_strictly_before` of matchers.py.
pub mod Evidence
use proofstep.Prelude.{
  ◌-◌, String, Bool, false, not, ◌&&◌, Option, none, some, List, [], ◌∷◌, ltb, if◌then◌else◌,
  length, take, filter, str_eq,
}
use proofstep.Trajectory.Events.{TrajectoryEvent, PolicyFailure, Message, Detail}
use proofstep.Trajectory.Schema.{Rule}
use proofstep.Trajectory.Normalized.{Normalized, of, first}
use proofstep.Trajectory.Matchers.Failure.{fail, visible}

-- `earlier.parallel_group and earlier.parallel_group == later.parallel_group`
abbrev pub same_group : Option String → Option String → Bool
same_group none other = false
same_group (some a) none = false
same_group (some a) (some b) = not (str_eq a "") && str_eq a b

-- Concurrent events are not ordered.
unfoldable pub strictly_before : TrajectoryEvent → TrajectoryEvent → Bool
strictly_before earlier later =
    if same_group earlier.parallel_group later.parallel_group
    then false
    else ltb earlier.started_at later.started_at

-- `before` never occurred: every occurrence of `action` is too early.
abbrev pub unguarded_failures : Rule → String → String → List TrajectoryEvent → List PolicyFailure
unguarded_failures rule action before [] = []
unguarded_failures rule action before (e ∷ es) =
    fail rule (Message.occurred_without action before) (some e)
      (Detail.must_occur_before before action) (Detail.never_occurred before) (take 5 (e ∷ es))
    ∷ []

abbrev pub early_failures :
    Rule → String → String → TrajectoryEvent → List TrajectoryEvent → List PolicyFailure
early_failures rule action before gate [] = []
early_failures rule action before gate (e ∷ es) =
    fail rule (Message.occurred_before action before) (some e)
      (Detail.must_occur_before before action)
      (Detail.occurred_late before gate.started_at gate.index (gate.started_at - e.started_at))
      (e ∷ gate ∷ [])
    ∷ []

-- What is reported for the visible occurrences of `action`, given the first `before`.
unfoldable pub before_failures :
    Rule → String → String → Option TrajectoryEvent → List TrajectoryEvent → List PolicyFailure
before_failures rule action before none offenders = unguarded_failures rule action before offenders
before_failures rule action before (some gate) offenders =
    early_failures rule action before gate (filter (λ e. strictly_before e gate) offenders)

unfoldable pub forbidden_before : Rule → String → String → Normalized → List PolicyFailure
unfolding before_failures
forbidden_before rule action before norm =
    before_failures rule action before (first norm before) (visible rule (of norm action))

abbrev pub late_failures :
    Rule → String → String → TrajectoryEvent → List TrajectoryEvent → List PolicyFailure
late_failures rule action after gate [] = []
late_failures rule action after gate (e ∷ es) =
    fail rule (Message.occurred_after action after) (some e) (Detail.must_not_follow action after)
      (Detail.occurrences_after (length (e ∷ es)) gate.index) (gate ∷ take 4 (e ∷ es))
    ∷ []

unfoldable pub after_failures :
    Rule → String → String → Option TrajectoryEvent → List TrajectoryEvent → List PolicyFailure
after_failures rule action after none offenders = []
after_failures rule action after (some gate) offenders =
    late_failures rule action after gate (filter (λ e. strictly_before gate e) offenders)

unfoldable pub forbidden_after : Rule → String → String → Normalized → List PolicyFailure
unfolding after_failures
forbidden_after rule action after norm =
    after_failures rule action after (first norm after) (visible rule (of norm action))
