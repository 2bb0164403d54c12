-- ===== src/Trajectory/Matchers/Presence.antt =====
-- `required_action` and `forbidden_action` of matchers.py.
pub mod Scan
pub mod Partial
use proofstep.Prelude.{
  ℕ, ◌+◌, String, none, some, List, [], ◌∷◌, ◌++◌, leb, if◌then◌else◌, length, take,
}
use proofstep.Trajectory.Events.{TrajectoryEvent, PolicyFailure, Message, Detail}
use proofstep.Trajectory.Schema.{Rule}
use proofstep.Trajectory.Normalized.{Normalized, of}
use proofstep.Trajectory.Matchers.Failure.{fail, visible}

unfoldable pub required_action : Rule → String → ℕ → Normalized → List PolicyFailure
required_action rule action min_count norm =
    let count = length (visible rule (of norm action)) in
    if leb min_count count
    then []
    else fail rule (Message.too_few_occurrences action count min_count) none
        (Detail.at_least action min_count) (Detail.counted count) []
      ∷ []

abbrev pub forbidden_failures : Rule → String → List TrajectoryEvent → List PolicyFailure
forbidden_failures rule action [] = []
forbidden_failures rule action (e ∷ es) =
    fail rule (Message.forbidden_invoked action (length (e ∷ es))) (some e)
      (Detail.must_never_occur action) (Detail.occurrences (length (e ∷ es))) (take 5 (e ∷ es))
    ∷ []

unfoldable pub forbidden_action : Rule → List String → Normalized → List PolicyFailure
forbidden_action rule [] norm = []
forbidden_action rule (action ∷ actions) norm =
    forbidden_failures rule action (visible rule (of norm action))
    ++ forbidden_action rule actions norm
