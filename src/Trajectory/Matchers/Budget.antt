-- ===== src/Trajectory/Matchers/Budget.antt =====
-- `limit` and `max_retries` of matchers.py.
pub mod Bounds
pub mod Retries
use proofstep.Prelude.{
  ℕ, ◌+◌, ◌-◌, ◌*◌, String, Bool, true, not, Option, none, some, List, [], ◌∷◌, ◌++◌, map, ltb,
  if◌then◌else◌, length, take, drop, filter, head?, str_eq,
}
use proofstep.Prelude.{str_leb}
use proofstep.Prelude.Dict.{Dict, get, put}
use proofstep.Prelude.Sort.{sort_by}
use proofstep.Trajectory.Events.{TrajectoryEvent, PolicyFailure, Message, Detail}
use proofstep.Trajectory.Schema.{Rule}
use proofstep.Trajectory.Normalized.{Normalized, of}
use proofstep.Trajectory.Matchers.Failure.{fail, visible}

abbrev indices : List TrajectoryEvent → List ℕ
indices = map (λ e. e.index)

abbrev pub over_limit : Rule → String → Option ℕ → List TrajectoryEvent → List PolicyFailure
over_limit rule action none events = []
over_limit rule action (some most) events =
    let excess = drop most events in
    if ltb most (length events)
    then fail rule (Message.called_too_often action (length events) most) (head? excess)
        (Detail.at_most_calls most) (Detail.excess_calls (length events) (indices (take 5 excess)))
        (take 5 excess)
      ∷ []
    else []

abbrev pub under_limit : Rule → String → Option ℕ → List TrajectoryEvent → List PolicyFailure
under_limit rule action none events = []
under_limit rule action (some least) events =
    if ltb (length events) least
    then fail rule (Message.called_too_rarely action (length events) least) none
        (Detail.at_least_calls least) (Detail.counted (length events)) []
      ∷ []
    else []

-- Retries are excluded from call budgets.
unfoldable pub budgeted : Rule → String → Normalized → List TrajectoryEvent
budgeted rule action norm = filter (λ e. not e.is_retry) (visible rule (of norm action))

unfoldable pub limit : Rule → String → Option ℕ → Option ℕ → Normalized → List PolicyFailure
limit rule action max_calls min_calls norm =
    let events = budgeted rule action norm in
    over_limit rule action max_calls events ++ under_limit rule action min_calls events

-- `worst[event.action] = event`, unless an earlier event had as many attempts.
abbrev pub is_worse : TrajectoryEvent → Option TrajectoryEvent → Bool
is_worse event none = true
is_worse event (some known) = ltb known.attempt event.attempt

unfoldable pub worst_from : List TrajectoryEvent → Dict TrajectoryEvent → Dict TrajectoryEvent
worst_from [] worst = worst
worst_from (event ∷ events) worst =
    worst_from events
      (if is_worse event (get event.action worst) then put event.action event worst else worst)

abbrev pub retry_failures : Rule → ℕ → Dict TrajectoryEvent → List PolicyFailure
retry_failures rule most [] = []
retry_failures rule most ((action, event) ∷ rest) =
    let others = retry_failures rule most rest in
    if ltb most (event.attempt - 1)
    then fail rule (Message.retried_too_often action (event.attempt - 1) most) (some event)
        (Detail.at_most_retries most) (Detail.retries (event.attempt - 1)) []
      ∷ others
    else others

unfoldable pub retried_events : String → Normalized → List TrajectoryEvent
retried_events action norm = if str_eq action "*" then norm.events else of norm action

abbrev entry_le : (String × TrajectoryEvent) → (String × TrajectoryEvent) → Bool
entry_le a b = str_leb a.0 b.0

unfoldable pub max_retries : Rule → String → ℕ → Normalized → List PolicyFailure
max_retries rule action most norm =
    retry_failures rule most (sort_by entry_le (worst_from (retried_events action norm) []))
