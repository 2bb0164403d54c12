-- ===== src/Trajectory/Matchers/Ordering.antt =====
-- `required_order` and `_contiguous_order` of matchers.py.
pub mod Subsequence
pub mod Contiguous
use proofstep.Prelude.{
  ℕ, zero, suc, ◌+◌, ◌-◌, String, Bool, false, ◌||◌, Option, none, some, List, [], ◌∷◌, ◌++◌, map,
  ◌==◌, if◌then◌else◌, length, take, drop, find?, same_texts,
}
use proofstep.Trajectory.Events.{TrajectoryEvent, PolicyFailure, Message, Detail}
use proofstep.Trajectory.Schema.{Rule, OrderMode}
use proofstep.Trajectory.Normalized.{Normalized}
use proofstep.Trajectory.Normalized.Lookup.{is_action}
use proofstep.Trajectory.Matchers.Failure.{fail, visible}

abbrev pub action_names : List TrajectoryEvent → List String
action_names = map (λ e. e.action)

-- `" -> ".join(names) or "<no events>"`
abbrev joined : List String → Detail
joined [] = Detail.no_events
joined (a ∷ names) = Detail.steps_joined (a ∷ names)

-- `events.index(found)`. Events carry their own position, so equal events have equal indices.
unfoldable pub index : TrajectoryEvent → List TrajectoryEvent → ℕ
index found [] = 0
index found (e ∷ es) =
    let later = suc (index found es) in if e.index == found.index then 0 else later

-- `matched[-1]`
abbrev pub last : List TrajectoryEvent → Option TrajectoryEvent
last [] = none
last (e ∷ es) = elim (last es) [ none ↦ some e | some x ↦ some x ]

abbrev step_message : String → Option TrajectoryEvent → Message
step_message step none = Message.step_never_occurred step
step_message step (some e) = Message.step_not_after step e.action

unfoldable pub order_failure :
    Rule → List String → List TrajectoryEvent → String → List TrajectoryEvent → PolicyFailure
order_failure rule steps events step matched =
    fail rule (step_message step (last matched)) (last matched) (Detail.steps_joined steps)
      (Detail.matched_steps (length matched) (length steps) (action_names events)) matched

-- The loop over the steps: where the search stands, and what has been matched.
unfoldable pub match_steps :
    Rule
    → List String
    → List TrajectoryEvent
    → List String
    → ℕ
    → List TrajectoryEvent
    → List PolicyFailure
match_steps rule steps events [] position matched = []
match_steps rule steps events (step ∷ rest) position matched =
    elim (find? (is_action step) (drop position events)) [
      | none ↦ order_failure rule steps events step matched ∷ []
      | some found ↦
          match_steps rule steps events rest (suc (index found events)) (matched ++ found ∷ [])
    ]

-- `for start in range(n)`: whether some window of the width of `steps` is `steps`.
unfoldable pub has_window : List String → ℕ → ℕ → List String → Bool
has_window steps zero start actions = false
has_window steps (suc n) start actions =
    same_texts (take (length steps) (drop start actions)) steps
    || has_window steps n (start + 1) actions

unfoldable pub contiguous_order : Rule → List String → List TrajectoryEvent → List PolicyFailure
contiguous_order rule steps events =
    let actions = action_names events in
    if has_window steps (length actions + 1 - length steps) 0 actions
    then []
    else fail rule (Message.steps_not_contiguous steps) none (Detail.steps_joined steps)
        (joined actions) []
      ∷ []

unfoldable pub required_order : Rule → List String → OrderMode → Normalized → List PolicyFailure
required_order rule steps OrderMode.contiguous norm =
    contiguous_order rule steps (visible rule norm.events)
required_order rule steps OrderMode.subsequence norm =
    match_steps rule steps (visible rule norm.events) steps 0 []
