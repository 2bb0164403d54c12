-- ===== src/Trajectory/Matchers/Repeats.antt =====
-- `unique_action` and `no_loop` of matchers.py: dictionaries keyed by the composite identity.
pub mod Duplicates
use proofstep.Prelude.{
  ℕ, ◌+◌, String, Bool, true, false, ◌&&◌, Option, none, some, List, [], ◌∷◌, ◌++◌, map, ltb, leb,
  if◌then◌else◌, length, take, all, head?,
}
use proofstep.Types.Value.{Value, hashable, same_value}
use proofstep.Prelude.Result.{Result, ok, type_error, ◌>>=◌}
use proofstep.Trajectory.Events.{TrajectoryEvent, key, PolicyFailure, Message, Detail}
use proofstep.Trajectory.Schema.{Rule}
use proofstep.Trajectory.Normalized.{Normalized, of}
use proofstep.Trajectory.Matchers.Failure.{fail, visible}

abbrev pub Key : Type 0
Key = List Value

-- Equality of two tuples.
unfoldable pub same_key : Key → Key → Bool
same_key [] [] = true
same_key [] (w ∷ ws) = false
same_key (v ∷ vs) [] = false
same_key (v ∷ vs) (w ∷ ws) = same_value v w && same_key vs ws

-- `seen.get(key)`, the key being hashable
unfoldable pub find_key : Key → List (Key × TrajectoryEvent) → Option TrajectoryEvent
find_key k [] = none
find_key k ((j, e) ∷ seen) = if same_key j k then some e else find_key k seen

unfoldable pub repeat_failure :
    Rule → String → List String → TrajectoryEvent → TrajectoryEvent → PolicyFailure
repeat_failure rule action parts earlier event =
    fail rule (Message.performed_twice action parts) (some event)
      (Detail.at_most_one_per action parts) (Detail.first_and_repeat earlier.index event.index)
      (earlier ∷ event ∷ [])

-- The loop of `unique_action`. A tuple that holds a list or a dict cannot be looked up.
unfoldable pub repeats :
    Rule
    → String
    → List String
    → List (Key × TrajectoryEvent)
    → List TrajectoryEvent
    → Result (List PolicyFailure)
repeats rule action parts seen [] = ok []
repeats rule action parts seen (event ∷ events) =
    let k = key event parts in
    elim (all hashable k) [
      | false ↦ type_error
      | true ↦ elim (find_key k seen) [
        | some earlier ↦ do
          rest ← repeats rule action parts seen events
          ok (repeat_failure rule action parts earlier event ∷ rest)
        | none ↦ repeats rule action parts ((k, event) ∷ seen) events
      ]
    ]

unfoldable pub unique_action :
    Rule → String → List String → Normalized → Result (List PolicyFailure)
unique_action rule action parts norm = repeats rule action parts [] (visible rule (of norm action))

-- `counts.setdefault(event.key(rule.key), []).append(event)`
unfoldable pub add_to_group :
    Key → TrajectoryEvent → List (Key × List TrajectoryEvent) → List (Key × List TrajectoryEvent)
add_to_group k e [] = (k, e ∷ []) ∷ []
add_to_group k e ((j, es) ∷ groups) =
    let rest = (j, es) ∷ add_to_group k e groups in
    if same_key j k then (j, es ++ e ∷ []) ∷ groups else rest

unfoldable pub group_events :
    List String
    → List (Key × List TrajectoryEvent)
    → List TrajectoryEvent
    → Result (List (Key × List TrajectoryEvent))
group_events parts groups [] = ok groups
group_events parts groups (event ∷ events) =
    let k = key event parts in
    elim (all hashable k) [
      | false ↦ type_error
      | true ↦ group_events parts (add_to_group k event groups) events
    ]

-- The first group, in order of first occurrence, that is large enough.
unfoldable pub large_group : ℕ → List (Key × List TrajectoryEvent) → Option (List TrajectoryEvent)
large_group min_repeats [] = none
large_group min_repeats ((k, es) ∷ groups) =
    if leb min_repeats (length es) then some es else large_group min_repeats groups

-- `f"{repeated[0].action!r} repeated ..."`
abbrev first_action : List TrajectoryEvent → String
first_action [] = ""
first_action (e ∷ es) = e.action

unfoldable pub loop_failure : Rule → ℕ → ℕ → List TrajectoryEvent → PolicyFailure
loop_failure rule window min_repeats repeated =
    fail rule (Message.looping (first_action repeated) (length repeated) window) (head? repeated)
      (Detail.fewer_repeats min_repeats window) (Detail.at_events (map (λ e. e.index) repeated))
      (take 5 repeated)

-- The sliding window, from each start: `events[start : start + window]`.
unfoldable pub scan_windows :
    Rule → ℕ → ℕ → List String → List TrajectoryEvent → Result (List PolicyFailure)
scan_windows rule window min_repeats parts [] = ok []
scan_windows rule window min_repeats parts (event ∷ events) =
    let frame = take window (event ∷ events) in
    elim (ltb (length frame) min_repeats) [
      | true ↦ ok []
      | false ↦ elim (group_events parts [] frame) [
        | type_error ↦ type_error
        | ok groups ↦ elim (large_group min_repeats groups) [
          | some repeated ↦ ok (loop_failure rule window min_repeats repeated ∷ [])
          | none ↦ scan_windows rule window min_repeats parts events
        ]
      ]
    ]

unfoldable pub no_loop : Rule → ℕ → ℕ → List String → Normalized → Result (List PolicyFailure)
no_loop rule window min_repeats parts norm =
    scan_windows rule window min_repeats parts (visible rule norm.events)
