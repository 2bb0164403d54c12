-- ===== src/Trajectory/Normalized.antt =====
-- `Normalized`: the events with their index by action
-- (packages/trajectory-engine/src/proofstep_trajectory/normalize.py).
pub mod Lookup
pub mod Numbered
use proofstep.Prelude.{
  ℕ, String, Bool, not, Option, none, some, List, [], ◌∷◌, ◌++◌, length, filter, head?,
}
use proofstep.Prelude.Dict.{Dict, get, put, keys}
use proofstep.Types.Value.{Fields}
use proofstep.Trajectory.Events.{TrajectoryEvent, Warning}

pub record Normalized : Type 0 where
  pub events : List TrajectoryEvent
  pub state : Fields
  pub incomplete : Bool
  pub warnings : List Warning

abbrev pub entries_of : Option (List TrajectoryEvent) → List TrajectoryEvent
entries_of none = []
entries_of (some es) = es

-- The loop of `__init__`: `setdefault(event.action, []).append(event)`.
index_events : List TrajectoryEvent → Dict (List TrajectoryEvent) → Dict (List TrajectoryEvent)
index_events [] d = d
index_events (e ∷ es) d = index_events es (put e.action (entries_of (get e.action d) ++ e ∷ []) d)

unfoldable pub by_action : Normalized → Dict (List TrajectoryEvent)
unfolding index_events
by_action norm = index_events norm.events []

unfoldable pub of : Normalized → String → List TrajectoryEvent
of norm action = entries_of (get action (by_action norm))

unfoldable pub first : Normalized → String → Option TrajectoryEvent
first norm action = head? (of norm action)

unfoldable pub actions : Normalized → List String
actions norm = keys (by_action norm)

-- `counts(action)`, with `include_retries` at its default.
unfoldable pub counts : Normalized → String → ℕ
counts norm action = length (filter (λ e. not e.is_retry) (of norm action))
