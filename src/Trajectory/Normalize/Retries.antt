-- ===== src/Trajectory/Normalize/Retries.antt =====
-- `_mark_retries` of normalize.py.
pub mod Streak
use proofstep.Prelude.{
  ℕ, ◌+◌, String, Bool, true, ◌&&◌, Option, none, some, List, [], ◌∷◌, if◌then◌else◌, str_eq,
}
use proofstep.Trajectory.Events.{TrajectoryEvent, failed}

-- `last_failure`, keyed by action and argument hash: the attempt that failed last. The latest entry
-- comes first.
abbrev pub Failures : Type 0
Failures = List ((String × String) × ℕ)

abbrev pub same_signature : String → String → String → String → Bool
same_signature a h b k = str_eq a b && str_eq h k

unfoldable pub last_attempt : String → String → Failures → Option ℕ
last_attempt a h [] = none
last_attempt a h (((b, k), n) ∷ rest) =
    if same_signature b k a h then some n else last_attempt a h rest

-- `last_failure.pop(signature, None)`
unfoldable pub forget : String → String → Failures → Failures
forget a h [] = []
forget a h (((b, k), n) ∷ rest) =
    let others = forget a h rest in if same_signature b k a h then others else ((b, k), n) ∷ others

-- `last_failure[signature] = attempt`
unfoldable pub remember : String → String → ℕ → Failures → Failures
unfolding forget
remember a h n failures = ((a, h), n) ∷ forget a h failures

unfoldable pub mark : TrajectoryEvent → Option ℕ → TrajectoryEvent
mark event none = event
mark event (some previous) = record event { attempt = previous + 1; is_retry = true }

unfoldable pub after_event : TrajectoryEvent → Failures → Failures
unfolding remember
after_event current failures =
    if failed current
    then remember current.action current.args_hash current.attempt failures
    else forget current.action current.args_hash failures

unfoldable pub mark_from : Failures → List TrajectoryEvent → List TrajectoryEvent
unfolding mark after_event
mark_from failures [] = []
mark_from failures (event ∷ events) =
    let current = mark event (last_attempt event.action event.args_hash failures) in
    current ∷ mark_from (after_event current failures) events

unfoldable pub mark_retries : List TrajectoryEvent → List TrajectoryEvent
unfolding mark_from
mark_retries events = mark_from [] events
