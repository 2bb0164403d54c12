-- ===== src/Trajectory/Matchers/Attribution/Conditions.antt =====
-- Failures of the rules with conditions.
use proofstep.Prelude.{String, true, false, List, [], ◌∷◌}
use proofstep.Types.Value.{Fields}
use proofstep.Trajectory.Predicates.{Evaluated}
use proofstep.Trajectory.Events.{TrajectoryEvent}
use proofstep.Trajectory.Schema.{Rule}
use proofstep.Trajectory.Normalized.{Normalized, of}
use proofstep.Trajectory.Matchers.Failure.{visible}
use proofstep.Trajectory.Matchers.Conditions.{
  check_events, condition_failures, state_failures, require_actions, missing_failures,
  forbid_actions, unwanted_failures, event_namespace,
}
use proofstep.Trajectory.Matchers.Attribution.Base.{AllOf, AllOf-append, fail-AllOf}

module _ (rule : Rule) where
  pub condition_failures-AllOf :
      (action require : String) (e : TrajectoryEvent) (v : Evaluated)
      → AllOf rule (condition_failures rule action require e v)
  condition_failures-AllOf action require e (Evaluated.value true) = tt
  condition_failures-AllOf action require e (Evaluated.value false) = fail-AllOf rule _ _ _ _ _
  condition_failures-AllOf action require e (Evaluated.broken exc) = fail-AllOf rule _ _ _ _ _

  pub check_events-AllOf :
      (evaluate : String → Fields → Evaluated) (action require : String) (state : Fields)
      (es : List TrajectoryEvent)
      → AllOf rule (check_events evaluate rule action require state es)
  unfolding check_events
  check_events-AllOf evaluate action require state [] = tt
  check_events-AllOf evaluate action require state (e ∷ es) =
      AllOf-append rule _ _
        (condition_failures-AllOf action require e (evaluate require (event_namespace state e)))
        (check_events-AllOf evaluate action require state es)

  pub state_failures-AllOf :
      (require : String) (state : Fields) (v : Evaluated)
      → AllOf rule (state_failures rule require state v)
  state_failures-AllOf require state (Evaluated.value true) = tt
  state_failures-AllOf require state (Evaluated.value false) = fail-AllOf rule _ _ _ _ _
  state_failures-AllOf require state (Evaluated.broken exc) = fail-AllOf rule _ _ _ _ _

  pub require_actions-AllOf :
      (actions : List String) (norm : Normalized) → AllOf rule (require_actions rule actions norm)
  unfolding require_actions
  require_actions-AllOf [] norm = tt
  require_actions-AllOf (a ∷ actions) norm =
      AllOf-append rule _ _ (missing (visible rule (of norm a)))
        (require_actions-AllOf actions norm)
    where
      missing : (es : List TrajectoryEvent) → AllOf rule (missing_failures rule a es)
      missing [] = fail-AllOf rule _ _ _ _ _
      missing (e ∷ es) = tt

  pub forbid_actions-AllOf :
      (actions : List String) (norm : Normalized) → AllOf rule (forbid_actions rule actions norm)
  unfolding forbid_actions
  forbid_actions-AllOf [] norm = tt
  forbid_actions-AllOf (a ∷ actions) norm =
      AllOf-append rule _ _ (unwanted (visible rule (of norm a)))
        (forbid_actions-AllOf actions norm)
    where
      unwanted : (es : List TrajectoryEvent) → AllOf rule (unwanted_failures rule a es)
      unwanted [] = tt
      unwanted (e ∷ es) = fail-AllOf rule _ _ _ _ _
