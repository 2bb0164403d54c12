-- ===== src/Trajectory/Matchers/Presence/Partial.antt =====
-- What a `forbidden_action` rule sees on a part of the events, it sees on all of them.
use proofstep.Prelude.{String, ◌≢◌, List, [], Sublistᴰ}
use proofstep.Prelude.{any-sublist}
use proofstep.Trajectory.Schema.{Rule}
use proofstep.Trajectory.Normalized.{Normalized}
use proofstep.Trajectory.Matchers.Presence.{forbidden_action}
use proofstep.Trajectory.Matchers.Presence.Scan.{is_forbidden, forbidden_action_iff}

-- A `forbidden_action` failure found on a trajectory that lost events is also found on the whole
-- one: when a rule fails on a sublist of the events, it fails on the events.
pub forbidden_action_partial :
    (rule : Rule) (actions : List String) (part whole : Normalized)
    → Sublistᴰ part.events whole.events
    → forbidden_action rule actions part ≢ []
    → forbidden_action rule actions whole ≢ []
forbidden_action_partial rule actions part whole kept seen passes = seen (
    (forbidden_action_iff rule actions part).1 (
      any-sublist (is_forbidden rule actions) kept
        ((forbidden_action_iff rule actions whole).0 passes)))
