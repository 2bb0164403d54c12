-- ===== src/Trajectory/Matchers/Attribution/Base.antt =====
-- What it means that a failure is of a rule, and that all of a list are.
use proofstep.Prelude.{
  ◌≡◌, refl, Bool, true, false, Option, none, List, [], ◌∷◌, ◌++◌, if◌then◌else◌,
}
use proofstep.Prelude.Result.{ok}
use proofstep.Trajectory.Events.{TrajectoryEvent, PolicyFailure, Message, Detail}
use proofstep.Trajectory.Schema.{Rule, kind_name}
use proofstep.Trajectory.Matchers.Failure.{fail}

abbrev pub IsOf : Rule → PolicyFailure → Type 0
IsOf rule f =
    (f.rule_id ≡ rule.id)
    × (f.rule_kind ≡ kind_name rule.kind)
    × (f.severity ≡ rule.severity)
    × (f.policy_line ≡ none)

abbrev pub AllOf : Rule → List PolicyFailure → Type 0
AllOf rule [] = Unit
AllOf rule (f ∷ fs) = IsOf rule f × AllOf rule fs

pub AllOf-append :
    (rule : Rule) (fs gs : List PolicyFailure)
    → AllOf rule fs
    → AllOf rule gs
    → AllOf rule (fs ++ gs)
AllOf-append rule [] gs hf hg = hg
AllOf-append rule (f ∷ fs) gs hf hg = (hf.0, AllOf-append rule fs gs hf.1 hg)

pub AllOf-if :
    (rule : Rule) (b : Bool) (fs gs : List PolicyFailure)
    → AllOf rule fs
    → AllOf rule gs
    → AllOf rule (if b then fs else gs)
AllOf-if rule true fs gs hf hg = hf
AllOf-if rule false fs gs hf hg = hg

module _ (rule : Rule) where
  pub fail-AllOf :
      (m : Message) (e : Option TrajectoryEvent) (x y : Detail) (es : List TrajectoryEvent)
      → AllOf rule (fail rule m e x y es ∷ [])
  unfolding fail
  fail-AllOf m e x y es = ((refl, refl, refl, refl), tt)

  pub ok-AllOf : (gs fs : List PolicyFailure) → ok gs ≡ ok fs → AllOf rule gs → AllOf rule fs
  ok-AllOf gs fs h all_gs = let e : gs ≡ fs = cc in rw (← e) all_gs
