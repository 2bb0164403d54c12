-- ===== src/Trajectory/Matchers/Attribution/Counts.antt =====
-- Failures of the rules on counts and repetitions.
use proofstep.Prelude.{
  ℕ, ◌-◌, String, ◌≡◌, inl, inr, Option, none, some, List, [], ◌∷◌, ltb, Bool-cases, Option-cases,
  length, take, all,
}
use proofstep.Prelude.Dict.{Dict}
use proofstep.Types.Value.{hashable}
use proofstep.Prelude.Result.{ok, >>=-eq-ok, Result-cases}
use proofstep.Trajectory.Events.{TrajectoryEvent, key, PolicyFailure}
use proofstep.Trajectory.Schema.{Rule}
use proofstep.Trajectory.Matchers.Failure.{fail}
use proofstep.Trajectory.Matchers.Budget.{over_limit, under_limit, retry_failures}
use proofstep.Trajectory.Matchers.Repeats.{
  repeats, repeat_failure, find_key, Key, scan_windows, loop_failure, group_events, large_group,
}
use proofstep.Trajectory.Matchers.Attribution.Base.{
  AllOf, AllOf-append, AllOf-if, fail-AllOf, ok-AllOf,
}

module _ (rule : Rule) where
  pub over_limit-AllOf :
      (action : String) (most : Option ℕ) (es : List TrajectoryEvent)
      → AllOf rule (over_limit rule action most es)
  over_limit-AllOf action none es = tt
  over_limit-AllOf action (some n) es =
      AllOf-if rule (ltb n (length es)) _ _ (fail-AllOf rule _ _ _ _ _) tt

  pub under_limit-AllOf :
      (action : String) (least : Option ℕ) (es : List TrajectoryEvent)
      → AllOf rule (under_limit rule action least es)
  under_limit-AllOf action none es = tt
  under_limit-AllOf action (some n) es =
      AllOf-if rule (ltb (length es) n) _ _ (fail-AllOf rule _ _ _ _ _) tt

  pub retry_failures-AllOf :
      (most : ℕ) (worst : Dict TrajectoryEvent) → AllOf rule (retry_failures rule most worst)
  retry_failures-AllOf most [] = tt
  retry_failures-AllOf most ((a, e) ∷ rest) =
      AllOf-if rule (ltb most (e.attempt - 1)) _ _
        (AllOf-append rule (fail rule _ _ _ _ _ ∷ []) _ (fail-AllOf rule _ _ _ _ _)
          (retry_failures-AllOf most rest))
        (retry_failures-AllOf most rest)

  pub repeats-AllOf :
      (action : String) (parts : List String) (seen : List (Key × TrajectoryEvent))
      (es : List TrajectoryEvent) (fs : List PolicyFailure)
      → repeats rule action parts seen es ≡ ok fs
      → AllOf rule fs
  unfolding repeats
  repeats-AllOf action parts seen [] [] h = tt
  repeats-AllOf action parts seen [] (f ∷ fs) h = absurd (cc)
  repeats-AllOf action parts seen (e ∷ es) fs h = elim (Bool-cases (all hashable (key e parts))) [
    | inl fine ↦ elim (Option-cases (find_key (key e parts) seen)) [
      | inl fresh ↦
          repeats-AllOf action parts ((key e parts, e) ∷ seen) es fs
            (rw (fine, fresh, repeats) at h)
      | inr (earlier, old) ↦
          let (rest, p, q) =
            >>=-eq-ok (repeats rule action parts seen es) _ (rw (fine, old, repeats) at h) in
          ok-AllOf rule _ fs q (
            AllOf-append rule (repeat_failure rule action parts earlier e ∷ []) rest
              (unfold repeat_failure in fail-AllOf rule _ _ _ _ _)
              (repeats-AllOf action parts seen es rest p))
    ]
    | inr bad ↦ let h' = rw (bad, repeats) at h in cc
  ]

  pub scan_windows-AllOf :
      (window least : ℕ) (parts : List String) (es : List TrajectoryEvent) (fs : List PolicyFailure)
      → scan_windows rule window least parts es ≡ ok fs
      → AllOf rule fs
  unfolding scan_windows
  scan_windows-AllOf window least parts [] fs h = ok-AllOf rule [] fs h tt
  scan_windows-AllOf window least parts (e ∷ es) fs h =
      let frame = take window (e ∷ es) in
      elim (Bool-cases (ltb (length frame) least)) [
        | inl short ↦ ok-AllOf rule [] fs (rw (short, scan_windows) at h) tt
        | inr long ↦ elim (Result-cases (group_events parts [] frame)) [
          | inl bad ↦ let h' = rw (long, bad, scan_windows) at h in cc
          | inr (groups, g) ↦ elim (Option-cases (large_group least groups)) [
            | inl small ↦
                scan_windows-AllOf window least parts es fs (rw (long, g, small, scan_windows) at h)
            | inr (repeated, large) ↦
                ok-AllOf rule _ fs (rw (long, g, large, scan_windows) at h)
                  (unfold loop_failure in fail-AllOf rule _ _ _ _ _)
          ]
        ]
      ]
