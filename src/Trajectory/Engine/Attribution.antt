-- ===== src/Trajectory/Engine/Attribution.antt =====
-- Where the failures of a result come from.
use mathlib.Core.List.{Memᴰ}
use proofstep.Prelude.{
  String, ◌≡◌, refl, inl, inr, Bool, true, false, ◌&&◌, List, [], ◌∷◌, ◌++◌, map, arith, Bool-cases,
}
use proofstep.Prelude.Dict.{get}
use proofstep.Types.Value.{Fields}
use proofstep.Prelude.Result.{ok, >>=-eq-ok}
use proofstep.Trajectory.Predicates.{Evaluated}
use proofstep.Trajectory.Events.{Warning, PolicyFailure, PolicyResult}
use proofstep.Trajectory.Schema.{Rule, kind_name}
use proofstep.Trajectory.Normalized.{Normalized}
use proofstep.Trajectory.Matchers.{match_kind}
use proofstep.Trajectory.Matchers.Attribution.Base.{AllOf}
use proofstep.Trajectory.Matchers.Attribution.{match_kind-AllOf}
use proofstep.Trajectory.Engine.{
  LoadedPolicy, Outcome, guard, run_matcher, with_line, apply_rule, apply_rules, judge,
}
use proofstep.Trajectory.Engine.Verdict.{asserts_presence, apply_rules-cons}

module _ (loaded : LoadedPolicy) (norm : Normalized) where
  -- The failure was reported for the rule, which could be judged, at the rule's line.
  pub record ComesFrom (rule : Rule) (f : PolicyFailure) : Type 0 where
    pub id : f.rule_id ≡ rule.id
    pub kind : f.rule_kind ≡ kind_name rule.kind
    pub severity : f.severity ≡ rule.severity
    pub line : f.policy_line ≡ get rule.id loaded.line_of_rule
    pub judged : (norm.incomplete && asserts_presence rule) ≡ false

  abbrev pub AllFrom : List Rule → List PolicyFailure → Type 0
  AllFrom rules [] = Unit
  AllFrom rules (f ∷ fs) = ((rule : Rule) × Memᴰ rule rules × ComesFrom rule f) × AllFrom rules fs

  AllFrom-append :
      (rules : List Rule) (fs gs : List PolicyFailure)
      → AllFrom rules fs
      → AllFrom rules gs
      → AllFrom rules (fs ++ gs)
  AllFrom-append rules [] gs hf hg = hg
  AllFrom-append rules (f ∷ fs) gs hf hg = (hf.0, AllFrom-append rules fs gs hf.1 hg)

  AllFrom-cons :
      (rule : Rule) (rules : List Rule) (fs : List PolicyFailure)
      → AllFrom rules fs
      → AllFrom (rule ∷ rules) fs
  AllFrom-cons rule rules [] h = tt
  AllFrom-cons rule rules (f ∷ fs) h =
      let (source, m, c) = h.0 in ((source, Memᴰ.tail m, c), AllFrom-cons rule rules fs h.1)

  AllFrom-with_line :
      (rule : Rule) (rules : List Rule) (fs : List PolicyFailure)
      → (norm.incomplete && asserts_presence rule) ≡ false
      → AllOf rule fs
      → AllFrom (rule ∷ rules) (map (with_line (get rule.id loaded.line_of_rule)) fs)
  unfolding with_line
  AllFrom-with_line rule rules [] j h = tt
  AllFrom-with_line rule rules (f ∷ fs) j h =
      ((rule, Memᴰ.head refl, ground arith), AllFrom-with_line rule rules fs j h.1)

  module _ (evaluate : String → Fields → Evaluated) where
    run_matcher-AllFrom :
        (rule : Rule) (rules : List Rule) (g : Bool × List Warning) {o : Outcome}
        → (norm.incomplete && asserts_presence rule) ≡ false
        → run_matcher evaluate (get rule.id loaded.line_of_rule) rule norm g ≡ ok o
        → AllFrom (rule ∷ rules) o.failures
    unfolding run_matcher
    run_matcher-AllFrom rule rules (false, warnings) {o} j h =
        let e : [] ≡ o.failures = ground arith in rw (← e) tt
    run_matcher-AllFrom rule rules (true, warnings) {o} j h =
        let (found, p, e) = >>=-eq-ok (match_kind evaluate rule rule.kind norm) _ h in
        let e' : map (with_line (get rule.id loaded.line_of_rule)) found ≡ o.failures = cc in
        rw (← e') (
          AllFrom-with_line rule rules found j
            (match_kind-AllOf rule evaluate rule.kind norm found p))

    rule-AllFrom :
        (rule : Rule) (rules : List Rule) {o : Outcome}
        → apply_rule evaluate loaded norm rule ≡ ok o
        → AllFrom (rule ∷ rules) o.failures
    unfolding apply_rule
    rule-AllFrom rule rules {o} h = elim (Bool-cases (norm.incomplete && asserts_presence rule)) [
      | inl unjudgeable ↦
          let h' = rw unjudgeable at h in let e : [] ≡ o.failures = ground arith in rw (← e) tt
      | inr judged ↦
          let (g, p, h') =
            >>=-eq-ok (guard evaluate rule.kind rule rule.when norm) _ (rw judged at h) in
          run_matcher-AllFrom rule rules g judged h'
    ]

    rules-AllFrom :
        (rules : List Rule) {o : Outcome}
        → apply_rules evaluate loaded norm rules ≡ ok o
        → AllFrom rules o.failures
    rules-AllFrom [] {o} h =
        let e : [] ≡ o.failures = unfold apply_rules in ground arith in rw (← e) tt
    rules-AllFrom (rule ∷ rules) {o} h =
        let (a, b, p, q, e) = apply_rules-cons evaluate loaded norm rule rules h in
        let e' : a.failures ++ b.failures ≡ o.failures = ground arith in
        rw (← e') (
          AllFrom-append (rule ∷ rules) a.failures b.failures (rule-AllFrom rule rules p)
            (AllFrom-cons rule rules b.failures (rules-AllFrom rules q)))

    -- Every failure of a result was reported for a rule of the policy: it has that rule's id, kind
    -- and severity and the line recorded for it, and on an incomplete trajectory the rule is not one
    -- that asserts presence.
    pub judge-AllFrom :
        (r : PolicyResult)
        → judge evaluate loaded norm ≡ ok r
        → AllFrom loaded.policy.rules r.failures
    unfolding judge
    judge-AllFrom r h =
        let (o, p, e) = >>=-eq-ok (apply_rules evaluate loaded norm loaded.policy.rules) _ h in
        let e' : o.failures ≡ r.failures = ground arith in
        rw (← e') (rules-AllFrom loaded.policy.rules p)
