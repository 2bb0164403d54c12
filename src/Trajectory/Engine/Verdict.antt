-- ===== src/Trajectory/Engine/Verdict.antt =====
-- What `passed` says of the rules, on complete and on incomplete trajectories.
use proofstep.Prelude.{
  ℕ, String, ◌≡◌, refl, inl, inr, Bool, true, false, not, ◌&&◌, Option, List, [], ◌∷◌, map, arith,
  if◌then◌else◌, Bool-cases, any, filter,
}
use proofstep.Prelude.{any-append, is_empty}
use proofstep.Prelude.Dict.{get}
use proofstep.Types.Value.{Fields}
use proofstep.Prelude.Result.{Result, ok, type_error, ◌>>=◌, >>=-eq-ok}
use proofstep.Trajectory.Predicates.{Evaluated}
use proofstep.Trajectory.Events.{Warning, PolicyFailure, PolicyResult, blocking, passed}
use proofstep.Trajectory.Schema.{Rule}
use proofstep.Trajectory.Normalized.{Normalized}
use proofstep.Trajectory.Matchers.{requires_complete, match_kind}
use proofstep.Trajectory.Engine.{
  LoadedPolicy, Outcome, joined, guard, run_matcher, with_line, apply_rule, apply_rules, judge,
}

-- A rule that asserts that something happened.
abbrev pub asserts_presence : Rule → Bool
asserts_presence rule = requires_complete rule.kind

-- The ids of the rules that cannot be judged on an incomplete trajectory.
abbrev pub unjudged : List Rule → List String
unjudged rules = map (λ rule. rule.id) (filter asserts_presence rules)

pub is_empty-unjudged :
    (rules : List Rule) → is_empty (unjudged rules) ≡ not (any asserts_presence rules)
is_empty-unjudged [] = refl
is_empty-unjudged (rule ∷ rules) = ground (arith, is_empty-unjudged rules)

module _ (evaluate : String → Fields → Evaluated) (loaded : LoadedPolicy) (norm : Normalized) where
  matched_inconclusive :
      (line : Option ℕ) (rule : Rule) (warnings : List Warning) {o : Outcome}
      → run_matcher evaluate line rule norm (true, warnings) ≡ ok o
      → o.inconclusive ≡ []
  unfolding run_matcher
  matched_inconclusive line rule warnings h = cases (match_kind evaluate rule rule.kind norm) h
    where
      cases :
          {o : Outcome} (r : Result (List PolicyFailure))
          → (do
            found ← r
            ok (record {
              failures = map (with_line line) found;
              inconclusive = [];
              warnings = warnings;
            }))
            ≡ ok o
          → o.inconclusive ≡ []
      cases (ok found) h = ground arith
      cases type_error h = cc

  guarded_inconclusive :
      (line : Option ℕ) (rule : Rule) (g : Result (Bool × List Warning)) {o : Outcome}
      → (g >>= run_matcher evaluate line rule norm) ≡ ok o
      → o.inconclusive ≡ []
  guarded_inconclusive line rule (ok (true, warnings)) h = matched_inconclusive line rule warnings h
  guarded_inconclusive line rule (ok (false, warnings)) h = unfold run_matcher in ground arith
  guarded_inconclusive line rule type_error h = cc

  rule_inconclusive :
      (rule : Rule) {o : Outcome}
      → apply_rule evaluate loaded norm rule ≡ ok o
      → o.inconclusive ≡ (if norm.incomplete && asserts_presence rule then rule.id ∷ [] else [])
  unfolding apply_rule
  rule_inconclusive rule h = elim (Bool-cases (norm.incomplete && asserts_presence rule)) [
    | inl unjudgeable ↦ rw unjudgeable (let h' = rw unjudgeable at h in ground arith)
    | inr judged ↦ rw judged (
        guarded_inconclusive (get rule.id loaded.line_of_rule) rule
          (guard evaluate rule.kind rule rule.when norm) (rw judged at h))
  ]

  abbrev pub blocks : Result Outcome → Bool
  blocks (ok o) = any blocking o.failures
  blocks type_error = false

  -- What the loop returns on one more rule.
  pub apply_rules-cons :
      (rule : Rule) (rules : List Rule) {o : Outcome}
      → apply_rules evaluate loaded norm (rule ∷ rules) ≡ ok o
      → (a : Outcome) × (b : Outcome) × (apply_rule evaluate loaded norm rule ≡ ok a)
        × (apply_rules evaluate loaded norm rules ≡ ok b)
        × (o ≡ joined a b)
  unfolding apply_rules
  apply_rules-cons rule rules h =
      let (a, p, h') = >>=-eq-ok (apply_rule evaluate loaded norm rule) _ h in
      let (b, q, e) = >>=-eq-ok (apply_rules evaluate loaded norm rules) _ h' in (a, b, p, q, cc)

  rules_inconclusive :
      (rules : List Rule) {o : Outcome}
      → apply_rules evaluate loaded norm rules ≡ ok o
      → o.inconclusive ≡ (if norm.incomplete then unjudged rules else [])
  rules_inconclusive [] h = unfold apply_rules in ground arith
  rules_inconclusive (rule ∷ rules) h =
      let (a, b, p, q, e) = apply_rules-cons rule rules h in
      ground (arith, rule_inconclusive rule p, rules_inconclusive rules q)

  rules_blocking :
      (rules : List Rule) {o : Outcome}
      → apply_rules evaluate loaded norm rules ≡ ok o
      → any blocking o.failures ≡ any (λ rule. blocks (apply_rule evaluate loaded norm rule)) rules
  rules_blocking [] h = unfold apply_rules in ground arith
  rules_blocking (rule ∷ rules) h =
      let (a, b, p, q, e) = apply_rules-cons rule rules h in
      rw p (ground (arith, e, any-append blocking a.failures b.failures, rules_blocking rules q))

  -- When the engine returns a result on an incomplete trajectory, the ids of the rules that assert
  -- presence are listed as inconclusive, in order; on a complete one no id is.
  pub inconclusive-judge :
      (r : PolicyResult)
      → judge evaluate loaded norm ≡ ok r
      → r.inconclusive_rules ≡ (if norm.incomplete then unjudged loaded.policy.rules else [])
  unfolding judge
  inconclusive-judge r h =
      let (o, p, e) = >>=-eq-ok (apply_rules evaluate loaded norm loaded.policy.rules) _ h in
      let known = rules_inconclusive loaded.policy.rules p in ground arith

  blocking-judge :
      (r : PolicyResult)
      → judge evaluate loaded norm ≡ ok r
      → any blocking r.failures
        ≡ any (λ rule. blocks (apply_rule evaluate loaded norm rule)) loaded.policy.rules
  unfolding judge
  blocking-judge r h =
      let (o, p, e) = >>=-eq-ok (apply_rules evaluate loaded norm loaded.policy.rules) _ h in
      let found = rules_blocking loaded.policy.rules p in ground arith

  -- When the engine returns a result, it passes exactly when no rule's own outcome has a blocking
  -- failure and, if the trajectory is incomplete, no rule asserts presence.
  pub passed-judge :
      (r : PolicyResult)
      → judge evaluate loaded norm ≡ ok r
      → passed r ≡ (
          not (any (λ rule. blocks (apply_rule evaluate loaded norm rule)) loaded.policy.rules)
          && not (norm.incomplete && any asserts_presence loaded.policy.rules))
  unfolding passed
  passed-judge r h =
      rw (blocking-judge r h, inconclusive-judge r h)
        (ground (arith, is_empty-unjudged loaded.policy.rules))
