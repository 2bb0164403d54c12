-- ===== src/Online/Tables.antt =====
-- The queries and the inserts of online_eval.py, on the rows of one project.
-- A statement that is refused by a unique constraint changes nothing.
use proofstep.Prelude.{
  ℕ, String, Bool, true, false, not, ◌&&◌, ◌||◌, Option, none, some, List, [], ◌∷◌, ltb, leb,
  if◌then◌else◌, any, filter, take, is_some, str_eq,
}
use proofstep.Prelude.Sort.{sort_by}
use proofstep.Trajectory.Events.{PolicyFailure}
use proofstep.Online.Rows.{
  OnlineEvalRule, TraceRow, Detail, OnlineEvaluation, Cause, ReviewAssignment, Store,
}

abbrev pub evaluates : String → String → OnlineEvaluation → Bool
evaluates rule_id trace_id e = str_eq e.rule_id rule_id && str_eq e.trace_id trace_id

-- Whether a decision of the rule on the trace is recorded.
unfoldable pub has_decision : String → String → List OnlineEvaluation → Bool
has_decision rule_id trace_id es = any (evaluates rule_id trace_id) es

-- `_write`: whether the row was inserted, and the rows after it.
unfoldable pub write : OnlineEvaluation → Store → Bool × Store
write e store =
    if has_decision e.rule_id e.trace_id store.evaluations
    then (false, store)
    else (true, record store { evaluations = e ∷ store.evaluations })

-- `if rule.trace_name` and `if rule.environment_id`; an empty name is no name.
abbrev pub name_matches : Option String → String → Bool
name_matches none name = true
name_matches (some wanted) name = str_eq wanted "" || str_eq name wanted

abbrev pub environment_matches : Option String → Option String → Bool
environment_matches none environment = true
environment_matches (some wanted) none = false
environment_matches (some wanted) (some environment) = str_eq environment wanted

abbrev pub in_scope : OnlineEvalRule → ℕ → TraceRow → Bool
in_scope rule since t =
    leb since t.started_at
    && name_matches rule.trace_name t.name
    && environment_matches rule.environment_id t.environment_id

abbrev pub is_pending : OnlineEvalRule → ℕ → Store → TraceRow → Bool
is_pending rule since store t =
    not (has_decision rule.id t.trace_id store.evaluations) && in_scope rule since t

abbrev pub oldest_first : TraceRow → TraceRow → Bool
oldest_first a b = leb a.started_at b.started_at

-- `_pending_query`
unfoldable pub pending : OnlineEvalRule → ℕ → ℕ → Store → List TraceRow
pending rule since limit store =
    take limit (sort_by oldest_first (filter (is_pending rule since store) store.traces))

-- `active_rules`
unfoldable pub active_rules : Store → List OnlineEvalRule
active_rules store = filter (λ rule. rule.enabled && not (is_some rule.deleted_at)) store.rules

-- The reason of an item in a queue.
abbrev pub first_message : String → List PolicyFailure → Cause
first_message name [] = Cause.rule_failed name
first_message name (f ∷ fs) = Cause.message f.message

abbrev pub cause_of : String → Detail → Cause
cause_of name (Detail.judged version result) = first_message name result.failures
cause_of name detail = Cause.rule_failed name

abbrev pub assigns : String → String → ReviewAssignment → Bool
assigns queue target a = str_eq a.queue_id queue && str_eq a.target_id target

-- `_enqueue`: whether an item was inserted, and the rows after it.
unfoldable pub enqueue : OnlineEvalRule → TraceRow → Detail → Store → Bool × Store
enqueue rule trace detail store = elim rule.review_queue_id [
  | none ↦ (false, store)
  | some queue ↦
      let item : ReviewAssignment = record {
        queue_id = queue;
        target_id = trace.trace_id;
        rule_id = rule.id;
        priority = if ltb 0 trace.error_count then 10 else 5;
        reason = cause_of rule.name detail;
      } in
      if any (assigns queue trace.trace_id) store.assignments
      then (false, store)
      else (true, record store { assignments = item ∷ store.assignments })
]
