-- ===== src/Online/Examples.antt =====
-- A project whose money is spent, with a policy and a judge over two traces.
use proofstep.Prelude.{ℕ, ◌+◌, String, ◌≡◌, refl, ◌⊎◌, true, false, none, some, [], ◌∷◌, arith}
use proofstep.Prelude.{str_leb}
use proofstep.Types.{SpanType}
use proofstep.Types.Value.{Fields}
use proofstep.Sampling.{Reason}
use proofstep.Trajectory.Engine.{LoadedPolicy}
use proofstep.Trajectory.Normalize.Order.{span_le}
use proofstep.Trajectory.Normalize.Select.{Host}
use proofstep.Trajectory.Predicates.{Python}
use proofstep.Online.Rows.{
  RuleKind, OnlineEvalRule, TraceRow, SpanRow, OnlineEvaluation, Verdict, Detail, Store,
}
use proofstep.Online.Loading.{span_with, span_of, span_type_of}
use proofstep.Online.Loading.Ties.{span_le-span_of}
use proofstep.Online.Budget.{spent_since}
use proofstep.Online.{is_fail, is_paid, run_rule, run_batch, no_outcome}
use proofstep.Online.Judging.{World}
use proofstep.Online.Tables.{has_decision, pending}
use proofstep.Online.Counted.{is_judged, is_error, rows, items, total}
use proofstep.Online.Totals.{run_batch-rows}
use proofstep.Online.Ceiling.{IsIdle, run_batch-IsIdle}
use proofstep.Online.Drained.{backlog, run_batches, pending-run_batches}

abbrev no_python : Python
no_python = record {
  parse = λ s. none;
  member_of = λ v s. v;
  same_object = λ v w. false;
  show = λ v. "";
  lower = λ s. s;
  upper = λ s. s;
  builtin = λ f xs. none;
}

abbrev plain : Host
plain = record { fnmatch = λ a b. false; show = λ v. ""; digest = λ d. "" }

abbrev open_policy : LoadedPolicy
open_policy = record {
  policy = record {
    name = "shop";
    aliases = [];
    include = record { span_types = SpanType.tool ∷ []; exclude_names = [] };
    rules = [];
  };
  line_of_rule = [];
}

abbrev world : World
world = record {
  project_id = "shop";
  four_bytes = λ salt id. 0;
  load_policy = λ source. some open_policy;
  python = no_python;
  host = plain;
  month_start = λ now. 100;
}

abbrev rule : String → RuleKind → OnlineEvalRule
rule id kind = record {
  id = id;
  environment_id = none;
  name = id;
  kind = kind;
  enabled = true;
  policy_version_id = some "v1";
  sample_rate = record { negative = false; numerator = 1; less_one = 99 };
  sample_group = none;
  escalate_on_failure = true;
  max_escalations_per_batch = 50;
  trace_name = none;
  review_queue_id = some "queue";
  deleted_at = none;
}

abbrev policy : OnlineEvalRule
policy = rule "policy" RuleKind.trajectory

abbrev judge : OnlineEvalRule
judge = rule "judge" RuleKind.llm_judge

abbrev trace : String → ℕ → TraceRow
trace id start = record {
  trace_id = id;
  name = "checkout";
  environment_id = none;
  status = "ok";
  started_at = start;
  dropped_span_count = 0;
  error_count = 0;
  trace_metadata = Fields.done;
  state = Fields.done;
}

abbrev span : String → ℕ → SpanRow
span id sequence = record {
  trace_id = "t1";
  span_id = id;
  parent_span_id = none;
  name = "pay";
  span_type = "tool";
  status = "ok";
  started_at = 150;
  ended_at = some 151;
  attributes = Fields.done;
  output_inline = none;
  args_inline = none;
  tool_name = some "pay";
  sequence_index = sequence;
}

abbrev paid : OnlineEvaluation
paid = record {
  trace_id = "t0";
  rule_id = "judge";
  verdict = Verdict.pass;
  decision_reason = Reason.sampled;
  score = some 1;
  detail = Detail.empty;
  error = none;
  cost = 500;
  trace_started_at = 120;
  created_at = 130;
}

abbrev store : Store
store = record {
  monthly_cost_limit = some 400;
  rules = policy ∷ judge ∷ [];
  traces = trace "t2" 160 ∷ trace "t1" 150 ∷ [];
  spans = span "b" 1 ∷ span "a" 2 ∷ [];
  policy_versions =
      record { id = "v1"; project_id = "shop"; version = 1; source_yaml = "rules: []" } ∷ [];
  evaluations = paid ∷ [];
  assignments = [];
}

two_left : backlog judge 100 store ≡ 2
unfolding has_decision
two_left = refl

pending-run_batches_example :
    pending judge 100 1 (run_batches world 100 1 (policy ∷ judge ∷ []) (170 ∷ 180 ∷ []) store) ≡ []
pending-run_batches_example =
    pending-run_batches world 100 1 (policy ∷ []) [] judge (170 ∷ 180 ∷ []) store
      (omega (arith, two_left))

run_batch-rows_example :
    let (t, o) = run_batch world 170 100 200 none store in
    (total o.reasons ≡ o.traces_considered)
    × (rows is_judged t ≡ rows is_judged store + o.evaluations_written)
    × (rows is_fail t ≡ rows is_fail store + o.failures)
    × (rows is_error t ≡ rows is_error store + o.errors)
    × (items t ≡ items store + o.queued_for_review)
run_batch-rows_example = run_batch-rows world 170 100 200 none store

all_spent : spent_since 100 store.evaluations ≡ 500
unfolding spent_since
all_spent = refl

run_batch-IsIdle_example :
    let (t, o) = run_batch world 170 100 200 (some (judge ∷ [])) store in
    ((is_paid judge.kind ≡ true) × IsIdle store (no_outcome world true) t o)
    ⊎ ((is_paid judge.kind ≡ false)
        × (t ≡ (run_rule world 170 100 200 false judge (store, no_outcome world true)).0))
run_batch-IsIdle_example =
    run_batch-IsIdle world 170 100 200 400 judge store refl (omega (arith, all_spent))

loaded : (row : SpanRow) → row.span_type ≡ "tool" → span_of row ≡ some (span_with row SpanType.tool)
unfolding span_of span_type_of
loaded row h = rw h refl

span_le-span_of_example :
    span_le (span_with (span "b" 1) SpanType.tool) (span_with (span "a" 2) SpanType.tool)
    ≡ str_leb "b" "a"
span_le-span_of_example =
    span_le-span_of (span "b" 1) (span "a" 2) (span_with (span "b" 1) SpanType.tool)
      (span_with (span "a" 2) SpanType.tool) (loaded (span "b" 1) refl) (loaded (span "a" 2) refl)
      refl
