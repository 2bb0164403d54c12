-- ===== src/Online/Rows.antt =====
-- The rows that online evaluation reads and writes: apps/api/src/proofstep_api/db/models/online.py
-- and traces.py, with the columns that are read, for one project. A time is a number of
-- microseconds. An amount of money is a number of 10^-8, the scale of the column.
use proofstep.Prelude.{ℕ, String, Bool, Option, List}
use proofstep.Types.Value.{Value, Fields}
use proofstep.Sampling.{Rate, Reason}
use proofstep.Trajectory.Events.{PolicyResult, Message}

-- `RULE_KINDS`
pub data RuleKind : Type 0 where
  trajectory llm_judge deterministic : RuleKind

pub record OnlineEvalRule : Type 0 where
  pub id : String
  pub environment_id : Option String
  pub name : String
  pub kind : RuleKind
  pub enabled : Bool
  pub policy_version_id : Option String
  pub sample_rate : Rate
  pub sample_group : Option String
  pub escalate_on_failure : Bool
  pub max_escalations_per_batch : ℕ
  pub trace_name : Option String
  pub review_queue_id : Option String
  pub deleted_at : Option ℕ

pub record TraceRow : Type 0 where
  pub trace_id : String
  pub name : String
  pub environment_id : Option String
  pub status : String
  pub started_at : ℕ
  pub dropped_span_count : ℕ
  pub error_count : ℕ
  pub trace_metadata : Fields
  pub state : Fields

pub record SpanRow : Type 0 where
  pub trace_id : String
  pub span_id : String
  pub parent_span_id : Option String
  pub name : String
  pub span_type : String
  pub status : String
  pub started_at : ℕ
  pub ended_at : Option ℕ
  pub attributes : Fields
  pub output_inline : Option Value
  pub args_inline : Option Value
  pub tool_name : Option String
  pub sequence_index : ℕ

pub record PolicyVersion : Type 0 where
  pub id : String
  pub project_id : String
  pub version : ℕ
  pub source_yaml : String

-- `EVALUATION_VERDICTS`
pub data Verdict : Type 0 where
  pass fail inconclusive error skipped : Verdict

-- The class of the exception that an evaluation raised.
pub data Broken : Type 0 where
  not_implemented policy_error value_error type_error : Broken

-- What is stored beside a verdict: nothing, the note on the spend limit, or the result of a policy.
pub data Detail : Type 0 where
  empty : Detail
  spend_limit : Detail
  judged : ℕ → PolicyResult → Detail

-- The score is 1 or 0.
pub record OnlineEvaluation : Type 0 where
  pub trace_id : String
  pub rule_id : String
  pub verdict : Verdict
  pub decision_reason : Reason
  pub score : Option ℕ
  pub detail : Detail
  pub error : Option Broken
  pub cost : ℕ
  pub trace_started_at : ℕ
  pub created_at : ℕ

-- Why an item is in a queue: the message of a failure, or that a rule failed.
pub data Cause : Type 0 where
  message : Message → Cause
  rule_failed : String → Cause

-- An item refers to the evaluation of its target by this rule.
pub record ReviewAssignment : Type 0 where
  pub queue_id : String
  pub target_id : String
  pub rule_id : String
  pub priority : ℕ
  pub reason : Cause

pub record Store : Type 0 where
  pub monthly_cost_limit : Option ℕ
  pub rules : List OnlineEvalRule
  pub traces : List TraceRow
  pub spans : List SpanRow
  pub policy_versions : List PolicyVersion
  pub evaluations : List OnlineEvaluation
  pub assignments : List ReviewAssignment
