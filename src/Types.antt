-- ===== src/Types.antt =====
-- The shared enumerations and the trace records:
-- packages/shared-types/src/proofstep_types/common.py and trace.py.
-- A `datetime` is its distance in microseconds from a fixed instant.
pub mod Value
pub mod Trace
use proofstep.Prelude.{Bool, true, false}

pub data SpanType : Type 0 where
  agent workflow llm tool retriever embedding guardrail evaluator custom : SpanType

abbrev pub same_type : SpanType → SpanType → Bool
same_type SpanType.agent SpanType.agent = true
same_type SpanType.workflow SpanType.workflow = true
same_type SpanType.llm SpanType.llm = true
same_type SpanType.tool SpanType.tool = true
same_type SpanType.retriever SpanType.retriever = true
same_type SpanType.embedding SpanType.embedding = true
same_type SpanType.guardrail SpanType.guardrail = true
same_type SpanType.evaluator SpanType.evaluator = true
same_type SpanType.custom SpanType.custom = true
same_type _ _ = false

pub data Status : Type 0 where
  ok error timeout unset : Status

pub data Severity : Type 0 where
  block warn : Severity

abbrev pub is_block : Severity → Bool
is_block Severity.block = true
is_block Severity.warn = false

pub data Verdict : Type 0 where
  pass warn fail error : Verdict

abbrev pub is_blocking : Verdict → Bool
is_blocking Verdict.fail = true
is_blocking Verdict.error = true
is_blocking _ = false
