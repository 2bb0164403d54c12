-- ===== src/Online/Loading.antt =====
-- `load_trace`, `_span` and `_status` of online_eval.py: rows to the trace that the engine judges.
use proofstep.Prelude.{
  String, Bool, true, false, Option, none, some, List, [], ◌∷◌, ltb, leb, if◌then◌else◌, filter,
  str_eq,
}
use proofstep.Prelude.Sort.{sort_by}
use proofstep.Types.{SpanType, Status}
use proofstep.Types.Value.{Value, Fields}
use proofstep.Types.Trace.{Span, Trace}
use proofstep.Online.Rows.{TraceRow, SpanRow, Store}
pub mod Ties

unfoldable pub status_of : String → Status
status_of value =
    if str_eq value "ok"
    then Status.ok
    else if str_eq value "error"
    then Status.error
    else if str_eq value "timeout"
    then Status.timeout
    else Status.unset

-- `SpanType(value)`, where `none` is a ValueError.
unfoldable pub span_type_of : String → Option SpanType
span_type_of value =
    if str_eq value "agent"
    then some SpanType.agent
    else if str_eq value "workflow"
    then some SpanType.workflow
    else if str_eq value "llm"
    then some SpanType.llm
    else if str_eq value "tool"
    then some SpanType.tool
    else if str_eq value "retriever"
    then some SpanType.retriever
    else if str_eq value "embedding"
    then some SpanType.embedding
    else if str_eq value "guardrail"
    then some SpanType.guardrail
    else if str_eq value "evaluator"
    then some SpanType.evaluator
    else if str_eq value "custom"
    then some SpanType.custom
    else none

abbrev or_nothing : Option Value → Value
or_nothing none = Value.null
or_nothing (some v) = v

abbrev object_of : Option Value → Option Fields
object_of (some (Value.obj d)) = some d
object_of v = none

abbrev pub span_with : SpanRow → SpanType → Span
span_with row type =
    let span : Span = record {
      span_id = row.span_id;
      parent_span_id = row.parent_span_id;
      name = row.name;
      span_type = type;
      status = status_of row.status;
      started_at = row.started_at;
      ended_at = row.ended_at;
      attributes = row.attributes;
      output = or_nothing row.output_inline;
      events = [];
      tool_name = row.tool_name;
      tool_args = object_of row.args_inline;
      sequence_index = 0;
    } in
    span

-- `_span`
unfoldable pub span_of : SpanRow → Option Span
span_of row = elim (span_type_of row.span_type) [
  | none ↦ none
  | some type ↦ some (span_with row type)
]

unfoldable pub spans_of : List SpanRow → Option (List Span)
spans_of [] = some []
spans_of (row ∷ rows) = elim (span_of row) [
  | none ↦ none
  | some span ↦ elim (spans_of rows) [ none ↦ none | some spans ↦ some (span ∷ spans) ]
]

-- `order_by(SpanRow.started_at, SpanRow.sequence_index)`
abbrev pub row_le : SpanRow → SpanRow → Bool
row_le a b =
    if ltb a.started_at b.started_at
    then true
    else if ltb b.started_at a.started_at
    then false
    else leb a.sequence_index b.sequence_index

unfoldable pub load_trace : Store → TraceRow → Option Trace
load_trace store trace =
    elim (spans_of
      (sort_by row_le (filter (λ row. str_eq row.trace_id trace.trace_id) store.spans))) [
        | none ↦ none
        | some spans ↦ some (record {
          spans = spans;
          metadata = trace.trace_metadata;
          state = trace.state;
          dropped_span_count = trace.dropped_span_count;
        })
      ]
