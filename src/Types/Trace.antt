-- ===== src/Types/Trace.antt =====
-- Spans and traces: packages/shared-types/src/proofstep_types/trace.py.
-- The fields that no modelled operation reads (model, provider, tokens, cost, ...) are left out.
use proofstep.Prelude.{ℕ, String, Bool, not, ◌&&◌, Option, List, is_some, any, ◌==◌}
use proofstep.Types.{SpanType, Status}
use proofstep.Types.Value.{Value, Fields}

pub record SpanEvent : Type 0 where
  pub name : String
  pub timestamp : ℕ
  pub attributes : Fields

pub record Span : Type 0 where
  pub span_id : String
  pub parent_span_id : Option String
  pub name : String
  pub span_type : SpanType
  pub status : Status
  pub started_at : ℕ
  pub ended_at : Option ℕ
  pub attributes : Fields
  pub output : Value
  pub events : List SpanEvent
  pub tool_name : Option String
  pub tool_args : Option Fields
  pub sequence_index : ℕ

abbrev pub is_open : Span → Bool
is_open s = not (is_some s.ended_at)

pub record Trace : Type 0 where
  pub spans : List Span
  pub metadata : Fields
  pub state : Fields
  pub dropped_span_count : ℕ

unfoldable pub is_complete : Trace → Bool
is_complete t = t.dropped_span_count == 0 && not (any is_open t.spans)
