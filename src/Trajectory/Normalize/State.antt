-- ===== src/Trajectory/Normalize/State.antt =====
-- `_state` of normalize.py: the workflow state, merged in increasing precedence.
use proofstep.Prelude.{Bool, none, some, List, [], ◌∷◌, leb, if◌then◌else◌, str_eq}
use proofstep.Prelude.{strip_prefix}
use proofstep.Prelude.Sort.{sort_by}
use proofstep.Types.Value.{Fields, put_field, update}
use proofstep.Types.Trace.{Span, SpanEvent, Trace}
use proofstep.Trajectory.Normalize.Order.{span_le}

-- The attributes under `proofstep.state.`.
unfoldable pub state_attributes : Fields → Fields → Fields
state_attributes Fields.done state = state
state_attributes (Fields.field k v rest) state = elim (strip_prefix "proofstep.state." k) [
  | none ↦ state_attributes rest state
  | some name ↦ state_attributes rest (put_field name v state)
]

abbrev pub event_le : SpanEvent → SpanEvent → Bool
event_le a b = leb a.timestamp b.timestamp

unfoldable pub state_events : List SpanEvent → Fields → Fields
state_events [] state = state
state_events (e ∷ es) state =
    state_events es (if str_eq e.name "state_update" then update state e.attributes else state)

unfoldable pub state_spans : List Span → Fields → Fields
unfolding state_attributes state_events
state_spans [] state = state
state_spans (span ∷ spans) state =
    state_spans spans
      (state_events (sort_by event_le span.events) (state_attributes span.attributes state))

unfoldable pub state_of : Trace → Fields
unfolding state_spans
state_of trace = update (state_spans (sort_by span_le trace.spans) trace.metadata) trace.state
