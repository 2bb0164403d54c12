-- ===== src/Trajectory/Normalize/Order.antt =====
-- `_sort_key` of normalize.py: start time, then the SDK's counter, then the span id.
use proofstep.Prelude.{Bool, true, false, ltb, if◌then◌else◌}
use proofstep.Prelude.{str_leb}
use proofstep.Types.Trace.{Span}

-- `_sort_key(a) <= _sort_key(b)`, an order of tuples.
unfoldable pub span_le : Span → Span → Bool
span_le a b =
    if ltb a.started_at b.started_at
    then true
    else if ltb b.started_at a.started_at
    then false
    else if ltb a.sequence_index b.sequence_index
    then true
    else if ltb b.sequence_index a.sequence_index
    then false
    else str_leb a.span_id b.span_id
