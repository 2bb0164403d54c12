-- ===== src/Trajectory/Normalize/Build.antt =====
-- `_depth_of` and `_build` of normalize.py.
pub mod Depth
pub mod Numbering
use proofstep.Prelude.{
  ℕ, zero, suc, ◌+◌, String, true, false, ◌||◌, Option, none, some, List, [], ◌∷◌, length, str_eq,
  mem_text,
}
use proofstep.Prelude.Dict.{Dict, get}
use proofstep.Types.{Status}
use proofstep.Types.Trace.{Span}
use proofstep.Types.Value.{Fields}
use proofstep.Trajectory.Events.{TrajectoryEvent}
use proofstep.Trajectory.Normalize.Select.{Host, action_of}
use proofstep.Trajectory.Normalize.Skew.{by_id}

-- The `while` of `_depth_of`: `none` means that the fuel ran out.
unfoldable pub climb : ℕ → List Span → Option String → List String → ℕ → Option ℕ
unfolding by_id
climb zero spans parent seen depth = none
climb (suc fuel) spans none seen depth = some depth
climb (suc fuel) spans (some id) seen depth = elim (str_eq id "" || mem_text id seen) [
  | true ↦ some depth
  | false ↦ elim (by_id spans id) [
    | none ↦ some depth
    | some parent ↦ climb fuel spans parent.parent_span_id (id ∷ seen) (depth + 1)
  ]
]

-- A chain of parents that never repeats is no longer than the list of spans.
unfoldable pub depth_of : List Span → Span → Option ℕ
unfolding climb
depth_of spans span = climb (length spans + 2) spans span.parent_span_id (span.span_id ∷ []) 0

abbrev pub or_zero : Option ℕ → ℕ
or_zero none = 0
or_zero (some n) = n

abbrev or_empty : Option Fields → Fields
or_empty none = Fields.done
or_empty (some args) = args

-- An open span counts as timed out.
abbrev closed_status : Option ℕ → Status → Status
closed_status none status = Status.timeout
closed_status (some end) status = status

unfoldable pub event_of : Host → List Span → Dict String → Dict String → ℕ → Span → TrajectoryEvent
unfolding depth_of
event_of host spans aliases groups index span = record {
  index = index;
  action = action_of host span aliases;
  span_id = span.span_id;
  parent_span_id = span.parent_span_id;
  depth = or_zero (depth_of spans span);
  started_at = span.started_at;
  ended_at = span.ended_at;
  status = closed_status span.ended_at span.status;
  args = or_empty span.tool_args;
  args_hash = host.digest (or_empty span.tool_args);
  attempt = 1;
  is_retry = false;
  parallel_group = get span.span_id groups;
  result_summary = span.output;
}

unfoldable pub build_from :
    Host → List Span → Dict String → Dict String → ℕ → List Span → List TrajectoryEvent
unfolding event_of
build_from host spans aliases groups index [] = []
build_from host spans aliases groups index (span ∷ rest) =
    event_of host spans aliases groups index span
    ∷ build_from host spans aliases groups (index + 1) rest

unfoldable pub build : Host → List Span → Dict String → Dict String → List TrajectoryEvent
unfolding build_from
build host ordered aliases groups = build_from host ordered aliases groups 0 ordered
