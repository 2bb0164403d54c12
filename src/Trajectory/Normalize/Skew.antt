-- ===== src/Trajectory/Normalize/Skew.antt =====
-- `_fix_clock_skew` of normalize.py.
pub mod Clamp
use proofstep.Prelude.{
  ℕ, ◌+◌, String, Option, none, some, List, [], ◌∷◌, ltb, ◌==◌, if◌then◌else◌, str_eq,
}
use proofstep.Types.Trace.{Span}
use proofstep.Trajectory.Events.{Warning}

-- `{s.span_id: s for s in trace.spans}.get(id)`: of several spans with one id the last.
unfoldable pub by_id : List Span → String → Option Span
by_id [] id = none
by_id (s ∷ spans) id = elim (by_id spans id) [
  | some found ↦ some found
  | none ↦ if str_eq s.span_id id then some s else none
]

-- `by_id.get(span.parent_span_id) if span.parent_span_id else None`
unfoldable pub parent_in : List Span → Option String → Option Span
unfolding by_id
parent_in spans none = none
parent_in spans (some id) = if str_eq id "" then none else by_id spans id

-- A span that claims to start before its parent is moved to the parent's start.
abbrev pub clamp_to : Span → Option Span → Span × ℕ
clamp_to span none = (span, 0)
clamp_to span (some parent) =
    if ltb span.started_at parent.started_at
    then (record span { started_at = parent.started_at }, 1)
    else (span, 0)

unfoldable pub clamp : List Span → Span → Span × ℕ
unfolding parent_in
clamp all_spans span = clamp_to span (parent_in all_spans span.parent_span_id)

unfoldable pub clamp_all : List Span → List Span → List Span × ℕ
unfolding clamp
clamp_all all_spans [] = ([], 0)
clamp_all all_spans (span ∷ spans) =
    let (fixed, moved) = clamp all_spans span in
    let (rest, skewed) = clamp_all all_spans spans in (fixed ∷ rest, moved + skewed)

unfoldable pub fix_clock_skew : List Span → List Span → List Span × List Warning
unfolding clamp_all
fix_clock_skew spans all_spans =
    let (fixed, skewed) = clamp_all all_spans spans in
    (fixed, if skewed == 0 then [] else Warning.clock_skew skewed ∷ [])
