-- ===== src/Trajectory/Normalize/Groups.antt =====
-- `_parallel_groups` of normalize.py: siblings whose execution overlaps in time.
use Prim.Native.String.{◌++◌ as append_text}
use proofstep.Prelude.{
  ℕ, zero, suc, String, Bool, true, false, not, Option, none, some, List, [], ◌∷◌, leb,
  if◌then◌else◌, str_eq,
}
use proofstep.Prelude.Dict.{Dict, get, put}
use proofstep.Types.Trace.{Span}

-- `other.parent_span_id == span.parent_span_id`
abbrev pub same_parent : Option String → Option String → Bool
same_parent none none = true
same_parent (some a) (some b) = str_eq a b
same_parent _ _ = false

-- `s[:n]`
take_text : ℕ → String → String
take_text zero s = String.[]
take_text (suc n) String.[] = String.[]
take_text (suc n) (String.◌∷◌ c s) = String.◌∷◌ c (take_text n s)

unfoldable pub group_name : String → String
unfolding take_text
group_name id = append_text "pg-" (take_text 8 id)

-- `groups.get(span.span_id) or f"pg-{span.span_id[:8]}"`
abbrev pub group_or_new : Option String → String → String
group_or_new none id = group_name id
group_or_new (some group) id = if str_eq group "" then group_name id else group

-- The inner loop, for a span that ended at `end`; it stops at the first sibling that starts later.
unfoldable pub join_overlapping : Span → ℕ → List Span → Dict String → Dict String
join_overlapping span end [] groups = groups
join_overlapping span end (other ∷ rest) groups =
    let group = group_or_new (get span.span_id groups) span.span_id in
    let skipped = join_overlapping span end rest groups in
    let joined =
      join_overlapping span end rest (put other.span_id group (put span.span_id group groups)) in
    if not (same_parent other.parent_span_id span.parent_span_id)
    then skipped
    else if leb end other.started_at
    then groups
    else joined

abbrev pub join_if_ended : Span → Option ℕ → List Span → Dict String → Dict String
join_if_ended span none rest groups = groups
join_if_ended span (some end) rest groups = join_overlapping span end rest groups

unfoldable pub group_from : List Span → Dict String → Dict String
group_from [] groups = groups
group_from (span ∷ rest) groups = group_from rest (join_if_ended span span.ended_at rest groups)

unfoldable pub parallel_groups : List Span → Dict String
unfolding group_from join_overlapping
parallel_groups ordered = group_from ordered []
