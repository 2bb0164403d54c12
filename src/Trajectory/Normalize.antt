-- ===== src/Trajectory/Normalize.antt =====
-- `normalize`: packages/trajectory-engine/src/proofstep_trajectory/normalize.py.
pub mod Select
pub mod Skew
pub mod Order
pub mod Groups
pub mod Build
pub mod Retries
pub mod State
pub mod Chronology
use proofstep.Prelude.{ℕ, ◌+◌, Bool, ◌||◌, List, [], ◌∷◌, ◌++◌, ltb, ◌==◌, if◌then◌else◌, any}
use proofstep.Prelude.Sort.{sort_by}
use proofstep.Types.Trace.{Trace, is_open}
use proofstep.Trajectory.Events.{Warning, dropped_spans, open_spans}
use proofstep.Trajectory.Schema.{Policy}
use proofstep.Trajectory.Normalized.{Normalized}
use Select.{Host, alias_map, select, dedupe}
use Skew.{fix_clock_skew}
use Order.{span_le}
use Groups.{parallel_groups}
use Build.{build}
use Retries.{mark_retries}
use State.{state_of}

dropped_warning : ℕ → List Warning
dropped_warning n = if n == 0 then [] else Warning.dropped_spans n ∷ []

open_warning : Bool → List Warning
open_warning found = if found then Warning.open_spans ∷ [] else []

unfoldable pub normalize : Host → Trace → Policy → Normalized
unfolding dropped_warning open_warning
normalize host trace policy =
    let aliases = alias_map policy.aliases in
    let (chosen, warned) = select host trace.spans policy.include aliases in
    let (unique, duplicates) = dedupe chosen in
    let (fixed, skewed) = fix_clock_skew unique trace.spans in
    let ordered = sort_by span_le fixed in
    let events = mark_retries (build host ordered aliases (parallel_groups ordered)) in
    record {
      events = events;
      state = state_of trace;
      incomplete = ltb 0 trace.dropped_span_count || any is_open trace.spans;
      warnings =
          warned
          ++ duplicates
          ++ skewed
          ++ dropped_warning trace.dropped_span_count
          ++ open_warning (any is_open trace.spans);
    }
