-- ===== src/Trajectory/Examples/Traces.antt =====
-- Normalization of a small trace: normalize.py.
use proofstep.Prelude.{
  ℕ, ◌+◌, ◌<◌, String, ◌≡◌, refl, ◌≢◌, Option, none, some, List, [], ◌∷◌, arith, str_eq,
}
use proofstep.Prelude.Dict.{Dict, get, put}
use proofstep.Types.{SpanType, Status}
use proofstep.Types.Value.{Value, Fields, get_field, update, last_field, or_else, get_field-update}
use proofstep.Types.Trace.{Span, Trace}
use proofstep.Trajectory.Events.{TrajectoryEvent}
use proofstep.Trajectory.Schema.{Policy, alias_error}
use proofstep.Trajectory.Normalized.Numbered.{IsNumbered}
use proofstep.Trajectory.Normalize.{normalize}
use proofstep.Trajectory.Normalize.Select.{Host}
use proofstep.Trajectory.Normalize.Skew.{by_id, parent_in, clamp}
use proofstep.Trajectory.Normalize.Skew.Clamp.{clamp_chain}
use proofstep.Trajectory.Normalize.Build.{depth_of}
use proofstep.Trajectory.Normalize.Build.Depth.{depth_of-ne-none}
use proofstep.Trajectory.Normalize.Retries.{mark_retries}
use proofstep.Trajectory.Normalize.Retries.Streak.{mark_by_streak, mark_retries-eq}
use proofstep.Trajectory.Normalize.Chronology.{IsAscending, normalize-ordered}
use proofstep.Trajectory.Examples.{call, search}

-- A host whose patterns are plain names, and all of whose digests are equal.
abbrev pub plain : Host
plain = record { fnmatch = str_eq; show = λ v. "?"; digest = λ args. "00" }

abbrev span_of : String → Option String → ℕ → Span
span_of id parent at = record {
  span_id = id;
  parent_span_id = parent;
  name = id;
  span_type = SpanType.tool;
  status = Status.ok;
  started_at = at;
  ended_at = some (at + 3);
  attributes = Fields.done;
  output = Value.null;
  events = [];
  tool_name = none;
  tool_args = none;
  sequence_index = 0;
}

-- The child starts before the parent, and the parent before the grandparent.
abbrev root : Span
root = span_of "root" none 30

abbrev middle : Span
middle = span_of "middle" (some "root") 20

abbrev leaf : Span
leaf = span_of "leaf" (some "middle") 10

abbrev spans : List Span
spans = root ∷ middle ∷ leaf ∷ middle ∷ []

abbrev trace : Trace
trace = record {
  spans = spans;
  metadata = Fields.done;
  state = Fields.done;
  dropped_span_count = 1;
}

abbrev aliases : Dict (List String)
aliases = ("pay", "charge" ∷ "bill" ∷ []) ∷ []

abbrev policy : Policy
policy = record {
  name = "shop";
  aliases = aliases;
  include = record { span_types = SpanType.tool ∷ []; exclude_names = [] };
  rules = [];
}

normalize-ordered_example :
    IsNumbered 0 (normalize plain trace policy).events
    × IsAscending (normalize plain trace policy).events
normalize-ordered_example = normalize-ordered plain trace policy

depth_of-ne-none_example :
    depth_of (span_of "a" (some "b") 1 ∷ span_of "b" (some "a") 2 ∷ []) (span_of "a" (some "b") 1)
    ≢ none
depth_of-ne-none_example =
    depth_of-ne-none (span_of "a" (some "b") 1 ∷ span_of "b" (some "a") 2 ∷ [])
      (span_of "a" (some "b") 1)

abbrev failing : TrajectoryEvent
failing = call 0 "pay" Status.error Fields.done

mark_retries-eq_example :
    mark_retries (failing ∷ search ∷ failing ∷ [])
    ≡ mark_by_streak [] (failing ∷ search ∷ failing ∷ [])
mark_retries-eq_example = mark_retries-eq (failing ∷ search ∷ failing ∷ []) (ground arith)

unambiguous : alias_error aliases ≡ none
unfolding alias_error get put
unambiguous = refl

parent_of_leaf : parent_in spans leaf.parent_span_id ≡ some middle
unfolding parent_in by_id
parent_of_leaf = refl

parent_of_middle : parent_in spans middle.parent_span_id ≡ some root
unfolding parent_in by_id
parent_of_middle = refl

clamp_chain_example : (clamp spans leaf).0.started_at < (clamp spans middle).0.started_at
clamp_chain_example =
    clamp_chain spans leaf middle root parent_of_leaf parent_of_middle (omega arith) (omega arith)

abbrev old_state : Fields
old_state = Fields.field "cart" (Value.text "empty") Fields.done

abbrev new_state : Fields
new_state = Fields.field "cart" (Value.text "full") Fields.done

get_field-update_example :
    get_field "cart" (update old_state new_state)
    ≡ or_else (last_field "cart" new_state) (get_field "cart" old_state)
get_field-update_example = get_field-update "cart" old_state new_state
