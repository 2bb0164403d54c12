-- ===== src/Trajectory/Normalize/Select.antt =====
-- Naming and selection of spans: `_alias_map`, `action_of`, `_select` and `_dedupe` of normalize.py.
pub mod Unique
pub mod Aliases
use proofstep.Prelude.{
  is_empty, ℕ, ◌+◌, String, Bool, not, ◌&&◌, Option, none, some, List, [], ◌∷◌, ◌==◌, if◌then◌else◌,
  any, filter, str_eq, mem_text,
}
use proofstep.Prelude.Dict.{Dict, get, put}
use proofstep.Types.{same_type}
use proofstep.Types.Value.{Value, Fields, get_field, truthy}
use proofstep.Types.Trace.{Span}
use proofstep.Trajectory.Events.{Warning}
use proofstep.Trajectory.Schema.{Include}

-- What the engine takes from elsewhere: `fnmatch.fnmatch`, the text that `str` gives of a value that
-- is no text, and the truncated SHA-256 of the canonical JSON of some arguments.
pub record Host : Type 0 where
  pub fnmatch : String → String → Bool
  pub show : Value → String
  pub digest : Fields → String

-- `{raw: canonical for canonical, raws in aliases.items() for raw in raws}`
add_raws : String → List String → Dict String → Dict String
add_raws canonical [] d = d
add_raws canonical (raw ∷ raws) d = add_raws canonical raws (put raw canonical d)

add_aliases : Dict (List String) → Dict String → Dict String
add_aliases [] d = d
add_aliases ((canonical, raws) ∷ rest) d = add_aliases rest (add_raws canonical raws d)

unfoldable pub alias_map : Dict (List String) → Dict String
unfolding add_aliases add_raws
alias_map aliases = add_aliases aliases []

-- `str(v)`
str : Host → Value → String
str host (Value.text s) = s
str host v = host.show v

-- `tool_name or name`
abbrev tool_or_name : Option String → String → String
tool_or_name none name = name
tool_or_name (some tool) name = if str_eq tool "" then name else tool

raw_name : Host → Option Value → Option String → String → String
raw_name host none tool name = tool_or_name tool name
raw_name host (some v) tool name = if truthy v then str host v else tool_or_name tool name

-- `alias_map.get(raw, raw)`
abbrev pub or_same : Option String → String → String
or_same none raw = raw
or_same (some canonical) raw = canonical

-- Precedence: explicit attribute, then tool name, then span name.
unfoldable pub action_of : Host → Span → Dict String → String
unfolding raw_name str
action_of host span aliases =
    let raw =
      raw_name host (get_field "proofstep.action" span.attributes) span.tool_name span.name in
    or_same (get raw aliases) raw

-- The two tests of the loop of `_select`.
unfoldable pub is_selected : Host → Include → Dict String → Span → Bool
unfolding action_of
is_selected host include aliases span =
    any (same_type span.span_type) include.span_types
    && not (any (host.fnmatch (action_of host span aliases)) include.exclude_names)

unfoldable pub select : Host → List Span → Include → Dict String → List Span × List Warning
unfolding is_selected
select host spans include aliases =
    let selected = filter (is_selected host include aliases) spans in
    (
      selected,
      if is_empty selected && not (is_empty spans) then Warning.no_spans_matched ∷ [] else [],
    )

-- The loop of `_dedupe`: the ids seen, and the number of spans ignored.
unfoldable pub dedupe_from : List String → List Span → List Span × ℕ
dedupe_from seen [] = ([], 0)
dedupe_from seen (span ∷ spans) =
    let skipped = dedupe_from seen spans in
    let kept = dedupe_from (span.span_id ∷ seen) spans in
    if mem_text span.span_id seen then (skipped.0, skipped.1 + 1) else (span ∷ kept.0, kept.1)

unfoldable pub dedupe : List Span → List Span × List Warning
unfolding dedupe_from
dedupe spans =
    let (unique, duplicates) = dedupe_from [] spans in
    (unique, if duplicates == 0 then [] else Warning.duplicate_spans duplicates ∷ [])
