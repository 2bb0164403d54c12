-- ===== src/Retention.antt =====
-- Which partitions of traces are dropped: apps/api/src/proofstep_api/services/retention.py.
use proofstep.Prelude.{
  ℕ, ◌+◌, String, Bool, not, ◌&&◌, ◌||◌, Option, none, some, List, [], ◌∷◌, ltb, leb, ◌==◌,
  if◌then◌else◌, is_some, length, drop, any, filter, str_eq, mem_text,
}
use Prim.Native.String.{◌++◌ as append_text}
use proofstep.Prelude.{strip_prefix, str_leb}
use proofstep.Prelude.Sort.{sort_by}
pub mod Outside
pub mod Examples

-- A `datetime` in UTC: the month is 1 to 12, and `within` counts the microseconds in the month.
pub record DateTime : Type 0 where
  pub year : ℕ
  pub month : ℕ
  pub within : ℕ

abbrev pub moment_leb : DateTime → DateTime → Bool
moment_leb a b =
    ltb a.year b.year
    || (a.year == b.year && (ltb a.month b.month || (a.month == b.month && leb a.within b.within)))

-- `datetime(year, month, 1)`, where `none` is a ValueError.
unfoldable pub first_of : ℕ → ℕ → Option DateTime
first_of year month =
    if year == 0 || ltb 9999 year || month == 0 || ltb 12 month
    then none
    else some (record { year = year; month = month; within = 0 })

unfoldable pub month_end : DateTime → Option DateTime
month_end start =
    if start.month == 12 then first_of (start.year + 1) 1 else first_of start.year (start.month + 1)

-- `PARTITIONED_TABLES`
abbrev pub partitioned_tables : List String
partitioned_tables = "traces" ∷ "spans" ∷ "span_events" ∷ []

abbrev pub is_of_table : String → String → Bool
is_of_table name table = is_some (strip_prefix (append_text table "_") name)

pub record Project : Type 0 where
  pub retention_days_traces : ℕ
  pub is_deleted : Bool

abbrev max_of : ℕ → ℕ → ℕ
max_of a b = if ltb a b then b else a

-- `longest_trace_retention_days`
unfoldable pub longest_trace_retention_days : List Project → ℕ
longest_trace_retention_days [] = 1
longest_trace_retention_days (p ∷ ps) =
    let rest = longest_trace_retention_days ps in
    if p.is_deleted then rest else max_of p.retention_days_traces rest

pub record RetentionOutcome : Type 0 where
  pub partitions_dropped : List String
  pub partitions_kept : List String

-- `suffix` is the match of `_PARTITION_SUFFIX`, with its year and its month.
module _ (suffix : String → Option (ℕ × ℕ)) where
  unfoldable pub month_start : String → Option DateTime
  month_start name = elim (suffix name) [ none ↦ none | some (year, month) ↦ first_of year month ]

  abbrev pub keeps :
      String → Option (List String × List String) → Option (List String × List String)
  keeps name none = none
  keeps name (some (drop, keep)) = some (drop, name ∷ keep)

  abbrev pub drops :
      String → Option (List String × List String) → Option (List String × List String)
  drops name none = none
  drops name (some (drop, keep)) = some (name ∷ drop, keep)

  abbrev pub by_end :
      String
      → Option DateTime
      → DateTime
      → Option (List String × List String)
      → Option (List String × List String)
  by_end name none cutoff rest = none
  by_end name (some end) cutoff rest =
      if moment_leb end cutoff then drops name rest else keeps name rest

  abbrev pub by_start :
      String
      → List String
      → Option DateTime
      → DateTime
      → Option (List String × List String)
      → Option (List String × List String)
  by_start name tables none cutoff rest = keeps name rest
  by_start name tables (some start) cutoff rest =
      if any (is_of_table name) tables
      then by_end name (month_end start) cutoff rest
      else keeps name rest

  -- The loop of `droppable_partitions`, where `none` is an exception.
  unfoldable pub split_partitions :
      List String → DateTime → List String → Option (List String × List String)
  split_partitions [] cutoff tables = some ([], [])
  split_partitions (name ∷ names) cutoff tables =
      by_start name tables (month_start name) cutoff (split_partitions names cutoff tables)

  unfoldable pub droppable_partitions :
      List String → DateTime → List String → Option (List String × List String)
  droppable_partitions names cutoff tables = split_partitions (sort_by str_leb names) cutoff tables

  abbrev pub is_partition : String → Bool
  is_partition name = is_some (month_start name)

  -- The tables after the statements, and the outcome; `minus_days` is `now - timedelta(days)`.
  unfoldable pub drop_expired_partitions :
      (DateTime → ℕ → DateTime)
      → ℕ
      → DateTime
      → List String
      → Option (List String × RetentionOutcome)
  drop_expired_partitions minus_days retention_days now existing =
      elim (droppable_partitions existing (minus_days now retention_days) partitioned_tables) [
        | none ↦ none
        | some (drop, keep) ↦
            let dropped = filter is_partition drop in
            some (
              filter (λ name. not (mem_text name dropped)) existing,
              record { partitions_dropped = dropped; partitions_kept = keep },
            )
      ]

pub record PayloadObject : Type 0 where
  pub project_id : String
  pub created_at : DateTime

abbrev is_expired : String → DateTime → PayloadObject → Bool
is_expired project_id cutoff row =
    str_eq row.project_id project_id && not (moment_leb cutoff row.created_at)

-- The rows after the sweep, and how many were deleted.
unfoldable pub sweep_payload_rows :
    (DateTime → ℕ → DateTime) → String → ℕ → DateTime → List PayloadObject → List PayloadObject × ℕ
sweep_payload_rows minus_days project_id days now rows =
    let gone = is_expired project_id (minus_days now days) in
    (filter (λ row. not (gone row)) rows, length (filter gone rows))
