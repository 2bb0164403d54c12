-- ===== src/Retention/Examples.antt =====
-- The sweep of two projects, where one partition is over.
use proofstep.Prelude.{
  ℕ, ◌-◌, ◌*◌, ◌≤◌, String, ◌≡◌, refl, true, false, Option, none, some, List, [], ◌∷◌, arith,
  if◌then◌else◌, str_eq,
}
use proofstep.Prelude.{str_leb}
use proofstep.Prelude.Sort.{sort_by}
use proofstep.Retention.{
  DateTime, moment_leb, first_of, month_end, Project, longest_trace_retention_days,
  RetentionOutcome, month_start, split_partitions, droppable_partitions, drop_expired_partitions,
}
use proofstep.Retention.Outside.{is_before, drop_expired_partitions-outside}

abbrev suffix : String → Option (ℕ × ℕ)
suffix name =
    if str_eq name "traces_2026_03"
    then some (2026, 3)
    else if str_eq name "traces_2026_06"
    then some (2026, 6)
    else none

-- As many microseconds before, within a month.
abbrev minus_days : DateTime → ℕ → DateTime
minus_days now days = record now { within = now.within - days * 86400000000 }

abbrev projects : List Project
projects =
    record { retention_days_traces = 7; is_deleted = false }
    ∷ record { retention_days_traces = 14; is_deleted = false }
    ∷ []

abbrev moment : ℕ → ℕ → DateTime
moment month within = record { year = 2026; month = month; within = within }

abbrev now : DateTime
now = moment 6 1728000000000

abbrev outcome : RetentionOutcome
outcome = record {
  partitions_dropped = "traces_2026_03" ∷ [];
  partitions_kept = "traces_2026_06" ∷ "traces_default" ∷ [];
}

swept :
    drop_expired_partitions suffix minus_days
      (longest_trace_retention_days projects)
      now
      ("traces_2026_06" ∷ "traces_2026_03" ∷ "traces_default" ∷ [])
    ≡ some ("traces_2026_06" ∷ "traces_default" ∷ [], outcome)
unfolding drop_expired_partitions droppable_partitions split_partitions month_start month_end
    first_of longest_trace_retention_days sort_by str_leb proofstep.Prelude.strip_prefix
swept = refl

starts : month_start suffix "traces_2026_03" ≡ some (moment 3 0)
unfolding month_start first_of
starts = refl

earlier : (d e : ℕ) → d ≤ e → moment_leb (minus_days now e) (minus_days now d) ≡ true
earlier d e h = ground arith

drop_expired_partitions-outside_example : is_before (moment 3 5) (minus_days now 7) ≡ true
drop_expired_partitions-outside_example =
    drop_expired_partitions-outside suffix minus_days projects now
      ("traces_2026_06" ∷ "traces_2026_03" ∷ "traces_default" ∷ [])
      ("traces_2026_06" ∷ "traces_default" ∷ []) outcome "traces_2026_03" (moment 3 0) (moment 3 5)
      7 earlier swept refl starts (refl, refl) refl
