-- ===== src/Retention/Outside.antt =====
-- No project loses a trace that it keeps.
use proofstep.Prelude.{
  ℕ, ◌+◌, ◌≤◌, String, ◌≡◌, refl, inl, inr, Bool, true, not, ◌&&◌, ◌||◌, Option, none, some, List,
  [], ◌∷◌, arith, ltb, ◌==◌, Bool-cases, Option-cases, drop, any, filter, str_eq, str_eq_iff,
  mem_text,
}
use mathlib.Core.Path.{subst}
use proofstep.Prelude.{str_leb, if_both}
use proofstep.Prelude.Sort.{sort_by}
use proofstep.Retention.{
  DateTime, moment_leb, first_of, month_end, Project, longest_trace_retention_days,
  RetentionOutcome, month_start, by_start, split_partitions, droppable_partitions, keeps, drops,
  by_end, is_of_table, drop_expired_partitions, partitioned_tables, is_partition,
}

abbrev pub is_before : DateTime → DateTime → Bool
is_before a b = not (moment_leb b a)

-- A time in the month that starts so.
abbrev pub IsIn : DateTime → DateTime → Type 0
IsIn start t = (t.year ≡ start.year) × (t.month ≡ start.month)

first_of_lem :
    (year month : ℕ) (e : DateTime)
    → first_of year month ≡ some e
    → (e.year ≡ year) × (e.month ≡ month)
unfolding first_of
first_of_lem year month e h =
    elim (Bool-cases (year == 0 || ltb 9999 year || month == 0 || ltb 12 month)) [
      | inl k ↦ absurd (ground (arith, h, k))
      | inr k ↦
          let made : DateTime = record { year = year; month = month; within = 0 } in
          let same : made ≡ e = ground (arith, h, k) in rw (← same) (refl, refl)
    ]

month_end_lem :
    (start end t : DateTime) → month_end start ≡ some end → IsIn start t → is_before t end ≡ true
unfolding month_end
month_end_lem start end t h (year, month) = elim (Bool-cases (start.month == 12)) [
  | inl k ↦
      let made = first_of_lem (start.year + 1) 1 end (ground (arith, h, k)) in
      ground (arith, made.0, made.1, year)
  | inr k ↦
      let made = first_of_lem start.year (start.month + 1) end (ground (arith, h, k)) in
      ground (arith, made.0, made.1, year, month)
]

before_lem :
    (t a b : DateTime) → is_before t a ≡ true → moment_leb a b ≡ true → is_before t b ≡ true
before_lem t a b h k = ground arith

module _ (suffix : String → Option (ℕ × ℕ)) where
  -- The whole month of the partition is over at the cutoff.
  abbrev pub Expired : DateTime → String → Type 0
  Expired cutoff name =
      (start end : DateTime) × (month_start suffix name ≡ some start)
      × (month_end start ≡ some end)
      × (moment_leb end cutoff ≡ true)

  abbrev AllExpired : DateTime → Option (List String × List String) → Type 0
  AllExpired cutoff none = Unit {0}
  AllExpired cutoff (some (drop, keep)) =
      (name : String) → mem_text name drop ≡ true → Expired cutoff name

  keeps-AllExpired :
      (cutoff : DateTime) (name : String) (r : Option (List String × List String))
      → AllExpired cutoff r
      → AllExpired cutoff (keeps suffix name r)
  keeps-AllExpired cutoff name none h = tt
  keeps-AllExpired cutoff name (some (drop, keep)) h = h

  drops-AllExpired :
      (cutoff : DateTime) (name : String) (r : Option (List String × List String))
      → Expired cutoff name
      → AllExpired cutoff r
      → AllExpired cutoff (drops suffix name r)
  drops-AllExpired cutoff name none e h = tt
  drops-AllExpired cutoff name (some (drop, keep)) e h = λ other k.
      elim (Bool-cases (str_eq name other)) [
        | inl same ↦ (let equal : name ≡ other = (str_eq_iff name other).0 same in rw (← equal) e)
        | inr differs ↦ h other (ground (arith, differs, k))
      ]

  by_end-AllExpired :
      (cutoff start : DateTime) (name : String) (end : Option DateTime)
      (r : Option (List String × List String))
      → month_start suffix name ≡ some start
      → month_end start ≡ end
      → AllExpired cutoff r
      → AllExpired cutoff (by_end suffix name end cutoff r)
  by_end-AllExpired cutoff start name none r h k rest = tt
  by_end-AllExpired cutoff start name (some end) r h k rest =
      elim (Bool-cases (moment_leb end cutoff)) [
        | inl over ↦ rw over (drops-AllExpired cutoff name r (start, end, h, k, over) rest)
        | inr later ↦ rw later (keeps-AllExpired cutoff name r rest)
      ]

  by_start-AllExpired :
      (cutoff : DateTime) (name : String) (tables : List String) (start : Option DateTime)
      (r : Option (List String × List String))
      → month_start suffix name ≡ start
      → AllExpired cutoff r
      → AllExpired cutoff (by_start suffix name tables start cutoff r)
  by_start-AllExpired cutoff name tables none r h rest = keeps-AllExpired cutoff name r rest
  by_start-AllExpired cutoff name tables (some start) r h rest =
      if_both (AllExpired cutoff) (any (is_of_table name) tables) _ _
        (by_end-AllExpired cutoff start name (month_end start) r h refl rest)
        (keeps-AllExpired cutoff name r rest)

  split_partitions-AllExpired :
      (names : List String) (cutoff : DateTime) (tables : List String)
      → AllExpired cutoff (split_partitions suffix names cutoff tables)
  unfolding split_partitions
  split_partitions-AllExpired [] cutoff tables = λ name h. absurd (ground arith)
  split_partitions-AllExpired (name ∷ names) cutoff tables =
      by_start-AllExpired cutoff name tables (month_start suffix name)
        (split_partitions suffix names cutoff tables) refl
        (split_partitions-AllExpired names cutoff tables)

mem-filter :
    (p : String → Bool) (x : String) (xs : List String)
    → mem_text x (filter p xs) ≡ true
    → mem_text x xs ≡ true
mem-filter p x [] h = h
mem-filter p x (y ∷ ys) h = ground (arith, mem-filter p x ys)

-- A project that is not deleted, by its number of days.
abbrev pub keeps_days : ℕ → List Project → Bool
keeps_days days ps = any (λ p. not p.is_deleted && p.retention_days_traces == days) ps

longest_le :
    (days : ℕ) (ps : List Project)
    → keeps_days days ps ≡ true
    → days ≤ longest_trace_retention_days ps
unfolding longest_trace_retention_days
longest_le days [] h = absurd (ground arith)
longest_le days (p ∷ ps) h = ground (arith, longest_le days ps)

-- A partition is shared by all projects, and is dropped only when it is over for each of them: when
-- the sweep runs with the longest retention, every time in the month of a partition that was dropped
-- is outside of the window of every project that is not deleted, where more days never make a later
-- cutoff.
pub drop_expired_partitions-outside :
    (suffix : String → Option (ℕ × ℕ)) (minus_days : DateTime → ℕ → DateTime)
    (projects : List Project) (now : DateTime) (existing left : List String)
    (outcome : RetentionOutcome) (name : String) (start t : DateTime) (days : ℕ)
    → ((d e : ℕ) → d ≤ e → moment_leb (minus_days now e) (minus_days now d) ≡ true)
    → drop_expired_partitions suffix minus_days (longest_trace_retention_days projects) now existing
      ≡ some (left, outcome)
    → mem_text name outcome.partitions_dropped ≡ true
    → month_start suffix name ≡ some start
    → IsIn start t
    → keeps_days days projects ≡ true
    → is_before t (minus_days now days) ≡ true
unfolding drop_expired_partitions droppable_partitions
drop_expired_partitions-outside suffix minus_days projects now existing left outcome name start t
      days longer h dropped at inside live =
    let cutoff = minus_days now (longest_trace_retention_days projects) in
    let names = sort_by str_leb existing in
    elim (Option-cases (split_partitions suffix names cutoff partitioned_tables)) [
      | inl e ↦ absurd (ground (arith, h, e))
      | inr ((old, kept), e) ↦
          let all : AllExpired suffix cutoff (some (old, kept)) =
            subst (λ r. AllExpired suffix cutoff r) e
              (split_partitions-AllExpired suffix names cutoff partitioned_tables) in
          let same : filter (is_partition suffix) old ≡ outcome.partitions_dropped =
            ground (arith, e, h) in
          let (begin, end, at', to, over) =
            all name (mem-filter (is_partition suffix) name old (rw same dropped)) in
          let one : begin ≡ start = ground (arith, at, at') in
          before_lem t cutoff (minus_days now days)
            (before_lem t end cutoff (month_end_lem begin end t to (rw one inside)) over)
            (longer days (longest_trace_retention_days projects) (longest_le days projects live))
    ]
