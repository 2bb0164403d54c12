-- ===== src/Trajectory/Matchers/Budget/Retries.antt =====
-- `max_retries`: the dictionary of worst events against the events themselves.
use proofstep.Prelude.{
  ℕ, ◌-◌, String, ◌≡◌, refl, ◌↔◌, inl, inr, Bool, true, false, ◌&&◌, ◌||◌, List, [], ◌∷◌, arith,
  ltb, Bool-cases, any, all, str_eq,
}
use proofstep.Prelude.{any-filter}
use proofstep.Prelude.Dict.{Dict, get, put}
use proofstep.Prelude.Sort.{sort_by, any-sort_by}
use proofstep.Trajectory.Events.{TrajectoryEvent}
use proofstep.Trajectory.Schema.{Rule}
use proofstep.Trajectory.Normalized.{Normalized}
use proofstep.Trajectory.Normalized.Lookup.{is_action, of-eq-filter}
use proofstep.Trajectory.Matchers.Budget.{
  is_worse, worst_from, retry_failures, retried_events, entry_le, max_retries,
}

-- An event of more than `most` retries.
abbrev pub is_over : ℕ → TrajectoryEvent → Bool
is_over most e = ltb most (e.attempt - 1)

abbrev entry_over : ℕ → String × TrajectoryEvent → Bool
entry_over most entry = is_over most entry.1

retry_failures_iff :
    (rule : Rule) (most : ℕ) (worst : Dict TrajectoryEvent)
    → (retry_failures rule most worst ≡ []) ↔ (any (entry_over most) worst ≡ false)
retry_failures_iff rule most [] = ground arith
retry_failures_iff rule most ((a, e) ∷ rest) = ground (arith, retry_failures_iff rule most rest)

-- A worse event takes the place of one that is over the limit only if it is itself.
any-put :
    (most : ℕ) (e : TrajectoryEvent) (k : String) (worst : Dict TrajectoryEvent)
    → is_worse e (get k worst) ≡ true
    → any (entry_over most) (put k e worst) ≡ (is_over most e || any (entry_over most) worst)
unfolding get put
any-put most e k [] worse = ground arith
any-put most e k ((j, known) ∷ rest) worse = ground (arith, any-put most e k rest)

any-get :
    (most : ℕ) (e : TrajectoryEvent) (k : String) (worst : Dict TrajectoryEvent)
    → is_worse e (get k worst) ≡ false
    → is_over most e ≡ true
    → any (entry_over most) worst ≡ true
unfolding get
any-get most e k [] same over = ground arith
any-get most e k ((j, known) ∷ rest) same over = ground (arith, any-get most e k rest)

any-worst_from :
    (most : ℕ) (es : List TrajectoryEvent) (worst : Dict TrajectoryEvent)
    → any (entry_over most) (worst_from es worst)
      ≡ (any (is_over most) es || any (entry_over most) worst)
unfolding worst_from
any-worst_from most [] worst = refl
any-worst_from most (e ∷ es) worst = elim (Bool-cases (is_worse e (get e.action worst))) [
  | inl worse ↦
      ground
        (arith, worse, any-worst_from most es (put e.action e worst), any-put most e e.action worst)
  | inr same ↦ ground (arith, same, any-worst_from most es worst, any-get most e e.action worst)
]

any-retried_events :
    (most : ℕ) (action : String) (norm : Normalized)
    → any (is_over most) (retried_events action norm)
      ≡ any (λ e. (str_eq action "*" || is_action action e) && is_over most e) norm.events
unfolding retried_events
any-retried_events most action norm = elim (Bool-cases (str_eq action "*")) [
  | inl all ↦ rw (all, retried_events) refl
  | inr one ↦
      rw (one, retried_events, of-eq-filter norm action)
        (any-filter (is_over most) (is_action action) norm.events)
]

-- A `max_retries` rule reports no failure exactly when no event that it covers, those of its action
-- or all where the action is "*", has more than the allowed number of attempts after the first.
pub max_retries_iff :
    (rule : Rule) (action : String) (most : ℕ) (norm : Normalized)
    → (max_retries rule action most norm ≡ [])
      ↔ (any (λ e. (str_eq action "*" || is_action action e) && is_over most e) norm.events ≡ false)
unfolding max_retries
max_retries_iff rule action most norm =
    let worst = worst_from (retried_events action norm) [] in
    ground (
      arith,
      retry_failures_iff rule most (sort_by entry_le worst),
      any-sort_by entry_le (entry_over most) worst,
      any-worst_from most (retried_events action norm) [],
      any-retried_events most action norm,
    )
