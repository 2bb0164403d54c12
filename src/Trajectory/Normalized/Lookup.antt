-- ===== src/Trajectory/Normalized/Lookup.antt =====
-- The index by action gives what a scan of the events gives.
use proofstep.Prelude.{
  String, ◌≡◌, sym, inl, inr, Bool, List, [], ◌∷◌, ◌++◌, Bool-cases, filter, find?, str_eq,
  str_eq_iff,
}
use proofstep.Prelude.{head?-filter}
use proofstep.Prelude.Dict.{Dict, get, get-put}
use proofstep.Trajectory.Events.{TrajectoryEvent}
use proofstep.Trajectory.Normalized.{Normalized, entries_of, index_events, by_action, of, first}
use mathlib.Core.List.{append_assoc, append-nil}

abbrev pub is_action : String → TrajectoryEvent → Bool
is_action action e = str_eq e.action action

entries-index_events :
    (action : String) (es : List TrajectoryEvent) (d : Dict (List TrajectoryEvent))
    → entries_of (get action (index_events es d))
      ≡ entries_of (get action d) ++ filter (is_action action) es
unfolding index_events
entries-index_events action [] d = sym (append-nil (entries_of (get action d)))
entries-index_events action (e ∷ es) d = elim (Bool-cases (str_eq e.action action)) [
  | inl p ↦
      rw (entries-index_events action es _, get-put, p)
        (rw (append_assoc, (str_eq_iff e.action action).0 p))
  | inr p ↦ rw (entries-index_events action es _, get-put, p)
]

-- `of` returns the events of the action in their order.
pub of-eq-filter :
    (norm : Normalized) (action : String) → of norm action ≡ filter (is_action action) norm.events
unfolding of by_action get
of-eq-filter norm action = entries-index_events action norm.events []

pub first-eq-find? :
    (norm : Normalized) (action : String) → first norm action ≡ find? (is_action action) norm.events
unfolding first
first-eq-find? norm action =
    rw (of-eq-filter norm action) (head?-filter (is_action action) norm.events)
