-- ===== src/Trajectory/Matchers/Ordering/Subsequence.antt =====
-- The greedy search of `required_order` decides the subsequence relation.
use proofstep.Prelude.{
  ℕ, zero, suc, ◌≤◌, String, ◌≡◌, refl, sym, ◌≢◌, ◌↔◌, inl, inr, none, some, List, [], ◌∷◌, ◌++◌,
  Sublistᴰ, arith, if◌then◌else◌, Bool-cases, Option-cases, drop, find?, str_eq, str_eq_iff,
}
use proofstep.Trajectory.Events.{TrajectoryEvent}
use proofstep.Trajectory.Schema.{Rule, OrderMode}
use proofstep.Trajectory.Normalized.{Normalized}
use proofstep.Trajectory.Normalized.Lookup.{is_action}
use proofstep.Trajectory.Normalized.Numbered.{
  IsNumbered, IsNumbered-filter, index-find?, IsNumbered-drop,
}
use proofstep.Trajectory.Matchers.Failure.{visible, is_visible}
use proofstep.Trajectory.Matchers.Ordering.{action_names, index, match_steps, required_order}

-- What follows the first event of the action.
after : String → List TrajectoryEvent → List TrajectoryEvent
after step [] = []
after step (e ∷ es) = if str_eq e.action step then es else after step es

Sublistᴰ_tail {ℓ} : {A : Type ℓ} {x : A} {xs ys : List A} → Sublistᴰ (x ∷ xs) ys → Sublistᴰ xs ys
Sublistᴰ_tail (Sublistᴰ.cons s) = Sublistᴰ.cons (Sublistᴰ_tail s)
Sublistᴰ_tail (Sublistᴰ.cons-cons e s) = Sublistᴰ.cons s

Sublistᴰ_nil {ℓ} : {A : Type ℓ} (xs : List A) → Sublistᴰ [] xs
Sublistᴰ_nil [] = Sublistᴰ.slnil
Sublistᴰ_nil (x ∷ xs) = Sublistᴰ.cons (Sublistᴰ_nil xs)

-- To match a step as early as possible loses nothing.
greedy_keeps :
    (step : String) (rest : List String) (es : List TrajectoryEvent)
    → Sublistᴰ (step ∷ rest) (action_names es)
    → Sublistᴰ rest (action_names (after step es))
unfolding after
greedy_keeps step rest [] s = elim s [ ]
greedy_keeps step rest (e ∷ es) (Sublistᴰ.cons s) = elim (Bool-cases (str_eq e.action step)) [
  | inl p ↦ rw p (Sublistᴰ_tail s)
  | inr p ↦ rw p (greedy_keeps step rest es s)
]
greedy_keeps step rest (e ∷ es) (Sublistᴰ.cons-cons q s) =
    rw ((str_eq_iff e.action step).1 (sym q)) s

greedy_finds :
    (step : String) (rest : List String) (es : List TrajectoryEvent)
    → Sublistᴰ (step ∷ rest) (action_names es)
    → find? (is_action step) es ≢ none
greedy_finds step rest [] s f = elim s [ ]
greedy_finds step rest (e ∷ es) (Sublistᴰ.cons s) f = greedy_finds step rest es s (ground arith)
greedy_finds step rest (e ∷ es) (Sublistᴰ.cons-cons q s) f =
    let p = (str_eq_iff e.action step).1 (sym q) in ground arith

greedy_extends :
    (step : String) (rest : List String) (es : List TrajectoryEvent) {found : TrajectoryEvent}
    → find? (is_action step) es ≡ some found
    → Sublistᴰ rest (action_names (after step es))
    → Sublistᴰ (step ∷ rest) (action_names es)
unfolding after
greedy_extends step rest [] f s = absurd (cc)
greedy_extends step rest (e ∷ es) f s = elim (Bool-cases (str_eq e.action step)) [
  | inl p ↦ Sublistᴰ.cons-cons (sym ((str_eq_iff e.action step).0 p)) (rw p at s)
  | inr p ↦ Sublistᴰ.cons (greedy_extends step rest es (rw p at f) (rw p at s))
]

-- The position after the event found is where the rest of the events begins.
drop-index :
    (step : String) (n p : ℕ) (es : List TrajectoryEvent) {found : TrajectoryEvent}
    → IsNumbered n es
    → find? (is_action step) (drop p es) ≡ some found
    → drop (suc (index found es)) es ≡ after step (drop p es)
unfolding after index
drop-index step n zero [] h f = absurd (cc)
drop-index step n (suc p) [] h f = absurd (cc)
drop-index step n zero (e ∷ es) {found} h f = elim (Bool-cases (str_eq e.action step)) [
  | inl t ↦ let f' = rw t at f in let here : e ≡ found = cc in rw (← here) (ground (arith, t))
  | inr t ↦
      let later : suc e.index ≤ found.index =
        index-find? (is_action step) (suc e.index) es h.1 (rw t at f) in
      ground (arith, drop-index step (suc e.index) zero es {found = found} h.1)
]
drop-index step n (suc p) (e ∷ es) {found} h f =
    let later : suc e.index ≤ found.index =
      index-find? (is_action step) (suc e.index) (drop p es) (IsNumbered-drop p _ es h.1) f in
    ground (arith, drop-index step (suc e.index) p es {found = found} h.1)

-- The search fails nowhere exactly when the steps are a subsequence of what is left.
match_steps_iff :
    (rule : Rule) (steps rest : List String) (n p : ℕ) (es matched : List TrajectoryEvent)
    → IsNumbered n es
    → (match_steps rule steps es rest p matched ≡ []) ↔ Sublistᴰ rest (action_names (drop p es))
unfolding match_steps
match_steps_iff rule steps [] n p es matched h =
    (λ _. Sublistᴰ_nil (action_names (drop p es)), λ _. refl)
match_steps_iff rule steps (step ∷ rest) n p es matched h =
    elim (Option-cases (find? (is_action step) (drop p es))) [
      | inl f ↦
          rw (f, match_steps)
            (λ e. absurd (cc), λ s. absurd (greedy_finds step rest (drop p es) s f))
      | inr (found, f) ↦
          let ih =
            match_steps_iff rule steps rest n (suc (index found es)) es (matched ++ found ∷ []) h in
          rw (f, match_steps)
            (
              λ e.
                  greedy_extends step rest (drop p es) f
                    (rw (drop-index step n p es h f) at (ih.0 e)),
              λ s. ih.1 (rw (drop-index step n p es h f) (greedy_keeps step rest (drop p es) s)),
            )
    ]

-- On numbered events, a `required_order` rule in its default mode reports no failure exactly when
-- its steps are a subsequence of the actions of the visible events.
pub required_order_iff :
    (rule : Rule) (steps : List String) (norm : Normalized) (n : ℕ)
    → IsNumbered n norm.events
    → (required_order rule steps OrderMode.subsequence norm ≡ [])
      ↔ Sublistᴰ steps (action_names (visible rule norm.events))
unfolding required_order visible
required_order_iff rule steps norm n h =
    match_steps_iff rule steps steps n 0 (visible rule norm.events) []
      (IsNumbered-filter (is_visible rule) n norm.events h)
