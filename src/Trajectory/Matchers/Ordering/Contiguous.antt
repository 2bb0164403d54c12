-- ===== src/Trajectory/Matchers/Ordering/Contiguous.antt =====
-- The contiguous mode of `required_order` looks for the steps as one block.
use proofstep.Prelude.{
  ℕ, zero, suc, ◌+◌, ◌-◌, ◌≤◌, ◌<◌, String, ◌≡◌, sym, ap, ◌∙◌, ◌↔◌, inl, inr, true, List, [], ◌++◌,
  arith, ◌==◌, Bool-cases, length, take, drop,
}
use proofstep.Prelude.{
  ==_iff, same_texts, same_texts_iff, take-append-drop, drop-append, take-append, length-append,
}
use proofstep.Trajectory.Schema.{Rule, OrderMode}
use proofstep.Trajectory.Normalized.{Normalized}
use proofstep.Trajectory.Matchers.Failure.{visible}
use proofstep.Trajectory.Matchers.Ordering.{
  action_names, has_window, contiguous_order, required_order,
}

-- `steps` stands in `actions` as a block.
abbrev pub IsBlock : List String → List String → Type 0
IsBlock steps actions =
    (before : List String) × (after : List String) × (actions ≡ before ++ (steps ++ after))

has_window_sound :
    (steps actions : List String) (n start : ℕ)
    → has_window steps n start actions ≡ true
    → IsBlock steps actions
unfolding has_window
has_window_sound steps actions zero start h = absurd (cc)
has_window_sound steps actions (suc n) start h =
    elim (Bool-cases (same_texts (take (length steps) (drop start actions)) steps)) [
      | inl here ↦
          let rest = drop start actions in
          (
            take start actions,
            drop (length steps) rest,
            sym (take-append-drop start actions)
                ∙ ap (λ r. take start actions ++ r)
                    (sym (take-append-drop (length steps) rest)
                      ∙ ap (λ r. r ++ drop (length steps) rest) ((same_texts_iff _ steps).0 here)),
          )
      | inr other ↦ has_window_sound steps actions n (start + 1) (rw other at h)
    ]

has_window_complete :
    (steps actions : List String) (n start k : ℕ)
    → start ≤ k
    → k < start + n
    → take (length steps) (drop k actions) ≡ steps
    → has_window steps n start actions ≡ true
unfolding has_window
has_window_complete steps actions zero start k lo hi e = absurd (omega arith)
has_window_complete steps actions (suc n) start k lo hi e = elim (Bool-cases (start == k)) [
  | inl here ↦ rw ((==_iff start k).0 here, (same_texts_iff _ steps).1 e)
  | inr later ↦
      let rest = has_window_complete steps actions n (start + 1) k (ground arith) (omega arith) e in
      ground arith
]

window_of_block :
    (steps before after : List String)
    → has_window steps
        (length (before ++ (steps ++ after)) + 1 - length steps)
        0
        (before ++ (steps ++ after))
      ≡ true
window_of_block steps before after =
    has_window_complete steps (before ++ (steps ++ after)) _ 0 (length before) (omega arith)
      (omega (arith, length-append before (steps ++ after), length-append steps after))
      (rw drop-append (take-append steps after))

-- A `required_order` rule in contiguous mode reports no failure exactly when its steps stand as one
-- block among the actions of the visible events.
pub contiguous_iff :
    (rule : Rule) (steps : List String) (norm : Normalized)
    → (required_order rule steps OrderMode.contiguous norm ≡ [])
      ↔ IsBlock steps (action_names (visible rule norm.events))
unfolding required_order contiguous_order
contiguous_iff rule steps norm =
    let actions = action_names (visible rule norm.events) in
    elim (Bool-cases (has_window steps (length actions + 1 - length steps) 0 actions)) [
      | inl found ↦ (λ h. has_window_sound steps actions _ 0 found, λ b. rw found)
      | inr missing ↦ (
        λ h. let h' = rw missing at h in cc,
        λ (before, after, e). let w = rw (← e) at (window_of_block steps before after) in cc,
      )
    ]
