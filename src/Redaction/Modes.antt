-- ===== src/Redaction/Modes.antt =====
-- How much of the payloads is kept: packages/shared-types/src/proofstep_types/common.py.
use proofstep.Prelude.{
  ℕ, ◌≤◌, ◌≡◌, refl, sym, ◌∙◌, ◌⊎◌, inl, inr, Bool, true, false, Option, none, some, List, [], ◌∷◌,
  arith, ltb, if◌then◌else◌, Bool-cases,
}

pub data CaptureMode : Type 0 where
  full redacted metadata_only disabled : CaptureMode

abbrev pub rank : CaptureMode → ℕ
rank CaptureMode.full = 0
rank CaptureMode.redacted = 1
rank CaptureMode.metadata_only = 2
rank CaptureMode.disabled = 3

abbrev pub stores_payloads : CaptureMode → Bool
stores_payloads CaptureMode.full = true
stores_payloads CaptureMode.redacted = true
stores_payloads _ = false

-- `max(present, key=…)` past its first element
unfoldable pub most_restrictive : CaptureMode → List (Option CaptureMode) → CaptureMode
most_restrictive best [] = best
most_restrictive best (none ∷ modes) = most_restrictive best modes
most_restrictive best (some m ∷ modes) =
    most_restrictive (if ltb (rank best) (rank m) then m else best) modes

unfoldable pub resolve : List (Option CaptureMode) → CaptureMode
resolve [] = CaptureMode.redacted
resolve (none ∷ modes) = resolve modes
resolve (some m ∷ modes) = most_restrictive m modes

-- One of the modes that are given is this one.
abbrev pub IsGiven : CaptureMode → List (Option CaptureMode) → Type 0
IsGiven m [] = ⊥
IsGiven m (none ∷ modes) = IsGiven m modes
IsGiven m (some k ∷ modes) = (k ≡ m) ⊎ IsGiven m modes

Bounds : CaptureMode → List (Option CaptureMode) → CaptureMode → Type 0
Bounds best modes result =
    ((result ≡ best) ⊎ IsGiven result modes)
    × (rank best ≤ rank result)
    × ((m : CaptureMode) → IsGiven m modes → rank m ≤ rank result)

start : (best : CaptureMode) → Bounds best [] best
unfolding Bounds
start best = (inl refl, omega arith, λ m h. absurd h)

skip :
    (best result : CaptureMode) (modes : List (Option CaptureMode))
    → Bounds best modes result
    → Bounds best (none ∷ modes) result
unfolding Bounds
skip best result modes bounds = bounds

-- The greater of two modes, and the other no greater.
IsGreater : CaptureMode → CaptureMode → CaptureMode → Type 0
IsGreater best k better =
    ((better ≡ k) × (rank best ≤ rank k)) ⊎ ((better ≡ best) × (rank k ≤ rank best))

if-IsGreater :
    (best k : CaptureMode) → IsGreater best k (if ltb (rank best) (rank k) then k else best)
unfolding IsGreater
if-IsGreater best k = elim (Bool-cases (ltb (rank best) (rank k))) [
  | inl more ↦ inl (rw more, ground arith)
  | inr less ↦ inr (rw less, ground arith)
]

carry :
    (best k better result : CaptureMode) (modes : List (Option CaptureMode))
    → IsGreater best k better
    → Bounds better modes result
    → Bounds best (some k ∷ modes) result
unfolding IsGreater Bounds
carry best k better result modes (inl (e, order)) (among, above, all_below) = (
  elim among [ inl f ↦ inr (inl (sym (f ∙ e))) | inr h ↦ inr (inr h) ],
  ground (arith, above, order, e),
  λ m given. elim given [ inl f ↦ ground (arith, above, e, f) | inr h ↦ all_below m h ],
)
carry best k better result modes (inr (e, order)) (among, above, all_below) = (
  elim among [ inl f ↦ inl (f ∙ e) | inr h ↦ inr (inr h) ],
  ground (arith, above, e),
  λ m given. elim given [ inl f ↦ ground (arith, above, order, e, f) | inr h ↦ all_below m h ],
)

most_restrictive-Bounds :
    (best : CaptureMode) (modes : List (Option CaptureMode))
    → Bounds best modes (most_restrictive best modes)
unfolding most_restrictive
most_restrictive-Bounds best [] = start best
most_restrictive-Bounds best (none ∷ modes) = skip best _ modes (most_restrictive-Bounds best modes)
most_restrictive-Bounds best (some k ∷ modes) =
    carry best k (if ltb (rank best) (rank k) then k else best) _ modes (if-IsGreater best k)
      (most_restrictive-Bounds (if ltb (rank best) (rank k) then k else best) modes)

-- The modes are combined to the most restrictive of those that are given, and to redacted if none is.
pub resolve_lem :
    (modes : List (Option CaptureMode))
    → ((m : CaptureMode) → IsGiven m modes → rank m ≤ rank (resolve modes))
      × (IsGiven (resolve modes) modes
          ⊎ (((m : CaptureMode) → ¬ IsGiven m modes) × (resolve modes ≡ CaptureMode.redacted)))
unfolding resolve Bounds
resolve_lem [] = (λ m h. absurd h, inr (λ m h. h, refl))
resolve_lem (none ∷ modes) = resolve_lem modes
resolve_lem (some k ∷ modes) =
    let (among, above, all_below) = most_restrictive-Bounds k modes in
    (
      λ m given. elim given [ inl e ↦ rw (← e) above | inr h ↦ all_below m h ],
      inl (elim among [ inl e ↦ inl (sym e) | inr h ↦ inr h ]),
    )
