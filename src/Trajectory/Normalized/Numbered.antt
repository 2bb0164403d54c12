-- ===== src/Trajectory/Normalized/Numbered.antt =====
-- Events that carry increasing indices, as `_build` numbers them.
use proofstep.Prelude.{
  ℕ, zero, suc, ◌≤◌, ◌≡◌, inl, inr, Bool, some, List, [], ◌∷◌, arith, Bool-cases, drop, filter,
  find?,
}
use proofstep.Trajectory.Events.{TrajectoryEvent}

-- Each event's index is at least `n` and above those before it.
abbrev pub IsNumbered : ℕ → List TrajectoryEvent → Type 0
IsNumbered n [] = Unit
IsNumbered n (e ∷ es) = (n ≤ e.index) × IsNumbered (suc e.index) es

pub IsNumbered-weaken :
    (n m : ℕ) (es : List TrajectoryEvent) → m ≤ n → IsNumbered n es → IsNumbered m es
IsNumbered-weaken n m [] le h = tt
IsNumbered-weaken n m (e ∷ es) le h = (omega (arith, h.0), h.1)

pub IsNumbered-filter :
    (p : TrajectoryEvent → Bool) (n : ℕ) (es : List TrajectoryEvent)
    → IsNumbered n es
    → IsNumbered n (filter p es)
IsNumbered-filter p n [] h = tt
IsNumbered-filter p n (e ∷ es) h = elim (Bool-cases (p e)) [
  | inl t ↦ rw t (h.0, IsNumbered-filter p (suc e.index) es h.1)
  | inr f ↦
      rw f
        (IsNumbered-filter p n es (IsNumbered-weaken (suc e.index) n es (omega (arith, h.0)) h.1))
]

-- What is found in numbered events has an index in their range.
pub index-find? :
    (p : TrajectoryEvent → Bool) (n : ℕ) (es : List TrajectoryEvent) {e : TrajectoryEvent}
    → IsNumbered n es
    → find? p es ≡ some e
    → n ≤ e.index
index-find? p n [] h f = cc
index-find? p n (x ∷ xs) {e} h f = elim (Bool-cases (p x)) [
  | inl t ↦ ground (arith, h.0)
  | inr t ↦
      let rest : suc x.index ≤ e.index = index-find? p (suc x.index) xs h.1 (rw t at f) in
      omega (arith, h.0)
]

pub IsNumbered-drop :
    (k n : ℕ) (es : List TrajectoryEvent) → IsNumbered n es → IsNumbered n (drop k es)
IsNumbered-drop zero n es h = h
IsNumbered-drop (suc k) n [] h = tt
IsNumbered-drop (suc k) n (e ∷ es) h =
    IsNumbered-drop k n es (IsNumbered-weaken (suc e.index) n es (omega (arith, h.0)) h.1)
