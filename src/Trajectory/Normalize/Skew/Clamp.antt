-- ===== src/Trajectory/Normalize/Skew/Clamp.antt =====
-- What the clamp of `_fix_clock_skew` guarantees, and what it does not.
use proofstep.Prelude.{
  ℕ, ◌≤◌, ◌<◌, ◌≡◌, refl, ◌⊎◌, inl, inr, Option, none, some, List, arith, ltb, Bool-cases,
}
use proofstep.Types.Trace.{Span}
use proofstep.Trajectory.Normalize.Skew.{parent_in, clamp, clamp_to}

-- The parent's recorded start, or 0 where no parent is known.
abbrev pub start_of : Option Span → ℕ
start_of none = 0
start_of (some s) = s.started_at

-- The clamp changes the start time only, never moves it back, leaves no span before the recorded
-- start of its parent, and moves nothing further than that.
pub clamp_lem :
    (all_spans : List Span) (s : Span)
    → let parent = start_of (parent_in all_spans s.parent_span_id) in
      let fixed = (clamp all_spans s).0 in
      (fixed ≡ record s { started_at = fixed.started_at })
      × (s.started_at ≤ fixed.started_at)
      × (parent ≤ fixed.started_at)
      × ((fixed.started_at ≡ s.started_at) ⊎ (fixed.started_at ≡ parent))
unfolding clamp
clamp_lem all_spans s = cases (parent_in all_spans s.parent_span_id)
  where
    cases :
        (p : Option Span)
        → (((clamp_to s p).0 ≡ record s { started_at = (clamp_to s p).0.started_at })
            × (s.started_at ≤ (clamp_to s p).0.started_at)
            × (start_of p ≤ (clamp_to s p).0.started_at)
            × (((clamp_to s p).0.started_at ≡ s.started_at)
                ⊎ ((clamp_to s p).0.started_at ≡ start_of p)))
    cases none = (refl, omega arith, omega arith, inl refl)
    cases (some p) = elim (Bool-cases (ltb s.started_at p.started_at)) [
      | inl early ↦ rw early (refl, ground arith, omega arith, inr refl)
      | inr fine ↦ rw fine (refl, omega arith, ground arith, inl refl)
    ]

-- The clamp reads the parent's start before the parent itself is clamped. So where a span starts
-- before its parent, and the parent before the grandparent, the clamped span still starts before
-- the clamped parent.
pub clamp_chain :
    (all_spans : List Span) (child parent grandparent : Span)
    → parent_in all_spans child.parent_span_id ≡ some parent
    → parent_in all_spans parent.parent_span_id ≡ some grandparent
    → child.started_at < parent.started_at
    → parent.started_at < grandparent.started_at
    → (clamp all_spans child).0.started_at < (clamp all_spans parent).0.started_at
unfolding clamp
clamp_chain all_spans child parent grandparent up higher early earlier = ground arith
