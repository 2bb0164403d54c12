-- ===== src/Trajectory/Normalize/Build/Depth.antt =====
-- The climb of `_depth_of` ends, also where the parent links form a cycle.
use proofstep.Prelude.{
  ℕ, zero, suc, ◌+◌, ◌≤◌, ◌<◌, String, ◌≡◌, ◌≢◌, inl, inr, false, Option, none, some, List, [], ◌∷◌,
  arith, if◌then◌else◌, Bool-cases, Option-cases, length, str_eq_iff, mem_text,
}
use proofstep.Types.Trace.{Span}
use proofstep.Trajectory.Normalize.Skew.{by_id}
use proofstep.Trajectory.Normalize.Build.{climb, depth_of}

-- The number of spans whose id has not been seen.
abbrev unseen : List String → List Span → ℕ
unseen seen [] = 0
unseen seen (s ∷ spans) =
    let rest = unseen seen spans in if mem_text s.span_id seen then rest else suc rest

unseen-le : (seen : List String) (spans : List Span) → unseen seen spans ≤ length spans
unseen-le seen [] = omega arith
unseen-le seen (s ∷ spans) = ground (arith, unseen-le seen spans)

unseen-cons :
    (id : String) (seen : List String) (spans : List Span)
    → unseen (id ∷ seen) spans ≤ unseen seen spans
unseen-cons id seen [] = omega arith
unseen-cons id seen (s ∷ spans) = ground (arith, unseen-cons id seen spans)

-- To see the id of one of the spans for the first time leaves fewer.
unseen-lt :
    (id : String) (seen : List String) (spans : List Span) {parent : Span}
    → mem_text id seen ≡ false
    → by_id spans id ≡ some parent
    → unseen (id ∷ seen) spans < unseen seen spans
unfolding by_id
unseen-lt id seen [] fresh found = cc
unseen-lt id seen (s ∷ spans) fresh found = elim (Option-cases (by_id spans id)) [
  | inl last ↦
      ground (arith, unseen-cons id seen spans, str_eq_iff s.span_id id, str_eq_iff id s.span_id)
  | inr (later, q) ↦
      let fewer = unseen-lt id seen spans fresh q in ground (arith, fewer, str_eq_iff id s.span_id)
]

climb_ends :
    (fuel : ℕ) (spans : List Span) (parent : Option String) (seen : List String) (depth : ℕ)
    → unseen seen spans < fuel
    → climb fuel spans parent seen depth ≢ none
unfolding climb
climb_ends zero spans parent seen depth enough = elim enough [ ]
climb_ends (suc fuel) spans none seen depth enough = λ e. cc
climb_ends (suc fuel) spans (some id) seen depth enough = λ e.
    elim (Bool-cases (mem_text id seen)) [
      | inl old ↦ ground arith
      | inr new ↦ elim (Option-cases (by_id spans id)) [
        | inl root ↦ ground arith
        | inr (up, q) ↦
            let fewer : unseen (id ∷ seen) spans < fuel =
              omega (arith, unseen-lt id seen spans new q) in
            ground (arith, climb_ends fuel spans up.parent_span_id (id ∷ seen) (depth + 1) fewer)
      ]
    ]

-- The depth of a span is found for any spans, with or without cycles in their parent links: the
-- climb never runs out of fuel.
pub depth_of-ne-none : (spans : List Span) (span : Span) → depth_of spans span ≢ none
unfolding depth_of
depth_of-ne-none spans span =
    climb_ends (length spans + 2) spans span.parent_span_id (span.span_id ∷ []) 0
      (omega (arith, unseen-le (span.span_id ∷ []) spans))
