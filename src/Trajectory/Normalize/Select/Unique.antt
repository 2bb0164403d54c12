-- ===== src/Trajectory/Normalize/Select/Unique.antt =====
-- `_dedupe` keeps the first span of each id.
use proofstep.Prelude.{
  String, ◌≡◌, refl, inl, inr, true, false, Option, none, List, [], ◌∷◌, map, Sublistᴰ, arith,
  if◌then◌else◌, Bool-cases, find?, str_eq, str_eq_iff, str_eq_refl, mem_text,
}
use proofstep.Types.Trace.{Span}
use proofstep.Trajectory.Normalize.Select.{dedupe, dedupe_from}

abbrev pub ids : List Span → List String
ids = map (λ s. s.span_id)

-- No id stands twice.
abbrev pub AreDistinct : List String → Type 0
AreDistinct [] = Unit
AreDistinct (x ∷ xs) = (mem_text x xs ≡ false) × AreDistinct xs

-- What is kept has none of the ids seen before.
kept_unseen :
    (id : String) (seen : List String) (spans : List Span)
    → mem_text id seen ≡ true
    → mem_text id (ids (dedupe_from seen spans).0) ≡ false
unfolding dedupe_from
kept_unseen id seen [] h = refl
kept_unseen id seen (s ∷ spans) h = ground (
  arith,
  str_eq_iff s.span_id id,
  kept_unseen id seen spans,
  kept_unseen id (s.span_id ∷ seen) spans,
)

dedupe_from-AreDistinct :
    (seen : List String) (spans : List Span) → AreDistinct (ids (dedupe_from seen spans).0)
unfolding dedupe_from
dedupe_from-AreDistinct seen [] = tt
dedupe_from-AreDistinct seen (s ∷ spans) = elim (Bool-cases (mem_text s.span_id seen)) [
  | inl old ↦ rw old (dedupe_from-AreDistinct seen spans)
  | inr new ↦ rw new (
    kept_unseen s.span_id (s.span_id ∷ seen) spans (rw (str_eq_refl s.span_id)),
    dedupe_from-AreDistinct (s.span_id ∷ seen) spans,
  )
]

dedupe_from-Sublistᴰ :
    (seen : List String) (spans : List Span) → Sublistᴰ (dedupe_from seen spans).0 spans
unfolding dedupe_from
dedupe_from-Sublistᴰ seen [] = Sublistᴰ.slnil
dedupe_from-Sublistᴰ seen (s ∷ spans) = elim (Bool-cases (mem_text s.span_id seen)) [
  | inl old ↦ rw old (Sublistᴰ.cons (dedupe_from-Sublistᴰ seen spans))
  | inr new ↦ rw new (Sublistᴰ.cons-cons refl (dedupe_from-Sublistᴰ (s.span_id ∷ seen) spans))
]

-- The first span of an id that has not been seen is the one that is kept.
first_with : String → List Span → Option Span
first_with id spans = find? (λ s. str_eq s.span_id id) spans

dedupe_from-first :
    (id : String) (seen : List String) (spans : List Span)
    → first_with id (dedupe_from seen spans).0
      ≡ (if mem_text id seen then none else first_with id spans)
unfolding dedupe_from first_with
dedupe_from-first id seen [] = ground arith
dedupe_from-first id seen (s ∷ spans) = ground (
  arith,
  str_eq_iff s.span_id id,
  dedupe_from-first id seen spans,
  dedupe_from-first id (s.span_id ∷ seen) spans,
)

-- `_dedupe` leaves a sublist of the spans in which no id stands twice, and for every id the first
-- span that has it.
pub dedupe_lem :
    (spans : List Span)
    → Sublistᴰ (dedupe spans).0 spans
      × AreDistinct (ids (dedupe spans).0)
      × ((id : String)
          → find? (λ s. str_eq s.span_id id) (dedupe spans).0
            ≡ find? (λ s. str_eq s.span_id id) spans)
unfolding dedupe first_with
dedupe_lem spans = (
  dedupe_from-Sublistᴰ [] spans,
  dedupe_from-AreDistinct [] spans,
  λ id. dedupe_from-first id [] spans,
)
