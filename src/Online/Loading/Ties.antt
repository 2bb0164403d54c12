-- ===== src/Online/Loading/Ties.antt =====
-- In which order the engine reads the spans that were loaded.
use proofstep.Prelude.{◌≡◌, refl, ap, inl, inr, some, arith, Option-cases}
use proofstep.Prelude.{str_leb}
use proofstep.Types.Trace.{Span}
use proofstep.Trajectory.Normalize.Order.{span_le}
use proofstep.Online.Rows.{SpanRow}
use proofstep.Online.Loading.{span_type_of, span_with, span_of}

span_of_lem :
    (row : SpanRow) (x : Span)
    → span_of row ≡ some x
    → (x.started_at ≡ row.started_at) × (x.sequence_index ≡ 0) × (x.span_id ≡ row.span_id)
unfolding span_of
span_of_lem row x h = elim (Option-cases (span_type_of row.span_type)) [
  | inl e ↦ absurd (ground (arith, h, e))
  | inr (type, e) ↦
      let same : span_with row type ≡ x = ground (arith, h, e) in rw (← same) (refl, refl, refl)
]

-- Spans that started at the same time are ordered by their ids once they are loaded, whatever the
-- sequence numbers that were recorded with them.
pub span_le-span_of :
    (a b : SpanRow) (x y : Span)
    → span_of a ≡ some x
    → span_of b ≡ some y
    → a.started_at ≡ b.started_at
    → span_le x y ≡ str_leb a.span_id b.span_id
unfolding span_le
span_le-span_of a b x y h k same =
    let (start, zero_x, id) = span_of_lem a x h in
    let (start', zero_y, id') = span_of_lem b y k in
    ground (
      arith,
      start,
      start',
      zero_x,
      zero_y,
      same,
      ap (λ i. str_leb i y.span_id) id,
      ap (λ i. str_leb a.span_id i) id',
    )
