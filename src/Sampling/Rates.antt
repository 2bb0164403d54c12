-- ===== src/Sampling/Rates.antt =====
-- How the sample grows with the rate.
use proofstep.Prelude.{ℕ, ◌*◌, ◌≤◌, ◌<◌, String, ◌≡◌, sym, ◌∙◌, ◌⊎◌, inl, inr, true, false, arith}
use native.Mathlib.Nat.{
  mul-lt-mul_of_pos_right, mul-le-mul_right, mul_comm, mul_right_comm, lt_of_mul-lt-mul_right,
}
use proofstep.Sampling.{Rate, denominator, buckets, is_below, is_sampled}

-- The order of two rates.
abbrev pub IsNoMore : Rate → Rate → Type 0
IsNoMore a b =
    (a.negative ≡ true)
    ⊎ ((b.negative ≡ false) × (a.numerator * denominator b ≤ b.numerator * denominator a))

-- A bucket below all buckets lies below every rate that is one or more.
everything_below : (n d k : ℕ) → n < buckets → 0 < d → d ≤ k → n * d < k * buckets
everything_below n d k within some_d most = ground (
  arith,
  mul-lt-mul_of_pos_right {m = n} {n = buckets} {k = d} within some_d,
  mul-le-mul_right buckets most,
  mul_comm buckets d,
)

module _ (four_bytes : String → String → ℕ) where
  -- Where the digest is within its four bytes, the tests for a rate out of range agree with the
  -- comparison.
  pub is_sampled-eq-is_below :
      (trace_id : String) (rate : Rate) (salted : String)
      → four_bytes salted trace_id < buckets
      → is_sampled four_bytes trace_id rate salted ≡ is_below (four_bytes salted trace_id) rate
  unfolding is_sampled is_below
  is_sampled-eq-is_below trace_id rate salted within = ground (
    arith,
    everything_below (four_bytes salted trace_id) (denominator rate) rate.numerator within,
  )

below_mono :
    (n a d b e : ℕ) → 0 < d → 0 < e → a * e ≤ b * d → n * d < a * buckets → n * e < b * buckets
below_mono n a d b e pos_d pos_e more below = lt_of_mul-lt-mul_right d (
    ground (
      arith,
      mul-lt-mul_of_pos_right {m = n * d} {n = a * buckets} {k = e} below pos_e,
      mul-le-mul_right buckets more,
      mul_right_comm n d e,
      mul_right_comm a buckets e,
      mul_right_comm b d buckets,
    ))

module _ (four_bytes : String → String → ℕ) where
  -- A greater rate samples more: where the digest is within its four bytes, a trace in the sample of
  -- a rate is in the sample of every rate that is no less.
  pub is_sampled_mono :
      (trace_id : String) (a b : Rate) (salted : String)
      → four_bytes salted trace_id < buckets
      → IsNoMore a b
      → is_sampled four_bytes trace_id a salted ≡ true
      → is_sampled four_bytes trace_id b salted ≡ true
  unfolding is_below
  is_sampled_mono trace_id a b salted within more h =
      let below_a = sym (is_sampled-eq-is_below four_bytes trace_id a salted within) ∙ h in
      let mono =
        below_mono (four_bytes salted trace_id) a.numerator (denominator a) b.numerator
          (denominator b) in
      is_sampled-eq-is_below four_bytes trace_id b salted within
      ∙ (elim more [ inl nothing ↦ ground arith | inr (at_least, order) ↦ ground (arith, mono) ])
