-- ===== src/Aggregation/Sums.antt =====
-- What a metric is made of.
use mathlib.Core.List.{append-nil, append_assoc}
use proofstep.Prelude.{
  ℕ, ◌+◌, String, ◌≡◌, refl, sym, ap, ◌∙◌, inl, inr, Bool, ◌&&◌, ◌||◌, none, some, List, [], ◌∷◌,
  ◌++◌, map, arith, if◌then◌else◌, Bool-cases, Option-cases, is_some, any, str_eq,
}
use proofstep.Prelude.{any-append}
use proofstep.Prelude.Sort.{any-sort_by}
use proofstep.Types.Value.{Value}
use proofstep.Gates.Apply.{slice_key, same_items}
use proofstep.Aggregation.{
  Score, ExampleResult, SliceKey, Bucket, same_bucket, bucket_leb, merge, extra_slices, mem_slice,
  distinct, slices_of, at, has_key, Tallies, errored, one_more, with_last, count_score,
  count_slices, count_scores, count_results, no_tallies, distinct_buckets, bucket_list,
  build_metric, unkey, aggregate_scores,
}
use proofstep.Aggregation.Buckets.{
  same_items_iff, same_bucket_iff, at-change, has_key-change, mem-distinct_buckets, IsDistinct,
  bucket_list-IsDistinct,
}
use proofstep.Prelude.{is_empty, length}
use proofstep.Gates.Rules.{Metric}

module _ {F : Type 0} where
  -- The value that a score has for the mean, and the error that it counts as.
  abbrev pub scored : Score F → List F
  scored s = if errored s then [] else elim s.value [ none ↦ [] | some v ↦ v ∷ [] ]

  abbrev pub failed : Score F → ℕ
  failed s = if errored s then 1 else 0

  -- A score belongs to the bucket of its own slice, and to that slice merged with each extra one.
  abbrev pub belongs : Bucket → List SliceKey → Score F → Bool
  belongs b extra s =
      str_eq s.metric b.metric
      && mem_slice b.slice (slice_key s.slice ∷ map (merge (slice_key s.slice)) extra)

  unfoldable pub values_of : Bucket → List SliceKey → List (Score F) → List F
  values_of b extra [] = []
  values_of b extra (s ∷ scores) =
      (if belongs b extra s then scored s else []) ++ values_of b extra scores

  unfoldable pub errors_of : Bucket → List SliceKey → List (Score F) → ℕ
  errors_of b extra [] = 0
  errors_of b extra (s ∷ scores) =
      (if belongs b extra s then failed s else 0) + errors_of b extra scores

  -- All of a run.
  unfoldable pub all_values :
      (Value → String) → List String → Bucket → List (ExampleResult F) → List F
  all_values show slice_by b [] = []
  all_values show slice_by b (r ∷ results) =
      values_of b (extra_slices show r slice_by) r.scores ++ all_values show slice_by b results

  unfoldable pub all_errors : (Value → String) → List String → Bucket → List (ExampleResult F) → ℕ
  all_errors show slice_by b [] = 0
  all_errors show slice_by b (r ∷ results) =
      errors_of b (extra_slices show r slice_by) r.scores + all_errors show slice_by b results

  -- A score that has a value or an error.
  abbrev pub has_outcome : Score F → Bool
  has_outcome s = errored s || is_some s.value

  -- Some score of the bucket has an outcome.
  abbrev pub occurs : (Value → String) → List String → Bucket → List (ExampleResult F) → Bool
  occurs show slice_by b results =
      any (λ r. any (λ s. belongs b (extra_slices show r slice_by) s && has_outcome s) r.scores)
        results

  abbrev is_known : Bucket → Tallies F → Bool
  is_known b t = has_key b t.buckets || has_key b t.errors

  -- A bucket of a score.
  abbrev is_in : Bucket → Score F → SliceKey → Bool
  is_in b s key = str_eq s.metric b.metric && same_items key b.slice

  module _ (b : Bucket) where
    values-count_score :
        (s : Score F) (key : SliceKey) (t : Tallies F)
        → at [] b (count_score s key t).buckets
          ≡ at [] b t.buckets ++ (if is_in b s key then scored s else [])
    unfolding count_score with_last
    values-count_score s key t = elim (Option-cases s.error) [
      | inr (error, e) ↦ ground (arith, e, append-nil (at [] b t.buckets))
      | inl e ↦ elim (Option-cases s.value) [
        | inl f ↦ ground (arith, e, f, append-nil (at [] b t.buckets))
        | inr (v, f) ↦ ground (
          arith,
          e,
          f,
          append-nil (at [] b t.buckets),
          same_bucket_iff (record { metric = s.metric; slice = key }) b,
          at-change [] (with_last v) (record { metric = s.metric; slice = key }) b t.buckets,
        )
      ]
    ]

    errors-count_score :
        (s : Score F) (key : SliceKey) (t : Tallies F)
        → at 0 b (count_score s key t).errors
          ≡ at 0 b t.errors + (if is_in b s key then failed s else 0)
    unfolding count_score one_more
    errors-count_score s key t = elim (Option-cases s.error) [
      | inl e ↦ elim (Option-cases s.value) [
        | inl f ↦ ground (arith, e, f)
        | inr (v, f) ↦ ground (arith, e, f)
      ]
      | inr (error, e) ↦ ground (
        arith,
        e,
        same_bucket_iff (record { metric = s.metric; slice = key }) b,
        at-change 0 one_more (record { metric = s.metric; slice = key }) b t.errors,
      )
    ]

    -- A score is counted once in a bucket, however often the slice of the bucket is met.
    values-count_slices :
        (s : Score F) (keys : List SliceKey) (t : Tallies F)
        → at [] b (count_slices s (distinct keys) t).buckets
          ≡ at [] b t.buckets
            ++ (if str_eq s.metric b.metric && mem_slice b.slice keys then scored s else [])
    unfolding count_slices distinct
    values-count_slices s [] t = ground (arith, append-nil (at [] b t.buckets))
    values-count_slices s (k ∷ keys) t = elim (Bool-cases (mem_slice k keys)) [
      | inl m ↦ rw m (
          ground (
            arith,
            m,
            values-count_slices s keys t,
            same_items_iff k b.slice,
            λ (e : k ≡ b.slice). ap (λ x. mem_slice x keys) e,
          ))
      | inr m ↦ rw m (
          ground (
            arith,
            m,
            values-count_slices s keys (count_score s k t),
            values-count_score s k t,
            same_items_iff k b.slice,
            append-nil (at [] b t.buckets),
            append-nil (at [] b t.buckets ++ scored s),
            λ (e : k ≡ b.slice). ap (λ x. mem_slice x keys) e,
          ))
    ]

    errors-count_slices :
        (s : Score F) (keys : List SliceKey) (t : Tallies F)
        → at 0 b (count_slices s (distinct keys) t).errors
          ≡ at 0 b t.errors
            + (if str_eq s.metric b.metric && mem_slice b.slice keys then failed s else 0)
    unfolding count_slices distinct
    errors-count_slices s [] t = ground arith
    errors-count_slices s (k ∷ keys) t = elim (Bool-cases (mem_slice k keys)) [
      | inl m ↦ rw m (
          ground (
            arith,
            m,
            errors-count_slices s keys t,
            same_items_iff k b.slice,
            λ (e : k ≡ b.slice). ap (λ x. mem_slice x keys) e,
          ))
      | inr m ↦ rw m (
          ground (
            arith,
            m,
            errors-count_slices s keys (count_score s k t),
            errors-count_score s k t,
            same_items_iff k b.slice,
            λ (e : k ≡ b.slice). ap (λ x. mem_slice x keys) e,
          ))
    ]

    counts-count_scores :
        (extra : List SliceKey) (scores : List (Score F)) (t : Tallies F)
        → (at [] b (count_scores extra scores t).buckets
            ≡ at [] b t.buckets ++ values_of b extra scores)
          × (at 0 b (count_scores extra scores t).errors
              ≡ at 0 b t.errors + errors_of b extra scores)
    unfolding count_scores values_of errors_of slices_of
    counts-count_scores extra [] t = (sym (append-nil (at [] b t.buckets)), omega arith)
    counts-count_scores extra (s ∷ scores) t =
        let keys = slice_key s.slice ∷ map (merge (slice_key s.slice)) extra in
        let (values, errors) =
          counts-count_scores extra scores (count_slices s (distinct keys) t) in
        (
          values
              ∙ ap (λ vs. vs ++ values_of b extra scores) (values-count_slices s keys t)
              ∙ append_assoc (at [] b t.buckets) (if belongs b extra s then scored s else [])
                  (values_of b extra scores),
          omega (arith, errors, errors-count_slices s keys t),
        )

    known-count_score :
        (s : Score F) (key : SliceKey) (t : Tallies F)
        → is_known b (count_score s key t) ≡ (is_known b t || (is_in b s key && has_outcome s))
    unfolding count_score
    known-count_score s key t = elim (Option-cases s.error) [
      | inl e ↦ elim (Option-cases s.value) [
        | inl f ↦ ground (arith, e, f)
        | inr (v, f) ↦ ground (
          arith,
          e,
          f,
          has_key-change [] (with_last v) (record { metric = s.metric; slice = key }) b t.buckets,
        )
      ]
      | inr (error, e) ↦ ground (
        arith,
        e,
        has_key-change 0 one_more (record { metric = s.metric; slice = key }) b t.errors,
      )
    ]

    known-count_slices :
        (s : Score F) (keys : List SliceKey) (t : Tallies F)
        → is_known b (count_slices s (distinct keys) t)
          ≡ (is_known b t || (str_eq s.metric b.metric && mem_slice b.slice keys && has_outcome s))
    unfolding count_slices distinct
    known-count_slices s [] t = ground arith
    known-count_slices s (k ∷ keys) t = elim (Bool-cases (mem_slice k keys)) [
      | inl m ↦ rw m (
          ground (
            arith,
            m,
            known-count_slices s keys t,
            same_items_iff k b.slice,
            λ (e : k ≡ b.slice). ap (λ x. mem_slice x keys) e,
          ))
      | inr m ↦ rw m (
          ground (arith, m, known-count_slices s keys (count_score s k t), known-count_score s k t))
    ]

    known-count_scores :
        (extra : List SliceKey) (scores : List (Score F)) (t : Tallies F)
        → is_known b (count_scores extra scores t)
          ≡ (is_known b t || any (λ s. belongs b extra s && has_outcome s) scores)
    unfolding count_scores slices_of
    known-count_scores extra [] t = ground arith
    known-count_scores extra (s ∷ scores) t =
        let keys = slice_key s.slice ∷ map (merge (slice_key s.slice)) extra in
        ground (
          arith,
          known-count_slices s keys t,
          known-count_scores extra scores (count_slices s (distinct keys) t),
        )

    counts-count_results :
        (show : Value → String) (slice_by : List String) (results : List (ExampleResult F))
        (t : Tallies F)
        → (at [] b (count_results show slice_by results t).buckets
            ≡ at [] b t.buckets ++ all_values show slice_by b results)
          × (at 0 b (count_results show slice_by results t).errors
              ≡ at 0 b t.errors + all_errors show slice_by b results)
          × (is_known b (count_results show slice_by results t)
              ≡ (is_known b t || occurs show slice_by b results))
    unfolding count_results all_values all_errors
    counts-count_results show slice_by [] t =
        (sym (append-nil (at [] b t.buckets)), omega arith, ground arith)
    counts-count_results show slice_by (r ∷ results) t =
        let extra = extra_slices show r slice_by in
        let (values, errors, known) =
          counts-count_results show slice_by results (count_scores extra r.scores t) in
        let (first_values, first_errors) = counts-count_scores extra r.scores t in
        (
          values
              ∙ ap (λ vs. vs ++ all_values show slice_by b results) first_values
              ∙ append_assoc (at [] b t.buckets) (values_of b extra r.scores)
                  (all_values show slice_by b results),
          omega (arith, errors, first_errors),
          ground (arith, known, known-count_scores extra r.scores t),
        )

map_congr :
    {A B : Type 0} (f g : A → B) → ((x : A) → f x ≡ g x) → (xs : List A) → map f xs ≡ map g xs
map_congr f g h [] = refl
map_congr f g h (x ∷ xs) = λ i. h x i ∷ map_congr f g h xs i

unkey_lem : (key : SliceKey) → unkey key ≡ (if is_empty key then none else some key)
unkey_lem [] = refl
unkey_lem (item ∷ items) = refl

any-keys :
    {V : Type 0} (b : Bucket) (table : List (Bucket × V))
    → any (same_bucket b) (map (λ e. e.0) table) ≡ has_key b table
any-keys b [] = refl
any-keys b (e ∷ table) = ground (arith, any-keys b table)

mem-bucket_list :
    {F : Type 0} (b : Bucket) (t : Tallies F) → any (same_bucket b) (bucket_list t) ≡ is_known b t
unfolding bucket_list
mem-bucket_list b t =
    any-sort_by bucket_leb (same_bucket b)
      (distinct_buckets (map (λ e. e.0) t.buckets ++ map (λ e. e.0) t.errors))
    ∙ mem-distinct_buckets b (map (λ e. e.0) t.buckets ++ map (λ e. e.0) t.errors)
    ∙ any-append (same_bucket b) (map (λ e. e.0) t.buckets) (map (λ e. e.0) t.errors)
    ∙ ground (arith, any-keys b t.buckets, any-keys b t.errors)

module _ {F : Type 0} (show : Value → String) (zero_value : F) (mean : List F → F)
    (slice_by : List String) (results : List (ExampleResult F)) where
  abbrev tallied : Tallies F
  tallied = count_results show slice_by results no_tallies

  built :
      (bs : List Bucket)
      → map
          (λ b. build_metric zero_value mean b (at [] b tallied.buckets) (at 0 b tallied.errors))
          bs
        ≡ map
            (λ b.
              build_metric zero_value mean b
                (all_values show slice_by b results)
                (all_errors show slice_by b results))
            bs
  unfolding at
  built [] = refl
  built (b ∷ bs) =
      let (values, errors, _) = counts-count_results b show slice_by results no_tallies in
      let same_values : at [] b tallied.buckets ≡ all_values show slice_by b results = values in
      let same_errors : at 0 b tallied.errors ≡ all_errors show slice_by b results =
        omega (arith, errors) in
      λ i. build_metric zero_value mean b (same_values i) (same_errors i) ∷ built bs i

  -- The mean of some values, or zero.
  abbrev pub mean_or_zero : List F → F
  mean_or_zero [] = zero_value
  mean_or_zero (v ∷ vs) = mean (v ∷ vs)

  -- The metric of a bucket, from the scores that belong to it.
  abbrev pub metric_of : Bucket → Metric F
  metric_of b = record {
    key = b.metric;
    value = mean_or_zero (all_values show slice_by b results);
    count = length (all_values show slice_by b results);
    error_count = all_errors show slice_by b results;
    slice = if is_empty b.slice then none else some b.slice;
  }

  built-metric_of :
      (b : Bucket) (values : List F) (errors : ℕ)
      → build_metric zero_value mean b values errors ≡ (record {
        key = b.metric;
        value = mean_or_zero values;
        count = length values;
        error_count = errors;
        slice = if is_empty b.slice then none else some b.slice;
      })
  unfolding build_metric
  built-metric_of b values errors = λ i. record {
    key = b.metric;
    value = mean_or_zero values;
    count = length values;
    error_count = errors;
    slice = unkey_lem b.slice i;
  }

  -- A metric is made of the scores of its bucket, and of them alone. The buckets of a run are
  -- distinct, and are exactly those in which a score has a value or an error. The metric of a bucket
  -- has its name and its slice, the mean of the values of the scores that belong to it and have no
  -- error, in order, or zero if there are none, the number of these values, and apart from it that
  -- of the scores with an error. So an error is never a value, and a bucket with errors only has a
  -- metric with the count 0.
  pub aggregate_scores_lem :
      (bs : List Bucket) × (aggregate_scores show zero_value mean slice_by results
        ≡ map metric_of bs)
      × IsDistinct bs
      × ((b : Bucket) → any (same_bucket b) bs ≡ occurs show slice_by b results)
  unfolding aggregate_scores
  aggregate_scores_lem = (
    bucket_list tallied,
    built (bucket_list tallied)
        ∙ map_congr _ metric_of
            (λ b.
              built-metric_of b (all_values show slice_by b results)
                (all_errors show slice_by b results))
            (bucket_list tallied),
    bucket_list-IsDistinct tallied,
    λ b. mem-bucket_list b tallied ∙ (counts-count_results b show slice_by results no_tallies).2,
  )
