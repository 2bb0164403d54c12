-- ===== src/Aggregation.antt =====
-- From scores to metrics: packages/evaluation-core/src/proofstep_core/aggregate.py, with the records of
-- packages/shared-types/src/proofstep_types (score.py, results.py) that it reads.
use proofstep.Prelude.{
  ℕ, ◌+◌, String, Bool, true, false, ◌&&◌, Option, none, some, List, [], ◌∷◌, ◌++◌, map,
  if◌then◌else◌, is_some, length, any, str_eq,
}
use proofstep.Prelude.{str_leb}
use proofstep.Prelude.Sort.{sort_by}
use proofstep.Prelude.Dict.{Dict, put}
use proofstep.Types.Value.{Value, Fields, get_field}
use proofstep.Gates.Rules.{Slice, Metric}
use proofstep.Gates.Apply.{item_le, slice_key, same_items}
pub mod Buckets
pub mod Sums
pub mod Examples

pub record Score (F : Type 0) : Type 0 where
  pub metric : String
  pub value : Option F
  pub error : Option String
  pub slice : Slice

pub record ExampleResult (F : Type 0) : Type 0 where
  pub example_id : String
  pub scores : List (Score F)
  pub trace_id : Option String
  pub metadata : Fields
  pub expected : Option Fields

-- A slice by its sorted items.
abbrev pub SliceKey : Type 0
SliceKey = Dict String

pub record Bucket : Type 0 where
  pub metric : String
  pub slice : SliceKey

abbrev pub same_bucket : Bucket → Bucket → Bool
same_bucket a b = str_eq a.metric b.metric && same_items a.slice b.slice

-- `a <= b` for tuples of pairs of texts
unfoldable pub slice_leb : SliceKey → SliceKey → Bool
slice_leb [] others = true
slice_leb (a ∷ rest) [] = false
slice_leb (a ∷ rest) (b ∷ others) =
    let tail = slice_leb rest others in
    if str_eq a.0 b.0 && str_eq a.1 b.1 then tail else item_le a b

abbrev pub bucket_leb : Bucket → Bucket → Bool
bucket_leb a b =
    if str_eq a.metric b.metric then slice_leb a.slice b.slice else str_leb a.metric b.metric

-- `{**a, **b}`
unfoldable pub overridden : SliceKey → SliceKey → SliceKey
overridden a [] = a
overridden a ((k, v) ∷ b) = overridden (put k v a) b

-- `_merge`
unfoldable pub merge : SliceKey → SliceKey → SliceKey
merge a b = sort_by item_le (overridden a b)

-- `show` is `str`.
module _ (show : Value → String) where
  abbrev present : Option Value → Option Value
  present (some Value.null) = none
  present other = other

  abbrev expected_value : String → Option Fields → Option Value
  expected_value dimension none = none
  expected_value dimension (some expected) = get_field dimension expected

  abbrev pub value_of : {F : Type 0} → ExampleResult F → String → Option Value
  value_of result dimension = elim (present (get_field dimension result.metadata)) [
    | some v ↦ some v
    | none ↦ present (expected_value dimension result.expected)
  ]

  unfoldable pub extra_slices : {F : Type 0} → ExampleResult F → List String → List SliceKey
  extra_slices result [] = []
  extra_slices result (dimension ∷ dimensions) = elim (value_of result dimension) [
    | none ↦ extra_slices result dimensions
    | some v ↦ ((dimension, show v) ∷ []) ∷ extra_slices result dimensions
  ]

abbrev pub mem_slice : SliceKey → List SliceKey → Bool
mem_slice key keys = any (λ k. same_items k key) keys

-- `set(keys)`, in some order
unfoldable pub distinct : List SliceKey → List SliceKey
distinct [] = []
distinct (key ∷ keys) = let rest = distinct keys in if mem_slice key keys then rest else key ∷ rest

-- `{own, *[_merge(own, s) for s in extra]}`
unfoldable pub slices_of : SliceKey → List SliceKey → List SliceKey
slices_of own extra = distinct (own ∷ map (merge own) extra)

-- A `defaultdict` whose keys are buckets.
abbrev pub Table : Type 0 → Type 0
Table V = List (Bucket × V)

module _ {V : Type 0} where
  unfoldable pub at : V → Bucket → Table V → V
  at default b [] = default
  at default b ((c, v) ∷ table) = if same_bucket b c then v else at default b table

  unfoldable pub change : V → (V → V) → Bucket → Table V → Table V
  change default f b [] = (b, f default) ∷ []
  change default f b ((c, v) ∷ table) =
      let rest = (c, v) ∷ change default f b table in
      if same_bucket b c then (c, f v) ∷ table else rest

  abbrev pub has_key : Bucket → Table V → Bool
  has_key b table = any (λ e. same_bucket b e.0) table

-- The keys of both tables, once each.
unfoldable pub distinct_buckets : List Bucket → List Bucket
distinct_buckets [] = []
distinct_buckets (b ∷ bs) =
    let rest = distinct_buckets bs in if any (same_bucket b) bs then rest else b ∷ rest

-- `_unkey`
abbrev pub unkey : SliceKey → Slice
unkey [] = none
unkey (item ∷ items) = some (item ∷ items)

-- `count += 1`
unfoldable pub one_more : ℕ → ℕ
one_more n = n + 1

pub record Tallies (F : Type 0) : Type 0 where
  pub buckets : Table (List F)
  pub errors : Table ℕ

module _ {F : Type 0} where
  abbrev pub errored : Score F → Bool
  errored s = is_some s.error

  -- `values.append(v)`
  unfoldable pub with_last : F → List F → List F
  with_last v values = values ++ v ∷ []

  -- A score in one bucket.
  unfoldable pub count_score : Score F → SliceKey → Tallies F → Tallies F
  count_score s key t =
      let b : Bucket = record { metric = s.metric; slice = key } in
      if errored s then record t { errors = change 0 one_more b t.errors } else elim s.value [
        | none ↦ t
        | some v ↦ record t { buckets = change [] (with_last v) b t.buckets }
      ]

  unfoldable pub count_slices : Score F → List SliceKey → Tallies F → Tallies F
  count_slices s [] t = t
  count_slices s (key ∷ keys) t = count_slices s keys (count_score s key t)

  unfoldable pub count_scores : List SliceKey → List (Score F) → Tallies F → Tallies F
  count_scores extra [] t = t
  count_scores extra (s ∷ scores) t =
      count_scores extra scores (count_slices s (slices_of (slice_key s.slice) extra) t)

  unfoldable pub count_results :
      (Value → String) → List String → List (ExampleResult F) → Tallies F → Tallies F
  count_results show slice_by [] t = t
  count_results show slice_by (result ∷ results) t =
      count_results show slice_by results
        (count_scores (extra_slices show result slice_by) result.scores t)

  abbrev pub no_tallies : Tallies F
  no_tallies = record { buckets = []; errors = [] }

  unfoldable pub bucket_list : Tallies F → List Bucket
  bucket_list t =
      sort_by bucket_leb (distinct_buckets (map (λ e. e.0) t.buckets ++ map (λ e. e.0) t.errors))

  -- `_build_metric`, as far as the gates read the metric; `zero` is 0.0 and `mean` that of stats.py.
  unfoldable pub build_metric : F → (List F → F) → Bucket → List F → ℕ → Metric F
  build_metric zero_value mean b values error_count = record {
    key = b.metric;
    value = elim values [ [] ↦ zero_value | v ∷ vs ↦ mean (v ∷ vs) ];
    count = length values;
    error_count = error_count;
    slice = unkey b.slice;
  }

  unfoldable pub aggregate_scores :
      (Value → String) → F → (List F → F) → List String → List (ExampleResult F) → List (Metric F)
  aggregate_scores show zero_value mean slice_by results =
      let t = count_results show slice_by results no_tallies in
      map (λ b. build_metric zero_value mean b (at [] b t.buckets) (at 0 b t.errors))
        (bucket_list t)
