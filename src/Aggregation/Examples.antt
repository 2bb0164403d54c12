-- ===== src/Aggregation/Examples.antt =====
-- A run of two examples, with a judge that timed out.
use proofstep.Prelude.{ℕ, String, ◌≡◌, Option, none, some, List, [], ◌∷◌, map, any}
use proofstep.Types.Value.{Value, Fields}
use proofstep.Aggregation.{Score, ExampleResult, Bucket, same_bucket, aggregate_scores}
use proofstep.Aggregation.Buckets.{IsDistinct}
use proofstep.Aggregation.Sums.{metric_of, occurs, aggregate_scores_lem}

abbrev accuracy : Option ℕ → Option String → Score ℕ
accuracy value error = record { metric = "accuracy"; value = value; error = error; slice = none }

abbrev example : String → Score ℕ → ExampleResult ℕ
example id score = record {
  example_id = id;
  scores = score ∷ [];
  trace_id = none;
  metadata = Fields.field "class" (Value.text id) Fields.done;
  expected = none;
}

abbrev run : List (ExampleResult ℕ)
run = example "a" (accuracy (some 1) none) ∷ example "b" (accuracy none (some "timeout")) ∷ []

abbrev show : Value → String
show (Value.text s) = s
show v = ""

abbrev first_of : List ℕ → ℕ
first_of [] = 0
first_of (n ∷ ns) = n

aggregate_scores_lem_example :
    (bs : List Bucket) × (aggregate_scores show 0 first_of ("class" ∷ []) run
      ≡ map (metric_of show 0 first_of ("class" ∷ []) run) bs)
    × IsDistinct bs
    × ((b : Bucket) → any (same_bucket b) bs ≡ occurs show ("class" ∷ []) b run)
aggregate_scores_lem_example = aggregate_scores_lem show 0 first_of ("class" ∷ []) run
