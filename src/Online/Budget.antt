-- ===== src/Online/Budget.antt =====
-- The monthly ceiling: apps/api/src/proofstep_api/services/budget.py.
-- `ratio` and `warning`, which only a log line reads, are floating-point and left out.
use proofstep.Prelude.{
  ℕ, ◌+◌, ◌-◌, Bool, false, not, Option, none, some, List, [], ◌∷◌, leb, if◌then◌else◌, is_some,
}
use proofstep.Online.Rows.{OnlineEvaluation, Store}

-- A limit below zero acts as 0 does.
pub record BudgetStatus : Type 0 where
  pub limit : Option ℕ
  pub spent : ℕ
  pub month_start : ℕ

abbrev pub is_unlimited : BudgetStatus → Bool
is_unlimited b = not (is_some b.limit)

abbrev pub remaining : BudgetStatus → Option ℕ
remaining b = elim b.limit [ none ↦ none | some limit ↦ some (limit - b.spent) ]

abbrev pub is_exhausted : BudgetStatus → Bool
is_exhausted b = elim b.limit [ none ↦ false | some limit ↦ leb limit b.spent ]

-- The sum of the costs since a time.
unfoldable pub spent_since : ℕ → List OnlineEvaluation → ℕ
spent_since start [] = 0
spent_since start (e ∷ es) =
    let rest = spent_since start es in if leb start e.created_at then e.cost + rest else rest

-- `month_start` is the first instant of the month of a time.
unfoldable pub status : (ℕ → ℕ) → ℕ → Store → BudgetStatus
status month_start now store = record {
  limit = store.monthly_cost_limit;
  spent = spent_since (month_start now) store.evaluations;
  month_start = month_start now;
}
