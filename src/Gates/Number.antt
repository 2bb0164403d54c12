-- ===== src/Gates/Number.antt =====
-- Floating-point numbers, by the operations that gates.py applies to them.
use proofstep.Prelude.{ℕ, Bool, false, Option, none, some}

-- No law is assumed: a comparison with NaN is false, and `lt` and `le` are apart.
pub record Number (F : Type 0) : Type 0 where
  pub lt : F → F → Bool
  pub le : F → F → Bool
  pub sub : F → F → F
  pub div : F → F → F
  pub abs : F → F
  pub zero : F
  pub is_zero : F → Bool
  pub ratio : ℕ → ℕ → F

module _ {F : Type 0} (num : Number F) where
  -- `limit is not None and value > limit`
  abbrev pub above : Option F → F → Bool
  above none value = false
  above (some limit) value = num.lt limit value

  -- `limit is not None and value < limit`
  abbrev pub below : Option F → F → Bool
  below none value = false
  below (some limit) value = num.lt value limit
