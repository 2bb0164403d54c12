-- ===== src/Redaction/Examples.antt =====
-- A payload with a password in a list of accounts.
use proofstep.Prelude.{◌≡◌, refl, ◌⊎◌, inl, true, false, Option, none, some, List, [], ◌∷◌}
use proofstep.Types.Value.{ℤ, Value, Items, Fields}
use proofstep.Redaction.{Tools}
use proofstep.Redaction.Modes.{CaptureMode, stores_payloads}
use proofstep.Redaction.Walk.{pipeline, apply, no_counts}
use proofstep.Redaction.Masked.{Covered}
use proofstep.Redaction.Masked.Everywhere.{apply-Covered}

abbrev tools : Tools
tools = record {
  lower = λ s. s;
  search = λ name s. false;
  sub = λ name s. s;
  is_dense = λ s. false;
  split = λ s. s ∷ [];
  str = λ n. "0";
}

abbrev payload : Value
payload = Value.obj (
    Fields.field "accounts"
      (Value.arr (
        Items.cons (Value.obj (Fields.field "password" (Value.text "hunter2") Fields.done))
          Items.nil))
      (Fields.field "total" (Value.int (ℤ.pos 1)) Fields.done))

apply-Covered_example :
    ((stores_payloads CaptureMode.full ≡ false)
      × (apply tools.str (pipeline tools (some []) CaptureMode.full 100) payload ""
          ≡ (Value.null, no_counts)))
    ⊎ ((stores_payloads CaptureMode.full ≡ true)
        × Covered tools ""
            (apply tools.str (pipeline tools (some []) CaptureMode.full 100) payload "").0)
apply-Covered_example =
    apply-Covered tools (refl, refl, refl) (some []) CaptureMode.full 100 payload "" (inl refl)

abbrev modes : List (Option CaptureMode)
modes = none ∷ some CaptureMode.full ∷ some CaptureMode.metadata_only ∷ []
