-- ===== src/Trajectory/Examples/Predicates.antt =====
-- A predicate in two Pythons that differ only in what no predicate reaches.
use proofstep.Prelude.{
  String, ◌≡◌, refl, true, false, Option, none, some, List, if◌then◌else◌, mem_text,
}
use proofstep.Prelude.{strip_prefix}
use proofstep.Types.Value.{Value, Fields, get_field}
use proofstep.Trajectory.Predicates.Syntax.{
  Expr, Comparisons, CompareOp, functions, is_private, accepted,
}
use proofstep.Trajectory.Predicates.Values.{equal}
use proofstep.Trajectory.Predicates.{Python, Evaluated, evaluate, compile_predicate, eval, apply_op}
use proofstep.Trajectory.Predicates.Safety.{altered, evaluate-altered}

-- `state.done == True`
abbrev is_done : Expr
is_done =
    Expr.compare (Expr.attribute (Expr.identifier "state") "done")
      (Comparisons.next CompareOp.eq (Expr.constant (Value.flag true)) Comparisons.end)

abbrev no_builtin : String → List Value → Option Value
no_builtin f vs = none

abbrev no_member : Value → String → Value
no_member v attr = Value.null

abbrev pub small_python : Python
small_python = record {
  parse = λ source. some is_done;
  member_of = no_member;
  same_object = λ v w. false;
  show = λ v. "?";
  lower = λ s. s;
  upper = λ s. s;
  builtin = no_builtin;
}

abbrev leaking_member : Value → String → Value
leaking_member v attr = if is_private attr then Value.text "secret" else Value.null

abbrev leaking_builtin : String → List Value → Option Value
leaking_builtin f vs = if mem_text f functions then none else some (Value.text "secret")

abbrev done_state : Fields
done_state =
    Fields.field "state" (Value.obj (Fields.field "done" (Value.flag true) Fields.done)) Fields.done

same_member :
    (v : Value) (attr : String) → is_private attr ≡ false → no_member v attr ≡ leaking_member v attr
same_member v attr shown = rw shown refl

same_builtin :
    (f : String) (vs : List Value)
    → mem_text f functions ≡ true
    → no_builtin f vs ≡ leaking_builtin f vs
same_builtin f vs listed = rw listed refl

evaluate-altered_example :
    evaluate small_python "state.done == True" done_state
    ≡ evaluate (altered small_python leaking_member leaking_builtin) "state.done == True" done_state
evaluate-altered_example =
    evaluate-altered small_python leaking_member leaking_builtin same_member same_builtin
      "state.done == True" done_state

done_holds : evaluate small_python "state.done == True" done_state ≡ Evaluated.value true
unfolding evaluate compile_predicate accepted eval apply_op equal get_field strip_prefix
done_holds = refl
