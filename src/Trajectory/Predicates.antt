-- ===== src/Trajectory/Predicates.antt =====
-- Predicates: packages/trajectory-engine/src/proofstep_trajectory/predicates.py.
use proofstep.Prelude.{
  String, Bool, true, false, not, ◌||◌, Option, none, some, List, [], ◌∷◌, ltb, if◌then◌else◌,
  is_some, length, str_eq, mem_text,
}
use proofstep.Prelude.{codes, strip_prefix}
use proofstep.Types.Value.{Value, Items, Fields, get_field, truthy, number}
use proofstep.Trajectory.Predicates.Syntax.{CompareOp, Expr, Exprs, Comparisons, accepted}
use proofstep.Trajectory.Predicates.Values.{
  or_null, equal, less, value_in, contains, ends_with, negated, unchanged,
}
pub mod Values
pub mod Syntax
pub mod Safety

-- What a predicate takes from Python: the parser, attributes of values that are no dictionaries,
-- the identity of objects, `str` of a value that is no text, the case of texts, and the built-in
-- functions of the list. `none` is an exception.
pub record Python : Type 0 where
  pub parse : String → Option Expr
  pub member_of : Value → String → Value
  pub same_object : Value → Value → Bool
  pub show : Value → String
  pub lower : String → String
  pub upper : String → String
  pub builtin : String → List Value → Option Value

-- `base.get(attr)` or `getattr(base, attr, None)`
abbrev pub attribute_of : Python → Value → String → Value
attribute_of py (Value.obj d) attr = or_null (get_field attr d)
attribute_of py v attr = py.member_of v attr

-- `left is right`: `None`, `True` and `False` are single objects.
abbrev pub identical : Python → Value → Value → Bool
identical py Value.null w = elim w [ Value.null ↦ true | _ ↦ false ]
identical py v Value.null = false
identical py v w = py.same_object v w

abbrev pub is_null : Value → Bool
is_null Value.null = true
is_null _ = false

abbrev not_option : Option Bool → Option Bool
not_option none = none
not_option (some b) = some (not b)

-- `v <= w`: below or equal.
abbrev no_more : Option Bool → Bool → Option Bool
no_more none same = none
no_more (some below) same = some (below || same)

-- The orderings, of two values that are not `None`.
abbrev pub ordered : CompareOp → Value → Value → Option Bool
ordered CompareOp.lt v w = less v w
ordered CompareOp.lt_e v w = no_more (less v w) (equal v w)
ordered CompareOp.gt v w = less w v
ordered CompareOp.gt_e v w = no_more (less w v) (equal w v)
ordered _ v w = none

-- `_apply`
unfoldable pub apply_op : Python → CompareOp → Value → Value → Option Bool
apply_op py CompareOp.eq v w = some (equal v w)
apply_op py CompareOp.not_eq v w = some (not (equal v w))
apply_op py CompareOp.is v w = some (identical py v w)
apply_op py CompareOp.is_not v w = some (not (identical py v w))
apply_op py CompareOp.member v w = some (contains w v)
apply_op py CompareOp.not_member v w = some (not (contains w v))
apply_op py op v w = if is_null v || is_null w then some false else ordered op v w

abbrev pub text_of : Python → Value → String
text_of py (Value.text s) = s
text_of py v = py.show v

-- The functions of the list that predicates.py defines, of one argument and of two.
unfoldable pub call_one : Python → String → Value → Option Value
call_one py f v =
    if str_eq f "exists"
    then some (Value.flag (not (is_null v)))
    else if str_eq f "bool"
    then some (Value.flag (truthy v))
    else if str_eq f "lower"
    then some (Value.text (py.lower (text_of py v)))
    else if str_eq f "upper"
    then some (Value.text (py.upper (text_of py v)))
    else if str_eq f "contains" || str_eq f "startswith" || str_eq f "endswith"
    then none
    else py.builtin f (v ∷ [])

abbrev flag_of : Option Bool → Option Value
flag_of none = none
flag_of (some b) = some (Value.flag b)

unfoldable pub call_two : Python → String → Value → Value → Option Value
call_two py f v w =
    if str_eq f "contains"
    then if is_null v then some (Value.flag false) else flag_of (value_in w v)
    else if str_eq f "startswith"
    then some (Value.flag (is_some (strip_prefix (text_of py w) (text_of py v))))
    else if str_eq f "endswith"
    then some (Value.flag (ends_with (text_of py w) (text_of py v)))
    else if str_eq f "exists" || str_eq f "bool" || str_eq f "lower" || str_eq f "upper"
    then none
    else py.builtin f (v ∷ w ∷ [])

-- `_FUNCTIONS[f](*args)`
unfoldable pub call_function : Python → String → List Value → Option Value
call_function py f (v ∷ []) = call_one py f v
call_function py f (v ∷ w ∷ []) = call_two py f v w
call_function py f vs =
    if mem_text f ("exists" ∷ "lower" ∷ "upper" ∷ "contains" ∷ "startswith" ∷ "endswith" ∷ [])
    then none
    else py.builtin f vs

abbrev pub items_of : List Value → Items
items_of [] = Items.nil
items_of (v ∷ vs) = Items.cons v (items_of vs)

abbrev pub function_name : Expr → Option String
function_name (Expr.identifier f) = some f
function_name _ = none

infixr 5 ◌>=>◌
abbrev pub ◌>=>◌ {ℓ κ} : {A : Type ℓ} {B : Type κ} → Option A → (A → Option B) → Option B
none >=> f = none
some a >=> f = f a

unfoldable mutual
  -- `_eval`: `none` is an exception.
  pub eval : Python → Fields → Expr → Option Value
  eval py ns (Expr.constant v) = some v
  eval py ns (Expr.identifier s) = some (or_null (get_field s ns))
  eval py ns (Expr.attribute e attr) = eval py ns e >=> λ base. some (attribute_of py base attr)
  eval py ns (Expr.all_of es) = eval_and py ns es >=> λ b. some (Value.flag b)
  eval py ns (Expr.any_of es) = eval_or py ns es >=> λ b. some (Value.flag b)
  eval py ns (Expr.negation e) = eval py ns e >=> λ v. some (Value.flag (not (truthy v)))
  eval py ns (Expr.minus e) = eval py ns e >=> λ v. negated (number v)
  eval py ns (Expr.plus e) = eval py ns e >=> λ v. unchanged (number v)
  eval py ns (Expr.compare e cs) =
      eval py ns e >=> λ left. eval_compare py ns left cs >=> λ b. some (Value.flag b)
  eval py ns (Expr.sequence es) = eval_all py ns es >=> λ vs. some (Value.arr (items_of vs))
  eval py ns (Expr.call f args) =
      function_name f >=> λ name. eval_all py ns args >=> λ vs. call_function py name vs
  eval py ns (Expr.other node es) = none

  pub eval_all : Python → Fields → Exprs → Option (List Value)
  eval_all py ns Exprs.empty = some []
  eval_all py ns (Exprs.more e es) = eval py ns e >=> λ v. eval_all py ns es >=> λ vs. some (v ∷ vs)

  -- `all` and `any` over the operands: the rest is left alone once the answer is known.
  pub eval_and : Python → Fields → Exprs → Option Bool
  eval_and py ns Exprs.empty = some true
  eval_and py ns (Exprs.more e es) =
      eval py ns e >=> λ v. elim (truthy v) [ true ↦ eval_and py ns es | false ↦ some false ]

  pub eval_or : Python → Fields → Exprs → Option Bool
  eval_or py ns Exprs.empty = some false
  eval_or py ns (Exprs.more e es) =
      eval py ns e >=> λ v. elim (truthy v) [ true ↦ some true | false ↦ eval_or py ns es ]

  -- The loop of `_compare`.
  pub eval_compare : Python → Fields → Value → Comparisons → Option Bool
  eval_compare py ns left Comparisons.end = some true
  eval_compare py ns left (Comparisons.next op e cs) = eval py ns e >=> λ right.
      apply_op py op left right >=> λ holds. elim holds [
        | true ↦ eval_compare py ns right cs
        | false ↦ some false
      ]

-- Why a predicate is refused: too long, no expression, a node or name that is not allowed, or an
-- exception in its evaluation. Each carries the source.
pub data PredicateError : Type 0 where
  too_long : String → PredicateError
  invalid : String → PredicateError
  refused : String → PredicateError
  failed : String → PredicateError

pub data Compiled : Type 0 where
  tree : Expr → Compiled
  error : PredicateError → Compiled

-- The outcome of `evaluate`: a Boolean, or a `PredicateError`.
pub data Evaluated : Type 0 where
  value : Bool → Evaluated
  broken : PredicateError → Evaluated

abbrev pub checked_tree : String → Option Expr → Compiled
checked_tree source none = Compiled.error (PredicateError.invalid source)
checked_tree source (some e) =
    if accepted e then Compiled.tree e else Compiled.error (PredicateError.refused source)

unfoldable pub compile_predicate : Python → String → Compiled
compile_predicate py source =
    if ltb 500 (length (codes source))
    then Compiled.error (PredicateError.too_long source)
    else checked_tree source (py.parse source)

abbrev pub as_bool : String → Option Value → Evaluated
as_bool source none = Evaluated.broken (PredicateError.failed source)
as_bool source (some v) = Evaluated.value (truthy v)

abbrev pub run_compiled : Python → String → Fields → Compiled → Evaluated
run_compiled py source ns (Compiled.error e) = Evaluated.broken e
run_compiled py source ns (Compiled.tree e) = as_bool source (eval py ns e)

unfoldable pub evaluate : Python → String → Fields → Evaluated
evaluate py source ns = run_compiled py source ns (compile_predicate py source)
