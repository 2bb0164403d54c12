-- ===== src/Trajectory/Predicates/Syntax.antt =====
-- The syntax of predicates, and what `compile_predicate` of predicates.py accepts.
use proofstep.Prelude.{String, Bool, true, false, not, ◌&&◌, List, [], ◌∷◌, is_some, mem_text}
use proofstep.Prelude.{strip_prefix}
use proofstep.Types.Value.{Value}

pub data CompareOp : Type 0 where
  eq not_eq is is_not lt lt_e gt gt_e member not_member : CompareOp

-- A syntax tree as `ast.parse` gives it. A node of any type that has no constructor here is `other`,
-- with the name of its type and its children.
mutual
  pub data Expr : Type 0 where
    constant : Value → Expr
    identifier : String → Expr
    attribute : Expr → String → Expr
    all_of : Exprs → Expr
    any_of : Exprs → Expr
    negation : Expr → Expr
    minus : Expr → Expr
    plus : Expr → Expr
    compare : Expr → Comparisons → Expr
    sequence : Exprs → Expr
    call : Expr → Exprs → Expr
    other : String → Exprs → Expr

  pub data Exprs : Type 0 where
    empty : Exprs
    more : Expr → Exprs → Exprs

  pub data Comparisons : Type 0 where
    end : Comparisons
    next : CompareOp → Expr → Comparisons → Comparisons

-- `_FUNCTIONS`
abbrev pub functions : List String
functions =
    "len" ∷ "lower" ∷ "upper" ∷ "startswith" ∷ "endswith" ∷ "contains" ∷ "exists" ∷ "int" ∷ "float"
    ∷ "str" ∷ "bool" ∷ "abs" ∷ "min" ∷ "max" ∷ []

abbrev pub is_private : String → Bool
is_private attr = is_some (strip_prefix "_" attr)

-- The two tests of a call.
abbrev pub is_listed : Expr → Bool
is_listed (Expr.identifier f) = mem_text f functions
is_listed _ = false

unfoldable mutual
  -- Whether the walk of `compile_predicate` raises for no node.
  pub accepted : Expr → Bool
  accepted (Expr.constant v) = true
  accepted (Expr.identifier s) = true
  accepted (Expr.attribute e attr) = not (is_private attr) && accepted e
  accepted (Expr.all_of es) = accepted_all es
  accepted (Expr.any_of es) = accepted_all es
  accepted (Expr.negation e) = accepted e
  accepted (Expr.minus e) = accepted e
  accepted (Expr.plus e) = accepted e
  accepted (Expr.compare e cs) = accepted e && accepted_rest cs
  accepted (Expr.sequence es) = accepted_all es
  accepted (Expr.call f args) = is_listed f && accepted_all args
  accepted (Expr.other node es) = false

  pub accepted_all : Exprs → Bool
  accepted_all Exprs.empty = true
  accepted_all (Exprs.more e es) = accepted e && accepted_all es

  pub accepted_rest : Comparisons → Bool
  accepted_rest Comparisons.end = true
  accepted_rest (Comparisons.next op e cs) = accepted e && accepted_rest cs
