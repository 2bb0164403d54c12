-- ===== src/Trajectory/Predicates/Safety.antt =====
-- What an accepted predicate can reach.
use proofstep.Prelude.{
  String, ◌≡◌, refl, ap, ◌∙◌, inl, inr, Bool, true, false, not, ◌&&◌, Option, none, some, List, [],
  ◌∷◌, arith, ltb, Bool-cases, length, mem_text,
}
use proofstep.Prelude.{codes}
use proofstep.Types.Value.{Value, Fields, truthy}
use proofstep.Trajectory.Predicates.Syntax.{
  Expr, Exprs, Comparisons, CompareOp, functions, is_private, is_listed, accepted, accepted_all,
  accepted_rest,
}
use proofstep.Trajectory.Predicates.{
  evaluate, compile_predicate, checked_tree, run_compiled, as_bool, Python, attribute_of, apply_op,
  call_one, call_two, call_function, function_name, eval, eval_all, eval_and, eval_or, eval_compare,
  ◌>=>◌,
}

bind_ext :
    {A B : Type 0} (m : Option A) {f g : A → Option B}
    → ((a : A) → f a ≡ g a)
    → (m >=> f) ≡ (m >=> g)
bind_ext none h = refl
bind_ext (some a) h = h a

bind_congr :
    {A B : Type 0} {m n : Option A} {f g : A → Option B}
    → m ≡ n
    → ((a : A) → f a ≡ g a)
    → (m >=> f) ≡ (n >=> g)
bind_congr {n} {f} p h = ap (λ o. o >=> f) p ∙ bind_ext n h

if_congr :
    {A : Type 0} (b : Bool) {x y z w : A}
    → x ≡ z
    → y ≡ w
    → (elim b as (λ _. A) [ true ↦ x | false ↦ y ]) ≡ (elim b as (λ _. A) [ true ↦ z | false ↦ w ])
if_congr true p q = p
if_congr false p q = q

and-left : (a b : Bool) → (a && b) ≡ true → a ≡ true
and-left a b h = ground arith

and-right : (a b : Bool) → (a && b) ≡ true → b ≡ true
and-right a b h = ground arith

is_listed-name :
    (f : Expr) (name : String)
    → function_name f ≡ some name
    → is_listed f ≡ true
    → mem_text name functions ≡ true
is_listed-name f name named listed = ground arith

-- The same Python, with other attributes and other built-in functions.
abbrev pub altered :
    Python → (Value → String → Value) → (String → List Value → Option Value) → Python
altered py member_of builtin = record py { member_of = member_of; builtin = builtin }

module _ (py : Python) (member_of : Value → String → Value)
    (builtin : String → List Value → Option Value)
    (same_member : (v : Value) (attr : String)
      → is_private attr ≡ false
      → py.member_of v attr ≡ member_of v attr)
    (same_builtin : (f : String) (vs : List Value)
      → mem_text f functions ≡ true
      → py.builtin f vs ≡ builtin f vs) where
  same_call :
      (f : String) (vs : List Value)
      → mem_text f functions ≡ true
      → call_function py f vs ≡ call_function (altered py member_of builtin) f vs
  unfolding call_function call_one call_two
  same_call f [] listed = ground (arith, same_builtin f [])
  same_call f (v ∷ []) listed = ground (arith, same_builtin f (v ∷ []))
  same_call f (v ∷ w ∷ []) listed = ground (arith, same_builtin f (v ∷ w ∷ []))
  same_call f (v ∷ w ∷ x ∷ vs) listed = ground (arith, same_builtin f (v ∷ w ∷ x ∷ vs))

  same_attribute :
      (v : Value) (attr : String)
      → is_private attr ≡ false
      → attribute_of py v attr ≡ attribute_of (altered py member_of builtin) v attr
  same_attribute Value.null attr shown = same_member Value.null attr shown
  same_attribute (Value.flag b) attr shown = same_member (Value.flag b) attr shown
  same_attribute (Value.int z) attr shown = same_member (Value.int z) attr shown
  same_attribute (Value.text s) attr shown = same_member (Value.text s) attr shown
  same_attribute (Value.moment t) attr shown = same_member (Value.moment t) attr shown
  same_attribute (Value.arr items) attr shown = same_member (Value.arr items) attr shown
  same_attribute (Value.obj d) attr shown = refl

  same_op :
      (op : CompareOp) (v w : Value)
      → apply_op py op v w ≡ apply_op (altered py member_of builtin) op v w
  unfolding apply_op
  same_op op v w = ground arith

  call-altered :
      {m n : Option (List Value)} (f : Expr)
      → is_listed f ≡ true
      → m ≡ n
      → (function_name f >=> λ name. m >=> λ vs. call_function py name vs) ≡ (
          function_name f >=> λ name.
          n >=> λ vs. call_function (altered py member_of builtin) name vs)
  call-altered {m} {n} f listed p =
      cases (function_name f) (λ name named. is_listed-name f name named listed)
    where
      cases :
          (o : Option String)
          → ((name : String) → o ≡ some name → mem_text name functions ≡ true)
          → (o >=> λ name. m >=> λ vs. call_function py name vs)
            ≡ (o >=> λ name. n >=> λ vs. call_function (altered py member_of builtin) name vs)
      cases none all_listed = refl
      cases (some name) all_listed = bind_congr p (λ vs. same_call name vs (all_listed name refl))

  mutual
    unfolding eval accepted

    pub eval-altered :
        (ns : Fields) (e : Expr)
        → accepted e ≡ true
        → eval py ns e ≡ eval (altered py member_of builtin) ns e
    eval-altered ns (Expr.constant v) h = refl
    eval-altered ns (Expr.identifier s) h = refl
    eval-altered ns (Expr.attribute e attr) h =
        bind_congr (eval-altered ns e (and-right (not (is_private attr)) (accepted e) h))
          (λ v. ap some (same_attribute v attr (ground arith)))
    eval-altered ns (Expr.all_of es) h = rw (and-altered ns es h) refl
    eval-altered ns (Expr.any_of es) h = rw (or-altered ns es h) refl
    eval-altered ns (Expr.negation e) h = rw (eval-altered ns e h) refl
    eval-altered ns (Expr.minus e) h = rw (eval-altered ns e h) refl
    eval-altered ns (Expr.plus e) h = rw (eval-altered ns e h) refl
    eval-altered ns (Expr.compare e cs) h =
        bind_congr (eval-altered ns e (and-left (accepted e) (accepted_rest cs) h)) (λ v.
          bind_congr (compare-altered ns v cs (and-right (accepted e) (accepted_rest cs) h))
            (λ b. refl))
    eval-altered ns (Expr.sequence es) h = rw (all-altered ns es h) refl
    eval-altered ns (Expr.call f args) h =
        call-altered f (and-left (is_listed f) (accepted_all args) h)
          (all-altered ns args (and-right (is_listed f) (accepted_all args) h))
    eval-altered ns (Expr.other node es) h = refl

    all-altered :
        (ns : Fields) (es : Exprs)
        → accepted_all es ≡ true
        → eval_all py ns es ≡ eval_all (altered py member_of builtin) ns es
    all-altered ns Exprs.empty h = refl
    all-altered ns (Exprs.more e es) h =
        bind_congr (eval-altered ns e (and-left (accepted e) (accepted_all es) h)) (λ v.
          bind_congr (all-altered ns es (and-right (accepted e) (accepted_all es) h)) (λ vs. refl))

    and-altered :
        (ns : Fields) (es : Exprs)
        → accepted_all es ≡ true
        → eval_and py ns es ≡ eval_and (altered py member_of builtin) ns es
    and-altered ns Exprs.empty h = refl
    and-altered ns (Exprs.more e es) h =
        bind_congr (eval-altered ns e (and-left (accepted e) (accepted_all es) h)) (λ v.
          if_congr (truthy v) (and-altered ns es (and-right (accepted e) (accepted_all es) h)) refl)

    or-altered :
        (ns : Fields) (es : Exprs)
        → accepted_all es ≡ true
        → eval_or py ns es ≡ eval_or (altered py member_of builtin) ns es
    or-altered ns Exprs.empty h = refl
    or-altered ns (Exprs.more e es) h =
        bind_congr (eval-altered ns e (and-left (accepted e) (accepted_all es) h)) (λ v.
          if_congr (truthy v) refl (or-altered ns es (and-right (accepted e) (accepted_all es) h)))

    compare-altered :
        (ns : Fields) (left : Value) (cs : Comparisons)
        → accepted_rest cs ≡ true
        → eval_compare py ns left cs ≡ eval_compare (altered py member_of builtin) ns left cs
    compare-altered ns left Comparisons.end h = refl
    compare-altered ns left (Comparisons.next op e cs) h =
        bind_congr (eval-altered ns e (and-left (accepted e) (accepted_rest cs) h)) (λ right.
          bind_congr (same_op op left right) (λ holds.
            if_congr holds
              (compare-altered ns right cs (and-right (accepted e) (accepted_rest cs) h)) refl))

  -- A predicate reaches no private attribute and no function outside the list: whatever the source,
  -- its evaluation is the same in two Pythons that agree on the attributes that do not start with an
  -- underscore and on the built-in functions of the list.
  pub evaluate-altered :
      (source : String) (ns : Fields)
      → evaluate py source ns ≡ evaluate (altered py member_of builtin) source ns
  unfolding evaluate compile_predicate
  evaluate-altered source ns = elim (Bool-cases (ltb 500 (length (codes source)))) [
    | inl long ↦ rw long refl
    | inr short ↦ rw short (checked (py.parse source))
  ]
    where
      checked :
          (parsed : Option Expr)
          → run_compiled py source ns (checked_tree source parsed)
            ≡ run_compiled (altered py member_of builtin) source ns (checked_tree source parsed)
      checked none = refl
      checked (some e) = elim (Bool-cases (accepted e)) [
        | inl good ↦ rw good (ap (as_bool source) (eval-altered ns e good))
        | inr bad ↦ rw bad refl
      ]
