-- ===== src/Trajectory/Predicates/Values.antt =====
-- The operators that predicates.py applies to values: `==`, the orderings, `in` and the sign.
use proofstep.Prelude.{
  ℕ, zero, suc, ◌+◌, String, Bool, true, false, not, ◌&&◌, ◌||◌, Option, none, some, ltb, ◌==◌,
  if◌then◌else◌, is_some, str_eq,
}
use proofstep.Prelude.{strip_prefix, lex_leb, codes}
use proofstep.Types.Value.{ℤ, Value, Items, Fields, get_field, hashable, number, same_number}

abbrev pub or_null : Option Value → Value
or_null none = Value.null
or_null (some v) = v

abbrev pub size : Fields → ℕ
size Fields.done = 0
size (Fields.field k v d) = size d + 1

unfoldable mutual
  -- `v == w`
  pub equal : Value → Value → Bool
  equal Value.null Value.null = true
  equal (Value.text a) (Value.text b) = str_eq a b
  equal (Value.moment a) (Value.moment b) = a == b
  equal (Value.arr a) (Value.arr b) = equal_items a b
  equal (Value.obj a) (Value.obj b) = size a == size b && equal_fields a b
  equal v w = same_number (number v) (number w)

  pub equal_items : Items → Items → Bool
  equal_items Items.nil Items.nil = true
  equal_items (Items.cons v a) (Items.cons w b) = equal v w && equal_items a b
  equal_items _ _ = false

  -- Every key of the first is in the second, with an equal value.
  pub equal_fields : Fields → Fields → Bool
  equal_fields Fields.done e = true
  equal_fields (Fields.field k v d) e =
      is_some (get_field k e) && equal v (or_null (get_field k e)) && equal_fields d e

abbrev pub lt_ℤ : ℤ → ℤ → Bool
lt_ℤ (ℤ.pos a) (ℤ.pos b) = ltb a b
lt_ℤ (ℤ.pos a) (ℤ.negsuc b) = false
lt_ℤ (ℤ.negsuc a) (ℤ.pos b) = true
lt_ℤ (ℤ.negsuc a) (ℤ.negsuc b) = ltb b a

abbrev pub lt_number : Option ℤ → Option ℤ → Option Bool
lt_number (some a) (some b) = some (lt_ℤ a b)
lt_number _ _ = none

unfoldable mutual
  -- `v < w`: `none` where Python raises, as for two values of different kinds.
  pub less : Value → Value → Option Bool
  less (Value.text a) (Value.text b) = some (not (lex_leb (codes b) (codes a)))
  less (Value.moment a) (Value.moment b) = some (ltb a b)
  less (Value.arr a) (Value.arr b) = less_items a b
  less v w = lt_number (number v) (number w)

  -- Lists compare at the first place where they differ.
  pub less_items : Items → Items → Option Bool
  less_items Items.nil Items.nil = some false
  less_items Items.nil (Items.cons w b) = some true
  less_items (Items.cons v a) Items.nil = some false
  less_items (Items.cons v a) (Items.cons w b) = elim (equal v w) [
    | true ↦ less_items a b
    | false ↦ less v w
  ]

-- `s.endswith(p)`
unfoldable pub ends_with : String → String → Bool
ends_with p String.[] = str_eq p String.[]
ends_with p (String.◌∷◌ c s) = str_eq p (String.◌∷◌ c s) || ends_with p s

abbrev pub item_in : Value → Items → Bool
item_in v Items.nil = false
item_in v (Items.cons w b) = equal w v || item_in v b

-- `p in s` for two texts
unfoldable pub occurs : String → String → Bool
occurs p String.[] = is_some (strip_prefix p String.[])
occurs p (String.◌∷◌ c s) = is_some (strip_prefix p (String.◌∷◌ c s)) || occurs p s

abbrev pub key_in : Value → Fields → Option Bool
key_in (Value.text k) d = some (is_some (get_field k d))
key_in v d = if hashable v then some false else none

-- `v in container`: `none` for a `TypeError`.
unfoldable pub value_in : Value → Value → Option Bool
value_in v (Value.arr items) = some (item_in v items)
value_in v (Value.obj d) = key_in v d
value_in (Value.text p) (Value.text s) = some (occurs p s)
value_in _ _ = none

abbrev pub or_false : Option Bool → Bool
or_false none = false
or_false (some b) = b

-- `_contains`
unfoldable pub contains : Value → Value → Bool
contains container v = or_false (value_in v container)

abbrev negate : ℤ → ℤ
negate (ℤ.pos zero) = ℤ.pos 0
negate (ℤ.pos (suc n)) = ℤ.negsuc n
negate (ℤ.negsuc n) = ℤ.pos (suc n)

-- `-v` and `+v`
abbrev pub negated : Option ℤ → Option Value
negated none = none
negated (some z) = some (Value.int (negate z))

abbrev pub unchanged : Option ℤ → Option Value
unchanged none = none
unchanged (some z) = some (Value.int z)
