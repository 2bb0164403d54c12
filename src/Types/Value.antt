-- ===== src/Types/Value.antt =====
-- The values that `Any` stands for in span attributes, tool arguments and workflow state: what JSON
-- holds, and `datetime`. Floating-point numbers are left out.
use proofstep.Prelude.{
  not, ℕ, Bool, true, false, String, Option, none, some, ◌≡◌, refl, arith, str_eq, str_eq_iff,
  if◌then◌else◌, ◌==◌,
}

-- `negsuc n` is -(n + 1).
pub data ℤ : Type 0 where
  pos : ℕ → ℤ
  negsuc : ℕ → ℤ

mutual
  pub data Value : Type 0 where
    null : Value
    flag : Bool → Value
    int : ℤ → Value
    text : String → Value
    moment : ℕ → Value
    arr : Items → Value
    obj : Fields → Value

  pub data Items : Type 0 where
    nil : Items
    cons : Value → Items → Items

  -- A `dict[str, Any]`, in insertion order.
  pub data Fields : Type 0 where
    done : Fields
    field : String → Value → Fields → Fields

-- `d.get(k)`
unfoldable pub get_field : String → Fields → Option Value
get_field k Fields.done = none
get_field k (Fields.field j v d) = if str_eq j k then some v else get_field k d

-- `d[k] = v`
unfoldable pub put_field : String → Value → Fields → Fields
put_field k v Fields.done = Fields.field k v Fields.done
put_field k v (Fields.field j w d) =
    let rest = Fields.field j w (put_field k v d) in if str_eq j k then Fields.field j v d else rest

-- `d.update(e)`
unfoldable pub update : Fields → Fields → Fields
update d Fields.done = d
update d (Fields.field k v e) = update (put_field k v d) e

-- The last binding of a key, the one that `update` leaves.
unfoldable pub last_field : String → Fields → Option Value
last_field k Fields.done = none
last_field k (Fields.field j v d) = elim (last_field k d) [
  | some w ↦ some w
  | none ↦ if str_eq j k then some v else none
]

abbrev pub or_else {ℓ} : {A : Type ℓ} → Option A → Option A → Option A
or_else (some a) b = some a
or_else none b = b

pub get_field-put_field :
    (k j : String) (v : Value) (d : Fields)
    → get_field j (put_field k v d) ≡ (if str_eq k j then some v else get_field j d)
unfolding get_field put_field
get_field-put_field k j v Fields.done = ground arith
get_field-put_field k j v (Fields.field i w d) =
    ground (arith, str_eq_iff k j, str_eq_iff i k, str_eq_iff i j, get_field-put_field k j v d)

-- `update` overrides: a key has its last binding on the right, and else what it had.
pub get_field-update :
    (k : String) (d e : Fields)
    → get_field k (update d e) ≡ or_else (last_field k e) (get_field k d)
unfolding update last_field
get_field-update k d Fields.done = refl
get_field-update k d (Fields.field j v e) =
    ground (arith, get_field-update k (put_field j v d) e, get_field-put_field j k v d)

-- Python's `hash(v)` is a `TypeError` for a list or a dict.
abbrev pub hashable : Value → Bool
hashable (Value.arr _) = false
hashable (Value.obj _) = false
hashable _ = true

-- A Boolean is the integer 0 or 1.
abbrev pub number : Value → Option ℤ
number (Value.flag true) = some (ℤ.pos 1)
number (Value.flag false) = some (ℤ.pos 0)
number (Value.int z) = some z
number _ = none

abbrev same_ℤ : ℤ → ℤ → Bool
same_ℤ (ℤ.pos a) (ℤ.pos b) = a == b
same_ℤ (ℤ.negsuc a) (ℤ.negsuc b) = a == b
same_ℤ _ _ = false

abbrev pub same_number : Option ℤ → Option ℤ → Bool
same_number (some a) (some b) = same_ℤ a b
same_number _ _ = false

-- `v == w` for two hashable values.
unfoldable pub same_value : Value → Value → Bool
same_value Value.null Value.null = true
same_value (Value.text a) (Value.text b) = str_eq a b
same_value (Value.moment a) (Value.moment b) = a == b
same_value a b = same_number (number a) (number b)

-- `bool(v)`
abbrev pub truthy : Value → Bool
truthy Value.null = false
truthy (Value.flag b) = b
truthy (Value.int (ℤ.pos n)) = not (n == 0)
truthy (Value.int (ℤ.negsuc n)) = true
truthy (Value.text s) = not (str_eq s "")
truthy (Value.moment t) = true
truthy (Value.arr Items.nil) = false
truthy (Value.arr (Items.cons v vs)) = true
truthy (Value.obj Fields.done) = false
truthy (Value.obj (Fields.field k v rest)) = true
