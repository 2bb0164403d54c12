-- ===== src/Otlp/Coercions.antt =====
-- The coercions of mapping.py: `_as_str`, `_as_int`, `_as_decimal`, `_as_object` and
-- `_decode_payload`.
use Prim.Native.String.{String}
use proofstep.Prelude.{
  ℕ, String, Bool, false, ◌&&◌, ◌||◌, Option, none, some, if◌then◌else◌, is_some, str_eq,
}
use proofstep.Prelude.{strip_prefix}
use proofstep.Prelude.Split.{take_text}
use proofstep.Types.Value.{ℤ, Value, Fields}
use proofstep.Redaction.{contains}

-- `int(float(v))`, which is an OverflowError for an infinity, a ValueError that is caught, or a number.
pub data Parsed : Type 0 where
  number : ℤ → Parsed
  refused overflow : Parsed

-- `Decimal(str(v))`; an order with a NaN raises.
pub data Amount (D : Type 0) : Type 0 where
  amount : D → Amount D
  negative not_a_number unreadable : Amount D

-- What the code takes from the library: `str`, `str.strip`, `str.lower`, the conversions, and
-- `json.loads`, where `none` is an error.
pub record Tools (D : Type 0) : Type 0 where
  pub show : Value → String
  pub strip : String → String
  pub lower : String → String
  pub to_int : Value → Parsed
  pub to_decimal : Value → Amount D
  pub loads : String → Option Value

abbrev pub starts_with : String → String → Bool
starts_with s start = is_some (strip_prefix start s)

-- `s[:1]` and `s[-1:]` as tests
abbrev pub opens : String → Bool
opens s = starts_with s "{" || starts_with s "["

unfoldable pub last_text : String → String
last_text String.[] = ""
last_text (String.◌∷◌ c String.[]) = String.◌∷◌ c ""
last_text (String.◌∷◌ c (String.◌∷◌ d s)) = last_text (String.◌∷◌ d s)

abbrev pub closes : String → Bool
closes s = str_eq (last_text s) "}" || str_eq (last_text s) "]"

abbrev pub wrapped : Value → Fields
wrapped v = Fields.field "value" v Fields.done

-- Parsed JSON, or the value itself.
abbrev pub or_value : Option Value → Value → Value
or_value none v = v
or_value (some parsed) v = parsed

abbrev pub object_or_wrapped : Value → Fields
object_or_wrapped (Value.obj d) = d
object_or_wrapped v = wrapped v

abbrev pub nonempty : String → Option String
nonempty s = if str_eq s "" then none else some s

module _ {D : Type 0} (tools : Tools D) where
  abbrev pub text_of : Value → String
  text_of (Value.text s) = s
  text_of v = tools.show v

  unfoldable pub as_str : ℕ → Option Value → Option String
  as_str limit none = none
  as_str limit (some v) = nonempty (take_text limit (tools.strip (text_of v)))

  abbrev pub at_least_zero : Parsed → Option ℕ
  at_least_zero (Parsed.number (ℤ.pos n)) = some n
  at_least_zero (Parsed.number (ℤ.negsuc n)) = some 0
  at_least_zero Parsed.refused = some 0
  at_least_zero Parsed.overflow = none

  -- `none` is an exception, here and in the two that follow.
  unfoldable pub as_int : Option Value → Option ℕ
  as_int none = some 0
  as_int (some v) = at_least_zero (tools.to_int v)

  abbrev pub not_negative : Amount D → Option (Option D)
  not_negative (Amount.amount d) = some (some d)
  not_negative Amount.negative = some none
  not_negative Amount.unreadable = some none
  not_negative Amount.not_a_number = none

  unfoldable pub as_decimal : Option Value → Option (Option D)
  as_decimal none = some none
  as_decimal (some v) = not_negative (tools.to_decimal v)

  unfoldable pub as_object : Option Value → Option Fields
  as_object none = none
  as_object (some (Value.obj d)) = some d
  as_object (some (Value.text s)) =
      some (elim (tools.loads s) [ none ↦ wrapped (Value.text s) | some v ↦ object_or_wrapped v ])
  as_object (some v) = some (wrapped v)

  abbrev pub declares_json : Option Value → Bool
  declares_json none = false
  declares_json (some mime) = contains "json" (tools.lower (tools.show mime))

  unfoldable pub decode_payload : Option Value → Option Value → Option Value
  decode_payload none mime = none
  decode_payload (some (Value.text s)) mime =
      let trimmed = tools.strip s in
      some (
        if declares_json mime
        then or_value (tools.loads s) (Value.text s)
        else if opens trimmed && closes trimmed
        then or_value (tools.loads trimmed) (Value.text s)
        else Value.text s)
  decode_payload (some v) mime = some v
