-- ===== src/Redaction.antt =====
-- Redaction: packages/evaluation-core/src/proofstep_core/redaction.py, with the capture modes of
-- packages/shared-types/src/proofstep_types/common.py.
use Prim.Native.Char.{Char, code}
use Prim.Native.String.{◌++◌ as append_text, count}
use proofstep.Prelude.{
  ℕ, String, Bool, not, ◌&&◌, ◌||◌, Option, none, some, List, [], ◌∷◌, map, ltb, ◌==◌,
  if◌then◌else◌, is_some, length, any, find?, str_eq, mem_text,
}
use proofstep.Prelude.{strip_prefix}
use proofstep.Prelude.Split.{has_char}
use proofstep.Types.Value.{Value}
pub mod Walk
pub mod Modes
pub mod Masked
pub mod Examples

-- What the code takes from the library: `str.lower`, the search for a pattern by its name and its
-- substitution, the entropy test, `str.split`, and `str` of a number.
pub record Tools : Type 0 where
  pub lower : String → String
  pub search : String → String → Bool
  pub sub : String → String → String
  pub is_dense : String → Bool
  pub split : String → List String
  pub str : ℕ → String

-- `none` is `KEEP`.
abbrev pub Redactor : Type 0
Redactor = String → Value → Option Value

abbrev pub max_depth : ℕ
max_depth = 12

abbrev pub max_items : ℕ
max_items = 1000

abbrev pub secret_key_parts : List String
secret_key_parts =
    "authorization" ∷ "api_key" ∷ "apikey" ∷ "access_token" ∷ "refresh_token" ∷ "id_token" ∷ "token"
    ∷ "secret" ∷ "password" ∷ "passwd" ∷ "passphrase" ∷ "cookie" ∷ "session_id" ∷ "sessionid"
    ∷ "private_key" ∷ "client_secret" ∷ "credential" ∷ "auth" ∷ []

abbrev pub pii_key_parts : List String
pii_key_parts = "ssn" ∷ "social_security" ∷ "credit_card" ∷ "card_number" ∷ "cvv" ∷ "iban" ∷ []

-- The names of `SECRET_VALUE_PATTERNS` and of `PII_VALUE_PATTERNS`
abbrev pub secret_patterns : List String
secret_patterns =
    "jwt" ∷ "pem" ∷ "openai_key" ∷ "anthropic_key" ∷ "github_token" ∷ "aws_access_key"
    ∷ "google_key" ∷ "slack_token" ∷ "stripe_key" ∷ "proofstep_key" ∷ "bearer" ∷ []

abbrev pub pii_patterns : List String
pii_patterns = "email" ∷ "card" ∷ []

abbrev pub mask : String → Value
mask reason = Value.text (append_text "[REDACTED:" (append_text reason "]"))

abbrev dot : Char
dot = "."

-- `s.rsplit(".", 1)[-1]`
unfoldable pub last_part : String → String
last_part String.[] = ""
last_part (String.◌∷◌ c s) =
    let rest = last_part s in
    if has_char dot s then rest else if code c == code dot then s else String.◌∷◌ c s

-- `part in s`
unfoldable pub contains : String → String → Bool
contains part String.[] = str_eq part ""
contains part (String.◌∷◌ c s) = is_some (strip_prefix part (String.◌∷◌ c s)) || contains part s

-- `" ".join(words)`
unfoldable pub join_words : List String → String
join_words [] = ""
join_words (w ∷ []) = w
join_words (w ∷ v ∷ ws) = append_text w (append_text " " (join_words (v ∷ ws)))

module _ (tools : Tools) where
  -- The name at the end of a path, lowered.
  abbrev pub leaf_name : String → String
  leaf_name path = tools.lower (last_part path)

  abbrev pub has_part : List String → String → Bool
  has_part parts path = any (λ part. contains part (leaf_name path)) parts

  unfoldable pub secret_keys : Redactor
  secret_keys path value = if has_part secret_key_parts path then some (mask "secret_key") else none

  abbrev pub looks_like_a_secret : String → Bool
  looks_like_a_secret s = not (ltb (count s) 32) && tools.is_dense s

  abbrev mask_word : String → String
  mask_word w = if looks_like_a_secret w then "[REDACTED:high_entropy]" else w

  -- `_redact_high_entropy_words`
  unfoldable pub redact_words : String → Option Value
  redact_words s =
      let words = tools.split s in
      if ltb (count s) 32 || ltb (length words) 2 || not (any looks_like_a_secret words)
      then none
      else some (Value.text (join_words (map mask_word words)))

  -- The first pattern that is found is substituted.
  abbrev pub substituted : List String → String → Option Value
  substituted names s = elim (find? (λ name. tools.search name s) names) [
    | none ↦ none
    | some name ↦ some (Value.text (tools.sub name s))
  ]

  unfoldable pub secret_values : Redactor
  secret_values path (Value.text s) = elim (substituted secret_patterns s) [
    | some v ↦ some v
    | none ↦ if looks_like_a_secret s then some (mask "high_entropy") else redact_words s
  ]
  secret_values path value = none

  unfoldable pub pii : Redactor
  pii path value =
      if has_part pii_key_parts path
      then some (mask "pii_key")
      else elim value [ Value.text s ↦ substituted pii_patterns s | _ ↦ none ]

  -- `names` are in lower case.
  unfoldable pub keys : List String → Redactor
  keys names path value = if mem_text (leaf_name path) names then some (mask "configured") else none

  -- `regex`, by the search and the substitution of its pattern
  unfoldable pub regex : (String → Bool) → (String → String) → Redactor
  regex search sub path (Value.text s) = if search s then some (Value.text (sub s)) else none
  regex search sub path value = none

  -- `default()`
  abbrev pub default : List Redactor
  default = secret_keys ∷ secret_values ∷ []
