-- ===== src/Security/Tokens.antt =====
-- API keys: apps/api/src/proofstep_api/security/keys.py.
use Prim.Native.Char.{Char}
use proofstep.Prelude.{
  ℕ, String, Bool, not, ◌&&◌, ◌||◌, Option, none, some, List, [], ◌∷◌, if◌then◌else◌, str_eq,
  mem_text,
}
use proofstep.Prelude.{same_numbers}
use proofstep.Prelude.Split.{split_once, join_by, take_text}
pub mod Issued

-- What the code calls: `str.lower`, `str.isalnum` of one character, and SHA-256.
pub record Environment : Type 0 where
  pub lower : String → String
  pub isalnum : Char → Bool
  pub digest : String → List ℕ

abbrev pub underscore : Char
underscore = "_"

pub record GeneratedKey : Type 0 where
  pub token : String
  pub prefix : String
  pub key_hash : List ℕ

-- The characters that pass, in order.
unfoldable pub kept_chars : (Char → Bool) → String → String
kept_chars p String.[] = ""
kept_chars p (String.◌∷◌ c s) = let rest = kept_chars p s in if p c then String.◌∷◌ c rest else rest

-- `_ENVIRONMENT_ALIASES.get(name)`
unfoldable pub alias_of : String → Option String
alias_of name =
    if mem_text name ("production" ∷ "prod" ∷ [])
    then some "prod"
    else if mem_text name ("staging" ∷ "stage" ∷ [])
    then some "stg"
    else if mem_text name ("development" ∷ "dev" ∷ [])
    then some "dev"
    else if str_eq name "test"
    then some "test"
    else if str_eq name "local"
    then some "local"
    else none

-- `s or "dev"`
abbrev pub or_dev : String → String
or_dev s = if str_eq s "" then "dev" else s

abbrev pub or_cut : Option String → String → String
or_cut none cleaned = take_text 8 cleaned
or_cut (some short) cleaned = short

unfoldable pub verify : Environment → String → List ℕ → Bool
verify env token expected = same_numbers (env.digest token) expected

module _ (env : Environment) where
  unfoldable pub normalize_environment : String → String
  normalize_environment name =
      let cleaned = kept_chars env.isalnum (env.lower name) in
      or_dev (or_cut (alias_of cleaned) cleaned)

  -- `public` and `secret` are what `secrets` returns.
  unfoldable pub generate : String → String → String → GeneratedKey
  generate name public secret =
      let short = normalize_environment name in
      let token =
        join_by underscore "ps" (join_by underscore short (join_by underscore public secret)) in
      record {
        token = token;
        prefix = join_by underscore "ps" (join_by underscore short public);
        key_hash = env.digest token;
      }

-- `token.split("_", 3)`, where it has four parts
abbrev pub four_parts : String → Option (String × String × String × String)
four_parts token = elim (split_once underscore token) [
  | none ↦ none
  | some (a, r) ↦ elim (split_once underscore r) [
    | none ↦ none
    | some (b, q) ↦ elim (split_once underscore q) [ none ↦ none | some (c, d) ↦ some (a, b, c, d) ]
  ]
]

unfoldable pub parse_prefix : String → Option String
parse_prefix token = elim (four_parts token) [
  | none ↦ none
  | some (a, b, c, d) ↦
      if str_eq a "ps" && not (str_eq b "" || str_eq c "" || str_eq d "")
      then some (join_by underscore a (join_by underscore b c))
      else none
]
