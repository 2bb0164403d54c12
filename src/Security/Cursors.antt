-- ===== src/Security/Cursors.antt =====
-- Pagination cursors: apps/api/src/proofstep_api/security/cursors.py.
use Prim.Native.Char.{Char, code}
use Prim.Native.Nat.{◌%◌}
use Prim.Native.String.{◌++◌ as append_text}
use proofstep.Prelude.{
  ℕ, zero, suc, ◌-◌, String, Bool, true, false, ◌&&◌, Option, none, some, List, [], ◌∷◌, ◌==◌,
  if◌then◌else◌, length,
}
use proofstep.Prelude.{codes, same_numbers}
use proofstep.Prelude.Split.{split_once, join_by}
use proofstep.Types.Value.{Value, Fields}
pub mod Signed

-- What `json.loads` returns or raises; a `UnicodeDecodeError` is no `JSONDecodeError`.
pub data Loaded : Type 0 where
  loaded : Value → Loaded
  not_json not_utf8 : Loaded

-- The calls of the library: JSON in UTF-8, base64 and HMAC with SHA-256. `none` is a `ValueError`.
pub record Library : Type 0 where
  pub dumps : Fields → List ℕ
  pub loads : List ℕ → Loaded
  pub b64encode : List ℕ → String
  pub b64decode : String → Option (List ℕ)
  pub hmac : String → List ℕ → List ℕ

-- Malformed and not valid are an `InvalidCursorError`; the last is an exception of `json.loads`.
pub data Decoded : Type 0 where
  decoded : Fields → Decoded
  malformed not_valid undecodable : Decoded

abbrev pub dot : Char
dot = "."

abbrev pub equals : Char
equals = "="

abbrev pub is_blank : String → Bool
is_blank String.[] = true
is_blank (String.◌∷◌ c s) = false

-- `s.rstrip("=")`
unfoldable pub strip_padding : String → String
strip_padding String.[] = ""
strip_padding (String.◌∷◌ c s) =
    let rest = strip_padding s in
    if code c == code equals && is_blank rest then "" else String.◌∷◌ c rest

-- `"=" * n`
unfoldable pub padding : ℕ → String
padding zero = ""
padding (suc n) = String.◌∷◌ equals (padding n)

-- `-n % 4`
abbrev pub missing : ℕ → ℕ
missing n = (4 - n % 4) % 4

abbrev pub payload_of : Loaded → Decoded
payload_of Loaded.not_json = Decoded.malformed
payload_of Loaded.not_utf8 = Decoded.undecodable
payload_of (Loaded.loaded (Value.obj d)) = Decoded.decoded d
payload_of (Loaded.loaded v) = Decoded.malformed

module _ (lib : Library) where
  unfoldable pub b64 : List ℕ → String
  b64 raw = strip_padding (lib.b64encode raw)

  unfoldable pub unb64 : String → Option (List ℕ)
  unb64 value = lib.b64decode (append_text value (padding (missing (length (codes value)))))

  unfoldable pub encode : Fields → String → String
  encode payload secret =
      let raw = lib.dumps payload in join_by dot (b64 raw) (b64 (lib.hmac secret raw))

  -- `_unb64` of both parts
  unfoldable pub parts_of : String → Option (List ℕ × List ℕ)
  parts_of cursor = elim (split_once dot cursor) [
    | none ↦ none
    | some (body, signature) ↦ elim (unb64 body) [
      | none ↦ none
      | some raw ↦ elim (unb64 signature) [ none ↦ none | some signed ↦ some (raw, signed) ]
    ]
  ]

  unfoldable pub decode : String → String → Decoded
  decode cursor secret = elim (parts_of cursor) [
    | none ↦ Decoded.malformed
    | some (raw, signed) ↦
        if same_numbers signed (lib.hmac secret raw)
        then payload_of (lib.loads raw)
        else Decoded.not_valid
  ]
