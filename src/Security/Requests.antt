-- ===== src/Security/Requests.antt =====
-- The authentication of a request, with its rate limits and its tenant:
-- apps/api/src/proofstep_api/api/dependencies.py.
use Prim.Native.Char.{Char}
use Prim.Native.String.{◌++◌ as append_text}
use proofstep.Prelude.{ℕ, String, not, ◌||◌, Option, none, some, if◌then◌else◌, is_some, str_eq}
use proofstep.Prelude.Split.{split_once}
use proofstep.Security.Permissions.{PrincipalKind, Principal}
use proofstep.Security.Tokens.{Environment, parse_prefix}
use proofstep.Security.Access.{
  ApiError, Result, Tables, Sessions, principal_from_api_key, principal_from_jwt,
}
use proofstep.Security.Limits.{
  Klass, Counter, Decision, RateLimiter, Settings, check, is_exempt, classify, limit_for,
}
pub mod Counted
pub mod Bound

-- A header that is missing is empty.
pub record Request : Type 0 where
  pub authorization : String
  pub client_ip : Option String
  pub method : String
  pub path : String
  pub now : ℕ

-- What a request leaves: the limiter of the application, and the tenant of the transaction.
pub record State (S : Type 0) : Type 0 where
  pub rate_limiter : Option (RateLimiter S)
  pub tenant : Option String

-- `str.lower` and `str.strip`
pub record Texts : Type 0 where
  pub lower : String → String
  pub strip : String → String

abbrev space : Char
space = " "

-- `_bearer`, where `none` is the error
unfoldable pub bearer : Texts → String → Option String
bearer texts header = elim (split_once space header) [
  | none ↦ none
  | some (scheme, token) ↦
      if not (str_eq (texts.lower scheme) "bearer") || str_eq (texts.strip token) ""
      then none
      else some (texts.strip token)
]

abbrev kind_name : PrincipalKind → String
kind_name PrincipalKind.user = "user"
kind_name PrincipalKind.api_key = "api_key"

abbrev pub bucket_of : Principal → String
bucket_of principal = append_text (kind_name principal.kind) (append_text ":" principal.id)

abbrev or_unknown : Option String → String
or_unknown none = "unknown"
or_unknown (some host) = host

abbrev pub ip_bucket : Request → String
ip_bucket request = append_text "ip:" (or_unknown request.client_ip)

-- By the API key or the session that the token is.
abbrev pub authenticate : Environment → Sessions → Tables → ℕ → String → Result Principal
authenticate env sessions db now token =
    if is_some (parse_prefix token)
    then principal_from_api_key env db now token
    else principal_from_jwt sessions db token

module _ (str : ℕ → String) (window_s : ℕ) {S : Type 0} (backend : Counter S)
    (settings : Settings) where
  abbrev after_check : Decision × RateLimiter S → State S → Option ApiError × State S
  after_check (decision, limiter) st = (
    if decision.allowed then none else some (ApiError.rate_limited decision.reset_in),
    record st { rate_limiter = some limiter },
  )

  -- `_enforce_limit`, with the error that it raises
  abbrev pub enforce_limit : Request → String → Klass → State S → Option ApiError × State S
  enforce_limit request bucket klass st = elim st.rate_limiter [
    | none ↦ (none, st)
    | some limiter ↦
        if is_exempt request.path
        then (none, st)
        else after_check
            (check str window_s backend bucket klass (limit_for settings klass) request.now limiter)
            st
  ]

  -- What follows the attempt to authenticate.
  abbrev pub after_auth : Request → Result Principal → State S → Result Principal × State S
  after_auth request (Result.err ApiError.unauthorized) st =
      let (raised, left) = enforce_limit request (ip_bucket request) Klass.auth st in
      (elim raised [ none ↦ Result.err ApiError.unauthorized | some e ↦ Result.err e ], left)
  after_auth request (Result.err e) st = (Result.err e, st)
  after_auth request (Result.ok principal) st =
      let (raised, left) =
        enforce_limit request (bucket_of principal) (classify request.method request.path) st in
      elim raised [
        | none ↦ (Result.ok principal, record left { tenant = principal.project_id })
        | some e ↦ (Result.err e, left)
      ]

  module _ (texts : Texts) (env : Environment) (sessions : Sessions) (db : Tables) where
    unfoldable pub get_principal : Request → State S → Result Principal × State S
    get_principal request st = elim (bearer texts request.authorization) [
      | none ↦ (Result.err ApiError.unauthorized, st)
      | some token ↦ after_auth request (authenticate env sessions db request.now token) st
    ]
