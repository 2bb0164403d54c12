-- ===== src/Security/Requests/Counted.antt =====
-- On whom a request is counted.
use proofstep.Prelude.{
  ℕ, String, ◌≡◌, refl, ◌⊎◌, inl, inr, false, Option, none, some, arith, if◌then◌else◌,
}
use proofstep.Security.Permissions.{Principal}
use proofstep.Security.Tokens.{Environment}
use proofstep.Security.Access.{ApiError, Result, Tables, Sessions}
use proofstep.Security.Limits.{
  Klass, Counter, Decision, RateLimiter, Settings, check, is_exempt, classify, limit_for,
}
use proofstep.Security.Requests.{
  Request, State, Texts, bearer, bucket_of, ip_bucket, authenticate, get_principal,
}

-- Who pays for an attempt to authenticate: the address of the caller for a failure, and the caller
-- for a success.
abbrev pub payer : Request → Result Principal → Option (String × Klass)
payer request (Result.ok principal) =
    some (bucket_of principal, classify request.method request.path)
payer request (Result.err ApiError.unauthorized) = some (ip_bucket request, Klass.auth)
payer request (Result.err e) = none

abbrev pub answer : Result Principal → Decision → Result Principal
answer outcome decision =
    if decision.allowed then outcome else Result.err (ApiError.rate_limited decision.reset_in)

Result-cases :
    {A : Type 0} (r : Result A)
    → ((a : A) × (r ≡ Result.ok a)) ⊎ ((e : ApiError) × (r ≡ Result.err e))
Result-cases (Result.ok a) = inl (a, refl)
Result-cases (Result.err e) = inr (e, refl)

module _ (str : ℕ → String) (window_s : ℕ) {S : Type 0} (backend : Counter S) (settings : Settings)
    (texts : Texts) (env : Environment) (sessions : Sessions) (db : Tables) where
  -- A request with a bearer token, for a path that is not exempt, is counted once: on the address of
  -- the caller, as authentication, if the credential fails, so that a wrong secret spends nothing of
  -- the credential that it claims; and on the caller, in the class of the request, if it succeeds.
  -- The limiter is left as that one check leaves it, and the outcome stands if the check allows the
  -- request and is the error of the limit else.
  pub get_principal-check :
      (request : Request) (st : State S) (limiter : RateLimiter S) (token bucket : String)
      (klass : Klass)
      → bearer texts request.authorization ≡ some token
      → st.rate_limiter ≡ some limiter
      → is_exempt request.path ≡ false
      → payer request (authenticate env sessions db request.now token) ≡ some (bucket, klass)
      → let (decision, after) =
          check str window_s backend bucket klass (limit_for settings klass) request.now limiter in
        let (result, left) =
          get_principal str window_s backend settings texts env sessions db request st in
        (left.rate_limiter ≡ some after)
        × (result ≡ answer (authenticate env sessions db request.now token) decision)
  unfolding get_principal
  get_principal-check request st limiter token bucket klass h k e pays =
      elim (Result-cases (authenticate env sessions db request.now token)) [
        | inl (p, f) ↦ (ground (arith, h, k, e, f, pays), ground (arith, h, k, e, f, pays))
        | inr (e', f) ↦ (ground (arith, h, k, e, f, pays), ground (arith, h, k, e, f, pays))
      ]
