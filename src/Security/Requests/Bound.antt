-- ===== src/Security/Requests/Bound.antt =====
-- The project of a request, and the tenant of its transaction.
use proofstep.Prelude.{
  ℕ, String, ◌≡◌, ◌∙◌, ◌⊎◌, inl, inr, Option, none, some, arith, Bool-cases, Option-cases, is_some,
}
use proofstep.Security.Permissions.{PrincipalKind, Principal}
use proofstep.Security.Tokens.{Environment, parse_prefix}
use proofstep.Security.Access.{
  Result, Tables, Sessions, bind_project, principal_from_api_key, principal_from_jwt,
}
use proofstep.Security.Access.Tenants.{Entitled, bind_project-Entitled}
use proofstep.Security.Limits.{Counter, Settings}
use proofstep.Security.Requests.{
  Request, State, Texts, bearer, after_auth, authenticate, get_principal,
}

-- What authentication knows: a user comes without a project.
abbrev IsFresh : Principal → Type 0
IsFresh p = p.kind ≡ PrincipalKind.user → p.project_id ≡ none

principal_from_api_key-IsFresh :
    (env : Environment) (db : Tables) (now : ℕ) (token : String) (p : Principal)
    → principal_from_api_key env db now token ≡ Result.ok p
    → IsFresh p
unfolding principal_from_api_key
principal_from_api_key-IsFresh env db now token p h kind = ground arith

principal_from_jwt-IsFresh :
    (sessions : Sessions) (db : Tables) (token : String) (p : Principal)
    → principal_from_jwt sessions db token ≡ Result.ok p
    → IsFresh p
unfolding principal_from_jwt
principal_from_jwt-IsFresh sessions db token p h kind = ground arith

module _ (str : ℕ → String) (window_s : ℕ) {S : Type 0} (backend : Counter S)
    (settings : Settings) where
  after_auth_ok :
      (request : Request) (outcome : Result Principal) (st : State S) (p : Principal)
      → (after_auth str window_s backend settings request outcome st).0 ≡ Result.ok p
      → (outcome ≡ Result.ok p)
        × ((after_auth str window_s backend settings request outcome st).1.tenant ≡ p.project_id)
  after_auth_ok request (Result.ok q) st p h = ground arith
  after_auth_ok request (Result.err e) st p h = ground arith

module _ (str : ℕ → String) (window_s : ℕ) {S : Type 0} (backend : Counter S) (settings : Settings)
    (texts : Texts) (env : Environment) (sessions : Sessions) (db : Tables) where
  authenticate-IsFresh :
      (now : ℕ) (token : String) (p : Principal)
      → authenticate env sessions db now token ≡ Result.ok p
      → IsFresh p
  authenticate-IsFresh now token p h = elim (Bool-cases (is_some (parse_prefix token))) [
    | inl e ↦ principal_from_api_key-IsFresh env db now token p (ground (arith, e))
    | inr e ↦ principal_from_jwt-IsFresh sessions db token p (ground (arith, e))
  ]

  -- The tenant of an accepted request is the project that its principal came with.
  tenant_lem :
      (request : Request) (st : State S) (p : Principal)
      → (get_principal str window_s backend settings texts env sessions db request st).0
        ≡ Result.ok p
      → ((get_principal str window_s backend settings texts env sessions db request st).1.tenant
          ≡ p.project_id)
        × IsFresh p
  unfolding get_principal
  tenant_lem request st p h = elim (Option-cases (bearer texts request.authorization)) [
    | inl e ↦ absurd (ground (arith, e))
    | inr (token, e) ↦
        let (outcome, tenant) =
          after_auth_ok str window_s backend settings request
            (authenticate env sessions db request.now token) st p (ground (arith, e)) in
        (ground (arith, e, tenant), authenticate-IsFresh request.now token p outcome)
  ]

  -- The tenant of the transaction is the project of the request for an API key, and none for a user,
  -- although a user is then bound to a project: `bind_project` does not set the tenant again.
  pub tenant-bind_project :
      (request : Request) (st : State S) (caller bound : Principal) (asked : Option String)
      → (get_principal str window_s backend settings texts env sessions db request st).0
        ≡ Result.ok caller
      → bind_project db asked caller ≡ Result.ok bound
      → let tenant =
          (get_principal str window_s backend settings texts env sessions db request st).1.tenant in
        ((caller.kind ≡ PrincipalKind.api_key) × (tenant ≡ bound.project_id))
        ⊎ ((project_id : String) × (caller.kind ≡ PrincipalKind.user)
            × (bound.project_id ≡ some project_id)
            × (tenant ≡ none))
  tenant-bind_project request st caller bound asked h k =
      let (tenant, fresh) = tenant_lem request st caller h in
      elim (bind_project-Entitled db asked caller bound k) [
        | inl (kind, same, named) ↦ inl (kind, ground (arith, tenant, same))
        | inr (project_id, kind, named, entitled) ↦ inr (
          project_id,
          kind,
          elim entitled [
            | Entitled.by_key other own same ↦ absurd (cc)
            | Entitled.by_membership p m kind found live f own granted ↦ own
          ],
          tenant ∙ fresh kind,
        )
      ]
