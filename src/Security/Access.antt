-- ===== src/Security/Access.antt =====
-- Who a request comes from, and in which project it acts: apps/api/src/proofstep_api/api/dependencies.py.
use proofstep.Prelude.{
  ℕ, zero, suc, ◌+◌, String, Bool, false, not, ◌&&◌, ◌||◌, Option, none, some, List, [], ◌∷◌, ◌++◌,
  map, ltb, leb, ◌==◌, if◌then◌else◌, is_some, filter, find?, str_eq,
}
use proofstep.Security.Permissions.{
  Permission, permissions_for_role, permissions_for_scopes, PrincipalKind, Principal, can,
}
use proofstep.Security.Tokens.{Environment, parse_prefix, verify}
pub mod Tenants
pub mod Callers

-- The errors of the API that are raised here; `crashed` is any other exception.
pub data ApiError : Type 0 where
  unauthorized not_found forbidden crashed : ApiError
  rate_limited : ℕ → ApiError

pub data Result (A : Type 0) : Type 0 where
  ok : A → Result A
  err : ApiError → Result A

infixl 5 ◌>>=◌
abbrev pub ◌>>=◌ : {A B : Type 0} → Result A → (A → Result B) → Result B
Result.ok a >>= f = f a
Result.err e >>= f = Result.err e

-- The rows of the tables, with the columns that are read. A time is a number of instants.
pub record ApiKey : Type 0 where
  pub id : String
  pub project_id : String
  pub environment_id : Option String
  pub prefix : String
  pub key_hash : List ℕ
  pub scopes : List String
  pub expires_at : Option ℕ
  pub revoked_at : Option ℕ

pub record Project : Type 0 where
  pub id : String
  pub org_id : String
  pub created_at : ℕ
  pub deleted_at : Option ℕ

pub record Membership : Type 0 where
  pub org_id : String
  pub user_id : String
  pub role : String
  pub created_at : ℕ

pub record User : Type 0 where
  pub id : String
  pub is_active : Bool

pub record Tables : Type 0 where
  pub api_keys : List ApiKey
  pub projects : List Project
  pub memberships : List Membership
  pub users : List User

abbrev is_expired : Option ℕ → ℕ → Bool
is_expired none now = false
is_expired (some at) now = leb at now

-- `ApiKey.is_usable`
abbrev pub is_usable : ApiKey → ℕ → Bool
is_usable key now = not (is_some key.revoked_at) && not (is_expired key.expires_at now)

abbrev pub is_deleted : Project → Bool
is_deleted project = is_some project.deleted_at

-- `session.get(Project, project_id)`; an id is unique
abbrev pub get_project : Tables → String → Option Project
get_project db project_id = find? (λ p. str_eq p.id project_id) db.projects

abbrev pub live_project : Option Project → Option Project
live_project none = none
live_project (some project) = if is_deleted project then none else some project

-- `32 * b"\x00"`
abbrev pub zeros : ℕ → List ℕ
zeros zero = []
zeros (suc n) = 0 ∷ zeros n

abbrev pub expected_hash : Option ApiKey → List ℕ
expected_hash none = zeros 32
expected_hash (some record_) = record_.key_hash

abbrev pub key_principal : ApiKey → Project → Principal
key_principal key project = record {
  kind = PrincipalKind.api_key;
  id = key.id;
  permissions = permissions_for_scopes key.scopes;
  org_id = some project.org_id;
  project_id = some key.project_id;
  environment_id = key.environment_id;
  role = none;
  scopes = key.scopes;
}

-- `_principal_from_api_key` past the lookup and the comparison
abbrev principal_of_key : Tables → ℕ → Option ApiKey → Bool → Result Principal
principal_of_key db now none matched = Result.err ApiError.unauthorized
principal_of_key db now (some key) matched =
    if not matched
    then Result.err ApiError.unauthorized
    else if not (is_usable key now)
    then Result.err ApiError.unauthorized
    else elim (live_project (get_project db key.project_id)) [
      | none ↦ Result.err ApiError.unauthorized
      | some project ↦ Result.ok (key_principal key project)
    ]

abbrev pub has_prefix : Option String → ApiKey → Bool
has_prefix none key = false
has_prefix (some prefix) key = str_eq key.prefix prefix

abbrev pub user_principal : String → Principal
user_principal id = record {
  kind = PrincipalKind.user;
  id = id;
  permissions = [];
  org_id = none;
  project_id = none;
  environment_id = none;
  role = none;
  scopes = [];
}

-- The claims of a token that are read.
pub record Claims : Type 0 where
  pub sub : String
  pub typ : Option String

-- `jwt.decode`, where `none` is an error of it, and the id that a text spells.
pub record Sessions : Type 0 where
  pub jwt_decode : String → Option Claims
  pub uuid : String → Option String

abbrev is_access : Option String → Bool
is_access none = false
is_access (some typ) = str_eq typ "access"

-- `decode_access_token` of security/tokens.py, as far as the subject
abbrev pub subject_of : Option Claims → Result String
subject_of none = Result.err ApiError.unauthorized
subject_of (some claims) =
    if is_access claims.typ then Result.ok claims.sub else Result.err ApiError.unauthorized

unfoldable pub principal_from_api_key : Environment → Tables → ℕ → String → Result Principal
principal_from_api_key env db now token =
    let found = find? (has_prefix (parse_prefix token)) db.api_keys in
    principal_of_key db now found (verify env token (expected_hash found))

abbrev principal_of_id : Tables → Option String → Result Principal
principal_of_id db none = Result.err ApiError.crashed
principal_of_id db (some id) = elim (find? (λ u. str_eq u.id id) db.users) [
  | none ↦ Result.err ApiError.unauthorized
  | some user ↦
      if user.is_active
      then Result.ok (user_principal user.id)
      else Result.err ApiError.unauthorized
]

unfoldable pub principal_from_jwt : Sessions → Tables → String → Result Principal
principal_from_jwt sessions db token = do
  subject ← subject_of (sessions.jwt_decode token)
  principal_of_id db (sessions.uuid subject)

-- `resolve_project`, for a principal and the project of the URL
abbrev member_principal : Principal → Project → Membership → Principal
member_principal principal project membership = record {
  kind = principal.kind;
  id = principal.id;
  permissions = permissions_for_role membership.role;
  org_id = some project.org_id;
  project_id = some project.id;
  environment_id = none;
  role = some membership.role;
  scopes = [];
}

abbrev pub is_membership : String → String → Membership → Bool
is_membership org_id user_id m = str_eq m.org_id org_id && str_eq m.user_id user_id

abbrev same_project : Option String → String → Bool
same_project none project_id = false
same_project (some bound) project_id = str_eq bound project_id

abbrev resolve_member : Tables → Principal → String → Result Principal
resolve_member db principal project_id = elim (live_project (get_project db project_id)) [
  | none ↦ Result.err ApiError.not_found
  | some project ↦ elim (find? (is_membership project.org_id principal.id) db.memberships) [
    | none ↦ Result.err ApiError.not_found
    | some membership ↦ Result.ok (member_principal principal project membership)
  ]
]

unfoldable pub resolve_project : Tables → String → Principal → Result Principal
resolve_project db project_id principal = elim principal.kind [
  | PrincipalKind.api_key ↦
      if same_project principal.project_id project_id
      then Result.ok principal
      else Result.err ApiError.not_found
  | PrincipalKind.user ↦ resolve_member db principal project_id
]

-- The projects of a user that are not deleted, each with the membership that joins it.
abbrev joined : Membership → List Project → List (Membership × Project)
joined m projects =
    map (λ p. (m, p)) (filter (λ p. str_eq p.org_id m.org_id && not (is_deleted p)) projects)

unfoldable pub own_projects : String → List Project → List Membership → List (Membership × Project)
own_projects user_id projects [] = []
own_projects user_id projects (m ∷ ms) =
    (if str_eq m.user_id user_id then joined m projects else []) ++ own_projects user_id projects ms

-- `ORDER BY memberships.created_at, projects.created_at`
abbrev is_earlier : Membership × Project → Membership × Project → Bool
is_earlier (m, p) (n, q) =
    ltb m.created_at n.created_at || (m.created_at == n.created_at && ltb p.created_at q.created_at)

-- `LIMIT 1`
unfoldable pub earliest_from : Membership × Project → List (Membership × Project) → Project
earliest_from best [] = best.1
earliest_from best (row ∷ rows) = earliest_from (if is_earlier row best then row else best) rows

unfoldable pub earliest : List (Membership × Project) → Option Project
earliest [] = none
earliest (row ∷ rows) = some (earliest_from row rows)

unfoldable pub bind_project : Tables → Option String → Principal → Result Principal
bind_project db none principal = elim principal.kind [
  | PrincipalKind.api_key ↦ Result.ok principal
  | PrincipalKind.user ↦ elim (earliest (own_projects principal.id db.projects db.memberships)) [
    | none ↦ Result.err ApiError.not_found
    | some chosen ↦ resolve_project db chosen.id principal
  ]
]
bind_project db (some project_id) principal = resolve_project db project_id principal

-- `require(permission)` of dependencies.py
abbrev pub require : Permission → Principal → Result Principal
require permission principal =
    if can principal permission then Result.ok principal else Result.err ApiError.forbidden
