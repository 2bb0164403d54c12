-- ===== src/Security/Examples/Callers.antt =====
-- A member of an organization, its project, and a key to it.
use Prim.Native.Char.{Char, code}
use proofstep.Prelude.{
  String, ◌≡◌, refl, ◌↔◌, ◌⊎◌, true, false, ◌&&◌, Option, none, some, [], ◌∷◌, arith, leb, ◌==◌,
  if◌then◌else◌, str_eq,
}
use proofstep.Prelude.Split.{take_text, split_once}
use proofstep.Prelude.{codes, strip_prefix}
use proofstep.Security.Permissions.{PrincipalKind, Principal, permissions_for_role}
use proofstep.Security.Tokens.{
  Environment, underscore, kept_chars, alias_of, normalize_environment, generate, parse_prefix,
}
use proofstep.Security.Access.{
  Result, ApiKey, Project, Tables, Sessions, user_principal, key_principal, principal_from_api_key,
  principal_from_jwt, own_projects, earliest, earliest_from, resolve_project, bind_project,
}
use proofstep.Security.Access.Tenants.{Entitled, IsAsked, bind_project-Entitled}
use proofstep.Security.Access.Callers.{
  Stands, acting, principal_from_api_key_iff, generated-accepted,
}
use proofstep.Security.Limits.{Klass, Settings, limiter_of, limit_for, check}
use proofstep.Security.Requests.{Request, State, Texts, bearer, authenticate, get_principal}
use proofstep.Security.Requests.Counted.{answer, get_principal-check}
use proofstep.Security.Requests.Bound.{tenant-bind_project}
use proofstep.Security.Examples.Limits.{ones, Store, counters, empty}

abbrev letters : Environment
letters = record {
  lower = λ s. s;
  isalnum = λ c. leb b'a' (code c) && leb (code c) b'z';
  digest = codes;
}

letters_apart : (d : Char) → letters.isalnum d ≡ true → (code d == code underscore) ≡ false
letters_apart d h = ground arith

abbrev token : String
token = "ps_prod_abcd_s3_cret"

abbrev key : ApiKey
key = record {
  id = "k1";
  project_id = "p1";
  environment_id = none;
  prefix = "ps_prod_abcd";
  key_hash = codes token;
  scopes = "ingest" ∷ [];
  expires_at = none;
  revoked_at = none;
}

abbrev project : Project
project = record { id = "p1"; org_id = "o1"; created_at = 1; deleted_at = none }

abbrev db : Tables
db = record {
  api_keys = key ∷ [];
  projects = project ∷ [];
  memberships = record { org_id = "o1"; user_id = "u1"; role = "viewer"; created_at = 1 } ∷ [];
  users = record { id = "u1"; is_active = true } ∷ [];
}

abbrev sessions : Sessions
sessions = record {
  jwt_decode =
      λ t. if str_eq t "session" then some (record { sub = "u1"; typ = some "access" }) else none;
  uuid = λ s. some s;
}

generated-accepted_example :
    principal_from_api_key letters db 5 (generate letters "production" "abcd" "s3_cret").token
    ≡ Result.ok (key_principal key project)
unfolding generate normalize_environment kept_chars take_text alias_of
generated-accepted_example =
    generated-accepted letters letters_apart "production" "abcd" "s3_cret" db 5 key project refl
      refl refl refl refl refl refl

principal_from_api_key_iff_example :
    (principal_from_api_key letters db 5 token ≡ Result.ok (key_principal key project)) ↔ (
      (k : ApiKey) × (p : Project) × Stands letters db 5 token k p
      × (key_principal key project ≡ acting k p))
principal_from_api_key_iff_example =
    principal_from_api_key_iff letters db 5 token (key_principal key project)

abbrev someone : Principal
someone = user_principal "u1"

abbrev nothing_asked : Option String
nothing_asked = none

abbrev viewing : Principal
viewing = record someone {
  permissions = permissions_for_role "viewer";
  org_id = some "o1";
  project_id = some "p1";
  role = some "viewer";
}

bound : bind_project db none someone ≡ Result.ok viewing
unfolding bind_project resolve_project own_projects earliest earliest_from
bound = refl

bind_project-Entitled_example :
    ((someone.kind ≡ PrincipalKind.api_key)
      × (viewing ≡ someone)
      × ((nothing_asked ≡ none) ⊎ (nothing_asked ≡ someone.project_id)))
    ⊎ ((project_id : String) × (someone.kind ≡ PrincipalKind.user)
        × IsAsked nothing_asked project_id
        × Entitled db someone project_id viewing)
bind_project-Entitled_example = bind_project-Entitled db nothing_asked someone viewing bound

abbrev texts : Texts
texts = record { lower = λ s. s; strip = λ s. s }

abbrev settings : Settings
settings = record {
  rate_limit_ingest_per_min = 600;
  rate_limit_read_per_min = 300;
  rate_limit_write_per_min = 60;
  rate_limit_auth_per_min = 20;
}

abbrev request : String → Request
request authorization = record {
  authorization = authorization;
  client_ip = some "10.0.0.1";
  method = "GET";
  path = "/v1/traces";
  now = 5;
}

abbrev idle : State Store
idle = record { rate_limiter = some (limiter_of (some empty)); tenant = none }

get_principal-check_example :
    let (decision, after) =
      check ones 60 counters "ip:10.0.0.1" Klass.auth
        (limit_for settings Klass.auth)
        5
        (limiter_of (some empty)) in
    let (result, left) =
      get_principal ones 60 counters settings texts letters sessions db
        (request "bearer guess")
        idle in
    (left.rate_limiter ≡ some after)
    × (result ≡ answer (authenticate letters sessions db 5 "guess") decision)
unfolding bearer split_once parse_prefix principal_from_jwt
get_principal-check_example =
    get_principal-check ones 60 counters settings texts letters sessions db (request "bearer guess")
      idle (limiter_of (some empty)) "guess" "ip:10.0.0.1" Klass.auth refl refl refl refl

tenant-bind_project_example :
    let tenant =
      (get_principal ones 60 counters settings texts letters sessions db
        (request "bearer session")
        idle).1.tenant in
    ((someone.kind ≡ PrincipalKind.api_key) × (tenant ≡ viewing.project_id))
    ⊎ ((project_id : String) × (someone.kind ≡ PrincipalKind.user)
        × (viewing.project_id ≡ some project_id)
        × (tenant ≡ none))
unfolding get_principal bearer split_once parse_prefix principal_from_jwt check strip_prefix
tenant-bind_project_example =
    tenant-bind_project ones 60 counters settings texts letters sessions db
      (request "bearer session") idle someone viewing none refl bound
