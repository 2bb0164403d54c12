-- ===== src/Security/Permissions.antt =====
-- The permission matrix: apps/api/src/proofstep_api/security/permissions.py.
use proofstep.Prelude.{
  ◌+◌, String, Bool, true, false, Option, none, some, List, [], ◌∷◌, ◌++◌, if◌then◌else◌, any,
  str_eq,
}
pub mod Matrix

pub data Permission : Type 0 where
  project_read project_manage keys_manage members_manage dataset_write dataset_lock : Permission
  evaluator_write policy_write gate_write experiment_run results_write : Permission
  annotation_write trace_ingest audit_read : Permission

abbrev pub same_permission : Permission → Permission → Bool
same_permission Permission.project_read Permission.project_read = true
same_permission Permission.project_manage Permission.project_manage = true
same_permission Permission.keys_manage Permission.keys_manage = true
same_permission Permission.members_manage Permission.members_manage = true
same_permission Permission.dataset_write Permission.dataset_write = true
same_permission Permission.dataset_lock Permission.dataset_lock = true
same_permission Permission.evaluator_write Permission.evaluator_write = true
same_permission Permission.policy_write Permission.policy_write = true
same_permission Permission.gate_write Permission.gate_write = true
same_permission Permission.experiment_run Permission.experiment_run = true
same_permission Permission.results_write Permission.results_write = true
same_permission Permission.annotation_write Permission.annotation_write = true
same_permission Permission.trace_ingest Permission.trace_ingest = true
same_permission Permission.audit_read Permission.audit_read = true
same_permission _ _ = false

-- A frozenset of permissions, by its members in any order.
abbrev pub has : Permission → List Permission → Bool
has p ps = any (same_permission p) ps

-- `_VIEWER`, `_REVIEWER`, `_DEVELOPER`, `_ADMIN` and `_OWNER`
abbrev pub viewer : List Permission
viewer = Permission.project_read ∷ []

abbrev pub reviewer : List Permission
reviewer = viewer ++ Permission.annotation_write ∷ []

abbrev pub developer : List Permission
developer =
    reviewer
    ++ (Permission.dataset_write ∷ Permission.dataset_lock ∷ Permission.evaluator_write
        ∷ Permission.policy_write ∷ Permission.gate_write ∷ Permission.experiment_run
        ∷ Permission.results_write ∷ Permission.trace_ingest ∷ [])

abbrev pub admin : List Permission
admin =
    developer
    ++ (Permission.project_manage ∷ Permission.keys_manage ∷ Permission.members_manage
        ∷ Permission.audit_read ∷ [])

abbrev pub owner : List Permission
owner = admin

-- The keys of `ROLE_PERMISSIONS`
pub data Role : Type 0 where
  owner_role admin_role developer_role reviewer_role viewer_role : Role

unfoldable pub role_of : String → Option Role
role_of name =
    if str_eq name "owner"
    then some Role.owner_role
    else if str_eq name "admin"
    then some Role.admin_role
    else if str_eq name "developer"
    then some Role.developer_role
    else if str_eq name "reviewer"
    then some Role.reviewer_role
    else if str_eq name "viewer"
    then some Role.viewer_role
    else none

abbrev pub role_permissions : Option Role → List Permission
role_permissions none = []
role_permissions (some Role.owner_role) = owner
role_permissions (some Role.admin_role) = admin
role_permissions (some Role.developer_role) = developer
role_permissions (some Role.reviewer_role) = reviewer
role_permissions (some Role.viewer_role) = viewer

unfoldable pub permissions_for_role : String → List Permission
permissions_for_role role = role_permissions (role_of role)

-- The keys of `SCOPE_PERMISSIONS`
pub data Scope : Type 0 where
  ingest_scope read_scope write_scope annotate_scope : Scope

unfoldable pub scope_of : String → Option Scope
scope_of name =
    if str_eq name "ingest"
    then some Scope.ingest_scope
    else if str_eq name "read"
    then some Scope.read_scope
    else if str_eq name "write"
    then some Scope.write_scope
    else if str_eq name "annotate"
    then some Scope.annotate_scope
    else none

abbrev pub scope_permissions : Option Scope → List Permission
scope_permissions none = []
scope_permissions (some Scope.ingest_scope) = Permission.trace_ingest ∷ []
scope_permissions (some Scope.read_scope) = Permission.project_read ∷ []
scope_permissions (some Scope.write_scope) =
    Permission.dataset_write ∷ Permission.dataset_lock ∷ Permission.evaluator_write
    ∷ Permission.policy_write ∷ Permission.gate_write ∷ Permission.experiment_run
    ∷ Permission.results_write ∷ Permission.project_read ∷ []
scope_permissions (some Scope.annotate_scope) =
    Permission.annotation_write ∷ Permission.project_read ∷ []

unfoldable pub permissions_for_scopes : List String → List Permission
permissions_for_scopes [] = []
permissions_for_scopes (scope ∷ scopes) =
    scope_permissions (scope_of scope) ++ permissions_for_scopes scopes

pub data PrincipalKind : Type 0 where
  user api_key : PrincipalKind

-- An id is the text of a UUID.
pub record Principal : Type 0 where
  pub kind : PrincipalKind
  pub id : String
  pub permissions : List Permission
  pub org_id : Option String
  pub project_id : Option String
  pub environment_id : Option String
  pub role : Option String
  pub scopes : List String

-- `principal.can(permission)`
abbrev pub can : Principal → Permission → Bool
can principal permission = has permission principal.permissions
