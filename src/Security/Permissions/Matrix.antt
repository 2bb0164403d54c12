-- ===== src/Security/Permissions/Matrix.antt =====
-- What the roles and the scopes grant.
use proofstep.Prelude.{
  String, ◌≡◌, refl, sym, ap, ◌∙◌, inl, inr, Bool, true, false, ◌||◌, Option, none, some, List, [],
  ◌∷◌, arith, Bool-cases, any, str_eq_iff, mem_text,
}
use proofstep.Prelude.{any-append, any_congr}
use proofstep.Security.Permissions.{
  Permission, same_permission, has, developer, Scope, scope_of, role_of, permissions_for_role,
  scope_permissions, permissions_for_scopes,
}

-- Managing the project, its keys and its members, and reading the audit log.
abbrev pub is_administration : Permission → Bool
is_administration Permission.project_manage = true
is_administration Permission.keys_manage = true
is_administration Permission.members_manage = true
is_administration Permission.audit_read = true
is_administration _ = false

-- A permission is granted by the scopes if one of them grants it.
has-permissions_for_scopes :
    (p : Permission) (scopes : List String)
    → has p (permissions_for_scopes scopes)
      ≡ any (λ scope. has p (scope_permissions (scope_of scope))) scopes
unfolding permissions_for_scopes
has-permissions_for_scopes p [] = refl
has-permissions_for_scopes p (scope ∷ scopes) =
    any-append (same_permission p) (scope_permissions (scope_of scope))
      (permissions_for_scopes scopes)
    ∙ ap (λ b. has p (scope_permissions (scope_of scope)) || b)
        (has-permissions_for_scopes p scopes)

-- Whether one of the scopes has one of the names.
abbrev pub holds_one : List String → List String → Bool
holds_one names scopes = any (λ scope. mem_text scope names) scopes

holds_any :
    (p : Permission) (names scopes : List String)
    → ((s : String) → has p (scope_permissions (scope_of s)) ≡ mem_text s names)
    → has p (permissions_for_scopes scopes) ≡ holds_one names scopes
holds_any p names scopes h =
    has-permissions_for_scopes p scopes
    ∙ any_congr (λ s. has p (scope_permissions (scope_of s))) (λ s. mem_text s names) h scopes

module _ (scope : String) where
  reads :
      has Permission.project_read (scope_permissions (scope_of scope))
      ≡ mem_text scope ("read" ∷ "write" ∷ "annotate" ∷ [])
  unfolding scope_of
  reads = ground (
    arith,
    str_eq_iff scope "ingest",
    str_eq_iff scope "read",
    str_eq_iff scope "write",
    str_eq_iff scope "annotate",
    str_eq_iff "read" scope,
    str_eq_iff "write" scope,
    str_eq_iff "annotate" scope,
    str_eq_iff "ingest" "read",
    str_eq_iff "ingest" "write",
    str_eq_iff "ingest" "annotate",
  )

  annotates :
      has Permission.annotation_write (scope_permissions (scope_of scope))
      ≡ mem_text scope ("annotate" ∷ [])
  unfolding scope_of
  annotates = ground (
    arith,
    str_eq_iff scope "ingest",
    str_eq_iff scope "read",
    str_eq_iff scope "write",
    str_eq_iff scope "annotate",
    str_eq_iff "annotate" scope,
    str_eq_iff "ingest" "annotate",
    str_eq_iff "read" "annotate",
    str_eq_iff "write" "annotate",
  )

  ingests :
      has Permission.trace_ingest (scope_permissions (scope_of scope))
      ≡ mem_text scope ("ingest" ∷ [])
  unfolding scope_of
  ingests = ground (arith, str_eq_iff scope "ingest", str_eq_iff "ingest" scope)

-- Every scope grants what a developer has, and administers nothing.
IsDevelopment : Permission → Type 0
IsDevelopment p = (is_administration p ≡ false) × (has p developer ≡ true)

scope_develops :
    (scope : Option Scope) (p : Permission)
    → has p (scope_permissions scope) ≡ true
    → IsDevelopment p
unfolding IsDevelopment
scope_develops none p h = ground arith
scope_develops (some Scope.ingest_scope) p h = ground arith
scope_develops (some Scope.read_scope) p h = ground arith
scope_develops (some Scope.write_scope) p h = ground arith
scope_develops (some Scope.annotate_scope) p h = ground arith

scopes_develop :
    (p : Permission) (scopes : List String)
    → any (λ scope. has p (scope_permissions (scope_of scope))) scopes ≡ true
    → IsDevelopment p
scopes_develop p [] h = ground arith
scopes_develop p (s ∷ scopes) h = elim (Bool-cases (has p (scope_permissions (scope_of s)))) [
  | inl granted ↦ scope_develops (scope_of s) p granted
  | inr other ↦ scopes_develop p scopes (rw other at h)
]

developer_lem : permissions_for_role "developer" ≡ developer
unfolding permissions_for_role role_of
developer_lem = refl

-- An API key reads exactly with the scope read, write or annotate, writes annotations exactly with
-- annotate, and ingests exactly with ingest, whatever else its scopes are. No scopes administer, and
-- none grant what a developer has not.
pub has-permissions_for_scopes_iff :
    (scopes : List String)
    → (has Permission.project_read (permissions_for_scopes scopes)
        ≡ holds_one ("read" ∷ "write" ∷ "annotate" ∷ []) scopes)
      × (has Permission.annotation_write (permissions_for_scopes scopes)
          ≡ holds_one ("annotate" ∷ []) scopes)
      × (has Permission.trace_ingest (permissions_for_scopes scopes)
          ≡ holds_one ("ingest" ∷ []) scopes)
      × ((p : Permission)
          → has p (permissions_for_scopes scopes) ≡ true
          → (is_administration p ≡ false) × (has p (permissions_for_role "developer") ≡ true))
unfolding IsDevelopment
has-permissions_for_scopes_iff scopes = (
  holds_any Permission.project_read ("read" ∷ "write" ∷ "annotate" ∷ []) scopes reads,
  holds_any Permission.annotation_write ("annotate" ∷ []) scopes annotates,
  holds_any Permission.trace_ingest ("ingest" ∷ []) scopes ingests,
  λ p h. rw developer_lem (scopes_develop p scopes (sym (has-permissions_for_scopes p scopes) ∙ h)),
)
