-- ===== src/Security/Access/Tenants.antt =====
-- In which project a caller acts.
use proofstep.Prelude.{
  String, ◌≡◌, refl, sym, ◌⊎◌, inl, inr, Bool, true, Option, none, some, List, [], ◌∷◌, arith,
  Bool-cases, Option-cases, find?, str_eq, str_eq_iff,
}
use proofstep.Security.Permissions.{permissions_for_role, PrincipalKind, Principal}
use proofstep.Security.Access.{
  Result, Project, Membership, Tables, get_project, live_project, is_membership, resolve_member,
  resolve_project, bind_project, own_projects, earliest,
}

-- A caller is entitled to a project: a key to its own, with the permissions that it came with, and a
-- user to one that is not deleted and whose organization has the user as a member, with the
-- permissions of the member's role.
pub data Entitled (db : Tables) (caller : Principal) (project_id : String) (bound : Principal)
    : Type 0 where
  by_key :
      caller.kind ≡ PrincipalKind.api_key
      → caller.project_id ≡ some project_id
      → bound ≡ caller
      → Entitled db caller project_id bound
  by_membership :
      (project : Project) (membership : Membership)
      → caller.kind ≡ PrincipalKind.user
      → get_project db project_id ≡ some project
      → project.deleted_at ≡ none
      → find? (is_membership project.org_id caller.id) db.memberships ≡ some membership
      → bound.project_id ≡ some project_id
      → bound.permissions ≡ permissions_for_role membership.role
      → Entitled db caller project_id bound

find?-holds {ℓ} :
    {A : Type ℓ} (p : A → Bool) (xs : List A) (x : A) → find? p xs ≡ some x → p x ≡ true
find?-holds p [] x h = cc
find?-holds p (y ∷ ys) x h = elim (Bool-cases (p y)) [
  | inl e ↦ let same : y ≡ x = ground (arith, e) in rw (← same) e
  | inr e ↦ find?-holds p ys x (rw e at h)
]

kind_cases : (k : PrincipalKind) → (k ≡ PrincipalKind.api_key) ⊎ (k ≡ PrincipalKind.user)
kind_cases PrincipalKind.api_key = inl refl
kind_cases PrincipalKind.user = inr refl

live_inv :
    (found : Option Project) (project : Project)
    → live_project found ≡ some project
    → (found ≡ some project) × (project.deleted_at ≡ none)
live_inv none project h = ground arith
live_inv (some p) project h = ground arith

resolve_member-Entitled :
    (db : Tables) (project_id : String) (caller bound : Principal)
    → caller.kind ≡ PrincipalKind.user
    → resolve_member db caller project_id ≡ Result.ok bound
    → Entitled db caller project_id bound
resolve_member-Entitled db project_id caller bound kind h =
    elim (Option-cases (live_project (get_project db project_id))) [
      | inl e ↦ absurd (ground (arith, e))
      | inr (project, e) ↦
          elim (Option-cases (find? (is_membership project.org_id caller.id) db.memberships)) [
            | inl f ↦ absurd (ground (arith, e, f))
            | inr (membership, f) ↦
                let (found, live) = live_inv (get_project db project_id) project e in
                let is_it = find?-holds (λ p. str_eq p.id project_id) db.projects project found in
                Entitled.by_membership project membership kind found live f
                  (ground (arith, e, f, is_it, str_eq_iff project.id project_id))
                  (ground (arith, e, f))
          ]
    ]

resolve_project-Entitled :
    (db : Tables) (project_id : String) (caller bound : Principal)
    → resolve_project db project_id caller ≡ Result.ok bound
    → Entitled db caller project_id bound
unfolding resolve_project
resolve_project-Entitled db project_id caller bound h = elim (kind_cases caller.kind) [
  | inl kind ↦ elim (Option-cases caller.project_id) [
    | inl e ↦ absurd (ground (arith, kind, e))
    | inr (own, e) ↦
        Entitled.by_key kind (ground (arith, kind, e, str_eq_iff own project_id))
          (ground (arith, kind, e))
  ]
  | inr kind ↦ resolve_member-Entitled db project_id caller bound kind (ground (arith, kind))
]

-- The project that a request names, if it names one.
abbrev pub IsAsked : Option String → String → Type 0
IsAsked none project_id = Unit {0}
IsAsked (some asked) project_id = asked ≡ project_id

-- No caller acts in a project without a title to it. Where a request is bound at all, the caller is a
-- key that keeps what it came with, and that named no other project than its own; or a user who is
-- bound to a live project, the one that the request named if it named one, of an organization that
-- has the user as a member, with the permissions of the member's role.
pub bind_project-Entitled :
    (db : Tables) (asked : Option String) (caller bound : Principal)
    → bind_project db asked caller ≡ Result.ok bound
    → ((caller.kind ≡ PrincipalKind.api_key)
        × (bound ≡ caller)
        × ((asked ≡ none) ⊎ (asked ≡ caller.project_id)))
      ⊎ ((project_id : String) × (caller.kind ≡ PrincipalKind.user)
          × IsAsked asked project_id
          × Entitled db caller project_id bound)
unfolding bind_project
bind_project-Entitled db none caller bound h = elim (kind_cases caller.kind) [
  | inl kind ↦ inl (kind, ground (arith, kind), inl refl)
  | inr kind ↦ elim (Option-cases (earliest (own_projects caller.id db.projects db.memberships))) [
    | inl e ↦ absurd (ground (arith, kind, e))
    | inr (chosen, e) ↦ inr (
      chosen.id,
      kind,
      tt,
      resolve_project-Entitled db chosen.id caller bound (ground (arith, kind, e)),
    )
  ]
]
bind_project-Entitled db (some asked) caller bound h =
    elim (resolve_project-Entitled db asked caller bound h) [
      | Entitled.by_key kind own same ↦ inl (kind, same, inr (sym own))
      | Entitled.by_membership p m kind found live f own granted ↦
          inr (asked, kind, refl, Entitled.by_membership p m kind found live f own granted)
    ]
