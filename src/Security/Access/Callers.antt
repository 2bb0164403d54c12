-- ===== src/Security/Access/Callers.antt =====
-- Which keys are accepted.
use proofstep.Prelude.{
  ℕ, [], ◌∷◌, List, refl, ◌<◌, none, Option, String, ◌≡◌, sym, ap, ◌∙◌, ◌↔◌, inl, inr, true, false,
  some, arith, ◌==◌, Option-cases, find?, str_eq,
}
use proofstep.Prelude.{same_numbers_refl, same_numbers-eq}
use Prim.Native.Char.{Char, code}
use proofstep.Prelude.Split.{has_char}
use proofstep.Security.Permissions.{Principal, PrincipalKind, permissions_for_scopes}
use proofstep.Security.Tokens.{Environment, underscore, generate, parse_prefix, verify}
use proofstep.Security.Tokens.Issued.{parse_prefix-generate}
use proofstep.Security.Access.{
  Result, ApiKey, Project, Tables, is_usable, get_project, live_project, has_prefix, key_principal,
  principal_from_api_key,
}

-- A stored key answers for a token.
pub record Answers (env : Environment) (db : Tables) (now : ℕ) (token : String) (key : ApiKey)
    (project : Project) : Type 0 where
  pub looked_up : find? (has_prefix (parse_prefix token)) db.api_keys ≡ some key
  pub matches : env.digest token ≡ key.key_hash
  pub usable : is_usable key now ≡ true
  pub live : live_project (get_project db key.project_id) ≡ some project

-- The key has no time of expiry, or one that is to come.
abbrev pub LastsAt : ℕ → Option ℕ → Type 0
LastsAt now none = Unit {0}
LastsAt now (some at) = now < at

-- The same in terms of the columns.
pub record Stands (env : Environment) (db : Tables) (now : ℕ) (token : String) (key : ApiKey)
    (project : Project) : Type 0 where
  pub handle : String
  pub parsed : parse_prefix token ≡ some handle
  pub looked_up : find? (λ k. str_eq k.prefix handle) db.api_keys ≡ some key
  pub matches : env.digest token ≡ key.key_hash
  pub not_revoked : key.revoked_at ≡ none
  pub not_expired : LastsAt now key.expires_at
  pub stored : find? (λ p. str_eq p.id key.project_id) db.projects ≡ some project
  pub not_deleted : project.deleted_at ≡ none

-- The caller that a key stands for.
abbrev pub acting : ApiKey → Project → Principal
acting key project = record {
  kind = PrincipalKind.api_key;
  id = key.id;
  permissions = permissions_for_scopes key.scopes;
  org_id = some project.org_id;
  project_id = some key.project_id;
  environment_id = key.environment_id;
  role = none;
  scopes = key.scopes;
}

live_project_inv :
    (found : Option Project) (project : Project)
    → live_project found ≡ some project
    → (found ≡ some project) × (project.deleted_at ≡ none)
live_project_inv none project h = cc
live_project_inv (some p) project h = elim (Option-cases p.deleted_at) [
  | inl e ↦ let same : p ≡ project = ground (arith, e, h) in (ap some same, rw (← same) e)
  | inr (at, e) ↦ absurd (ground (arith, e, h))
]

is_usable_inv :
    (key : ApiKey) (now : ℕ)
    → is_usable key now ≡ true
    → (key.revoked_at ≡ none) × LastsAt now key.expires_at
is_usable_inv key now h = elim (Option-cases key.revoked_at) [
  | inr (at, e) ↦ absurd (ground (arith, e, h))
  | inl e ↦ elim (Option-cases key.expires_at) [
    | inl f ↦ (e, rw f tt)
    | inr (at, f) ↦ (e, rw f (ground (arith, e, f, h)))
  ]
]

usable_key :
    (key : ApiKey) (now : ℕ)
    → key.revoked_at ≡ none
    → LastsAt now key.expires_at
    → is_usable key now ≡ true
usable_key key now e lasts = elim (Option-cases key.expires_at) [
  | inl f ↦ ground (arith, e, f)
  | inr (at, f) ↦ let later : now < at = rw f at lasts in ground (arith, e, f, later)
]

no_handle : (keys : List ApiKey) → find? (has_prefix none) keys ≡ none
no_handle [] = refl
no_handle (k ∷ keys) = no_handle keys

has_prefix_inv :
    (parsed : Option String) (keys : List ApiKey) (key : ApiKey)
    → find? (has_prefix parsed) keys ≡ some key
    → (handle : String) × (parsed ≡ some handle)
      × (find? (λ k. str_eq k.prefix handle) keys ≡ some key)
has_prefix_inv none keys key h = absurd (let missed = no_handle keys in cc)
has_prefix_inv (some handle) keys key h = (handle, refl, h)

module _ (env : Environment) (db : Tables) (now : ℕ) (token : String) where
  accepted :
      (key : ApiKey) (project : Project)
      → Answers env db now token key project
      → principal_from_api_key env db now token ≡ Result.ok (key_principal key project)
  unfolding principal_from_api_key verify
  accepted key project a =
      ground (arith, a.looked_up, a.usable, a.live, a.matches, same_numbers_refl key.key_hash)

  answered :
      (bound : Principal)
      → principal_from_api_key env db now token ≡ Result.ok bound
      → (key : ApiKey) × (project : Project) × Answers env db now token key project
        × (bound ≡ key_principal key project)
  unfolding principal_from_api_key verify
  answered bound h = elim (Option-cases (find? (has_prefix (parse_prefix token)) db.api_keys)) [
    | inl e ↦ absurd (ground (arith, e))
    | inr (key, e) ↦ elim (Option-cases (live_project (get_project db key.project_id))) [
      | inl f ↦ absurd (ground (arith, e, f))
      | inr (project, f) ↦ (
        key,
        project,
        record {
          looked_up = e;
          matches = ground (arith, e, f, same_numbers-eq (env.digest token) key.key_hash);
          usable = ground (arith, e, f);
          live = f;
        },
        ground (arith, e, f),
      )
    ]
  ]

  standing :
      (key : ApiKey) (project : Project)
      → Answers env db now token key project
      → Stands env db now token key project
  standing key project a =
      let (found, alive) = live_project_inv (get_project db key.project_id) project a.live in
      let (kept, valid) = is_usable_inv key now a.usable in
      let (handle, parsed, found_key) =
        has_prefix_inv (parse_prefix token) db.api_keys key a.looked_up in
      record {
        handle = handle;
        parsed = parsed;
        looked_up = found_key;
        matches = a.matches;
        not_revoked = kept;
        not_expired = valid;
        stored = found;
        not_deleted = alive;
      }

  answering :
      (key : ApiKey) (project : Project)
      → Stands env db now token key project
      → Answers env db now token key project
  answering key project a = record {
    looked_up = rw a.parsed a.looked_up;
    matches = a.matches;
    usable = usable_key key now a.not_revoked a.not_expired;
    live = ground (arith, a.stored, a.not_deleted);
  }

  -- A key is accepted exactly when the first stored key with the handle of the token has the digest of
  -- the whole token, is not revoked, does not expire or expires later, and belongs to a project that is
  -- not deleted; the caller is then that key, with the permissions of the stored scopes in that
  -- project.
  pub principal_from_api_key_iff :
      (bound : Principal)
      → (principal_from_api_key env db now token ≡ Result.ok bound) ↔ (
          (key : ApiKey) × (project : Project) × Stands env db now token key project
          × (bound ≡ acting key project))
  principal_from_api_key_iff bound = (
    λ h. let (key, project, a, e) = answered bound h in (key, project, standing key project a, e),
    λ (key, project, a, e). accepted key project (answering key project a) ∙ ap Result.ok (sym e),
  )

module _ (env : Environment)
    (apart : (d : Char) → env.isalnum d ≡ true → (code d == code underscore) ≡ false) where
  -- An issued key works. Where no letter or digit is an underscore, the token that was generated, of
  -- a public part without underscores and a secret, is accepted as long as the row with its handle
  -- holds its digest and is neither revoked nor expired, and the project is live.
  pub generated-accepted :
      (name public secret : String) (db : Tables) (now : ℕ) (key : ApiKey) (project : Project)
      → has_char underscore public ≡ false
      → str_eq public "" ≡ false
      → str_eq secret "" ≡ false
      → find? (has_prefix (some (generate env name public secret).prefix)) db.api_keys ≡ some key
      → key.key_hash ≡ (generate env name public secret).key_hash
      → is_usable key now ≡ true
      → live_project (get_project db key.project_id) ≡ some project
      → principal_from_api_key env db now (generate env name public secret).token
        ≡ Result.ok (key_principal key project)
  unfolding generate
  generated-accepted name public secret db now key project free some_public some_secret found same
        usable live =
      let parsed =
        parse_prefix-generate env apart name public secret free some_public some_secret in
      accepted env db now (generate env name public secret).token key project
        (record { looked_up = rw parsed found; matches = sym same; usable = usable; live = live })
